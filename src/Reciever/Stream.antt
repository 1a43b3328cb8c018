-- ===== src/Reciever/Stream.antt =====
-- A whole stream of pings and instructions, run through the loop of wimp_reciever_recieve.
use wimp.Prelude.{
  ℕ, ◌-◌, ◌%◌, ◌^◌, ◌<◌, ◌≡◌, ◌≢◌, refl, ap, sym, ◌∙◌, arith, none, some, [], ◌∷◌, ◌++◌, true,
  false, ◌&&◌, ◌==◌, ltb, if◌then◌else◌, length, drop, Bool-cases, inl, inr, lt→ltb, length-append,
  length-drop,
}
use wimp.Prelude.Bytes.{Bytes, c_string, le32, length-le32, memcpy-append, text_eq}
use wimp.Wire.{sign_extend, get_from_buffer}
use wimp.Wire.Bundle.{message, length-message, bundle_size-eq}
use wimp.Wire.Fields.{IsName, meta_of}
use wimp.Wire.RoundTrip.{get_from_buffer-message, meta_of-fields}
use wimp.Reciever.{
  Link, got, crash, Allocator, low_prio_lock, low_prio_unlock, copy_loop, exit_text, ping,
  reading_headers, reading_data, RecieverState, allocate_instr, is_exit, reading_data_step,
  header_step,
}
use wimp.Reciever.Packets.{Unread}
use wimp.Reciever.Copy.{copy_loop-Copied, Copied}

-- There is memory for the messages: a block of the size asked for.
abbrev pub Allocates : Allocator → Type 0
Allocates malloc = (n : ℕ) → (raw : Bytes) × (malloc.block n ≡ some raw) × (length raw ≡ n)

-- A message whose size fits an int32_t and is not that of a ping.
abbrev pub IsMessage : Bytes → Bytes → Bytes → Bytes → Type 0
IsMessage process dest instr args =
    IsName process
    × IsName dest
    × IsName instr
    × (length (message process dest instr args) < 2 ^ 31)
    × (length (message process dest instr args) ≢ ping)

-- The message behind its header.
abbrev pub body : Bytes → Bytes → Bytes → Bytes → Bytes
body process dest instr args =
    c_string dest ++ (c_string process ++ (c_string instr ++ (le32 (length args) ++ args)))

-- The state behind an instruction, which is in the queue if there was a node for it.
abbrev pub queued : Allocator → RecieverState → Link → Bytes → RecieverState
queued malloc st l instr = record {
  link = l;
  mode = reading_headers;
  instruction = none;
  instruction_bytes = 0;
  instruction_bytes_read = 0;
  queue = if malloc.node st.queue then st.queue ++ instr ∷ [] else st.queue;
  calls = low_prio_unlock ∷ (low_prio_lock ∷ st.calls);
}

module _ (process dest instr args : Bytes) (good : IsMessage process dest instr args) where
  abbrev whole : Bytes
  whole = message process dest instr args

  pub whole_parts : whole ≡ le32 (length whole) ++ body process dest instr args
  unfolding message
  whole_parts =
      ap (λ n. le32 n ++ body process dest instr args)
        (bundle_size-eq process dest instr args
            (omega (arith, length-message process dest instr args))
          ∙ sym (length-message process dest instr args))

  -- What the check for the exit signal finds: a message with a size that is a multiple of 256
  -- has no metadata, and `strcmp` reads through NULL.
  pub is_exit-message :
      (me : Bytes)
      → is_exit me whole (length whole) ≡ (
          if length whole % 256 == 0
          then crash
          else got (text_eq instr exit_text && text_eq dest me))
  unfolding is_exit
  is_exit-message me =
      let reads = get_from_buffer-message process dest instr args good.0 good.1 good.2 good.3 in
      let fields = meta_of-fields process dest instr args good.0 good.1 good.2 good.3 in
      elim (Bool-cases (length whole % 256 == 0)) [
        | inl e ↦ rw (reads, e, is_exit) refl
        | inr e ↦
            let found : get_from_buffer (some whole) (length whole)
                ≡ some (meta_of process dest instr args) =
              reads ∙ rw e refl in
            elim (Bool-cases (text_eq instr exit_text)) [
              | inl t ↦ rw (found, e, fields.2, t, fields.1, is_exit) refl
              | inr t ↦ rw (found, e, fields.2, t, is_exit) refl
            ]
      ]

  allocate_instr-header :
      (malloc : Allocator)
      → Allocates malloc
      → (left : Bytes) × (allocate_instr malloc (length whole) ≡ got (le32 (length whole) ++ left))
        × (length left ≡ length (body process dest instr args))
  unfolding allocate_instr sign_extend
  allocate_instr-header malloc allocates =
      let (raw, made, size) = allocates (length whole) in
      let small : ltb (length whole) (2 ^ 31) ≡ true = lt→ltb (length whole) (2 ^ 31) good.3 in
      let n = length-le32 (length whole) in
      let parts =
        ap length whole_parts
        ∙ length-append (le32 (length whole)) (body process dest instr args) in
      let copied = memcpy-append [] raw (le32 (length whole)) 0 refl (omega (arith, n, parts)) in
      (
        drop (length (le32 (length whole))) raw,
        rw (small, made, copied, allocate_instr) refl,
        omega (arith, n, parts, length-drop (length (le32 (length whole))) raw),
      )

  -- READING DATA, once the loop has run.
  reading_data_step-run :
      (malloc : Allocator) (me : Bytes) (copies : ℕ) (st : RecieverState) (raw : Bytes) (l' : Link)
      → copy_loop copies st.link raw st.instruction_bytes st.instruction_bytes_read
        ≡ got (whole, l')
      → st.instruction_bytes ≡ length whole
      → (length whole % 256 == 0) ≡ false
      → reading_data_step malloc me copies st raw
        ≡ got (text_eq instr exit_text && text_eq dest me, queued malloc st l' whole)
  unfolding reading_data_step
  reading_data_step-run malloc me copies st raw l' run total odd =
      let checked : is_exit me whole st.instruction_bytes
          ≡ got (text_eq instr exit_text && text_eq dest me) =
        ap (is_exit me whole) total ∙ is_exit-message me ∙ rw odd refl in
      rw (run, checked, reading_data_step) refl

  -- The copy starts behind the header.
  body-Copied :
      (copies : ℕ) (l : Link) (left rest : Bytes)
      → length left ≡ length (body process dest instr args)
      → Unread l (body process dest instr args ++ rest)
      → length l.packets < copies
      → Copied whole rest (copy_loop copies l (le32 (length whole) ++ left) (length whole) 4)
  body-Copied copies l left rest size u room =
      let copied =
        copy_loop-Copied copies l (le32 (length whole)) left (body process dest instr args) rest u
          size (omega (arith, ap length whole_parts, good.3)) room in
      rw (← whole_parts, length-le32 (length whole)) at copied

  pub header_step-message :
      (malloc : Allocator) (me : Bytes) (copies : ℕ) (st : RecieverState) (rest : Bytes)
      → Allocates malloc
      → Unread st.link (body process dest instr args ++ rest)
      → (length whole % 256 == 0) ≡ false
      → length st.link.packets < copies
      → (l' : Link) × (header_step malloc me copies (length whole) st
          ≡ got (text_eq instr exit_text && text_eq dest me, queued malloc st l' whole))
        × Unread l' rest
  unfolding header_step sign_extend
  header_step-message malloc me copies st rest allocates u odd room =
      let n = length-message process dest instr args in
      let valid : (length whole == 2 ^ 32 - 1) ≡ false = ground (arith, good.3) in
      let some_size : (length whole == 0) ≡ false = ground (arith, n) in
      let no_ping : (length whole == ping) ≡ false = ground (arith, good.4) in
      let small : ltb (length whole) (2 ^ 31) ≡ true = lt→ltb (length whole) (2 ^ 31) good.3 in
      let (left, made, size) = allocate_instr-header malloc allocates in
      let (l', run, u') = body-Copied copies st.link left rest size u room in
      (
        l',
        rw (valid, some_size, no_ping, made, small, header_step)
            (reading_data_step-run malloc me copies
              (record st {
                mode = reading_data;
                instruction = some (le32 (length whole) ++ left);
                instruction_bytes = length whole;
                instruction_bytes_read = 4;
              })
              (le32 (length whole) ++ left) l' run refl odd),
        u',
      )
