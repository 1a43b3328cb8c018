-- ===== src/Reciever/Rounds.antt =====
-- What one round of wimp_reciever_recieve does with a ping, an instruction and the first packet.
use wimp.Prelude.{
  ℕ, ◌%◌, ◌^◌, ◌≤◌, ◌<◌, ◌≡◌, refl, ap, ◌∙◌, arith, none, List, [], ◌∷◌, ◌++◌, true, false, ◌&&◌,
  ◌==◌, ltb, length, replicate, All, append_assoc, append-nil, sym, Bool, if◌then◌else◌,
  length-append,
}
use wimp.Prelude.Bytes.{Bytes, le32, text_eq}
use wimp.Wire.Bundle.{message}
use wimp.Reciever.{
  Allocator, Packet, received, failed, Link, got, exit_text, ping, idle, reading_headers,
  RecieverState, header_step, reading_headers_step, recieve_step, message_buffer_bytes,
}
use wimp.Reciever.Packets.{Unread, IsPacket, contents, next_packet-Loaded, read_header-Unread}
use wimp.Reciever.Stream.{Allocates, IsMessage, body, queued, whole_parts, header_step-message}

-- What a peer sends.
pub data Sent : Type 0 where
  ping_sent : Sent
  instr_sent : (process dest instr args : Bytes) → Sent

abbrev pub wire : List Sent → Bytes
wire [] = []
wire (ping_sent ∷ sent) = le32 ping ++ wire sent
wire (instr_sent process dest instr args ∷ sent) = message process dest instr args ++ wire sent

-- The instructions, in order.
abbrev pub instructions : List Sent → List Bytes
instructions [] = []
instructions (ping_sent ∷ sent) = instructions sent
instructions (instr_sent process dest instr args ∷ sent) =
    message process dest instr args ∷ instructions sent

-- The queue behind these instructions: each is queued if there is a node for it.
abbrev pub enqueue : (List Bytes → Bool) → List Bytes → List Bytes → List Bytes
enqueue node queue [] = queue
enqueue node queue (instr ∷ instrs) =
    enqueue node (if node queue then queue ++ instr ∷ [] else queue) instrs

-- With nodes for all of them, all are.
pub enqueue_all :
    (node : List Bytes → Bool) (queue instrs : List Bytes)
    → ((q : List Bytes) → node q ≡ true)
    → enqueue node queue instrs ≡ queue ++ instrs
enqueue_all node queue [] always = sym (append-nil queue)
enqueue_all node queue (instr ∷ instrs) always =
    rw (always queue) (
      enqueue_all node (queue ++ instr ∷ []) instrs always ∙ append_assoc queue (instr ∷ []) instrs)

-- An instruction is one that the reader understands, and does not stop the process `me`.
abbrev pub IsSendable : Bytes → Sent → Type 0
IsSendable me ping_sent = Unit
IsSendable me (instr_sent process dest instr args) =
    IsMessage process dest instr args
    × ((length (message process dest instr args) % 256 == 0) ≡ false)
    × ((text_eq instr exit_text && text_eq dest me) ≡ false)

-- The state that the loop begins with.
abbrev pub started : List Packet → List Bytes → RecieverState
started packets queue = record {
  link = record {
    incoming_size = 0;
    rec_offset = 0;
    recbuffer = replicate message_buffer_bytes 0;
    packets = packets;
  };
  mode = idle;
  instruction = none;
  instruction_bytes = 0;
  instruction_bytes_read = 0;
  queue = queue;
  calls = [];
}

packets-bound : (ps : List Packet) → All IsPacket ps → length ps ≤ length (contents ps)
packets-bound [] good = omega arith
packets-bound (failed ∷ ps) good = absurd good.0
packets-bound (received bytes ∷ ps) good =
    omega (arith, packets-bound ps good.1, length-append bytes (contents ps), good.0.0)

-- Each packet brings a byte.
Unread-bound : (l : Link) (bytes : Bytes) → Unread l bytes → length l.packets ≤ length bytes
Unread-bound l bytes u = omega (
  arith,
  packets-bound l.packets u.view.good,
  ap length u.stream,
  length-append u.here (contents l.packets),
)

module _ (malloc : Allocator) (me : Bytes) (allocates : Allocates malloc) (copies : ℕ) where
  pub reading_headers_step-message :
      (process dest instr args rest : Bytes) (st : RecieverState)
      → IsMessage process dest instr args
      → (length (message process dest instr args) % 256 == 0) ≡ false
      → Unread st.link (message process dest instr args ++ rest)
      → length (message process dest instr args ++ rest) < copies
      → (l' : Link) × (reading_headers_step malloc me copies st
          ≡ got (
            text_eq instr exit_text && text_eq dest me,
            queued malloc st l' (message process dest instr args),
          ))
        × Unread l' rest
  unfolding reading_headers_step
  reading_headers_step-message process dest instr args rest st good odd u room =
      let whole : Bytes = message process dest instr args in
      let shape : whole ++ rest ≡ le32 (length whole) ++ (body process dest instr args ++ rest) =
        ap (λ w. w ++ rest) (whole_parts process dest instr args good)
        ∙ append_assoc (le32 (length whole)) (body process dest instr args) rest in
      let (l, read, u1) =
        read_header-Unread st.link (length whole) (body process dest instr args ++ rest)
          (rw shape at u) (omega (arith, good.3)) in
      let (l', run, u2) =
        header_step-message process dest instr args good malloc me copies (record st { link = l })
          rest allocates u1 odd
          (omega (
            arith,
            Unread-bound l _ u1,
            ap length shape,
            length-append (le32 (length whole)) (body process dest instr args ++ rest),
          )) in
      (l', rw (read, reading_headers_step) run, u2)

  pub reading_headers_step-ping :
      (rest : Bytes) (st : RecieverState)
      → Unread st.link (le32 ping ++ rest)
      → (l' : Link) × (reading_headers_step malloc me copies st
          ≡ got (false, record st { link = l' }))
        × Unread l' rest
  unfolding reading_headers_step header_step
  reading_headers_step-ping rest st u =
      let (l, read, u1) = read_header-Unread st.link ping rest u (omega arith) in
      (l, rw (read, reading_headers_step, header_step) refl, u1)

  pub recieve_step-headers :
      (st : RecieverState)
      → st.mode ≡ reading_headers
      → recieve_step malloc me copies st ≡ reading_headers_step malloc me copies st
  unfolding recieve_step
  recieve_step-headers st e = simp (e, recieve_step)

  -- The first packet has bytes, so the first round reads on.
  pub recieve_step-starts :
      (packets : List Packet) (queue : List Bytes) (b : ℕ) (rest : Bytes)
      → All IsPacket packets
      → contents packets ≡ b ∷ rest
      → (st : RecieverState) × (recieve_step malloc me copies (started packets queue)
          ≡ recieve_step malloc me copies st)
        × Unread st.link (b ∷ rest)
        × (st.mode ≡ reading_headers)
        × (st.queue ≡ queue)
  unfolding recieve_step
  recieve_step-starts packets queue b rest good e =
      let (l, loads, loaded) = next_packet-Loaded (started packets queue).link b rest good e in
      let v = loaded.view in
      let full : ltb l.incoming_size (2 ^ 63) ≡ true = ground (
        arith,
        v.size,
        v.whole,
        ap length v.shape,
        length-append v.front ((b ∷ loaded.here) ++ v.back),
        length-append (b ∷ loaded.here) v.back,
      ) in
      let filled : ltb 0 l.incoming_size ≡ true = ground (arith, v.size) in
      (
        record (started packets queue) { link = l; mode = reading_headers },
        rw (loads, filled, full, recieve_step) refl,
        record { here = b ∷ loaded.here; view = v; stream = ap (λ r. b ∷ r) loaded.stream },
        refl,
        refl,
      )
