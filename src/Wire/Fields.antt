-- ===== src/Wire/Fields.antt =====
-- Where the fields of a message stand, and what the loops of wimp_instr_get_from_buffer
-- (wimp/src/wimp_instruction.c) do at each of them.
use wimp.Prelude.{
  ℕ, ◌+◌, ◌-◌, ◌<◌, none, some, ◌≡◌, refl, ap, ◌∙◌, arith, [], ◌∷◌, ◌++◌, append_assoc,
  if◌then◌else◌, length, drop, length-append, drop-append, zero, suc, ◌==◌,
}
use wimp.Prelude.Bytes.{Bytes, IsText, c_string, le32, length-le32, text_at, text_at-append}
use wimp.Wire.{InstrMeta, skip_text, skip_from, text_of, bundle_size}
use wimp.Wire.Bundle.{message}

-- The loop stops behind the first terminator, if that stands in the buffer.
pub skip_text-append :
    (s rest : Bytes) (room offset : ℕ)
    → IsText s
    → length s < room
    → skip_text (s ++ 0 ∷ rest) room offset ≡ some (offset + length s + 1)
unfolding skip_text
skip_text-append s rest zero offset t h = absurd (omega arith)
skip_text-append [] rest (suc room) offset t h = ap some (omega arith)
skip_text-append (c ∷ s) rest (suc room) offset t h =
    ground (arith, skip_text-append s rest room (offset + 1) t.1, t.0)

-- The first byte of a field is not looked at, so a field that holds a text must hold a byte.
abbrev pub IsName : Bytes → Type 0
IsName s = IsText s × (0 < length s)

-- The loop that starts one byte into a field ends behind that field.
pub skip_field :
    (front name rest buffer : Bytes) (offset : ℕ)
    → IsName name
    → buffer ≡ front ++ (c_string name ++ rest)
    → offset ≡ length front
    → skip_from buffer (length buffer) (offset + 1) ≡ some (offset + length name + 1)
skip_field front [] rest buffer offset t e at = absurd (omega arith)
skip_field front (c ∷ name) rest buffer offset (t, filled) e at =
    let shape : buffer ≡ (front ++ c ∷ []) ++ (name ++ 0 ∷ rest) = e ∙ simp append_assoc in
    rw
      (ap (drop (offset + 1)) shape
        ∙ drop-append (offset + 1) (front ++ c ∷ []) (name ++ 0 ∷ rest)
            (omega (arith, length-append front (c ∷ []))))
      (skip_text-append name rest (length buffer - (offset + 1)) (offset + 1) t.1 (
          omega (
            arith,
            ap length e,
            length-append front (c_string (c ∷ name) ++ rest),
            length-append (c_string (c ∷ name)) rest,
            length-append (c ∷ name) (0 ∷ []),
          ))
        ∙ ap some (omega arith))

-- A pointer to the start of a field reads the text of the field.
pub text_field :
    (front name rest buffer : Bytes) (offset : ℕ)
    → IsName name
    → buffer ≡ front ++ (c_string name ++ rest)
    → offset ≡ length front
    → text_of buffer (some offset) ≡ some name
text_field front name rest buffer offset t e at =
    ap (λ b. text_at (drop offset b)) e
    ∙ ap text_at
        (drop-append offset front (c_string name ++ rest) at ∙ append_assoc name (0 ∷ []) rest)
    ∙ text_at-append name rest t.0

module _ (process dest instr args : Bytes) where
  abbrev pub source_at : ℕ
  source_at = 4 + length dest + 1

  abbrev pub instr_at : ℕ
  instr_at = source_at + length process + 1

  abbrev pub length_at : ℕ
  length_at = instr_at + length instr + 1

  -- What is read back from the message.
  abbrev pub meta_of : InstrMeta
  meta_of = record {
    source_process = some source_at;
    dest_process = some 4;
    instr = some instr_at;
    args = if length args == 0 then none else some (length_at + 4);
    total_bytes = length (message process dest instr args);
    arg_bytes = length args;
    instr_bytes = length instr + 1;
  }

  -- The message as each reader of a field sees it: what stands before, the field, the rest.
  abbrev pub header : Bytes
  header = le32 (bundle_size process dest instr args)

  abbrev pub tail : Bytes
  tail = le32 (length args) ++ args

  pub split_dest :
      message process dest instr args
      ≡ header ++ (c_string dest ++ (c_string process ++ (c_string instr ++ tail)))
  unfolding message
  split_dest = refl

  pub split_source :
      message process dest instr args
      ≡ (header ++ c_string dest) ++ (c_string process ++ (c_string instr ++ tail))
  unfolding message
  split_source = simp append_assoc

  pub split_instr :
      message process dest instr args
      ≡ ((header ++ c_string dest) ++ c_string process) ++ (c_string instr ++ tail)
  unfolding message
  split_instr = simp append_assoc

  pub split_tail :
      message process dest instr args
      ≡ (((header ++ c_string dest) ++ c_string process) ++ c_string instr) ++ tail
  unfolding message
  split_tail = simp append_assoc

  pub source_at-eq : source_at ≡ length (header ++ c_string dest)
  source_at-eq = omega (
    arith,
    length-append header (c_string dest),
    length-append dest (0 ∷ []),
    length-le32 (bundle_size process dest instr args),
  )

  pub instr_at-eq : instr_at ≡ length ((header ++ c_string dest) ++ c_string process)
  instr_at-eq = omega (
    arith,
    source_at-eq,
    length-append (header ++ c_string dest) (c_string process),
    length-append process (0 ∷ []),
  )

  pub length_at-eq :
      length_at ≡ length (((header ++ c_string dest) ++ c_string process) ++ c_string instr)
  length_at-eq = omega (
    arith,
    instr_at-eq,
    length-append ((header ++ c_string dest) ++ c_string process) (c_string instr),
    length-append instr (0 ∷ []),
  )
