-- ===== src/Wire.antt =====
-- The wire format of an instruction: wimp/src/wimp_instruction.h (WimpInstrMeta, offsets),
-- wimp_server_bundle_instr of wimp/src/wimp_server.c, which writes a message, and
-- wimp_instr_get_from_buffer of wimp/src/wimp_instruction.c, which reads it.
-- A pointer into the message is its offset; `none` of `Option (...)` as a result is a read or a
-- write outside the buffer.
pub mod Bundle
pub mod Fields
pub mod RoundTrip
use wimp.Prelude.{
  ℕ, ◌+◌, ◌-◌, ◌%◌, ◌^◌, Option, none, some, ◌≡◌, ltb, ◌==◌, if◌then◌else◌, ◌>>=◌, List, [], ◌∷◌,
  length, drop, take, get_elem?,
}
use wimp.Prelude.Bytes.{Bytes, c_string, text_at, le32, word_at, memcpy}

-- `{ NULL, 0 }` where `malloc` failed.
pub record InstrBundle : Type 0 where
  pub instr : Option Bytes
  pub size : ℕ

-- `total_bytes` of a message with these fields: the header, three texts with their terminators,
-- the argument length and the arguments, as a `size_t`.
unfoldable pub bundle_size : Bytes → Bytes → Bytes → Bytes → ℕ
bundle_size process dest instr args =
    (4 + (length process + 1) + (length dest + 1) + (length instr + 1) + 4 + length args) % 2 ^ 64

-- The copies into the new buffer, each behind the last.
unfoldable pub bundle_fill : Bytes → ℕ → Bytes → Bytes → Bytes → Bytes → Option Bytes
bundle_fill raw total process dest instr args = do
  with_header ← memcpy raw 0 (le32 total)
  let dest_at = 4 + (length dest + 1)
  with_dest ← memcpy with_header 4 (c_string dest)
  let source_at = dest_at + (length process + 1)
  with_source ← memcpy with_dest dest_at (c_string process)
  let instr_at = source_at + (length instr + 1)
  with_instr ← memcpy with_source source_at (c_string instr)
  with_length ← memcpy with_instr instr_at (le32 (length args))
  if ltb 0 (length args) then memcpy with_length (instr_at + 4) args else some with_length

-- From the NULL check on; the block comes with the content that it happens to have.
unfoldable pub bundle_into : Option Bytes → ℕ → Bytes → Bytes → Bytes → Bytes → Option InstrBundle
bundle_into none total process dest instr args = some (record { instr = none; size = 0 })
bundle_into (some raw) total process dest instr args = do
  filled ← bundle_fill raw total process dest instr args
  some (record { instr = some filled; size = total })

unfoldable pub bundle_instr :
    (ℕ → Option Bytes) → Bytes → Bytes → Bytes → Bytes → Option InstrBundle
bundle_instr malloc process dest instr args =
    let total = bundle_size process dest instr args in
    bundle_into (malloc total) total process dest instr args

-- WimpInstrMeta. `none` is the NULL pointer; the two `int32_t` are bit patterns.
pub record InstrMeta : Type 0 where
  pub source_process : Option ℕ
  pub dest_process : Option ℕ
  pub instr : Option ℕ
  pub args : Option ℕ
  pub total_bytes : ℕ
  pub arg_bytes : ℕ
  pub instr_bytes : ℕ

-- What is returned for a missing buffer and for a ping.
abbrev pub no_meta : InstrMeta
no_meta = record {
  source_process = none;
  dest_process = none;
  instr = none;
  args = none;
  total_bytes = 0;
  arg_bytes = 0;
  instr_bytes = 0;
}

-- `while (current_char != '\0' && offset < buffsize)`: `rest` are the bytes from `offset` on,
-- `room` is `buffsize - offset`, and the result is the offset behind the terminator.
unfoldable pub skip_text : Bytes → ℕ → ℕ → Option ℕ
skip_text rest ℕ.zero offset = some offset
skip_text [] (ℕ.suc room) offset = none
skip_text (c ∷ rest) (ℕ.suc room) offset =
    let onwards = skip_text rest room (offset + 1) in if c == 0 then some (offset + 1) else onwards

abbrev pub skip_from : Bytes → ℕ → ℕ → Option ℕ
skip_from buffer buffsize offset = skip_text (drop offset buffer) (buffsize - offset) offset

-- An `int32_t` assigned to a `size_t`.
unfoldable pub sign_extend : ℕ → ℕ
sign_extend w = if ltb w (2 ^ 31) then w else w + (2 ^ 64 - 2 ^ 32)

unfoldable pub read_fields : Bytes → ℕ → Option InstrMeta
read_fields buffer buffsize = do
  source_at ← skip_from buffer buffsize (4 + 1)
  instr_at ← skip_from buffer buffsize (source_at + 1)
  length_at ← skip_from buffer buffsize (instr_at + 1)
  arg_word ← word_at (drop length_at buffer)
  total_word ← word_at buffer
  some (record {
    source_process = some source_at;
    dest_process = some 4;
    instr = some instr_at;
    args = if arg_word == 0 then none else some (length_at + 4);
    total_bytes = sign_extend total_word;
    arg_bytes = arg_word;
    instr_bytes = (length_at - instr_at) % 2 ^ 32;
  })

-- A first byte of zero is taken for a ping.
unfoldable pub get_from_buffer : Option Bytes → ℕ → Option InstrMeta
get_from_buffer none buffsize = some no_meta
get_from_buffer (some []) buffsize = none
get_from_buffer (some (first ∷ rest)) buffsize =
    if first == 0 then some no_meta else read_fields (first ∷ rest) buffsize

-- What the caller reads through a pointer of the metadata: the text that stands there.
abbrev pub text_of : Bytes → Option ℕ → Option Bytes
text_of buffer pointer = pointer >>= λ offset. text_at (drop offset buffer)

-- The argument bytes; none are there where `args` is NULL.
abbrev pub args_of : Bytes → InstrMeta → Bytes
args_of buffer m = elim m.args [ none ↦ [] | some offset ↦ take m.arg_bytes (drop offset buffer) ]
