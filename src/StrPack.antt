-- ===== src/StrPack.antt =====
-- The string packs of wimp/src/wimp_instruction.c: several strings behind each other in one block,
-- found again by their offsets.
pub mod RoundTrip
use wimp.Prelude.{
  ℕ, zero, suc, ◌+◌, ◌-◌, get_or, ◌%◌, ◌^◌, Option, none, some, List, [], ◌∷◌, ◌++◌, Bool, true,
  false, ltb, leb, if◌then◌else◌, ◌>>=◌, length, drop, replicate, get_elem?, set,
}
use wimp.Prelude.Bytes.{Bytes, c_string, memcpy, text_at}

abbrev pub max_strings : ℕ
max_strings = 8

-- `sizeof(struct _WimpStrPack)`: two sizes and eight offsets of eight bytes.
abbrev pub pack_header_bytes : ℕ
pack_header_bytes = 80

-- struct _WimpStrPack, with the bytes that follow it in the block.
pub record StrPack : Type 0 where
  pub pack_size : ℕ
  pub str_count : ℕ
  pub strings : List ℕ
  pub string_buffer : Bytes

-- The sizes with two terminators each.
unfoldable pub total_sizes : List Bytes → ℕ
total_sizes [] = 0
total_sizes (s ∷ strings) = length s + 2 + total_sizes strings

-- The copies: the offsets filled in so far, and the place for the next string. `none` is a write
-- outside the block.
unfoldable pub fill_strings : List Bytes → ℕ → ℕ → Bytes → List ℕ → Option (Bytes × List ℕ)
fill_strings [] i offset buffer offsets = some (buffer, offsets)
fill_strings (s ∷ strings) i offset buffer offsets = do
  copied ← memcpy buffer offset (c_string s)
  fill_strings strings (i + 1) (offset + (length s + 2)) copied (set offsets i offset)

-- The block is zeroed before it is filled. `none` is a failed assertion or a bad write, and
-- `some none` the NULL that is returned without memory.
unfoldable pub pack_strings : Bool → List Bytes → Option (Option StrPack)
pack_strings memory strings =
    let total_bytes = (pack_header_bytes + total_sizes strings) % 2 ^ 64 in
    let packed : Option (Option StrPack) =
      if memory
      then (fill_strings strings 0 0 (replicate (total_bytes - pack_header_bytes) 0)
            (replicate max_strings 0)
          >>= λ filled. some (
              some (record {
                pack_size = total_bytes;
                str_count = length strings;
                strings = filled.1;
                string_buffer = filled.0;
              })))
      else some none in
    if leb (length strings) max_strings then packed else none

-- The text at the offset. `none` is a failed assertion, or no terminator behind the offset.
unfoldable pub get_string : StrPack → ℕ → Option Bytes
get_string pack index =
    if ltb index max_strings
    then text_at (drop (get_or pack.strings index 0) pack.string_buffer)
    else none
