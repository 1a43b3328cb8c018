-- ===== src/Tests/Packing.antt =====
-- A pack of two strings, and an arena of a hundred bytes.
use wimp.Prelude.{ℕ, ◌≡◌, arith, some, List, [], ◌∷◌, true, get_elem?}
use wimp.Prelude.Bytes.{Bytes}
use wimp.StrPack.{StrPack, total_sizes, pack_strings, get_string}
use wimp.StrPack.RoundTrip.{get_string-pack_strings}
use wimp.Arena.{Arena, alloc_all}
use wimp.Arena.Offsets.{alloc_all-starts}

abbrev two_strings : List Bytes
two_strings = (0x61 ∷ 0x62 ∷ []) ∷ [] ∷ []

get_string-pack_strings_example :
    (pack : StrPack) × (pack_strings true two_strings ≡ some (some pack))
    × (pack.pack_size ≡ 86)
    × (pack.str_count ≡ 2)
    × ((i : ℕ) (s : Bytes) → get_elem? two_strings i ≡ some s → get_string pack i ≡ some s)
unfolding total_sizes
get_string-pack_strings_example =
    get_string-pack_strings two_strings ((λ e. cc, (λ e. cc, tt)), (tt, tt)) (omega arith)
      (omega arith)

abbrev hundred : Arena
hundred = record { size = 0; capacity = 100; pointer = 0; block = some 7 }

abbrev used : Arena
used = record { size = 70; capacity = 100; pointer = 70; block = some 7 }

alloc_all-starts_example : alloc_all hundred (40 ∷ 30 ∷ []) ≡ some (0 ∷ 40 ∷ [], used)
alloc_all-starts_example =
    alloc_all-starts (40 ∷ 30 ∷ []) hundred (omega arith) (omega arith) (omega arith)
