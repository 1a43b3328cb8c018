-- ===== src/StrPack/RoundTrip.antt =====
-- Strings that are packed and read back.
use wimp.Prelude.{
  ℕ, zero, suc, ◌+◌, ◌-◌, ◌%◌, ◌^◌, ◌<◌, ◌≤◌, ◌≡◌, refl, ap, ◌∙◌, arith, some, List, [], ◌∷◌, ◌++◌,
  true, ltb, lt→ltb, leb, length, drop, replicate, get_elem?, get_or, set, All, append_assoc,
  length-append, length-replicate, length-set, drop-append, get_or-set_self, get_or-set_ne,
}
use wimp.Prelude.Bytes.{Bytes, IsText, c_string, memcpy, memcpy-append, text_at, text_at-append}
use wimp.StrPack.{StrPack, max_strings, total_sizes, fill_strings, pack_strings, get_string}

-- The strings as they stand in the block.
abbrev layout : List Bytes → Bytes
layout [] = []
layout (s ∷ strings) = (s ++ 0 ∷ 0 ∷ []) ++ layout strings

abbrev offsets_of : List ℕ → ℕ → ℕ → List Bytes → List ℕ
offsets_of offsets i at [] = offsets
offsets_of offsets i at (s ∷ strings) =
    offsets_of (set offsets i at) (i + 1) (at + (length s + 2)) strings

drop-replicate : (n k : ℕ) → drop n (replicate (n + k) 0) ≡ replicate {0} {A = ℕ} k 0
drop-replicate zero k = ap (λ (m : ℕ). replicate m 0) (omega arith)
drop-replicate (suc n) k =
    let more : suc n + k ≡ suc (n + k) = omega arith in rw more (drop-replicate n k)

-- One string copied into the zeros.
memcpy-zeros :
    (front s : Bytes) (room : ℕ)
    → memcpy (front ++ replicate (length s + 2 + room) 0) (length front) (c_string s)
      ≡ some ((front ++ (s ++ 0 ∷ 0 ∷ [])) ++ replicate room 0)
memcpy-zeros front s room =
    let size = length-append s (0 ∷ []) in
    let more : length s + 2 + room ≡ length (c_string s) + suc room = omega (arith, size) in
    memcpy-append front (replicate (length s + 2 + room) 0) (c_string s) (length front) refl
      (omega (arith, size, length-replicate {0} {A = ℕ} (length s + 2 + room) 0))
    ∙ ap some (
        ap (λ (r : Bytes). (front ++ c_string s) ++ r)
          (ap (λ (n : ℕ). drop (length (c_string s)) (replicate n 0)) more
            ∙ drop-replicate (length (c_string s)) (suc room))
        ∙ simp append_assoc)

fill_strings-layout :
    (strings : List Bytes) (i : ℕ) (front : Bytes) (offsets : List ℕ)
    → fill_strings strings i (length front) (front ++ replicate (total_sizes strings) 0) offsets
      ≡ some (front ++ layout strings, offsets_of offsets i (length front) strings)
unfolding fill_strings total_sizes
fill_strings-layout [] i front offsets = refl
fill_strings-layout (s ∷ strings) i front offsets =
    let front' : Bytes = front ++ (s ++ 0 ∷ 0 ∷ []) in
    let at : length front + (length s + 2) ≡ length front' =
      omega (arith, length-append front (s ++ 0 ∷ 0 ∷ []), length-append s (0 ∷ 0 ∷ [])) in
    rw (memcpy-zeros front s (total_sizes strings), at)
      (fill_strings-layout strings (i + 1) front' (set offsets i (length front))
        ∙ ap
            (λ (b : Bytes).
              some (b, offsets_of (set offsets i (length front)) (i + 1) (length front') strings))
            (append_assoc front (s ++ 0 ∷ 0 ∷ []) (layout strings)))

-- Later offsets leave the earlier ones alone.
offsets_of-before :
    (strings : List Bytes) (offsets : List ℕ) (i at k : ℕ)
    → k < i
    → get_or (offsets_of offsets i at strings) k 0 ≡ get_or offsets k 0
offsets_of-before [] offsets i at k h = refl
offsets_of-before (s ∷ strings) offsets i at k h =
    offsets_of-before strings (set offsets i at) (i + 1) (at + (length s + 2)) k (omega arith)
    ∙ get_or-set_ne offsets i k at 0 (λ e. absurd (omega arith))

text_at-layout :
    (strings : List Bytes) (i j : ℕ) (s front : Bytes) (offsets : List ℕ)
    → All IsText strings
    → get_elem? strings j ≡ some s
    → i + length strings ≤ length offsets
    → text_at (
        drop
          (get_or (offsets_of offsets i (length front) strings) (i + j) 0)
          (front ++ layout strings))
      ≡ some s
text_at-layout [] i j s front offsets texts e room = cc e
text_at-layout (t ∷ strings) i zero s front offsets texts e room =
    let same : t ≡ s = cc e in
    let end : i + 0 ≡ i = omega arith in
    let here : get_or
          (offsets_of (set offsets i (length front)) (i + 1) (length front + (length t + 2))
            strings)
          (i + 0) 0
        ≡ length front =
      rw end (
        offsets_of-before strings (set offsets i (length front)) (i + 1)
          (length front + (length t + 2)) i (omega arith)
        ∙ get_or-set_self offsets i (length front) 0 (omega arith)) in
    rw here (
      ap text_at (
        drop-append (length front) front (layout (t ∷ strings)) refl
        ∙ append_assoc t (0 ∷ 0 ∷ []) (layout strings))
      ∙ text_at-append t (0 ∷ layout strings) texts.0
      ∙ ap some same)
text_at-layout (t ∷ strings) i (suc j) s front offsets texts e room =
    let front' : Bytes = front ++ (t ++ 0 ∷ 0 ∷ []) in
    let at : length front + (length t + 2) ≡ length front' =
      omega (arith, length-append front (t ++ 0 ∷ 0 ∷ []), length-append t (0 ∷ 0 ∷ [])) in
    let index : i + suc j ≡ i + 1 + j = omega arith in
    rw (at, index, ← append_assoc front (t ++ 0 ∷ 0 ∷ []) (layout strings))
      (text_at-layout strings (i + 1) j s front' (set offsets i (length front)) texts.1 e
        (omega (arith, length-set offsets i (length front))))

get_elem?-bound :
    (strings : List Bytes) (j : ℕ) (s : Bytes) → get_elem? strings j ≡ some s → j < length strings
get_elem?-bound [] j s e = cc e
get_elem?-bound (t ∷ strings) zero s e = omega arith
get_elem?-bound (t ∷ strings) (suc j) s e = omega (arith, get_elem?-bound strings j s e)

-- wimp_instr_pack_strings of up to eight C strings, with memory: no copy leaves the block, and
-- wimp_instr_pack_get_string reads each string back by its index.
pub get_string-pack_strings :
    (strings : List Bytes)
    → All IsText strings
    → length strings ≤ 8
    → total_sizes strings + 80 < 2 ^ 64
    → (pack : StrPack) × (pack_strings true strings ≡ some (some pack))
      × (pack.pack_size ≡ 80 + total_sizes strings)
      × (pack.str_count ≡ length strings)
      × ((i : ℕ) (s : Bytes) → get_elem? strings i ≡ some s → get_string pack i ≡ some s)
unfolding pack_strings get_string
get_string-pack_strings strings texts few small =
    let size : (80 + total_sizes strings) % 2 ^ 64 ≡ 80 + total_sizes strings = omega arith in
    let room : 80 + total_sizes strings - 80 ≡ total_sizes strings = omega arith in
    let fits : leb (length strings) 8 ≡ true = ground arith in
    let filled = fill_strings-layout strings 0 [] (replicate max_strings 0) in
    (
      record {
        pack_size = 80 + total_sizes strings;
        str_count = length strings;
        strings = offsets_of (replicate max_strings 0) 0 0 strings;
        string_buffer = layout strings;
      },
      rw (size, room, fits, filled, pack_strings) refl,
      refl,
      refl,
      λ i s e.
          let index : ltb i 8 ≡ true = lt→ltb i 8 (omega (arith, get_elem?-bound strings i s e)) in
          let zero_i : 0 + i ≡ i = omega arith in
          rw index (
            rw zero_i at
              (text_at-layout strings 0 i s [] (replicate max_strings 0) texts e (omega arith))),
    )
