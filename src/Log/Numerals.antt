-- ===== src/Log/Numerals.antt =====
-- How printf writes an int, and how wide that is (get_char_width_dec, get_char_width_oct and
-- get_char_width_hex of wimp/src/wimp_log.c).
use wimp.Prelude.{
  ℕ, zero, suc, ◌+◌, ◌-◌, ◌*◌, ◌/◌, ◌%◌, ◌^◌, ◌<◌, ◌≡◌, refl, ap, ◌∙◌, arith, List, [], ◌∷◌, ◌++◌,
  true, false, ◌==◌, ltb, leb, if◌then◌else◌, length, All, length-append, ==_iff, Bool-cases, inl,
  inr,
}
use wimp.Prelude.Bytes.{Bytes}
use wimp.Log.{is_negative, dec_figures, get_char_width_dec, get_char_width_oct, get_char_width_hex}

-- The character of a digit.
abbrev pub digit : ℕ → ℕ
digit d = if ltb d 10 then 48 + d else 87 + d

-- The digits of `n` in the base, the last so many at most.
unfoldable pub numeral : ℕ → ℕ → ℕ → Bytes
numeral base zero n = digit (n % base) ∷ []
numeral base (suc places) n =
    let higher = numeral base places (n / base) in
    if ltb n base then digit n ∷ [] else higher ++ digit (n % base) ∷ []

-- `%d`, `%o` and `%x` of printf: octal and hexadecimal show the bit pattern.
abbrev pub print_dec : ℕ → Bytes
print_dec w = if is_negative w then 45 ∷ numeral 10 9 (2 ^ 32 - w) else numeral 10 9 w

abbrev pub print_oct : ℕ → Bytes
print_oct w = numeral 8 10 w

abbrev pub print_hex : ℕ → Bytes
print_hex w = numeral 16 7 w

-- `%u`
abbrev pub print_unsigned : ℕ → Bytes
print_unsigned w = numeral 10 9 w

-- How many of the thresholds are reached.
abbrev reached : List ℕ → ℕ → ℕ
reached [] n = 0
reached (k ∷ ks) n = (if leb k n then 1 else 0) + reached ks n

abbrev times : ℕ → List ℕ → List ℕ
times b [] = []
times b (k ∷ ks) = b * k ∷ times b ks

abbrev powers : ℕ → ℕ → List ℕ
powers b zero = []
powers b (suc n) = b ∷ times b (powers b n)

module _ (b : ℕ) (positive : 0 < b) (scales : (k n : ℕ) → leb (b * k) n ≡ leb k (n / b))
    (small : (n : ℕ) → n < b → n / b ≡ 0) (grows : (k : ℕ) → 0 < k → 0 < b * k) where
  reached-times : (ks : List ℕ) (n : ℕ) → reached (times b ks) n ≡ reached ks (n / b)
  reached-times [] n = refl
  reached-times (k ∷ ks) n = rw (scales k n, reached-times ks n) refl

  reached-none : (ks : List ℕ) → All (λ k. 0 < k) ks → reached ks 0 ≡ 0
  reached-none [] all = refl
  reached-none (k ∷ ks) (there, all) = ground (arith, reached-none ks all)

  times-positive : (ks : List ℕ) → All (λ k. 0 < k) ks → All (λ k. 0 < k) (times b ks)
  times-positive [] all = tt
  times-positive (k ∷ ks) (there, all) = (grows k there, times-positive ks all)

  powers-positive : (n : ℕ) → All (λ k. 0 < k) (powers b n)
  powers-positive zero = tt
  powers-positive (suc n) = (positive, times-positive (powers b n) (powers-positive n))

  length-numeral : (places n : ℕ) → length (numeral b places n) ≡ 1 + reached (powers b places) n
  unfolding numeral
  length-numeral zero n = refl
  length-numeral (suc places) n = elim (Bool-cases (ltb n b)) [
    | inl less ↦
        let none_left : reached (times b (powers b places)) n ≡ 0 =
          reached-times (powers b places) n
          ∙ ap (reached (powers b places)) (small n (ground arith))
          ∙ reached-none (powers b places) (powers-positive places) in
        rw (less, none_left) (ground arith)
    | inr more ↦
        let rest = length-numeral places (n / b) in
        let reaches : leb b n ≡ true = ground arith in
        rw (more, reached-times (powers b places) n, reaches)
          (length-append (numeral b places (n / b)) (digit (n % b) ∷ [])
            ∙ ap (λ (k : ℕ). k + 1) rest
            ∙ omega arith)
  ]

length-dec : (n : ℕ) → length (numeral 10 9 n) ≡ 1 + reached (powers 10 9) n
length-dec n =
    length-numeral 10 (omega arith) (λ k m. ground arith) (λ m h. omega arith) (λ k h. omega arith)
      9 n

length-oct : (n : ℕ) → length (numeral 8 10 n) ≡ 1 + reached (powers 8 10) n
length-oct n =
    length-numeral 8 (omega arith) (λ k m. ground arith) (λ m h. omega arith) (λ k h. omega arith)
      10 n

length-hex : (n : ℕ) → length (numeral 16 7 n) ≡ 1 + reached (powers 16 7) n
length-hex n =
    length-numeral 16 (omega arith) (λ k m. ground arith) (λ m h. omega arith) (λ k h. omega arith)
      7 n

octal_width : (w : ℕ) → w < 2 ^ 32 → get_char_width_oct w ≡ length (print_oct w)
unfolding get_char_width_oct
octal_width w small = elim (Bool-cases (is_negative w)) [
  | inr plain ↦ rw (length-oct w, plain) (omega arith)
  | inl negative ↦ rw (length-oct w, negative) (ground arith)
]

hexadecimal_width : (w : ℕ) → w < 2 ^ 32 → get_char_width_hex w ≡ length (print_hex w)
unfolding get_char_width_hex
hexadecimal_width w small = elim (Bool-cases (is_negative w)) [
  | inr plain ↦ rw (length-hex w, plain) (omega arith)
  | inl negative ↦ rw (length-hex w, negative) (ground arith)
]

figures_plain :
    (sign m : ℕ) → is_negative m ≡ false → dec_figures sign m ≡ sign + length (numeral 10 9 m)
unfolding dec_figures
figures_plain sign m plain = rw (plain, length-dec m) (omega arith)

decimal_width :
    (w : ℕ) → w < 2 ^ 32 → get_char_width_dec w ≡ (if w == 2 ^ 31 then 2 else length (print_dec w))
unfolding get_char_width_dec
decimal_width w small = elim (Bool-cases (is_negative w)) [
  | inr plain ↦
      let other : (w == 2 ^ 31) ≡ false = ground arith in
      rw (other, plain) (figures_plain 0 w plain ∙ omega arith)
  | inl negative ↦ elim (Bool-cases (w == 2 ^ 31)) [
    | inl least ↦ rw ((==_iff w (2 ^ 31)).0 least) least_width
    | inr other ↦
        let kept : (2 ^ 32 - w) % 2 ^ 32 ≡ 2 ^ 32 - w = ground arith in
        let plain : is_negative (2 ^ 32 - w) ≡ false = ground arith in
        rw (other, negative, kept) (figures_plain 1 (2 ^ 32 - w) plain ∙ omega arith)
  ]
]
  where
    least_width : get_char_width_dec (2 ^ 31) ≡ 2
    least_width = unfold dec_figures in refl

-- The widths of wimp_log.c are the lengths of what printf writes: get_char_width_oct for `%o` and
-- get_char_width_hex for `%x` of every int, and get_char_width_dec for `%d` of every int but the
-- smallest, for which it is 2.
pub widths-print :
    (w : ℕ)
    → w < 2 ^ 32
    → (get_char_width_dec w ≡ (if w == 2 ^ 31 then 2 else length (print_dec w)))
      × (get_char_width_oct w ≡ length (print_oct w))
      × (get_char_width_hex w ≡ length (print_hex w))
widths-print w small = (decimal_width w small, octal_width w small, hexadecimal_width w small)
