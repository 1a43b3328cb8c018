-- ===== src/Log/Render.antt =====
-- What format_string of wimp/src/wimp_log.c writes, against what printf means by the format.
use wimp.Prelude.{
  ℕ, zero, suc, ◌+◌, ◌-◌, ◌%◌, ◌^◌, ◌≤◌, ◌<◌, ◌≡◌, refl, sym, ap, ap₂, ◌∙◌, arith, Option, none,
  some, List, [], ◌∷◌, ◌++◌, Bool, true, false, ◌==◌, ltb, if◌then◌else◌, ◌>>=◌, length, drop,
  get_or, replicate, append_assoc, length-append, length-replicate, drop-replicate, drop-append,
}
use wimp.Prelude.Bytes.{Bytes, IsText, c_string, text_at, text_at-append, memcpy, memcpy-append}
use wimp.Log.Numerals.{print_dec, print_oct, print_hex, print_unsigned}
use wimp.Log.Format.{
  Arg, int_arg, text_arg, double_arg, pointer_arg, Conversion, percent_sign, decimal, octal,
  hexadecimal, unsigned, character, text, double, pointer, conversion, FormatState, put,
  put_measured,
}

-- What printf makes of one conversion, and the arguments that are left. No meaning is given to the
-- smallest int under `%d`, to an int from 2^31 on under `%u`, and to `%f` before a '.', nor to
-- conversions that the log does not have.
abbrev pub meaning : Conversion → Bytes → List Arg → Option (Bytes × List Arg)
meaning percent_sign rest args = some (b'%' ∷ [], args)
meaning decimal rest (int_arg n ∷ args) =
    if ltb n (2 ^ 32) then (if n == 2 ^ 31 then none else some (print_dec n, args)) else none
meaning octal rest (int_arg n ∷ args) = if ltb n (2 ^ 32) then some (print_oct n, args) else none
meaning hexadecimal rest (int_arg n ∷ args) =
    if ltb n (2 ^ 32) then some (print_hex n, args) else none
meaning unsigned rest (int_arg n ∷ args) =
    if ltb n (2 ^ 31) then some (print_unsigned n, args) else none
meaning character rest (int_arg n ∷ args) = some ((n % 256) ∷ [], args)
meaning text rest (text_arg s ∷ args) = some (s, args)
meaning double rest (double_arg print ∷ args) =
    if get_or rest 0 0 == b'.' then none else some (print (b'%' ∷ (b'f' ∷ [])), args)
meaning pointer rest (pointer_arg s ∷ args) = some (s, args)
meaning _ rest args = none

-- printf writes `%X` in capitals, the log does not: it has no meaning here either.
abbrev pub meant : ℕ → Bytes → List Arg → Option (Bytes × List Arg)
meant c rest args = if c == b'X' then none else meaning (conversion c) rest args

-- The next character, with whether it stands behind a '%'.
abbrev pub piece : Bool → ℕ → Bytes → List Arg → Option (Bytes × List Arg × Bool)
piece true c rest args = meant c rest args >>= λ (s, left). some (s, left, false)
piece false c rest args = if c == b'%' then some ([], args, true) else some (c ∷ [], args, false)

unfoldable pub render : Bool → Bytes → List Arg → Option Bytes
render true [] args = none
render false [] args = some []
render percent (c ∷ rest) args = piece percent c rest args >>= λ (s, left, percent').
    render percent' rest left >>= λ more. some (s ++ more)

abbrev pub zeros : ℕ → Bytes
zeros n = replicate n 0

-- The text so far, and zeros behind it.
abbrev pub at_work : Bytes → ℕ → List Arg → Bool → FormatState
at_work line room args percent = record {
  str = line ++ zeros room;
  string_offset = length line;
  arg = args;
  percent = percent;
}

pub zeros-suc : (n : ℕ) → 0 < n → zeros n ≡ 0 ∷ zeros (n - 1)
zeros-suc zero h = absurd (omega arith)
zeros-suc (suc n) h = let e : suc n - 1 ≡ n = omega arith in rw e refl

memcpy-text :
    (line s : Bytes) (room : ℕ)
    → length s ≤ room
    → memcpy (line ++ zeros room) (length line) s ≡ some ((line ++ s) ++ zeros (room - length s))
memcpy-text line s room fits =
    memcpy-append line (zeros room) s (length line) refl
      (omega (arith, length-replicate {0} {A = ℕ} room 0))
    ∙ ap (λ r. some ((line ++ s) ++ r)) (drop-replicate (length s) room 0 fits)

memcpy-c_string :
    (line s : Bytes) (room : ℕ)
    → length s < room
    → memcpy (line ++ zeros room) (length line) (c_string s)
      ≡ some ((line ++ s) ++ zeros (room - length s))
memcpy-c_string line s room fits =
    let n : length (c_string s) ≡ length s + 1 = length-append s (0 ∷ []) in
    let k : room - length (c_string s) ≡ room - length s - 1 = omega (arith, n) in
    memcpy-text line (c_string s) room (omega (arith, n))
    ∙ ap some (
        ap₂ (λ a b. a ++ b) (sym (append_assoc line s (0 ∷ []))) (ap zeros k)
        ∙ append_assoc (line ++ s) (0 ∷ []) (zeros (room - length s - 1))
        ∙ ap (λ r. (line ++ s) ++ r) (sym (zeros-suc (room - length s) (omega arith))))

module _ (line s : Bytes) (room : ℕ) (args : List Arg) (percent : Bool) where
  pub put-text :
      (width : ℕ)
      → length s ≤ room
      → width ≡ length s
      → put (at_work line room args percent) s width
        ≡ some (at_work (line ++ s) (room - length s) args false)
  unfolding put
  put-text width fits same =
      let total : length line + width ≡ length (line ++ s) = omega (arith, length-append line s) in
      rw (memcpy-text line s room fits, total) refl

  pub put-c_string :
      (width : ℕ)
      → length s < room
      → width ≡ length s
      → put (at_work line room args percent) (c_string s) width
        ≡ some (at_work (line ++ s) (room - length s) args false)
  unfolding put
  put-c_string width fits same =
      let total : length line + width ≡ length (line ++ s) = omega (arith, length-append line s) in
      rw (memcpy-c_string line s room fits, total) refl

  pub put_measured-text :
      length s < room
      → IsText s
      → put_measured (at_work line room args percent) s
        ≡ some (at_work (line ++ s) (room - length s) args false)
  unfolding put_measured
  put_measured-text fits is =
      let total : length line + length s ≡ length (line ++ s) =
        omega (arith, length-append line s) in
      let there : text_at (drop (length line) ((line ++ s) ++ zeros (room - length s))) ≡ some s =
        ap text_at (
          ap (drop (length line)) (append_assoc line s (zeros (room - length s)))
          ∙ drop-append (length line) line (s ++ zeros (room - length s)) refl
          ∙ ap (λ r. s ++ r) (zeros-suc (room - length s) (omega arith)))
        ∙ text_at-append s (zeros (room - length s - 1)) is in
      rw (memcpy-c_string line s room fits, there, total) refl
