-- ===== src/Prelude/Bytes.antt =====
-- Raw memory as lists of bytes: C strings, 32-bit words in the byte order of the machines that the
-- program runs on (least significant byte first), `memcpy` into a buffer, and `strcmp`.
use Prim.Native.Nat.{ℕ, ◌+◌, ◌*◌, ◌/◌, ◌%◌, ◌^◌, ◌≤◌, ◌<◌}
use mathlib.Core.Path.{◌≡◌, refl, ap, sym, ◌∙◌}
use mathlib.Core.Logic.{◌≢◌, ◌↔◌}
use mathlib.Core.Bool.{Bool, true, false, ◌&&◌}
use mathlib.Core.Option.{Option, none, some}
use mathlib.Core.List.{List, [], ◌∷◌, ◌++◌, append_assoc}
use native.Mathlib.Omega.{arith}
use wimp.Prelude.Tests.{◌==◌, leb, if◌then◌else◌, ◌>>=◌}
use wimp.Prelude.Lists.{length, take, drop, All, length-append, take-append, drop-append, drop-drop}

abbrev pub Bytes : Type 0
Bytes = List ℕ

-- A text that fits a C string: no byte of it is the terminator.
abbrev pub IsText : Bytes → Type 0
IsText = All (λ c. c ≢ 0)

-- The text with its terminator.
abbrev pub c_string : Bytes → Bytes
c_string s = s ++ 0 ∷ []

-- The text that a pointer into memory stands for; `none` where no terminator follows.
unfoldable pub text_at : Bytes → Option Bytes
text_at [] = none
text_at (c ∷ rest) =
    let more = text_at rest in if c == 0 then some [] else (more >>= λ s. some (c ∷ s))

-- `strcmp(a, b) == 0`.
unfoldable pub text_eq : Bytes → Bytes → Bool
text_eq [] [] = true
text_eq [] (d ∷ b) = false
text_eq (c ∷ a) [] = false
text_eq (c ∷ a) (d ∷ b) = (c == d) && text_eq a b

-- The four bytes of a 32-bit word. Of a wider word these are its low four bytes.
unfoldable pub le32 : ℕ → Bytes
le32 n = (n % 256) ∷ (n / 256 % 256) ∷ (n / 65536 % 256) ∷ (n / 16777216 % 256) ∷ []

-- `*(int32_t*)&buffer[0]` as a bit pattern; `none` past the end of the buffer.
unfoldable pub word_at : Bytes → Option ℕ
word_at (a ∷ b ∷ c ∷ d ∷ _) = some (a + 256 * b + 65536 * c + 16777216 * d)
word_at _ = none

-- `memcpy(&buffer[offset], bytes, length bytes)`; `none` where the copy leaves the buffer.
unfoldable pub memcpy : Bytes → ℕ → Bytes → Option Bytes
memcpy buffer offset bytes =
    if leb (offset + length bytes) (length buffer)
    then some (take offset buffer ++ (bytes ++ drop (offset + length bytes) buffer))
    else none

pub length-le32 : (n : ℕ) → length (le32 n) ≡ 4
unfolding le32
length-le32 n = refl

pub word_at-le32 : (n : ℕ) (rest : Bytes) → n < 2 ^ 32 → word_at (le32 n ++ rest) ≡ some n
unfolding word_at le32
word_at-le32 n rest h = ap some (omega arith)

pub text_at-append : (s rest : Bytes) → IsText s → text_at (s ++ 0 ∷ rest) ≡ some s
unfolding text_at
text_at-append [] rest h = refl
text_at-append (c ∷ s) rest h = ground (arith, text_at-append s rest h.1, h.0)

pub IsText-split : (a b : Bytes) → IsText (a ++ b) → IsText a × IsText b
IsText-split [] b is = (tt, is)
IsText-split (c ∷ a) b (there, is) = let (x, y) = IsText-split a b is in ((there, x), y)

pub text_eq_iff : (a b : Bytes) → (text_eq a b ≡ true) ↔ (a ≡ b)
unfolding text_eq
text_eq_iff [] [] = (λ h. refl, λ h. refl)
text_eq_iff [] (d ∷ b) = (λ h. cc, λ h. cc)
text_eq_iff (c ∷ a) [] = (λ h. cc, λ h. cc)
text_eq_iff (c ∷ a) (d ∷ b) =
    (λ h. ground (arith, text_eq_iff a b), λ h. ground (arith, text_eq_iff a b))

pub text_eq_refl : (a : Bytes) → text_eq a a ≡ true
text_eq_refl a = (text_eq_iff a a).1 refl

-- Copying behind what is already written extends it.
pub memcpy-append :
    (front back bytes : Bytes) (offset : ℕ)
    → offset ≡ length front
    → length bytes ≤ length back
    → memcpy (front ++ back) offset bytes ≡ some ((front ++ bytes) ++ drop (length bytes) back)
unfolding memcpy
memcpy-append front back bytes offset e h =
    let fits : leb (offset + length bytes) (length (front ++ back)) ≡ true =
      ground (arith, length-append front back) in
    let kept : take offset (front ++ back) ≡ front = take-append offset front back e in
    let left : drop (offset + length bytes) (front ++ back) ≡ drop (length bytes) back =
      sym (drop-drop offset (length bytes) (front ++ back))
      ∙ ap (drop (length bytes)) (drop-append offset front back e) in
    rw (fits, kept, left) (ap some (sym (append_assoc front bytes (drop (length bytes) back))))
