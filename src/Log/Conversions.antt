-- ===== src/Log/Conversions.antt =====
-- Each conversion of a log line (format_string of wimp/src/wimp_log.c) does what it means.
use wimp.Prelude.{
  ℕ, ◌-◌, ◌%◌, ◌^◌, ◌<◌, ◌≡◌, refl, ◌∙◌, arith, Option, some, List, [], ◌∷◌, ◌++◌, Bool, false,
  ◌==◌, ltb, ltb→lt, length, get_or, Bool-cases, inl, inr,
}
use wimp.Prelude.Bytes.{Bytes, IsText}
use wimp.Log.{get_char_width_dec, get_char_width_oct, get_char_width_hex, is_negative}
use wimp.Log.Numerals.{print_dec, print_oct, print_hex, print_unsigned, widths-print}
use wimp.Log.Format.{
  Arg, int_arg, text_arg, double_arg, pointer_arg, Conversion, percent_sign, decimal, octal,
  hexadecimal, unsigned, character, text, double, pointer, other, put_int, put_char, put_text,
  put_double, put_pointer, double_format, convert,
}
use wimp.Log.Render.{meaning, at_work, put-text, put-c_string, put_measured-text}

pair_parts :
    {A B : Type 0} (a c : A) (b d : B)
    → ◌≡◌ {A = Option (A × B)} (some (a, b)) (some (c, d))
    → (a ≡ c) × (b ≡ d)
pair_parts a c b d h = (cc, cc)

unsigned_width : (w : ℕ) → w < 2 ^ 31 → get_char_width_dec w ≡ length (print_unsigned w)
unsigned_width w small =
    let plain : is_negative w ≡ false = ground arith in
    let least : (w == 2 ^ 31) ≡ false = ground arith in
    (widths-print w (omega arith)).0 ∙ rw (least, plain) refl

-- The branch does what the conversion means.
abbrev Does : Conversion → Bytes → List Arg → Bytes → List Arg → Type 0
Does k rest args s left =
    (line : Bytes) (room : ℕ) (percent : Bool)
    → length s < room
    → IsText s
    → convert k rest (at_work line room args percent)
      ≡ some (at_work (line ++ s) (room - length s) left false)

module _ (rest : Bytes) (n : ℕ) (args : List Arg) where
  Does-decimal :
      n < 2 ^ 32 → (n == 2 ^ 31) ≡ false → Does decimal rest (int_arg n ∷ args) (print_dec n) args
  unfolding convert put_int
  Does-decimal small least line room percent fits is =
      put-c_string line (print_dec n) room args percent (get_char_width_dec n) fits
        ((widths-print n small).0 ∙ rw least refl)

  Does-octal : n < 2 ^ 32 → Does octal rest (int_arg n ∷ args) (print_oct n) args
  unfolding convert put_int
  Does-octal small line room percent fits is =
      put-c_string line (print_oct n) room args percent (get_char_width_oct n) fits
        (widths-print n small).1

  Does-hexadecimal : n < 2 ^ 32 → Does hexadecimal rest (int_arg n ∷ args) (print_hex n) args
  unfolding convert put_int
  Does-hexadecimal small line room percent fits is =
      put-c_string line (print_hex n) room args percent (get_char_width_hex n) fits
        (widths-print n small).2

  Does-unsigned : n < 2 ^ 31 → Does unsigned rest (int_arg n ∷ args) (print_unsigned n) args
  unfolding convert put_int
  Does-unsigned small line room percent fits is =
      put-c_string line (print_unsigned n) room args percent (get_char_width_dec n) fits
        (unsigned_width n small)

Does-same :
    (k : Conversion) (rest : Bytes) (args : List Arg) (s s' : Bytes) (left left' : List Arg)
    → ◌≡◌ {A = Option (Bytes × List Arg)} (some (s, left)) (some (s', left'))
    → Does k rest args s left
    → Does k rest args s' left'
Does-same k rest args s s' left left' h does =
    let (e, f) = pair_parts s s' left left' h in rw (← e, ← f) does

pub convert-meaning :
    (k : Conversion) (rest : Bytes) (args left : List Arg) (s : Bytes)
    → meaning k rest args ≡ some (s, left)
    → Does k rest args s left
unfolding convert put_char put_text put_pointer put_double double_format
convert-meaning percent_sign rest args left s h =
    Does-same percent_sign rest args (b'%' ∷ []) s args left h
      λ line room percent fits is. put-text line (b'%' ∷ []) room args percent 1 (omega arith) refl
convert-meaning decimal rest [] left s h = cc
convert-meaning decimal rest (int_arg n ∷ args) left s h = elim (Bool-cases (ltb n (2 ^ 32))) [
  | inl small ↦ elim (Bool-cases (n == 2 ^ 31)) [
    | inl least ↦ cc (rw (small, least) at h)
    | inr other_int ↦
        Does-same decimal rest (int_arg n ∷ args) (print_dec n) s args left
          (rw (small, other_int) at h)
          (Does-decimal rest n args (ltb→lt n (2 ^ 32) small) other_int)
  ]
  | inr large ↦ cc (rw large at h)
]
convert-meaning decimal rest (text_arg t ∷ args) left s h = cc
convert-meaning decimal rest (double_arg t ∷ args) left s h = cc
convert-meaning decimal rest (pointer_arg t ∷ args) left s h = cc
convert-meaning octal rest [] left s h = cc
convert-meaning octal rest (int_arg n ∷ args) left s h = elim (Bool-cases (ltb n (2 ^ 32))) [
  | inl small ↦
      Does-same octal rest (int_arg n ∷ args) (print_oct n) s args left (rw small at h)
        (Does-octal rest n args (ltb→lt n (2 ^ 32) small))
  | inr large ↦ cc (rw large at h)
]
convert-meaning octal rest (text_arg t ∷ args) left s h = cc
convert-meaning octal rest (double_arg t ∷ args) left s h = cc
convert-meaning octal rest (pointer_arg t ∷ args) left s h = cc
convert-meaning hexadecimal rest [] left s h = cc
convert-meaning hexadecimal rest (int_arg n ∷ args) left s h = elim (Bool-cases (ltb n (2 ^ 32))) [
  | inl small ↦
      Does-same hexadecimal rest (int_arg n ∷ args) (print_hex n) s args left (rw small at h)
        (Does-hexadecimal rest n args (ltb→lt n (2 ^ 32) small))
  | inr large ↦ cc (rw large at h)
]
convert-meaning hexadecimal rest (text_arg t ∷ args) left s h = cc
convert-meaning hexadecimal rest (double_arg t ∷ args) left s h = cc
convert-meaning hexadecimal rest (pointer_arg t ∷ args) left s h = cc
convert-meaning unsigned rest [] left s h = cc
convert-meaning unsigned rest (int_arg n ∷ args) left s h = elim (Bool-cases (ltb n (2 ^ 31))) [
  | inl small ↦
      Does-same unsigned rest (int_arg n ∷ args) (print_unsigned n) s args left (rw small at h)
        (Does-unsigned rest n args (ltb→lt n (2 ^ 31) small))
  | inr large ↦ cc (rw large at h)
]
convert-meaning unsigned rest (text_arg t ∷ args) left s h = cc
convert-meaning unsigned rest (double_arg t ∷ args) left s h = cc
convert-meaning unsigned rest (pointer_arg t ∷ args) left s h = cc
convert-meaning character rest [] left s h = cc
convert-meaning character rest (int_arg n ∷ args) left s h =
    Does-same character rest (int_arg n ∷ args) ((n % 256) ∷ []) s args left h
      λ line room percent fits is.
        put-text line ((n % 256) ∷ []) room args percent 1 (omega arith) refl
convert-meaning character rest (text_arg t ∷ args) left s h = cc
convert-meaning character rest (double_arg t ∷ args) left s h = cc
convert-meaning character rest (pointer_arg t ∷ args) left s h = cc
convert-meaning text rest [] left s h = cc
convert-meaning text rest (int_arg n ∷ args) left s h = cc
convert-meaning text rest (text_arg t ∷ args) left s h =
    Does-same text rest (text_arg t ∷ args) t s args left h
      λ line room percent fits is. put-text line t room args percent (length t) (omega arith) refl
convert-meaning text rest (double_arg t ∷ args) left s h = cc
convert-meaning text rest (pointer_arg t ∷ args) left s h = cc
convert-meaning double rest [] left s h = cc
convert-meaning double rest (int_arg n ∷ args) left s h = cc
convert-meaning double rest (text_arg t ∷ args) left s h = cc
convert-meaning double rest (double_arg print ∷ args) left s h =
    elim (Bool-cases (get_or rest 0 0 == b'.')) [
      | inl precise ↦ cc (rw precise at h)
      | inr plain ↦
          Does-same double rest (double_arg print ∷ args) (print (b'%' ∷ (b'f' ∷ []))) s args left
            (rw plain at h)
            λ line room percent fits is.
              rw plain
                (put_measured-text line (print (b'%' ∷ (b'f' ∷ []))) room args percent fits is)
    ]
convert-meaning double rest (pointer_arg t ∷ args) left s h = cc
convert-meaning pointer rest [] left s h = cc
convert-meaning pointer rest (int_arg n ∷ args) left s h = cc
convert-meaning pointer rest (text_arg t ∷ args) left s h = cc
convert-meaning pointer rest (double_arg t ∷ args) left s h = cc
convert-meaning pointer rest (pointer_arg t ∷ args) left s h =
    Does-same pointer rest (pointer_arg t ∷ args) t s args left h
      λ line room percent fits is. put_measured-text line t room args percent fits is
convert-meaning other rest args left s h = cc
