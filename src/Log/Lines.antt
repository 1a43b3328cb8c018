-- ===== src/Log/Lines.antt =====
-- Whole log lines (format_string of wimp/src/wimp_log.c).
use wimp.Prelude.{
  ℕ, ◌+◌, ◌-◌, ◌%◌, ◌^◌, ◌<◌, ◌≡◌, refl, ap, ap₂, ◌∙◌, arith, Option, some, List, [], ◌∷◌, ◌++◌,
  Bool, true, false, ◌==◌, length, append_assoc, append-nil, length-append, Option-cases,
  Bool-cases, inl, inr,
}
use wimp.Prelude.Bytes.{IsText-split, Bytes, IsText, text_at, text_at-append}
use wimp.Log.Format.{Arg, conversion, format_step, is_full, format_loop, format_string}
use wimp.Log.Render.{meaning, meant, piece, render, zeros, zeros-suc, at_work, put-text}
use wimp.Log.Conversions.{convert-meaning}

triple_parts :
    {A B C : Type 0} (a c : A) (b d : B) (x y : C)
    → ◌≡◌ {A = Option (A × B × C)} (some (a, b, x)) (some (c, d, y))
    → (a ≡ c) × (b ≡ d) × (x ≡ y)
triple_parts a c b d x y h = (cc, cc, cc)

meant-meaning :
    (c : ℕ) (rest : Bytes) (args left : List Arg) (s : Bytes)
    → meant c rest args ≡ some (s, left)
    → meaning (conversion c) rest args ≡ some (s, left)
meant-meaning c rest args left s h = elim (Bool-cases (c == b'X')) [
  | inl capital ↦ cc (rw capital at h)
  | inr plain ↦ rw plain at h
]

format_step-piece :
    (percent percent' : Bool) (c : ℕ) (rest : Bytes) (args left : List Arg) (s line : Bytes)
    (room : ℕ)
    → piece percent c rest args ≡ some (s, left, percent')
    → length s < room
    → IsText s
    → format_step c rest (at_work line room args percent)
      ≡ some (at_work (line ++ s) (room - length s) left percent')
unfolding format_step
format_step-piece true percent' c rest args left s line room h fits is =
    elim (Option-cases (meant c rest args)) [
      | inl nothing ↦ cc (rw nothing at h)
      | inr ((s', left'), there) ↦
          let whole : ◌≡◌ {A = Option (Bytes × List Arg × Bool)} (some (s', left', false))
              (some (s, left, percent')) =
            rw there at h in
          let (e, f, g) = triple_parts s' s left' left false percent' whole in
          rw (← g) (
            convert-meaning (conversion c) rest args left s
              (meant-meaning c rest args left s (rw (← e, ← f) there)) line room true fits is)
    ]
format_step-piece false percent' c rest args left s line room h fits is =
    elim (Bool-cases (c == b'%')) [
      | inl sign ↦
          let whole : ◌≡◌ {A = Option (Bytes × List Arg × Bool)} (some ([], args, true))
              (some (s, left, percent')) =
            rw sign at h in
          let (e, f, g) = triple_parts [] s args left true percent' whole in
          let all : room - 0 ≡ room = omega arith in
          rw (sign, ← e, ← f, ← g, append-nil line, all) refl
      | inr plain ↦
          let whole : ◌≡◌ {A = Option (Bytes × List Arg × Bool)} (some (c ∷ [], args, false))
              (some (s, left, percent')) =
            rw plain at h in
          let (e, f, g) = triple_parts (c ∷ []) s args left false percent' whole in
          rw (plain, ← e, ← f, ← g)
            (put-text line (c ∷ []) room args false 1 (omega (arith, ap length e)) refl)
    ]

room_left :
    (buffsize : ℕ) (line : Bytes) (room : ℕ) (args : List Arg) (percent : Bool)
    → length line + 1 < buffsize
    → buffsize < 2 ^ 64
    → is_full buffsize (at_work line room args percent) ≡ false
unfolding is_full
room_left buffsize line room args percent less small =
    let one_less : (buffsize + (2 ^ 64 - 1)) % 2 ^ 64 ≡ buffsize - 1 = omega arith in
    rw one_less (ground arith)

format_loop-render :
    (buffsize : ℕ) (format : Bytes) (percent : Bool) (args : List Arg) (line line' : Bytes)
    (room : ℕ)
    → render percent format args ≡ some line'
    → IsText line'
    → length line + length line' + 1 < buffsize
    → room + length line ≡ buffsize
    → buffsize < 2 ^ 64
    → format_loop buffsize format (at_work line room args percent)
      ≡ some ((line ++ line') ++ zeros (room - length line'))
unfolding format_loop render
format_loop-render buffsize [] true args line line' room h is fits sized small = cc
format_loop-render buffsize [] false args line line' room h is fits sized small =
    let e : [] ≡ line' = cc in
    let all : room - 0 ≡ room = omega arith in rw (← e, append-nil line, all) refl
format_loop-render buffsize (c ∷ rest) percent args line line' room h is fits sized small =
    elim (Option-cases (piece percent c rest args)) [
      | inl nothing ↦ cc (rw nothing at h)
      | inr ((s, left, percent'), there) ↦ elim (Option-cases (render percent' rest left)) [
        | inl nothing ↦ cc (rw (there, nothing) at h)
        | inr (more, others) ↦
            let whole : s ++ more ≡ line' = cc (rw (there, others) at h) in
            let (is_s, is_more) = IsText-split s more (rw whole is) in
            let total = length-append s more in
            let longer = length-append line s in
            let size = ap length whole in
            let left_over : room - length s - length more ≡ room - length line' =
              omega (arith, total, size) in
            rw
              (
                room_left buffsize line room args percent (omega arith) small,
                format_step-piece percent percent' c rest args left s line room there
                    (omega (arith, total, size)) is_s,
                format_loop-render buffsize rest percent' left (line ++ s) more (room - length s)
                    others is_more (omega (arith, total, size, longer))
                    (omega (arith, total, size, longer)) small,
              )
              (ap some (
                ap₂ (λ a b. a ++ b) (append_assoc line s more ∙ ap (λ r. line ++ r) whole)
                  (ap zeros left_over)))
      ]
    ]

-- format_string of wimp_log.c, on a buffer of zeros: where the format has a meaning to printf (the
-- conversions %, d, i, o, x, u, c, s, f and p with arguments of their kinds, but not X, no `%d` of the smallest
-- int, no `%u` from 2^31 on, no `%f` before a '.', no '%' at the end) and the line, which has no
-- terminator in it, is at least two bytes shorter than the buffer, it writes exactly that line, with
-- zeros behind it, reads and writes nothing out of bounds, and returns the length of the line.
pub format_string-render :
    (buffsize : ℕ) (format line : Bytes) (args : List Arg)
    → render false format args ≡ some line
    → IsText line
    → length line + 1 < buffsize
    → buffsize < 2 ^ 64
    → format_string (zeros buffsize) format buffsize args
      ≡ some (length line, line ++ zeros (buffsize - length line))
unfolding format_string
format_string-render buffsize format line args h is fits small =
    let run : format_loop buffsize format (at_work [] buffsize args false)
        ≡ some (line ++ zeros (buffsize - length line)) =
      format_loop-render buffsize format false args [] line buffsize h is (omega arith)
        (omega arith) small in
    let there : text_at (line ++ zeros (buffsize - length line)) ≡ some line =
      ap (λ r. text_at (line ++ r)) (zeros-suc (buffsize - length line) (omega arith))
      ∙ text_at-append line (zeros (buffsize - length line - 1)) is in
    rw (run, there) refl
