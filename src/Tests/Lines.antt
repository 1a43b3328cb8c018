-- ===== src/Tests/Lines.antt =====
-- A log line, a command line and the arguments of a process.
use wimp.Prelude.{
  ℕ, ◌-◌, ◌^◌, ◌≡◌, refl, sym, ap, ◌∙◌, arith, Option-cases, inl, inr, Option, none, some, [], ◌∷◌,
  ◌++◌, ◌==◌, true, if◌then◌else◌, length,
}
use wimp.Prelude.Bytes.{Bytes, IsText, c_string}
use wimp.Log.{get_char_width_dec, get_char_width_oct, get_char_width_hex}
use wimp.Log.Numerals.{print_dec, print_oct, print_hex, numeral, widths-print}
use wimp.Log.Format.{int_arg, text_arg, format_string, conversion}
use wimp.Log.Render.{zeros, render}
use wimp.Log.Lines.{format_string-render}
use wimp.Log.Master.{tag, log_line, log_line-render}
use wimp.Process.{success}
use wimp.Process.Launch.{start_executable_process, start_executable_process-command}
use wimp.Process.Entry.{Heap, main_entry, pointers, argument, get_entry, free_entry}
use wimp.Process.Freed.{IsFresh}
use wimp.Process.Arguments.{Building}
use wimp.Process.Entered.{Entered, get_entry-Entered}
use wimp.Process.Leftover.{free_entry-leaks}

widths-print_example :
    (get_char_width_dec (2 ^ 32 - 120)
      ≡ (if (2 ^ 32 - 120) == 2 ^ 31 then 2 else length (print_dec (2 ^ 32 - 120))))
    × (get_char_width_oct (2 ^ 32 - 120) ≡ length (print_oct (2 ^ 32 - 120)))
    × (get_char_width_hex (2 ^ 32 - 120) ≡ length (print_hex (2 ^ 32 - 120)))
widths-print_example = widths-print (2 ^ 32 - 120) (omega arith)

-- "a%d: %s" with 42 and "ok"
abbrev format : Bytes
format = 0x61 ∷ 0x25 ∷ 0x64 ∷ 0x3a ∷ 0x20 ∷ 0x25 ∷ 0x73 ∷ []

-- "a42: ok"
abbrev line : Bytes
line = 0x61 ∷ 0x34 ∷ 0x32 ∷ 0x3a ∷ 0x20 ∷ 0x6f ∷ 0x6b ∷ []

line-IsText : IsText line
line-IsText = (λ e. cc, (λ e. cc, (λ e. cc, (λ e. cc, (λ e. cc, (λ e. cc, (λ e. cc, tt)))))))

format_string-render_example :
    format_string (zeros 16) format 16 (int_arg 42 ∷ text_arg (0x6f ∷ 0x6b ∷ []) ∷ [])
    ≡ some (7, line ++ zeros 9)
unfolding render conversion numeral
format_string-render_example =
    format_string-render 16 format line (int_arg 42 ∷ text_arg (0x6f ∷ 0x6b ∷ []) ∷ []) refl
      line-IsText (omega arith) (omega arith)

log_line-render_example :
    log_line (0x70 ∷ []) format (int_arg 42 ∷ text_arg (0x6f ∷ 0x6b ∷ []) ∷ [])
    ≡ some (tag (0x70 ∷ []) ++ (line ++ 0 ∷ []))
unfolding render conversion numeral
log_line-render_example =
    log_line-render (0x70 ∷ []) format line (int_arg 42 ∷ text_arg (0x6f ∷ 0x6b ∷ []) ∷ []) refl
      line-IsText (omega arith)

-- The program is "/b/p", and starts "c" with "x" and "y".
abbrev program : Bytes
program = (0x2f ∷ 0x62 ∷ []) ++ (0x2f ∷ 0x70 ∷ [])

program-IsText : IsText program
program-IsText = (λ e. cc, (λ e. cc, (λ e. cc, (λ e. cc, tt))))

start_executable_process-command_example :
    start_executable_process
      (some program)
      (λ path. true)
      (λ command. some 3)
      (0x63 ∷ [])
      ((0x78 ∷ []) ∷ (0x79 ∷ []) ∷ [])
    ≡ some (success, some (0x2f ∷ 0x62 ∷ 0x2f ∷ 0x63 ∷ 0x20 ∷ 0x78 ∷ 0x20 ∷ 0x79 ∷ []))
start_executable_process-command_example =
    start_executable_process-command (0x2f ∷ 0x62 ∷ []) (0x70 ∷ []) (0x63 ∷ [])
      ((0x78 ∷ []) ∷ (0x79 ∷ []) ∷ []) (λ path. true) (λ command. some 3) program-IsText (refl, tt)
      (omega arith) (omega arith)

-- Memory for three blocks.
abbrev three : Heap → ℕ → Option ℕ
three heap size = elim (heap 1) [
  | none ↦ some 1
  | some _ ↦ elim (heap 2) [
    | none ↦ some 2
    | some _ ↦ elim (heap 3) [ none ↦ some 3 | some _ ↦ none ]
  ]
]

three-IsFresh : IsFresh three
three-IsFresh heap size p e = elim (Option-cases (heap 1)) [
  | inl a ↦ let at : some 1 ≡ some p = rw (three, a) at e in ap heap (sym (some_same 1 p at)) ∙ a
  | inr (x, a) ↦ elim (Option-cases (heap 2)) [
    | inl b ↦
        let at : some 2 ≡ some p = rw (three, a, b) at e in ap heap (sym (some_same 2 p at)) ∙ b
    | inr (y, b) ↦ elim (Option-cases (heap 3)) [
      | inl c ↦
          let at : some 3 ≡ some p = rw (three, a, b, c) at e in
          ap heap (sym (some_same 3 p at)) ∙ c
      | inr (z, c) ↦ cc (rw (three, a, b, c) at e)
    ]
  ]
]
  where
    some_same : (a b : ℕ) → some a ≡ some b → a ≡ b
    some_same a b h = cc

abbrev nothing : Heap
nothing a = none

get_entry-Entered_example :
    (r : Option ℕ) × (heap : Heap) × (get_entry three 1 (some (0x78 ∷ []) ∷ []) nothing
      ≡ some (r, heap))
    × Entered nothing heap (some (0x78 ∷ []) ∷ []) r
get_entry-Entered_example =
    get_entry-Entered three three-IsFresh nothing (some (0x78 ∷ []) ∷ []) (omega arith)

-- An entry with the argument "x".
abbrev filled : Heap
filled a =
    if a == 1
    then some (main_entry 1 (some 2))
    else (if a == 2
        then some (pointers (some 3 ∷ none ∷ []))
        else (if a == 3 then some (argument (c_string (0x78 ∷ []))) else none))

filled-Building : Building nothing filled 1 1 2 (3 ∷ []) ((0x78 ∷ []) ∷ []) 0
filled-Building = record {
  holding = record {
    unique = (refl, (refl, (refl, tt)));
    unused = λ a h. refl;
    used = λ a h. ground (arith, h);
    rest = λ a h. ground (arith, h);
  };
  struct = refl;
  array = refl;
  copied = (refl, tt);
}

free_entry-leaks_example :
    (t : Heap) × (free_entry 1 filled ≡ some t)
    × (t 2 ≡ some (pointers (some 3 ∷ none ∷ [])))
    × ((a : ℕ) → t a ≡ (if a == 2 then filled 2 else none))
free_entry-leaks_example =
    free_entry-leaks nothing filled 1 2 (3 ∷ []) ((0x78 ∷ []) ∷ []) filled-Building
