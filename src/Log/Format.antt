-- ===== src/Log/Format.antt =====
-- The reduced printf of wimp/src/wimp_log.c (format_string), byte by byte on the buffer `str`. `none` is
-- an access outside the buffer, behind the end of the format, or to an argument that is not there.
use wimp.Prelude.{
  ℕ, ◌+◌, ◌-◌, ◌%◌, ◌^◌, Option, none, some, List, [], ◌∷◌, Bool, true, false, not, ◌&&◌, ◌||◌,
  ◌==◌, leb, if◌then◌else◌, ◌>>=◌, length, drop, get_or,
}
use wimp.Prelude.Bytes.{Bytes, c_string, text_at, memcpy}
use wimp.Log.{get_char_width_dec, get_char_width_oct, get_char_width_hex}
use wimp.Log.Numerals.{print_dec, print_oct, print_hex, print_unsigned}

-- What va_arg hands out: an int, a C string, what printf makes of a double for a conversion, and
-- what it makes of a pointer.
pub data Arg : Type 0 where
  int_arg : ℕ → Arg
  text_arg : Bytes → Arg
  double_arg : (Bytes → Bytes) → Arg
  pointer_arg : Bytes → Arg

-- The branches of the loop body behind a '%'.
pub data Conversion : Type 0 where
  percent_sign decimal octal hexadecimal unsigned character text double pointer other : Conversion

unfoldable pub conversion : ℕ → Conversion
conversion c =
    if c == b'%'
    then percent_sign
    else (if (c == b'd') || (c == b'i')
        then decimal
        else (if c == b'o'
            then octal
            else (if (c == b'x') || (c == b'X')
                then hexadecimal
                else (if c == b'u'
                    then unsigned
                    else (if c == b'c'
                        then character
                        else (if c == b's'
                            then text
                            else (if c == b'f'
                                then double
                                else (if c == b'p' then pointer else other))))))))

-- `percent` says that the last character was a '%' that begins a conversion.
pub record FormatState : Type 0 where
  pub str : Bytes
  pub string_offset : ℕ
  pub arg : List Arg
  pub percent : Bool

-- Bytes to `&str[string_offset]`, and how far to move on.
unfoldable pub put : FormatState → Bytes → ℕ → Option FormatState
put st bytes width = memcpy st.str st.string_offset bytes >>= λ str.
    some (record st { str = str; string_offset = st.string_offset + width; percent = false })

-- sprintf, and then strlen of what it wrote.
unfoldable pub put_measured : FormatState → Bytes → Option FormatState
put_measured st bytes = do
  str ← memcpy st.str st.string_offset (c_string bytes)
  written ← text_at (drop st.string_offset str)
  some (record st { str = str; string_offset = st.string_offset + length written; percent = false })

unfoldable pub put_int : FormatState → (ℕ → Bytes) → (ℕ → ℕ) → Option FormatState
put_int st print width = elim st.arg [
  | [] ↦ none
  | a ∷ arg ↦ elim a [
    | int_arg n ↦ put (record st { arg = arg }) (c_string (print n)) (width n)
    | text_arg _ ↦ none
    | double_arg _ ↦ none
    | pointer_arg _ ↦ none
  ]
]

unfoldable pub put_char : FormatState → Option FormatState
put_char st = elim st.arg [
  | [] ↦ none
  | a ∷ arg ↦ elim a [
    | int_arg n ↦ put (record st { arg = arg }) ((n % 256) ∷ []) 1
    | text_arg _ ↦ none
    | double_arg _ ↦ none
    | pointer_arg _ ↦ none
  ]
]

unfoldable pub put_text : FormatState → Option FormatState
put_text st = elim st.arg [
  | [] ↦ none
  | a ∷ arg ↦ elim a [
    | int_arg _ ↦ none
    | text_arg s ↦ put (record st { arg = arg }) s (length s)
    | double_arg _ ↦ none
    | pointer_arg _ ↦ none
  ]
]

-- `rest` is what follows the 'f'. A precision is read and not skipped, and stands behind the 'f' in
-- the format that sprintf gets.
unfoldable pub double_format : Bytes → Bytes
double_format rest =
    if get_or rest 0 0 == b'.'
    then b'%' ∷ (b'f' ∷ (b'.' ∷ (get_or rest 1 0 ∷ [])))
    else b'%' ∷ (b'f' ∷ [])

unfoldable pub put_double : FormatState → Bytes → Option FormatState
put_double st rest = elim st.arg [
  | [] ↦ none
  | a ∷ arg ↦ elim a [
    | int_arg _ ↦ none
    | text_arg _ ↦ none
    | double_arg print ↦ put_measured (record st { arg = arg }) (print (double_format rest))
    | pointer_arg _ ↦ none
  ]
]

unfoldable pub put_pointer : FormatState → Option FormatState
put_pointer st = elim st.arg [
  | [] ↦ none
  | a ∷ arg ↦ elim a [
    | int_arg _ ↦ none
    | text_arg _ ↦ none
    | double_arg _ ↦ none
    | pointer_arg s ↦ put_measured (record st { arg = arg }) s
  ]
]

-- `%u` is measured as a signed int.
unfoldable pub convert : Conversion → Bytes → FormatState → Option FormatState
convert percent_sign rest st = put st (b'%' ∷ []) 1
convert decimal rest st = put_int st print_dec get_char_width_dec
convert octal rest st = put_int st print_oct get_char_width_oct
convert hexadecimal rest st = put_int st print_hex get_char_width_hex
convert unsigned rest st = put_int st print_unsigned get_char_width_dec
convert character rest st = put_char st
convert text rest st = put_text st
convert double rest st = put_double st rest
convert pointer rest st = put_pointer st
convert other rest st = some (record st { percent = false })

unfoldable pub format_step : ℕ → Bytes → FormatState → Option FormatState
format_step c rest st =
    if st.percent
    then convert (conversion c) rest st
    else (if c == b'%' then some (record st { percent = true }) else put st (c ∷ []) 1)

-- The check at the head of the loop, with `buffsize - 1` as a `size_t`.
unfoldable pub is_full : ℕ → FormatState → Bool
is_full buffsize st = not st.percent && leb ((buffsize + (2 ^ 64 - 1)) % 2 ^ 64) st.string_offset

unfoldable pub format_loop : ℕ → Bytes → FormatState → Option Bytes
format_loop buffsize [] st = if st.percent then none else some st.str
format_loop buffsize (c ∷ rest) st =
    let onwards = format_step c rest st >>= λ st'. format_loop buffsize rest st' in
    if is_full buffsize st then some st.str else onwards

-- The length that is returned, and the buffer.
unfoldable pub format_string : Bytes → Bytes → ℕ → List Arg → Option (ℕ × Bytes)
format_string str format buffsize arg = do
  written ←
      format_loop buffsize format
        (record { str = str; string_offset = 0; arg = arg; percent = false })
  line ← text_at written
  some (length line, written)
