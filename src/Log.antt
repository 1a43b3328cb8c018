-- ===== src/Log.antt =====
-- The formatting of log lines (wimp/src/wimp_log.c): the widths of numbers, and the reduced printf that
-- fills the buffer of a line. An int is its 32-bit pattern; `none` is a bad access.
pub mod Conversions
pub mod Format
pub mod Lines
pub mod Master
pub mod Numerals
pub mod Render
use wimp.Prelude.{ℕ, ◌+◌, ◌-◌, ◌*◌, ◌%◌, ◌^◌, Bool, true, false, ◌&&◌, ltb, leb, if◌then◌else◌}

-- An int below zero.
abbrev pub is_negative : ℕ → Bool
is_negative w = leb (2 ^ 31) w

-- `w >= k` for a constant that is not negative, as 0 or 1.
abbrev pub at_least : ℕ → ℕ → ℕ
at_least w k = if is_negative w then 0 else (if leb k w then 1 else 0)

-- The sum of the comparisons.
unfoldable pub dec_figures : ℕ → ℕ → ℕ
dec_figures sign no_sign_var =
    1
    + sign
    + at_least no_sign_var 10
    + at_least no_sign_var 100
    + at_least no_sign_var 1000
    + at_least no_sign_var 10000
    + at_least no_sign_var 100000
    + at_least no_sign_var 1000000
    + at_least no_sign_var 10000000
    + at_least no_sign_var 100000000
    + at_least no_sign_var 1000000000

-- The negation of the smallest int wraps around to itself.
unfoldable pub get_char_width_dec : ℕ → ℕ
get_char_width_dec var =
    dec_figures (if is_negative var then 1 else 0)
      (if is_negative var then (2 ^ 32 - var) % 2 ^ 32 else var)

unfoldable pub get_char_width_oct : ℕ → ℕ
get_char_width_oct var =
    if is_negative var
    then 11
    else (1
        + at_least var 8
        + at_least var (8 * 8)
        + at_least var (8 * 8 * 8)
        + at_least var (8 * 8 * 8 * 8)
        + at_least var (8 * 8 * 8 * 8 * 8)
        + at_least var (8 * 8 * 8 * 8 * 8 * 8)
        + at_least var (8 * 8 * 8 * 8 * 8 * 8 * 8)
        + at_least var (8 * 8 * 8 * 8 * 8 * 8 * 8 * 8)
        + at_least var (8 * 8 * 8 * 8 * 8 * 8 * 8 * 8 * 8)
        + at_least var (8 * 8 * 8 * 8 * 8 * 8 * 8 * 8 * 8 * 8))

unfoldable pub get_char_width_hex : ℕ → ℕ
get_char_width_hex var =
    if is_negative var
    then 8
    else (1
        + at_least var 16
        + at_least var (16 * 16)
        + at_least var (16 * 16 * 16)
        + at_least var (16 * 16 * 16 * 16)
        + at_least var (16 * 16 * 16 * 16 * 16)
        + at_least var (16 * 16 * 16 * 16 * 16 * 16)
        + at_least var (16 * 16 * 16 * 16 * 16 * 16 * 16))
