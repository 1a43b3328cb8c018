-- ===== src/Process/Directory.antt =====
-- The directory of the running executable (wimp_get_running_executable_directory of
-- wimp/src/wimp_process.c, in its version for unix).
use wimp.Prelude.{
  ℕ, zero, suc, ◌+◌, ◌-◌, ◌<◌, ◌≡◌, refl, sym, ap, ap₂, ◌∙◌, arith, Option, none, some, [], ◌∷◌,
  ◌++◌, Bool, true, false, ◌||◌, ◌==◌, ltb, if◌then◌else◌, ◌>>=◌, length, take, set, set-append,
  drop-replicate, lt→ltb, get_or, replicate, All, append_assoc, length-append, length-replicate,
  take-append, take-all,
}
use wimp.Prelude.Bytes.{Bytes, IsText, text_at, text_at-append, memcpy, memcpy-append}
use wimp.Process.{ProcessResult, success, invalid_path, max_directory_path_len}

abbrev pub is_slash : ℕ → Bool
is_slash c = (c == b'/') || (c == 0x5c)

-- The scan from the end: the largest index from `i` down to 1 with a slash.
unfoldable pub last_slash : Bytes → ℕ → Option ℕ
last_slash path zero = none
last_slash path (suc i) =
    let before = last_slash path i in
    if is_slash (get_or path (suc i) 0) then some (suc i) else before

-- The scan, and the zeros behind the slash.
unfoldable pub keep_directory : Bytes → Bytes → Option (ProcessResult × Bytes)
keep_directory path text = elim (last_slash path (length text)) [
  | none ↦ some (invalid_path, path)
  | some at ↦ some (success, take (at + 1) path ++ replicate (max_directory_path_len - at - 1) 0)
]

-- `path[linklen] = 0` and what follows, on the buffer after readlink.
unfoldable pub cut_path : Bytes → ℕ → Option (ProcessResult × Bytes)
cut_path path linklen =
    if ltb linklen max_directory_path_len
    then (text_at (set path linklen 0) >>= keep_directory (set path linklen 0))
    else none

-- What readlink found, or an error: then linklen is -1. It fills no more than the buffer. `none` is a
-- write outside the buffer.
unfoldable pub get_running_executable_directory : Option Bytes → Option (ProcessResult × Bytes)
get_running_executable_directory none = none
get_running_executable_directory (some link) = do
  path ← memcpy (replicate max_directory_path_len 0) 0 (take max_directory_path_len link)
  cut_path path (length (take max_directory_path_len link))

-- No byte is a slash.
abbrev pub IsName : Bytes → Type 0
IsName = All (λ c. is_slash c ≡ false)

abbrev pub zeros : ℕ → Bytes
zeros n = replicate n 0

pub zeros-suc : (n : ℕ) → 0 < n → zeros n ≡ 0 ∷ zeros (n - 1)
zeros-suc zero h = absurd (omega arith)
zeros-suc (suc n) h = let e : suc n - 1 ≡ n = omega arith in rw e refl

get_or-behind :
    (front rest : Bytes) (i : ℕ) → get_or (front ++ rest) (length front + i) 0 ≡ get_or rest i 0
get_or-behind [] rest i = ap (λ (n : ℕ). get_or rest n 0) (omega arith)
get_or-behind (c ∷ front) rest i =
    let e : length (c ∷ front) + i ≡ suc (length front + i) = omega arith in
    rw e (get_or-behind front rest i)

name_at : (name : Bytes) (k i : ℕ) → IsName name → is_slash (get_or (name ++ zeros k) i 0) ≡ false
name_at [] zero i is = refl
name_at [] (suc k) zero is = refl
name_at [] (suc k) (suc i) is = name_at [] k i tt
name_at (c ∷ name) k zero is = is.0
name_at (c ∷ name) k (suc i) is = name_at name k i is.1

-- Behind the last slash the scan finds nothing.
last_slash-name :
    (front name : Bytes) (k n : ℕ)
    → IsName name
    → 0 < length front
    → last_slash (front ++ b'/' ∷ (name ++ zeros k)) (length front + n) ≡ some (length front)
unfolding last_slash
last_slash-name [] name k n is there = absurd (omega arith)
last_slash-name (c ∷ front) name k zero is there =
    let path : Bytes = (c ∷ front) ++ b'/' ∷ (name ++ zeros k) in
    let e : length (c ∷ front) + 0 ≡ suc (length front) = omega arith in
    let at : get_or path (suc (length front)) 0 ≡ b'/' =
      ap (λ (i : ℕ). get_or path i 0) (sym e)
      ∙ get_or-behind (c ∷ front) (b'/' ∷ (name ++ zeros k)) 0 in
    rw (e, at) refl
last_slash-name (c ∷ front) name k (suc n) is there =
    let path : Bytes = (c ∷ front) ++ b'/' ∷ (name ++ zeros k) in
    let e : length (c ∷ front) + suc n ≡ suc (length (c ∷ front) + n) = omega arith in
    let at : is_slash (get_or path (suc (length (c ∷ front) + n)) 0) ≡ false =
      ap (λ (i : ℕ). is_slash (get_or path i 0)) (sym e)
      ∙ ap is_slash (get_or-behind (c ∷ front) (b'/' ∷ (name ++ zeros k)) (suc n))
      ∙ name_at name k n is in
    rw (e, at) (last_slash-name (c ∷ front) name k n is there)

-- wimp_get_running_executable_directory, where readlink finds a path of less than 1024 bytes with a slash
-- that is not its first byte: the buffer holds the path up to and with its last slash, and zeros
-- behind.
pub executable_directory :
    (front name : Bytes)
    → IsText (front ++ b'/' ∷ name)
    → IsName name
    → 0 < length front
    → length (front ++ b'/' ∷ name) < 1024
    → get_running_executable_directory (some (front ++ b'/' ∷ name))
      ≡ some (success, (front ++ b'/' ∷ []) ++ zeros (1024 - length front - 1))
unfolding get_running_executable_directory cut_path keep_directory
executable_directory front name is plain there short =
    let link : Bytes = front ++ b'/' ∷ name in
    let n = length link in
    let size : n ≡ length front + (1 + length name) =
      length-append front (b'/' ∷ name) ∙ omega arith in
    let whole : take 1024 link ≡ link = take-all 1024 link (omega arith) in
    let path : Bytes = link ++ zeros (1024 - n) in
    let copied : memcpy (zeros 1024) 0 link ≡ some path =
      memcpy-append [] (zeros 1024) link 0 refl (omega (arith, length-replicate {0} {A = ℕ} 1024 0))
      ∙ ap (λ r. some (link ++ r)) (drop-replicate n 1024 0 (omega arith)) in
    let room : ltb n 1024 ≡ true = lt→ltb n 1024 short in
    let ended : zeros (1024 - n) ≡ 0 ∷ zeros (1024 - n - 1) = zeros-suc (1024 - n) (omega arith) in
    let kept : set path n 0 ≡ path =
      ap (λ (i : ℕ). set path i 0) (omega arith)
      ∙ set-append link (zeros (1024 - n)) 0 0
      ∙ ap (λ r. link ++ r) (ap (λ r. set r 0 0) ended ∙ sym ended) in
    let text : text_at path ≡ some link =
      ap (λ r. text_at (link ++ r)) ended ∙ text_at-append link (zeros (1024 - n - 1)) is in
    let shape : path ≡ front ++ b'/' ∷ (name ++ zeros (1024 - n)) =
      append_assoc front (b'/' ∷ name) (zeros (1024 - n)) in
    let slash : last_slash path n ≡ some (length front) =
      ap₂ (λ p i. last_slash p i) shape size
      ∙ last_slash-name front name (1024 - n) (1 + length name) plain there in
    let directory : take (length front + 1) path ≡ front ++ b'/' ∷ [] =
      ap (take (length front + 1))
        (shape ∙ sym (append_assoc front (b'/' ∷ []) (name ++ zeros (1024 - n))))
      ∙ take-append (length front + 1) (front ++ b'/' ∷ []) (name ++ zeros (1024 - n))
          (omega (arith, length-append front (b'/' ∷ []))) in
    let rest : keep_directory path link
        ≡ some (success, (front ++ b'/' ∷ []) ++ zeros (1024 - length front - 1)) =
      rw (slash, directory, keep_directory) refl in
    rw (whole, copied, room, kept, text) rest
