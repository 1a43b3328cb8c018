-- ===== src/Process/Launch.antt =====
-- Starting an executable (wimp_start_executable_process of wimp/src/wimp_process.c, in its version for
-- unix). `access` and `popen` are given; the path is an SDS string, whose memory is left out.
use wimp.Prelude.{
  ℕ, ◌+◌, ◌-◌, ◌<◌, ◌≡◌, refl, sym, ap, ◌∙◌, arith, Option, none, some, List, [], ◌∷◌, ◌++◌, Bool,
  true, false, ltb, if◌then◌else◌, ◌>>=◌, length, append_assoc, append-nil, length-append,
}
use wimp.Prelude.Bytes.{Bytes, IsText, IsText-split, text_at, text_at-append}
use wimp.Process.{ProcessResult, success, fail, invalid_path, unresolved_exe_dir}
use wimp.Process.Directory.{
  zeros, zeros-suc, get_running_executable_directory, executable_directory, IsName,
}

-- `for (i = 0; i < argc; ++i)`: a space between two arguments.
unfoldable pub join_args : Bytes → (i argc : ℕ) → List Bytes → Bytes
join_args path i argc [] = path
join_args path i argc (arg ∷ argv) =
    join_args (path ++ (arg ++ (if ltb (i + 1) argc then b' ' ∷ [] else []))) (i + 1) argc argv

-- The stream that popen gives, or NULL.
abbrev pub answer : Option ℕ → ProcessResult
answer none = fail
answer (some f) = success

-- From the path on: the command line that popen gets, if it comes to that.
unfoldable pub launch :
    (Bytes → Bool) → (Bytes → Option ℕ) → Bytes → List Bytes → ProcessResult × Option Bytes
launch access popen path argv =
    let command = join_args (path ++ b' ' ∷ []) 0 (length argv) argv in
    if access path then (answer (popen command), some command) else (invalid_path, none)

-- `none` is a bad access.
unfoldable pub start_executable_process :
    Option Bytes
    → (Bytes → Bool)
    → (Bytes → Option ℕ)
    → Bytes
    → List Bytes
    → Option (ProcessResult × Option Bytes)
start_executable_process link access popen executable argv = do
  found ← get_running_executable_directory link
  elim found.0 [
    | success ↦
        (text_at found.1 >>= λ directory. some (launch access popen (directory ++ executable) argv))
    | fail ↦ some (unresolved_exe_dir, none)
    | invalid_path ↦ some (unresolved_exe_dir, none)
    | unresolved_exe_dir ↦ some (unresolved_exe_dir, none)
  ]

-- The arguments with a space between each two.
abbrev pub spaced : List Bytes → Bytes
spaced [] = []
spaced (arg ∷ []) = arg
spaced (arg ∷ (next ∷ argv)) = arg ++ (b' ' ∷ spaced (next ∷ argv))

join_args-spaced :
    (argv : List Bytes) (path : Bytes) (i argc : ℕ)
    → i + length argv ≡ argc
    → join_args path i argc argv ≡ path ++ spaced argv
unfolding join_args
join_args-spaced [] path i argc n = sym (append-nil path)
join_args-spaced (arg ∷ []) path i argc n =
    let last : ltb (i + 1) argc ≡ false = ground arith in rw (last, append-nil arg) refl
join_args-spaced (arg ∷ (next ∷ argv)) path i argc n =
    let more : ltb (i + 1) argc ≡ true = ground arith in
    rw more (
      join_args-spaced (next ∷ argv) (path ++ (arg ++ b' ' ∷ [])) (i + 1) argc (omega arith)
      ∙ append_assoc path (arg ++ b' ' ∷ []) (spaced (next ∷ argv))
      ∙ ap (λ r. path ++ r) (append_assoc arg (b' ' ∷ []) (spaced (next ∷ argv))))

launch-command :
    (access : Bytes → Bool) (popen : Bytes → Option ℕ) (path : Bytes) (argv : List Bytes)
    → launch access popen path argv ≡ (
        if access path
        then (answer (popen (path ++ (b' ' ∷ spaced argv))), some (path ++ (b' ' ∷ spaced argv)))
        else (invalid_path, none))
unfolding launch
launch-command access popen path argv =
    let command : join_args (path ++ b' ' ∷ []) 0 (length argv) argv
        ≡ path ++ (b' ' ∷ spaced argv) =
      join_args-spaced argv (path ++ b' ' ∷ []) 0 (length argv) (omega arith)
      ∙ append_assoc path (b' ' ∷ []) (spaced argv) in
    rw command refl

-- wimp_start_executable_process of a program whose own path is shorter than 1024 bytes and has a slash
-- behind its first byte: where the executable is found in the directory of the program, the command
-- line is its path, a space, and the arguments with a space between each two, and the result says
-- whether the shell was started; otherwise nothing is started and the result is an invalid path.
pub start_executable_process-command :
    (front name executable : Bytes) (argv : List Bytes) (access : Bytes → Bool)
    (popen : Bytes → Option ℕ)
    → IsText (front ++ b'/' ∷ name)
    → IsName name
    → 0 < length front
    → length (front ++ b'/' ∷ name) < 1024
    → start_executable_process (some (front ++ b'/' ∷ name)) access popen executable argv
      ≡ some (
          if access ((front ++ b'/' ∷ []) ++ executable)
          then (
            answer (popen (((front ++ b'/' ∷ []) ++ executable) ++ (b' ' ∷ spaced argv))),
            some (((front ++ b'/' ∷ []) ++ executable) ++ (b' ' ∷ spaced argv)),
          )
          else (invalid_path, none))
unfolding start_executable_process launch
start_executable_process-command front name executable argv access popen is plain there short =
    let dir : Bytes = front ++ b'/' ∷ [] in
    let size = length-append front (b'/' ∷ name) in
    let shape : dir ++ name ≡ front ++ b'/' ∷ name = append_assoc front (b'/' ∷ []) name in
    let (is_dir, is_name) = IsText-split dir name (rw shape is) in
    let left : ℕ = 1024 - length front - 1 in
    let text : text_at (dir ++ zeros left) ≡ some dir =
      ap (λ r. text_at (dir ++ r)) (zeros-suc left (omega (arith, size)))
      ∙ text_at-append dir (zeros (left - 1)) is_dir in
    rw (executable_directory front name is plain there short, text)
      (ap some (launch-command access popen (dir ++ executable) argv))
