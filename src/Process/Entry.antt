-- ===== src/Process/Entry.antt =====
-- The arguments of a new process (wimp_get_entry and wimp_free_entry of wimp/src/wimp_process.c), with
-- the blocks that they are kept in. `argc` is not negative.
use wimp.Prelude.{
  ℕ, zero, suc, ◌+◌, ◌*◌, ◌%◌, ◌^◌, Option, none, some, List, [], ◌∷◌, ◌==◌, leb, if◌then◌else◌,
  ◌>>=◌, length, set, replicate, get_elem?,
}
use wimp.Prelude.Bytes.{Bytes, c_string}

-- WimpMainEntry, its array of pointers, and the text of one argument.
pub data Block : Type 0 where
  main_entry : (argc : ℕ) (argv : Option ℕ) → Block
  pointers : List (Option ℕ) → Block
  argument : Bytes → Block

abbrev pub Heap : Type 0
Heap = ℕ → Option Block

unfoldable pub write : Heap → ℕ → Option Block → Heap
write heap p b a = if p == a then b else heap a

-- The bytes that a block takes, with words of eight bytes.
abbrev pub size_of : Block → ℕ
size_of (main_entry argc argv) = 16
size_of (pointers ps) = 8 * length ps
size_of (argument text) = length text

-- The first writes to a block of the size asked for; they must fit it.
unfoldable pub fill : Heap → ℕ → ℕ → Block → Option Heap
fill heap p size b = if leb (size_of b) size then some (write heap p (some b)) else none

-- `free`; freeing twice is a bad access.
unfoldable pub free : Heap → ℕ → Option Heap
free heap p = heap p >>= λ _. some (write heap p none)

-- `argv[i] = p`
unfoldable pub set_argument : Heap → ℕ → ℕ → Option ℕ → Option Heap
set_argument heap argv i p = heap argv >>= λ b. elim b [
  | main_entry _ _ ↦ none
  | pointers ps ↦ some (write heap argv (some (pointers (set ps i p))))
  | argument _ ↦ none
]

-- The loop that gives back the arguments so far, the last first.
unfoldable pub free_all : Heap → List ℕ → Option Heap
free_all heap [] = some heap
free_all heap (p ∷ ps) = free heap p >>= λ heap'. free_all heap' ps

-- The end of a call that fails in the loop; `held` are the arguments so far, latest first.
unfoldable pub give_up : Heap → (entry argv : ℕ) → List ℕ → Option Heap
give_up heap entry argv held = do
  texts ← free_all heap held
  array ← free texts argv
  free array entry

module _ (malloc : Heap → ℕ → Option ℕ) where
  -- `for (i = 0; i < argc; ++i)`, with `left` arguments to go.
  unfoldable pub copy_arguments :
      (left i : ℕ)
      → List (Option Bytes)
      → (entry argv : ℕ) → List ℕ
      → Heap
      → Option (Option ℕ × Heap)
  copy_arguments zero i args entry argv held heap =
      set_argument heap argv i none >>= λ heap'. some (some entry, heap')
  copy_arguments (suc left) i [] entry argv held heap = none
  copy_arguments (suc left) i (none ∷ args) entry argv held heap =
      give_up heap entry argv held >>= λ heap'. some (none, heap')
  copy_arguments (suc left) i (some arg ∷ args) entry argv held heap =
      elim (malloc heap (length arg + 1)) [
        | none ↦ give_up heap entry argv held >>= λ heap'. some (none, heap')
        | some p ↦ do
          filled ← fill heap p (length arg + 1) (argument (c_string arg))
          heap' ← set_argument filled argv i (some p)
          copy_arguments left (i + 1) args entry argv (p ∷ held) heap'
      ]

  -- The new array holds whatever was in memory; NULL stands for it.
  unfoldable pub get_entry : ℕ → List (Option Bytes) → Heap → Option (Option ℕ × Heap)
  get_entry argc args heap = elim (malloc heap 16) [
    | none ↦ some (none, heap)
    | some entry ↦ fill heap entry 16 (main_entry argc none) >>= λ with_entry.
        elim (malloc with_entry ((argc * 8 + 8) % 2 ^ 64)) [
          | none ↦ free with_entry entry >>= λ heap'. some (none, heap')
          | some argv ↦
              (fill with_entry argv ((argc * 8 + 8) % 2 ^ 64) (pointers (replicate (argc + 1) none))
                >>= λ with_array.
                    copy_arguments argc 0 args entry argv []
                      (write with_array entry (some (main_entry argc (some argv)))))
        ]
  ]

-- `for (i = 0; i < entry->argc; ++i) free(entry->argv[i])`
unfoldable pub free_arguments : ℕ → ℕ → List (Option ℕ) → Heap → Option Heap
free_arguments zero i ps heap = some heap
free_arguments (suc left) i ps heap = elim (get_elem? ps i) [
  | none ↦ none
  | some p ↦ do
    heap' ← elim p [ none ↦ some heap | some a ↦ free heap a ]
    free_arguments left (i + 1) ps heap'
]

-- The array of pointers is not given back.
unfoldable pub free_entry : ℕ → Heap → Option Heap
free_entry entry heap = heap entry >>= λ b. elim b [
  | pointers _ ↦ none
  | argument _ ↦ none
  | main_entry argc argv ↦ argv >>= λ array. heap array >>= λ c. elim c [
    | main_entry _ _ ↦ none
    | argument _ ↦ none
    | pointers ps ↦ free_arguments argc 0 ps heap >>= λ heap'. free heap' entry
  ]
]
