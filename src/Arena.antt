-- ===== src/Arena.antt =====
-- The arena of wimp/src/utility/simple_arena.c. Pointers into the arena are offsets; the block that
-- it stands on is an address. The assertion of `alloc` is kept: `none` is a run that fails it.
pub mod Offsets
use wimp.Prelude.{
  ℕ, ◌+◌, ◌%◌, ◌^◌, Option, none, some, List, [], ◌∷◌, Bool, true, false, ◌||◌, not, ◌==◌, leb,
  if◌then◌else◌, is_some, ◌>>=◌,
}

-- SArena
pub record Arena : Type 0 where
  pub size : ℕ
  pub capacity : ℕ
  pub pointer : ℕ
  pub block : Option ℕ

-- `sarena()`
abbrev pub sarena : Arena
sarena = record { size = 0; capacity = 0; pointer = 0; block = none }

-- The pointer of the arena is not touched.
unfoldable pub init : Arena → Option ℕ → ℕ → Bool × Arena
init arena ptr capacity =
    if not (arena.capacity == 0) || is_some arena.block
    then (false, arena)
    else (true, record arena { capacity = capacity; size = 0; block = ptr })

-- What `malloc` returned is given; the last component is the block that is freed.
unfoldable pub init_new : Option ℕ → Arena → ℕ → Bool × Arena × Option ℕ
init_new none arena capacity = (false, arena, none)
init_new (some fresh) arena capacity =
    let (result, arena') = init arena (some fresh) capacity in
    (result, arena', if result then none else some fresh)

-- The arena, and the block that is freed.
unfoldable pub free : Arena → Arena × Option ℕ
free arena = (record arena { capacity = 0; size = 0; block = none }, arena.block)

-- An offset, or NULL, which is 0.
unfoldable pub alloc : Arena → ℕ → Option (ℕ × Arena)
alloc arena size =
    let new_pointer = (arena.pointer + size) % 2 ^ 64 in
    if leb new_pointer arena.capacity
    then (if leb arena.capacity new_pointer
        then some (0, arena)
        else some (
          arena.pointer,
          record arena { pointer = new_pointer; size = (arena.size + size) % 2 ^ 64 },
        ))
    else none

-- One call after the other: the offsets that were returned.
unfoldable pub alloc_all : Arena → List ℕ → Option (List ℕ × Arena)
alloc_all arena [] = some ([], arena)
alloc_all arena (size ∷ sizes) = do
  first ← alloc arena size
  others ← alloc_all first.1 sizes
  some (first.0 ∷ others.0, others.1)
