-- ===== src/Arena/Offsets.antt =====
-- Where the blocks of an arena stand.
use wimp.Prelude.{
  ℕ, ◌+◌, ◌%◌, ◌^◌, ◌<◌, ◌≤◌, ◌≡◌, refl, arith, Option, some, List, [], ◌∷◌, true, false, leb,
}
use wimp.Arena.{Arena, init, free, alloc, alloc_all}

abbrev pub sum : List ℕ → ℕ
sum [] = 0
sum (n ∷ sizes) = n + sum sizes

-- Blocks of these sizes, each behind the last.
abbrev pub starts : ℕ → List ℕ → List ℕ
starts at [] = []
starts at (n ∷ sizes) = at ∷ starts (at + n) sizes

alloc-room :
    (arena : Arena) (size : ℕ)
    → arena.pointer + size < arena.capacity
    → arena.capacity < 2 ^ 64
    → arena.size + size < 2 ^ 64
    → alloc arena size
      ≡ some
          (arena.pointer, record arena { pointer = arena.pointer + size; size = arena.size + size })
unfolding alloc
alloc-room arena size room small small' =
    let pointer : (arena.pointer + size) % 2 ^ 64 ≡ arena.pointer + size = omega arith in
    let total : (arena.size + size) % 2 ^ 64 ≡ arena.size + size = omega arith in
    let within : leb (arena.pointer + size) arena.capacity ≡ true = ground arith in
    let left : leb arena.capacity (arena.pointer + size) ≡ false = ground arith in
    rw (pointer, total, within, left, alloc) refl

-- sarena_alloc, called any number of times, while less is asked for than the arena has behind its
-- pointer: the blocks stand one behind the other from the pointer on, so they do not overlap and end
-- before the capacity, and the size counts them.
pub alloc_all-starts :
    (sizes : List ℕ) (arena : Arena)
    → arena.pointer + sum sizes < arena.capacity
    → arena.capacity < 2 ^ 64
    → arena.size ≤ arena.pointer
    → alloc_all arena sizes
      ≡ some (
        starts arena.pointer sizes,
        record arena { pointer = arena.pointer + sum sizes; size = arena.size + sum sizes },
      )
unfolding alloc_all
alloc_all-starts [] arena room small counted =
    let same : arena.pointer + 0 ≡ arena.pointer = omega arith in
    let same' : arena.size + 0 ≡ arena.size = omega arith in rw (same, same') refl
alloc_all-starts (n ∷ sizes) arena room small counted =
    let next : Arena = record arena { pointer = arena.pointer + n; size = arena.size + n } in
    let rest = alloc_all-starts sizes next (omega arith) small (omega arith) in
    let pointer : arena.pointer + (n + sum sizes) ≡ arena.pointer + n + sum sizes = omega arith in
    let total : arena.size + (n + sum sizes) ≡ arena.size + n + sum sizes = omega arith in
    rw (alloc-room arena n (omega arith) small (omega arith), rest, pointer, total) refl

-- An arena that has been freed and initialised again goes on at the old pointer: what lies before it
-- is lost, and a smaller block than the pointer has no room at all.
pub init-pointer :
    (arena : Arena) (ptr : Option ℕ) (capacity size : ℕ)
    → arena.pointer + size < capacity
    → capacity < 2 ^ 64
    → (init (free arena).0 ptr capacity).0 ≡ true
      × ((arena' : Arena) × (alloc (init (free arena).0 ptr capacity).1 size
            ≡ some (arena.pointer, arena')))
unfolding init free
init-pointer arena ptr capacity size room small = (
  refl,
  (
    _,
    alloc-room (record { size = 0; capacity = capacity; pointer = arena.pointer; block = ptr }) size
        room small (omega arith),
  ),
)
