-- ===== src/SharedData/Reuse.antt =====
-- Reserving a slot, a fresh one and one that has been used before (wimp_data_reserve,
-- wimp_data_unlink_from_data).
use wimp.Prelude.{
  ℕ, zero, suc, false, set, ap, ◌+◌, ◌<◌, ◌≡◌, ◌≢◌, refl, sym, ◌∙◌, arith, none, some, List, [],
  ◌∷◌, Bool, true, not, ◌||◌, ◌==◌, ==_iff, leb, if◌then◌else◌, is_some, length, get_or,
  get_or-set_self, get_or-set_ne, Bool-cases, Option-cases, inl, inr,
}
use wimp.Prelude.Bytes.{Bytes}
use wimp.HashString
use wimp.Arena
use wimp.Arena.{Arena}
use wimp.SharedData.{
  success, DataSlot, DataTable, empty_slot, slot, find_free, reserve_slot, reserve, unlink_slot,
  find_named, unlink_from_data,
}

-- The slot that is found is in the table and free.
find_free-free :
    (slots : List DataSlot) (k i : ℕ)
    → find_free slots k ≡ some i
    → (j : ℕ) × (i ≡ k + j) × (j < length slots) × ((get_or slots j empty_slot).share_counter ≡ 0)
unfolding find_free
find_free-free [] k i e = cc e
find_free-free (s ∷ slots) k i e = elim (Bool-cases (s.share_counter == 0)) [
  | inl unused ↦
      let same : k ≡ i = cc (rw unused at e) in
      (0, sym same ∙ omega arith, omega arith, (==_iff s.share_counter 0).0 unused)
  | inr shared ↦
      let (j, at, within, free) = find_free-free slots (k + 1) i (rw shared at e) in
      (suc j, omega (arith, at), omega arith, free)
]

-- The arena of a slot that is reserved: a new one only if the slot was never used.
abbrev pub reserved_arena : Arena → ℕ → Arena
reserved_arena old size =
    if not (old.capacity == 0) || is_some old.block
    then old
    else record old { capacity = size; size = 0; block = none }

init-reserved_arena :
    (old : Arena) (size : ℕ) → (Arena.init old none size).1 ≡ reserved_arena old size
unfolding Arena.init
init-reserved_arena old size = elim (Bool-cases (not (old.capacity == 0) || is_some old.block)) [
  | inl e ↦ rw e refl
  | inr e ↦ rw e refl
]

-- Reserving in the slot that is found.
reserve-found :
    (shm i size : ℕ) (entry key : Bool) (table : DataTable) (name : Bytes)
    → find_free table.slots 0 ≡ some i
    → length name < 64
    → (table' : DataTable) × (reserve (some shm) entry key table name size ≡ some (success, table'))
      × (slot table' i ≡ record {
        share_counter = 1;
        size = size;
        data_arena = reserved_arena (slot table i).data_arena size;
        name = name;
      })
      × ((j : ℕ) → i ≢ j → slot table' j ≡ slot table j)
unfolding reserve reserve_slot
reserve-found shm i size entry key table name at short =
    let fits : leb (length name + 1) 64 ≡ true = ground arith in
    let (j, index, within, free) = find_free-free table.slots 0 i at in
    let here : i ≡ j = omega (arith, index) in
    let unused : (slot table i).share_counter ≡ 0 = rw here free in
    (
      (reserve_slot (some shm) entry key table name size i).1,
      rw (at, fits, reserve) refl,
      get_or-set_self table.slots i _ empty_slot (omega arith)
          ∙ rw (unused, init-reserved_arena (slot table i).data_arena size) refl,
      λ k ne. get_or-set_ne table.slots i k _ empty_slot ne,
    )

-- The first free slot is the one that is found.
find_free-first :
    (slots : List DataSlot) (k i : ℕ)
    → i < length slots
    → (get_or slots i empty_slot).share_counter ≡ 0
    → ((j : ℕ) → j < i → (get_or slots j empty_slot).share_counter ≢ 0)
    → find_free slots k ≡ some (k + i)
unfolding find_free
find_free-first [] k i within unused shared = absurd (omega arith)
find_free-first (s ∷ slots) k zero within unused shared =
    let free : (s.share_counter == 0) ≡ true = ground (arith, unused) in
    rw free (ap some (omega arith))
find_free-first (s ∷ slots) k (suc i) within unused shared =
    let taken : (s.share_counter == 0) ≡ false = ground (arith, shared 0 (omega arith)) in
    rw taken (
      find_free-first slots (k + 1) i (omega arith) unused (λ j h. shared (suc j) (omega arith))
      ∙ ap some (omega arith))

-- wimp_data_reserve, where slot `i` is free, all slots before it are shared, the name fits and there is
-- memory: slot `i` is shared once under the name and with the size, and no other slot is changed. Its
-- arena is set up for the size only if the slot never had one; otherwise it is the old arena, with
-- the old capacity.
pub reserve-arena :
    (shm i size : ℕ) (entry key : Bool) (table : DataTable) (name : Bytes)
    → i < length table.slots
    → (slot table i).share_counter ≡ 0
    → ((j : ℕ) → j < i → (slot table j).share_counter ≢ 0)
    → length name < 64
    → (table' : DataTable) × (reserve (some shm) entry key table name size ≡ some (success, table'))
      × (slot table' i ≡ record {
        share_counter = 1;
        size = size;
        data_arena = reserved_arena (slot table i).data_arena size;
        name = name;
      })
      × ((j : ℕ) → i ≢ j → slot table' j ≡ slot table j)
reserve-arena shm i size entry key table name within unused shared short =
    let found : find_free table.slots 0 ≡ some i =
      find_free-first table.slots 0 i within unused shared ∙ ap some (omega arith) in
    reserve-found shm i size entry key table name found short

unlink_slot-last :
    (s : DataSlot)
    → s.share_counter ≡ 1
    → unlink_slot s ≡ record {
      share_counter = 0;
      size = 0;
      data_arena = reserved_arena s.data_arena 0;
      name = [];
    }
unfolding unlink_slot
unlink_slot-last s one = rw (one, init-reserved_arena s.data_arena 0, unlink_slot) refl

reserved_arena_used : (old : Arena) (size : ℕ) → old.capacity ≢ 0 → reserved_arena old size ≡ old
reserved_arena_used old size used =
    let has_capacity : (old.capacity == 0) ≡ false = ground (arith, used) in rw has_capacity refl

unlink_from_data-slot :
    (table table' : DataTable) (name : Bytes) (i : ℕ)
    → find_named table.slots name 0 ≡ some i
    → i < length table.slots
    → unlink_from_data table name ≡ some table'
    → slot table' i ≡ unlink_slot (slot table i)
unfolding unlink_from_data
unlink_from_data-slot table table' name i at within run =
    elim (Option-cases (HashString.remove table.cache_map name)) [
      | inl gone ↦ cc (rw (at, unlink_from_data, gone) at run)
      | inr (removed, e) ↦
          let after : DataTable = record {
            slots = set table.slots i (unlink_slot (slot table i));
            cache = set table.cache i none;
            cache_map = removed.1;
          } in
          let same : after ≡ table' = cc (rw (at, unlink_from_data, e) at run) in
          ap (λ (t : DataTable). slot t i) (sym same)
          ∙ get_or-set_self table.slots i (unlink_slot (slot table i)) empty_slot within
    ]

abbrev with_arena : ℕ → Bytes → Arena → DataSlot
with_arena size name r = record { share_counter = 1; size = size; data_arena = r; name = name }

-- Shared data that its last process unlinks, with an arena of some capacity, and new data that is
-- reserved in the slot it leaves: the new data has its own size and name, but the arena of the old
-- data, capacity, pointer and all.
pub unlink_from_data-reserve :
    (table table' : DataTable) (old_name name : Bytes) (i shm size : ℕ) (entry key : Bool)
    → find_named table.slots old_name 0 ≡ some i
    → i < length table.slots
    → (slot table i).share_counter ≡ 1
    → (slot table i).data_arena.capacity ≢ 0
    → unlink_from_data table old_name ≡ some table'
    → find_free table'.slots 0 ≡ some i
    → length name < 64
    → (table'' : DataTable) × (reserve (some shm) entry key table' name size
        ≡ some (success, table''))
      × (slot table'' i ≡ record {
        share_counter = 1;
        size = size;
        data_arena = (slot table i).data_arena;
        name = name;
      })
unlink_from_data-reserve table table' old_name name i shm size entry key at within one used run free
      short =
    let old : Arena = (slot table i).data_arena in
    let left : (slot table' i).data_arena ≡ old =
      ap (λ (s : DataSlot). s.data_arena)
        (unlink_from_data-slot table table' old_name i at within run
          ∙ unlink_slot-last (slot table i) one)
      ∙ reserved_arena_used old 0 used in
    let (table'', run', is, others) = reserve-found shm i size entry key table' name free short in
    let kept : reserved_arena (slot table' i).data_arena size ≡ old =
      ap (λ (r : Arena). reserved_arena r size) left ∙ reserved_arena_used old size used in
    (table'', run', is ∙ ap (with_arena size name) kept)
