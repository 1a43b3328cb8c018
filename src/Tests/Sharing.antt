-- ===== src/Tests/Sharing.antt =====
-- A table of two slots: one that is shared, and one that has been used before.
use wimp.Prelude.{ℕ, zero, suc, ◌<◌, ◌≡◌, ◌≢◌, refl, arith, none, some, [], ◌∷◌, true}
use wimp.Prelude.Bytes.{Bytes, text_eq}
use wimp.HashString
use wimp.HashString.{HashString, Entry}
use wimp.Arena
use wimp.Arena.{Arena}
use wimp.SharedData.{
  success, DataSlot, DataTable, DataArena, slot, find_free, find_named, reserve, unlink_from_data,
  unlink_slot, access, stop_access,
}
use wimp.SharedData.Access.{access-stop_access}
use wimp.SharedData.Reuse.{reserve-arena, unlink_from_data-reserve}

abbrev shapes : Bytes
shapes = 0x73 ∷ []

abbrev sounds : Bytes
sounds = 0x74 ∷ []

abbrev arena_of : ℕ → ℕ → Arena
arena_of capacity pointer = record {
  size = pointer;
  capacity = capacity;
  pointer = pointer;
  block = none;
}

abbrev shared_slot : DataSlot
shared_slot = record { share_counter = 1; size = 100; data_arena = arena_of 100 20; name = shapes }

-- Left behind by data of fifty bytes.
abbrev used_slot : DataSlot
used_slot = record { share_counter = 0; size = 0; data_arena = arena_of 50 40; name = [] }

abbrev two_slots : DataTable
two_slots = record {
  slots = shared_slot ∷ used_slot ∷ [];
  cache = some 5 ∷ none ∷ [];
  cache_map = record { size = 1; table = (record { key = shapes; value = 0 } ∷ []) ∷ [] };
}

reserve-arena_example :
    (table' : DataTable) × (reserve (some 6) true true two_slots sounds 20 ≡ some (success, table'))
    × (slot table' 1
        ≡ record { share_counter = 1; size = 20; data_arena = arena_of 50 40; name = sounds })
    × ((j : ℕ) → 1 ≢ j → slot table' j ≡ slot two_slots j)
reserve-arena_example =
    reserve-arena 6 1 20 true true two_slots sounds (omega arith) refl before (omega arith)
  where
    before : (j : ℕ) → j < 1 → (slot two_slots j).share_counter ≢ 0
    before zero h e = omega (arith, e)
    before (suc j) h e = omega (arith, h)

-- The first slot given up.
abbrev after_unlink : DataTable
after_unlink = record {
  slots =
      record { share_counter = 0; size = 0; data_arena = arena_of 100 20; name = [] }
      ∷ used_slot
      ∷ [];
  cache = none ∷ none ∷ [];
  cache_map = record { size = 1; table = [] ∷ [] };
}

unlink_from_data-reserve_example :
    (table'' : DataTable) × (reserve (some 6) true true after_unlink sounds 20
      ≡ some (success, table''))
    × (slot table'' 0
        ≡ record { share_counter = 1; size = 20; data_arena = arena_of 100 20; name = sounds })
unfolding find_free find_named unlink_from_data unlink_slot HashString.remove HashString.hash
    text_eq Arena.init
unlink_from_data-reserve_example =
    unlink_from_data-reserve two_slots after_unlink shapes sounds 0 6 20 true true refl
      (omega arith) refl (λ e. cc) refl refl (omega arith)

-- The process has the segment 5 at 700, and put ten bytes more into the arena.
abbrev lent : DataArena
lent = record {
  arena = record { size = 30; capacity = 100; pointer = 30; block = some 700 };
  shm = some 5;
}

access-stop_access_example :
    (access (λ _. some 800) (stop_access two_slots lent shapes).0 shapes ≡ (
      success,
      some (record {
        arena = record { size = 30; capacity = 100; pointer = 30; block = some 800 };
        shm = some 5;
      }),
    ))
    × ((j : ℕ) → 0 ≢ j → slot (stop_access two_slots lent shapes).0 j ≡ slot two_slots j)
unfolding HashString.find HashString.find_chain HashString.hash text_eq
access-stop_access_example =
    access-stop_access (λ _. some 800) two_slots lent shapes (record { key = shapes; value = 0 })
      refl (omega arith)
