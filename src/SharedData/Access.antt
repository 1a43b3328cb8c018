-- ===== src/SharedData/Access.antt =====
-- What one access leaves for the next (wimp_data_access, wimp_data_stop_access).
use wimp.Prelude.{
  ℕ, ◌<◌, ◌≡◌, ◌≢◌, refl, Option, none, some, length, get_or, get_or-set_self, get_or-set_ne,
}
use wimp.Prelude.Bytes.{Bytes}
use wimp.HashString
use wimp.HashString.{Entry}
use wimp.SharedData.{success, DataSlot, DataTable, DataArena, empty_slot, slot, access, stop_access}

-- wimp_data_stop_access and then wimp_data_access, under a name that is linked: the next access gets
-- the arena as the last one left it, at the address where the segment is mapped for the process that
-- asks. No other slot is changed.
pub access-stop_access :
    (address : Option ℕ → Option ℕ) (table : DataTable) (arena : DataArena) (name : Bytes)
    (e : Entry ℕ)
    → HashString.find table.cache_map name ≡ some e
    → e.value < length table.slots
    → (access address (stop_access table arena name).0 name ≡ (
      success,
      some (record {
        arena = record arena.arena { block = address (get_or table.cache e.value none) };
        shm = get_or table.cache e.value none;
      }),
    ))
      × ((j : ℕ) → e.value ≢ j → slot (stop_access table arena name).0 j ≡ slot table j)
unfolding access stop_access
access-stop_access address table arena name e at within =
    let kept : DataSlot = record (slot table e.value) {
      data_arena = record arena.arena { block = none };
    } in
    let here = get_or-set_self table.slots e.value kept empty_slot within in
    (
      rw (at, stop_access) (rw (at, access) (rw here refl)),
      λ j ne. rw (at, stop_access) (get_or-set_ne table.slots e.value j kept empty_slot ne),
    )
