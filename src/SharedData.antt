-- ===== src/SharedData.antt =====
-- The shared data table of wimp/src/wimp_data.c: slots in memory that all processes share, and what
-- one process keeps beside it, the handles of the segments that it has linked and a map from their
-- names to slots. plibsys gives handles or fails. `none` is a bad access: a write outside a slot, or a
-- read through NULL in the hash table.
pub mod Reuse
pub mod Access
pub mod Freed
pub mod Life
pub mod Returned
use wimp.Prelude.{
  ℕ, zero, suc, ◌+◌, ◌-◌, ◌%◌, ◌^◌, Option, none, some, List, [], ◌∷◌, Bool, true, false, not, ◌&&◌,
  ◌||◌, ◌==◌, leb, if◌then◌else◌, ◌>>=◌, length, get_or, set, map, is_some,
}
use wimp.Prelude.Bytes.{Bytes, text_eq}
use wimp.HashString
use wimp.HashString.{HashString}
use wimp.Arena
use wimp.Arena.{Arena, sarena}

abbrev pub slot_max_name_bytes : ℕ
slot_max_name_bytes = 64

-- WimpDataResult
pub data DataResult : Type 0 where
  success fail : DataResult

-- WimpDataSlot, the name up to its terminator.
pub record DataSlot : Type 0 where
  pub share_counter : ℕ
  pub size : ℕ
  pub data_arena : Arena
  pub name : Bytes

-- The table, with the process's own cache and map.
pub record DataTable : Type 0 where
  pub slots : List DataSlot
  pub cache : List (Option ℕ)
  pub cache_map : HashString ℕ

-- WimpDataArena
pub record DataArena : Type 0 where
  pub arena : Arena
  pub shm : Option ℕ

abbrev pub empty_slot : DataSlot
empty_slot = record { share_counter = 0; size = 0; data_arena = sarena; name = [] }

abbrev pub slot : DataTable → ℕ → DataSlot
slot table i = get_or table.slots i empty_slot

-- The first slot from `i` on that nobody shares.
unfoldable pub find_free : List DataSlot → ℕ → Option ℕ
find_free [] i = none
find_free (s ∷ slots) i = if s.share_counter == 0 then some i else find_free slots (i + 1)

-- The first slot from `i` on that is shared under the name.
unfoldable pub find_named : List DataSlot → Bytes → ℕ → Option ℕ
find_named [] name i = none
find_named (s ∷ slots) name i =
    if not (s.share_counter == 0) && text_eq s.name name
    then some i
    else find_named slots name (i + 1)

-- The map after HashString_add, whatever that returns.
unfoldable pub map_add : (entry key : Bool) → HashString ℕ → Bytes → ℕ → HashString ℕ
map_add entry key h name i = elim (HashString.add entry key (some h) (some name) i).1 [
  | none ↦ h
  | some h' ↦ h'
]

-- The slot, its name written before the memory is asked for.
unfoldable pub reserve_slot :
    Option ℕ → (entry key : Bool) → DataTable → Bytes → ℕ → ℕ → DataResult × DataTable
reserve_slot none entry key table name size i =
    (fail, record table { slots = set table.slots i (record (slot table i) { name = name }) })
reserve_slot (some shm) entry key table name size i =
    let old = slot table i in
    (
      success,
      record {
        slots = set table.slots i (record {
          share_counter = (old.share_counter + 1) % 2 ^ 32;
          size = size;
          data_arena = (Arena.init old.data_arena none size).1;
          name = name;
        });
        cache = set table.cache i (some shm);
        cache_map = map_add entry key table.cache_map name i;
      },
    )

-- wimp_data_reserve
unfoldable pub reserve :
    Option ℕ → (entry key : Bool) → DataTable → Bytes → ℕ → Option (DataResult × DataTable)
reserve shm entry key table name size = elim (find_free table.slots 0) [
  | none ↦ some (fail, table)
  | some i ↦
      if leb (length name + 1) slot_max_name_bytes
      then some (reserve_slot shm entry key table name size i)
      else none
]

-- wimp_data_link_to_data; what `p_shm_new` returns is kept without a look at it.
unfoldable pub link_to_data :
    Option ℕ → (entry key : Bool) → DataTable → Bytes → DataResult × DataTable
link_to_data shm entry key table name = elim (find_named table.slots name 0) [
  | none ↦ (fail, table)
  | some i ↦ if is_some (get_or table.cache i none) then (fail, table) else (
    success,
    record {
      slots =
          set table.slots i
            (record (slot table i) { share_counter = ((slot table i).share_counter + 1) % 2 ^ 32 });
      cache = set table.cache i shm;
      cache_map = map_add entry key table.cache_map name i;
    },
  )
]

-- The slot with one process less; it is cleared where the counter, an int, is not above 0 then.
unfoldable pub unlink_slot : DataSlot → DataSlot
unlink_slot s =
    let left = (s.share_counter + (2 ^ 32 - 1)) % 2 ^ 32 in
    if (left == 0) || leb (2 ^ 31) left
    then record {
      share_counter = 0;
      size = 0;
      data_arena = (Arena.init s.data_arena none 0).1;
      name = [];
    }
    else record s { share_counter = left }

-- wimp_data_unlink_from_data
unfoldable pub unlink_from_data : DataTable → Bytes → Option DataTable
unlink_from_data table name = elim (find_named table.slots name 0) [
  | none ↦ some table
  | some i ↦
      (HashString.remove table.cache_map name >>= λ removed. some (record {
        slots = set table.slots i (unlink_slot (slot table i));
        cache = set table.cache i none;
        cache_map = removed.1;
      }))
]

-- wimp_data_access: a copy of the slot's arena, on the segment that the process has linked.
-- `address` is where the segment is mapped.
unfoldable pub access : (Option ℕ → Option ℕ) → DataTable → Bytes → DataResult × Option DataArena
access address table name = elim (HashString.find table.cache_map name) [
  | none ↦ (fail, none)
  | some entry ↦
      let shm = get_or table.cache entry.value none in
      (
        success,
        some (record {
          arena = record (slot table entry.value).data_arena { block = address shm };
          shm = shm;
        }),
      )
]

-- wimp_data_stop_access: the copy goes back to the slot, without its address.
unfoldable pub stop_access : DataTable → DataArena → Bytes → DataTable × DataArena
stop_access table arena name = elim (HashString.find table.cache_map name) [
  | none ↦ (table, arena)
  | some entry ↦ (
    record table {
      slots =
          set table.slots entry.value
            (record (slot table entry.value) { data_arena = record arena.arena { block = none } });
    },
    record arena { arena = sarena },
  )
]
