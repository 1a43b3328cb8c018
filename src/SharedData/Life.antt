-- ===== src/SharedData/Life.antt =====
-- How a process comes to the shared data table and leaves it, and how the table is given back
-- (wimp_data_init, wimp_data_link_to_process, wimp_data_unlink_from_process and wimp_data_free of
-- wimp/src/wimp_data.c, with HashString_destroy). `none` is a read through NULL.
use wimp.Prelude.{
  ℕ, zero, suc, ◌+◌, ◌*◌, ◌^◌, Option, none, some, List, [], ◌∷◌, ◌++◌, Bool, true, false, not,
  ◌&&◌, ◌||◌, ltb, leb, if◌then◌else◌, is_some, map, get_or, set, replicate,
}
use wimp.Prelude.Bytes.{Bytes, text_eq}
use wimp.HashString
use wimp.HashString.{HashString, Entry, Chain}
use wimp.SharedData.{DataResult, success, fail, DataSlot, DataTable, empty_slot, slot, link_to_data}

abbrev pub max_shared_slots : ℕ
max_shared_slots = 64

-- TABLE_LENGTH, with words of eight bytes.
abbrev pub table_length : ℕ
table_length = (4 + 4 + 8 + 4 * 8 + 64) * max_shared_slots

-- What p_shm_new gives: a handle or NULL, whether it reports an error, and what p_shm_get_size says.
pub record Segment : Type 0 where
  pub handle : Option ℕ
  pub error : Bool
  pub size : ℕ

pub data ShmCall : Type 0 where
  take_ownership shm_free : Option ℕ → ShmCall

-- s_DataTable, s_MemoryName, s_IsTableLinked, s_DataTableCache and s_DataTableCacheMap.
pub record Attachment : Type 0 where
  pub shm : Option ℕ
  pub memory_name : Option Bytes
  pub is_linked : Bool
  pub cache : List (Option ℕ)
  pub cache_map : Option (HashString ℕ)

-- wimp_create_fresh_shm: a segment that is left over is removed first.
unfoldable pub create_fresh_shm : Segment → Segment → Segment × List ShmCall
create_fresh_shm first second = (
  record second { error = first.error || second.error },
  take_ownership first.handle ∷ shm_free first.handle ∷ [],
)

-- The sizes and the arenas of the slots are what the memory holds.
abbrev pub unshared : DataSlot → DataSlot
unshared s = record s { share_counter = 0; name = [] }

-- wimp_data_init; `slots` is the memory of the new segment. The last two allocations are those of the
-- map.
unfoldable pub data_init :
    Segment
    → Segment
    → (container table : Bool) → List DataSlot
    → Attachment
    → DataResult × List DataSlot × Attachment × List ShmCall
data_init first second container table slots a =
    let (shm, calls) = create_fresh_shm first second in
    if shm.error || ltb shm.size table_length
    then (fail, slots, a, calls ++ take_ownership shm.handle ∷ shm_free shm.handle ∷ [])
    else (
      success,
      map unshared slots,
      record a {
        shm = shm.handle;
        is_linked = true;
        cache_map = HashString.create container table max_shared_slots;
      },
      calls,
    )

-- wimp_data_link_to_process. Without memory for the name the process is not linked, but has the
-- handle and the map.
unfoldable pub link_to_process :
    Segment
    → (container table memory : Bool) → Bytes
    → Attachment
    → DataResult × Attachment × List ShmCall
link_to_process segment container table memory memory_name a =
    let mapped : Attachment = record a {
      shm = segment.handle;
      cache = replicate max_shared_slots none;
      cache_map = HashString.create container table max_shared_slots;
    } in
    if a.is_linked
    then (fail, a, [])
    else (if segment.error
        then (fail, a, shm_free segment.handle ∷ [])
        else (if memory
            then (success, record mapped { memory_name = some memory_name; is_linked = true }, [])
            else (fail, record mapped { memory_name = none }, [])))

-- The keys and entries that HashString_destroy frees, chain by chain.
unfoldable pub destroy_chains {ℓ} : {V : Type ℓ} → List (Chain V) → List (Entry V)
destroy_chains [] = []
destroy_chains (chain ∷ chains) = chain ++ destroy_chains chains

unfoldable pub destroy {ℓ} : {V : Type ℓ} → HashString V → List (Entry V)
destroy h = destroy_chains h.table

-- `if (s_DataTableCache[i] != NULL)`
unfoldable pub free_cached : List (Option ℕ) → List ShmCall
free_cached [] = []
free_cached (none ∷ cache) = free_cached cache
free_cached (some shm ∷ cache) = shm_free (some shm) ∷ free_cached cache

-- wimp_data_unlink_from_process: the process's side, the calls, and the entries of the map that are
-- freed. The counters of the slots stay.
unfoldable pub unlink_from_process :
    Attachment → Option (Attachment × List ShmCall × List (Entry ℕ))
unlink_from_process a =
    if a.is_linked
    then elim a.cache_map as (λ _. Option (Attachment × List ShmCall × List (Entry ℕ))) [
      | none ↦ none
      | some h ↦ some (
        record a {
          shm = none;
          is_linked = false;
          cache = map (λ _. none) a.cache;
          cache_map = none;
        },
        shm_free a.shm ∷ free_cached a.cache,
        destroy h,
      )
    ]
    else some (a, [], [])

-- What p_shm_new gives for each slot that is linked on the way, and the allocations for the map.
abbrev pub Openings : Type 0
Openings = ℕ → Option ℕ × Bool × Bool

-- One round of the loop of wimp_data_free; the counter is signed.
unfoldable pub free_slot : Openings → ℕ → DataTable → DataTable × List ShmCall
free_slot open_shm i t =
    let (shm, entry, key) = open_shm i in
    let name = (slot t i).name in
    let linked =
      if not (is_some (get_or t.cache i none)) && not (text_eq name [])
      then (link_to_data shm entry key t name).1
      else t in
    let handle = get_or linked.cache i none in
    if leb (2 ^ 31) (slot t i).share_counter then (t, []) else (
      record linked { cache = set linked.cache i none },
      take_ownership handle ∷ shm_free handle ∷ [],
    )

unfoldable pub free_slots : Openings → (left i : ℕ) → DataTable → DataTable × List ShmCall
free_slots open_shm zero i t = (t, [])
free_slots open_shm (suc left) i t =
    let (freed, calls) = free_slot open_shm i t in
    let (end, others) = free_slots open_shm left (i + 1) freed in (end, calls ++ others)

-- wimp_data_free
unfoldable pub data_free :
    Openings
    → List DataSlot
    → Attachment
    → Option (List DataSlot × Attachment × List ShmCall × List (Entry ℕ))
data_free open_shm slots a =
    if a.is_linked
    then elim a.cache_map
        as (λ _. Option (List DataSlot × Attachment × List ShmCall × List (Entry ℕ))) [
          | none ↦ none
          | some h ↦
              let (end, calls) =
                free_slots open_shm max_shared_slots 0
                  (record { slots = slots; cache = a.cache; cache_map = h }) in
              some (
                map (λ _. empty_slot) end.slots,
                record a { shm = none; is_linked = false; cache = end.cache; cache_map = none },
                calls,
                destroy end.cache_map,
              )
        ]
    else some (slots, a, [], [])
