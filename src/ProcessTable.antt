-- ===== src/ProcessTable.antt =====
-- The process table of wimp/src/wimp_process_table.c: names to process data. The table holds
-- pointers, through which the server changes the data, so the data stands in a heap of its own.
-- `none` of `Option (...)` as a result is a bad access: a read through NULL in HashString_remove, or
-- data that is not there.
pub mod Laws
pub mod Remove
pub mod Update
use wimp.Prelude.{
  ℕ, zero, suc, ◌+◌, ◌-◌, ◌^◌, Option, none, some, List, [], ◌∷◌, Bool, true, false, ◌==◌, ltb,
  if◌then◌else◌, ◌>>=◌,
}
use wimp.Prelude.Bytes.{Bytes}
use wimp.HashString
use wimp.HashString.{
  HashString, Entry, Chain, AddStatus, added, key_exists, malloc_failed, null_pointer, RemoveStatus,
  removed, not_found,
}

-- WimpRelation
pub data Relation : Type 0 where
  unknown child parent independent : Relation

-- struct _WimpProcessData; the domain is what sdsnew gave, or NULL, the socket is a handle of plibsys, `process_active` a truth value.
pub record ProcessData : Type 0 where
  pub process_domain : Option Bytes
  pub process_connection : Option ℕ
  pub process_port : ℕ
  pub process_active : Bool
  pub process_relation : Relation

pub record ProcessTable : Type 0 where
  pub hash_table : HashString ℕ
  pub table_length : ℕ

-- The table and the memory that its pointers lead to.
pub record State : Type 0 where
  pub table : ProcessTable
  pub heap : ℕ → Option ProcessData

-- WimpProcessTableResult
pub data TableResult : Type 0 where
  success fail : TableResult

abbrev pub max_length : ℕ
max_length = 128

unfoldable pub write : (ℕ → Option ProcessData) → ℕ → Option ProcessData → ℕ → Option ProcessData
write heap p d a = if p == a then d else heap a

-- The result of HashString_create is used without a look at it.
unfoldable pub create_process_table : (container table : Bool) → Option ProcessTable
create_process_table container table = HashString.create container table max_length >>= λ h.
    some (record { hash_table = h; table_length = 0 })

-- wimp_process_data_free
unfoldable pub process_data_free : (ℕ → Option ProcessData) → ℕ → Option (ℕ → Option ProcessData)
process_data_free heap p = heap p >>= λ _. some (write heap p none)

-- The allocations of `add`: the data, the copy of the domain, and the entry and the key copy of HashString_add.
pub record Memory : Type 0 where
  pub process_data : Option ℕ
  pub domain : Bool
  pub entry : Bool
  pub key : Bool

-- The end of `add`, from the status of HashString_add on.
unfoldable pub add_ends :
    State → (ℕ → Option ProcessData) → AddStatus × Option (HashString ℕ) → TableResult × State
add_ends st heap (added, some h) = (
  success,
  record {
    table = record { hash_table = h; table_length = st.table.table_length + 1 };
    heap = heap;
  },
)
add_ends st heap _ = (fail, record st { heap = heap })

-- `&data` of the new process; the copy of the domain is kept without a look at it.
unfoldable pub process_table_add :
    Memory
    → Option State
    → (process_name process_domain : Bytes) (process_port : ℕ) (relation : Relation)
    → (connection : Option ℕ) → TableResult × Option State
process_table_add memory none process_name process_domain process_port relation connection =
    (fail, none)
process_table_add memory (some st) process_name process_domain process_port relation connection =
    elim (HashString.find st.table.hash_table process_name) [
      | some _ ↦ (fail, some st)
      | none ↦ elim memory.process_data [
        | none ↦ (fail, some st)
        | some p ↦
            let new : ProcessData = record {
              process_domain = if memory.domain then some process_domain else none;
              process_connection = connection;
              process_port = process_port;
              process_active = false;
              process_relation = relation;
            } in
            let (result, st') = add_ends st (write st.heap p (some new)) (
              HashString.add memory.entry memory.key (some st.table.hash_table) (some process_name)
                p) in
            (result, some st')
      ]
    ]

-- `--` on a `size_t`, which wraps around at 0.
abbrev pub one_less : ℕ → ℕ
one_less n = if n == 0 then 2 ^ 64 - 1 else n - 1

-- The data is freed before the entry is looked for again.
unfoldable pub remove_ends :
    State → (ℕ → Option ProcessData) → RemoveStatus × HashString ℕ → TableResult × State
remove_ends st heap (removed, h) = (
  success,
  record {
    table = record { hash_table = h; table_length = one_less st.table.table_length };
    heap = heap;
  },
)
remove_ends st heap (not_found, h) = (
  fail,
  record {
    table = record { hash_table = h; table_length = one_less st.table.table_length };
    heap = heap;
  },
)

unfoldable pub process_table_remove : Option State → Bytes → Option (TableResult × Option State)
process_table_remove none process_name = some (fail, none)
process_table_remove (some st) process_name =
    elim (HashString.find st.table.hash_table process_name) [
      | none ↦ some (fail, some st)
      | some entry ↦ do
        heap ← process_data_free st.heap entry.value
        outcome ← HashString.remove st.table.hash_table process_name
        some ((remove_ends st heap outcome).0, some (remove_ends st heap outcome).1)
    ]

-- `*data` is written only on success.
unfoldable pub process_table_get : ProcessTable → Option Bytes → TableResult × Option ℕ
process_table_get table none = (fail, none)
process_table_get table (some process_name) = elim (HashString.find table.hash_table process_name) [
  | none ↦ (fail, none)
  | some entry ↦ (success, some entry.value)
]

unfoldable pub process_table_length : ProcessTable → ℕ
process_table_length table = table.table_length

-- `while (entry != NULL)`, along one chain.
unfoldable pub free_chain : (ℕ → Option ProcessData) → Chain ℕ → Option (ℕ → Option ProcessData)
free_chain heap [] = some heap
free_chain heap (entry ∷ next) =
    process_data_free heap entry.value >>= λ heap'. free_chain heap' next

-- The data that is left when the table and its entries are gone.
unfoldable pub process_table_free : State → Option (ℕ → Option ProcessData)
process_table_free st =
    if ltb 0 st.table.table_length
    then free_chain st.heap (HashString.first_entry st.table.hash_table).0
    else some st.heap
