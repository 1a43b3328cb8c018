-- ===== src/ProcessTable/Laws.antt =====
-- The process table as a map from names to process data.
use wimp.Prelude.{
  ℕ, ◌+◌, ◌≡◌, ◌⊎◌, refl, ap, sym, ◌∙◌, arith, Option, none, some, Bool, true, false, not, ◌&&◌,
  ◌==◌, ==_iff, ==_refl, if◌then◌else◌, ◌>>=◌, is_some, Bool-cases, Option-cases, inl, inr,
}
use wimp.Prelude.Bytes.{Bytes, text_eq, text_eq_iff}
use wimp.HashString
use wimp.HashString.{
  HashString, Entry, AddStatus, RemoveStatus, added, malloc_failed, removed, not_found,
}
use wimp.HashString.Laws
use wimp.HashString.Laws.{
  AddOutcome, add-AddOutcome, remove-some, remove-none, create-IsValid, entry,
}
use wimp.HashString.Count.{entry_count}
use wimp.ProcessTable.{
  Relation, ProcessData, State, success, fail, write, Memory, add_ends, process_table_add,
}

-- The data of a process in the table.
unfoldable pub lookup : State → Bytes → Option ProcessData
lookup st name = HashString.find st.table.hash_table name >>= λ e. st.heap e.value

-- Every name has data of its own in memory, and the length counts the names.
pub record IsValid (st : State) : Type 0 where
  pub hashed : Laws.IsValid st.table.hash_table
  pub live :
      (j : Bytes) (e : Entry ℕ)
      → HashString.find st.table.hash_table j ≡ some e
      → is_some (st.heap e.value) ≡ true
  pub apart :
      (j k : Bytes) (e f : Entry ℕ)
      → HashString.find st.table.hash_table j ≡ some e
      → HashString.find st.table.hash_table k ≡ some f
      → e.value ≡ f.value
      → j ≡ k
  pub counted : st.table.table_length ≡ entry_count st.table.hash_table

unused_ne :
    (st : State) (p : ℕ) (j : Bytes) (e : Entry ℕ)
    → IsValid st
    → st.heap p ≡ none
    → HashString.find st.table.hash_table j ≡ some e
    → (p == e.value) ≡ false
unused_ne st p j e valid unused at = elim (Bool-cases (p == e.value)) [
  | inl same ↦ cc (rw (← (==_iff p e.value).0 same, unused) at (valid.live j e at))
  | inr ne ↦ ne
]

-- Data at an unused address is not seen through the table.
write-unused :
    (st : State) (p : ℕ) (d : Option ProcessData)
    → IsValid st
    → st.heap p ≡ none
    → IsValid (record st { heap = write st.heap p d })
      × ((j : Bytes) → lookup (record st { heap = write st.heap p d }) j ≡ lookup st j)
unfolding write lookup
write-unused st p d valid unused = (
  record {
    hashed = valid.hashed;
    live = λ j e at. rw (unused_ne st p j e valid unused at) (valid.live j e at);
    apart = valid.apart;
    counted = valid.counted;
  },
  λ j. elim (Option-cases (HashString.find st.table.hash_table j)) [
    | inl e ↦ rw e
    | inr (e, at) ↦ rw (at, unused_ne st p j e valid unused at)
  ],
)

-- Whether `add` takes the process in: the name is new, and there is memory for all parts.
abbrev pub accepts : Memory → State → Bytes → Bool
accepts memory st name =
    not (is_some (HashString.find st.table.hash_table name))
    && (is_some memory.process_data && (memory.entry && memory.key))

abbrev pub new_process : Option Bytes → ℕ → Relation → Option ℕ → ProcessData
new_process domain port relation connection = record {
  process_domain = domain;
  process_connection = connection;
  process_port = port;
  process_active = false;
  process_relation = relation;
}

pub record Added (st : State) (name : Bytes) (d : ProcessData) (ok : Bool) (st' : State)
    : Type 0 where
  pub valid : IsValid st'
  pub seen :
      (j : Bytes)
      → lookup st' j
        ≡ (if ok then (if text_eq name j then some d else lookup st j) else lookup st j)
  pub size :
      st'.table.table_length ≡ (if ok then st.table.table_length + 1 else st.table.table_length)

module _ (st : State) (name : Bytes) (d : ProcessData) (p : ℕ) (valid : IsValid st)
    (unused : st.heap p ≡ none) where
  -- A name of the new table is the new one, or one of the old table with other data.
  new_or_old :
      (h : HashString ℕ) (j : Bytes) (e : Entry ℕ)
      → HashString.find h j
        ≡ (if text_eq name j then some (entry name p) else HashString.find st.table.hash_table j)
      → HashString.find h j ≡ some e
      → ((name ≡ j) × (e.value ≡ p))
        ⊎ ((HashString.find st.table.hash_table j ≡ some e) × ((p == e.value) ≡ false))
  new_or_old h j e at is = elim (Bool-cases (text_eq name j)) [
    | inl same ↦
        let found : e ≡ entry name p = cc (rw same at at) in
        inl ((text_eq_iff name j).0 same, ap (λ (x : Entry ℕ). x.value) found)
    | inr other ↦
        let old = sym (rw other at at) ∙ is in inr (old, unused_ne st p j e valid unused old)
  ]

  add_ends-Added :
      (h : HashString ℕ)
      → AddOutcome st.table.hash_table name p none true added h
      → Added st name d true (add_ends st (write st.heap p (some d)) (added, some h)).1
  unfolding add_ends
  add_ends-Added h (status, hashed, at, count) = record {
    valid = record {
      hashed = hashed;
      live = λ j e is. elim (new_or_old h j e (at j) is) [
        | inl (same, here) ↦ unfold write in rw (here, ==_refl p)
        | inr (old, ne) ↦ unfold write in rw ne (valid.live j e old)
      ];
      apart = λ j k e f is js same. elim (new_or_old h j e (at j) is) [
        | inl (named, here) ↦ elim (new_or_old h k f (at k) js) [
          | inl (named', here') ↦ sym named ∙ named'
          | inr (old, ne) ↦ cc ((==_iff p f.value).1 (sym here ∙ same))
        ]
        | inr (old, ne) ↦ elim (new_or_old h k f (at k) js) [
          | inl (named', here') ↦ cc ((==_iff p e.value).1 (sym here' ∙ sym same))
          | inr (old', ne') ↦ valid.apart j k e f old old' same
        ]
      ];
      counted = omega (arith, valid.counted);
    };
    seen = λ j.
        unfold lookup in
        elim (Bool-cases (text_eq name j)) [
          | inl same ↦ rw (at j, same) (unfold write in rw (==_refl p))
          | inr other ↦ rw (at j, other) ((write-unused st p (some d) valid unused).1 j)
        ];
    size = refl;
  }

-- wimp_process_table_add on a table. The process is taken in, inactive and under its name, exactly
-- if the name is new and there is memory for all parts; then the table is one longer. Otherwise the
-- call fails, and no name has other data than before. Without memory for the copy of the domain the
-- process is taken in with a NULL domain.
pub process_table_add-Added :
    (memory : Memory) (st : State) (name domain : Bytes) (port : ℕ) (relation : Relation)
    (connection : Option ℕ)
    → IsValid st
    → ((p : ℕ) → memory.process_data ≡ some p → st.heap p ≡ none)
    → (st' : State) × (process_table_add memory (some st) name domain port relation connection
        ≡ (if accepts memory st name then success else fail, some st'))
      × Added st name
          (new_process (if memory.domain then some domain else none) port relation connection)
          (accepts memory st name)
          st'
unfolding process_table_add
process_table_add-Added memory st name domain port relation connection valid fresh =
    elim (Option-cases (HashString.find st.table.hash_table name)) [
      | inr (old, e) ↦ (st, rw (e, process_table_add), rw e (unchanged st valid))
      | inl e ↦ elim (Option-cases memory.process_data) [
        | inl absent ↦ (st, rw (e, process_table_add, absent), rw (e, absent) (unchanged st valid))
        | inr (p, got) ↦
            let (status, h, run, out) =
              add-AddOutcome memory.entry memory.key st.table.hash_table name p valid.hashed in
            elim (Bool-cases (memory.entry && memory.key)) [
              | inr lacks ↦
                  let (said, left) = rw (e, lacks) at out in
                  let spare = write-unused st p (some new) valid (fresh p got) in
                  (
                    record st { heap = write st.heap p (some new) },
                    unfold add_ends in rw (e, process_table_add, got, run, said, lacks),
                    rw (e, got, lacks) (record { valid = spare.0; seen = spare.1; size = refl }),
                  )
              | inl enough ↦
                  let rest = rw (e, enough) at out in
                  (
                    (add_ends st (write st.heap p (some new)) (added, some h)).1,
                    unfold add_ends in rw (e, process_table_add, got, run, rest.0, enough),
                    rw (e, got, enough)
                        (add_ends-Added st name new p valid (fresh p got) h
                          (refl, rest.1, rest.2, rest.3)),
                  )
            ]
      ]
    ]
  where
    new : ProcessData
    new = new_process (if memory.domain then some domain else none) port relation connection

    unchanged : (st' : State) → IsValid st' → Added st' name new false st'
    unchanged st' v = record { valid = v; seen = λ j. refl; size = refl }
