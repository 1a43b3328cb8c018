-- ===== src/ProcessTable/Remove.antt =====
-- Looking a process up, and removing it (wimp_process_table_get, wimp_process_table_remove).
use wimp.Prelude.{
  ◌↔◌, ℕ, ◌+◌, ◌≡◌, refl, sym, ◌∙◌, arith, Option, none, some, true, false, ◌==◌, ==_iff, ==_refl,
  if◌then◌else◌, ◌>>=◌, is_some, Bool-cases, Option-cases, inl, inr,
}
use wimp.Prelude.Bytes.{Bytes, text_eq, text_eq_iff}
use wimp.HashString
use wimp.HashString.{
  HashString, Entry, AddStatus, RemoveStatus, added, malloc_failed, removed, not_found, bucket,
}
use wimp.HashString.Laws.{remove-some, remove-none}
use wimp.HashString.Count.{entry_count, found}
use wimp.HashString.Chains.{Overruns}
use wimp.ProcessTable.{
  State, TableResult, success, fail, write, process_table_remove, process_table_get,
  process_data_free, remove_ends,
}
use wimp.ProcessTable.Laws.{IsValid, lookup}

-- wimp_process_table_get finds a process exactly if it is in the table, and then returns the
-- pointer to its data.
pub process_table_get-lookup :
    (st : State) (name : Bytes)
    → IsValid st
    → ((process_table_get st.table (some name)).0
        ≡ (if is_some (lookup st name) then success else fail))
      × (((process_table_get st.table (some name)).1 >>= st.heap) ≡ lookup st name)
unfolding process_table_get lookup
process_table_get-lookup st name valid =
    elim (Option-cases (HashString.find st.table.hash_table name)) [
      | inl e ↦ rw (e, process_table_get) (refl, refl)
      | inr (entry, e) ↦ rw (e, process_table_get) (rw (valid.live name entry e), refl)
    ]

-- The process is gone, its data is given back, and no other memory is written.
pub record Removed (st : State) (name : Bytes) (st' : State) : Type 0 where
  pub valid : IsValid st'
  pub seen : (j : Bytes) → lookup st' j ≡ (if text_eq name j then none else lookup st j)
  pub size : st'.table.table_length + found (lookup st name) ≡ st.table.table_length
  pub gone :
      (e : Entry ℕ) → HashString.find st.table.hash_table name ≡ some e → st'.heap e.value ≡ none
  pub kept :
      (a : ℕ)
      → ((e : Entry ℕ) → HashString.find st.table.hash_table name ≡ some e → (e.value == a) ≡ false)
      → st'.heap a ≡ st.heap a

module _ (st : State) (name : Bytes) (valid : IsValid st) where
  -- A name that is left has other data than the one that goes.
  left_ne :
      (h : HashString ℕ) (e f : Entry ℕ) (j : Bytes)
      → HashString.find st.table.hash_table name ≡ some e
      → HashString.find h j
        ≡ (if text_eq name j then none else HashString.find st.table.hash_table j)
      → HashString.find h j ≡ some f
      → (HashString.find st.table.hash_table j ≡ some f) × ((e.value == f.value) ≡ false)
  left_ne h e f j at seen is = elim (Bool-cases (text_eq name j)) [
    | inl same ↦ cc (rw same at seen, is)
    | inr other ↦
        let old = sym (rw other at seen) ∙ is in
        (
          old,
          elim (Bool-cases (e.value == f.value)) [
            | inl shared ↦ cc (
                (text_eq_iff name j).1
                  (valid.apart name j e f at old ((==_iff e.value f.value).0 shared)))
            | inr ne ↦ ne
          ],
        )
  ]

  present :
      (e : Entry ℕ) → HashString.find st.table.hash_table name ≡ some e → found (lookup st name) ≡ 1
  unfolding lookup
  present e at = elim (Option-cases (st.heap e.value)) [
    | inl gone ↦ cc (rw gone at (valid.live name e at))
    | inr (d, there) ↦ rw (at, there)
  ]

  remove_ends-Removed :
      (h : HashString ℕ) (e : Entry ℕ)
      → HashString.find st.table.hash_table name ≡ some e
      → HashString.Laws.IsValid h
      → ((j : Bytes)
          → HashString.find h j
            ≡ (if text_eq name j then none else HashString.find st.table.hash_table j))
      → entry_count h + 1 ≡ entry_count st.table.hash_table
      → Removed st name (remove_ends st (write st.heap e.value none) (removed, h)).1
  unfolding remove_ends
  remove_ends-Removed h e at hashed seen count =
      let fits : (st.table.table_length == 0) ≡ false = ground (arith, valid.counted, count) in
      record {
        valid = record {
          hashed = hashed;
          live = λ j f is.
              let (old, ne) = left_ne h e f j at (seen j) is in
              unfold write in rw ne (valid.live j f old);
          apart = λ j k f g is js same.
              valid.apart j k f g (left_ne h e f j at (seen j) is).0
                (left_ne h e g k at (seen k) js).0 same;
          counted = rw fits (omega (arith, valid.counted));
        };
        seen = λ j. elim (Bool-cases (text_eq name j)) [
          | inl same ↦ unfold lookup in rw (seen j, same)
          | inr other ↦ elim (Option-cases (HashString.find st.table.hash_table j)) [
            | inl absent ↦ unfold lookup in rw (seen j, other, absent)
            | inr (f, old) ↦
                unfold lookup write in
                rw (seen j, other, old, (left_ne h e f j at (seen j) (seen j ∙ rw other old)).1)
          ]
        ];
        size = rw fits (omega (arith, valid.counted, present e at));
        gone = λ f is. let same : e ≡ f = cc in unfold write in rw (← same, ==_refl e.value) refl;
        kept = λ a others. unfold write in rw (others e at) refl;
      }

  lookup_absent : HashString.find st.table.hash_table name ≡ none → lookup st name ≡ none
  unfolding lookup
  lookup_absent e = rw e

  lookup_present :
      (e : Entry ℕ)
      → HashString.find st.table.hash_table name ≡ some e
      → is_some (lookup st name) ≡ true
  unfolding lookup
  lookup_present e at = rw at (valid.live name e at)

  unchanged : HashString.find st.table.hash_table name ≡ none → Removed st name st
  unchanged e = record {
    valid = valid;
    seen = λ j. elim (Bool-cases (text_eq name j)) [
      | inl same ↦ rw (same, ← (text_eq_iff name j).0 same) (lookup_absent e)
      | inr other ↦ rw other
    ];
    size = rw (lookup_absent e) (omega arith);
    gone = λ f is. cc;
    kept = λ a others. refl;
  }

  remove_absent :
      HashString.find st.table.hash_table name ≡ none
      → process_table_remove (some st) name ≡ some (fail, some st)
  unfolding process_table_remove
  remove_absent e = rw (e, process_table_remove)

  -- The data is there to be freed, so the outcome is that of HashString_remove.
  remove_present :
      (e : Entry ℕ)
      → HashString.find st.table.hash_table name ≡ some e
      → process_table_remove (some st) name ≡ (
          HashString.remove st.table.hash_table name >>= λ outcome.
          let (result, st') = remove_ends st (write st.heap e.value none) outcome in
          some (result, some st'))
  unfolding process_table_remove process_data_free
  remove_present e at = elim (Option-cases (st.heap e.value)) [
    | inl gone ↦ cc (rw gone at (valid.live name e at))
    | inr (d, there) ↦ rw (at, process_table_remove, there)
  ]

  -- wimp_process_table_remove goes wrong exactly where HashString_remove reads through NULL.
  pub process_table_remove-none :
      (process_table_remove (some st) name ≡ none)
      ↔ ((is_some (lookup st name) ≡ true) × Overruns name (bucket st.table.hash_table name))
  process_table_remove-none = elim (Option-cases (HashString.find st.table.hash_table name)) [
    | inl e ↦
        (λ gone. cc (remove_absent e, gone), λ (there, over). cc (rw (lookup_absent e) at there))
    | inr (entry, e) ↦ (
      λ gone. (
        lookup_present entry e,
        (remove-none st.table.hash_table name).0
            (elim (Option-cases (HashString.remove st.table.hash_table name)) [
              | inl fault ↦ fault
              | inr (out, ends) ↦ cc (rw ends at (remove_present entry e), gone)
            ]),
      ),
      λ (there, over). rw (remove_present entry e, (remove-none st.table.hash_table name).1 over),
    )
  ]

  -- Where wimp_process_table_remove ends, it succeeds exactly if the process was in the table. The
  -- process is then gone, the memory of its data is given back and no other memory of process data is
  -- touched, no other process is affected, and the length counts.
  pub process_table_remove-Removed :
      (result : TableResult) (after : Option State)
      → process_table_remove (some st) name ≡ some (result, after)
      → (result ≡ (if is_some (lookup st name) then success else fail))
        × ((st' : State) × (after ≡ some st') × Removed st name st')
  process_table_remove-Removed result after run =
      elim (Option-cases (HashString.find st.table.hash_table name)) [
        | inl e ↦
            let same = sym run ∙ remove_absent e in
            (rw (lookup_absent e) (cc same), (st, cc same, unchanged e))
        | inr (entry, e) ↦ elim (Option-cases (HashString.remove st.table.hash_table name)) [
          | inl fault ↦ cc (run, remove_present entry e, fault)
          | inr ((status, h), out) ↦
              let (said, hashed, seen, count) =
                remove-some st.table.hash_table h name status valid.hashed out in
              let taken : status ≡ removed = rw e at said in
              let one : entry_count h + 1 ≡ entry_count st.table.hash_table = rw e at count in
              let same = sym run ∙ rw (out, taken) at (remove_present entry e) in
              (
                rw (lookup_present entry e) (unfold remove_ends in cc same),
                (
                  (remove_ends st (write st.heap entry.value none) (removed, h)).1,
                  cc same,
                  remove_ends-Removed h entry e hashed seen one,
                ),
              )
        ]
      ]
