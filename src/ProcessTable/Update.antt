-- ===== src/ProcessTable/Update.antt =====
-- Changing the data of a process through the pointer that the table holds, as the server does.
use wimp.Prelude.{
  ℕ, ◌≡◌, refl, some, false, ◌==◌, ==_iff, ==_refl, if◌then◌else◌, Bool-cases, Option-cases, inl,
  inr,
}
use wimp.Prelude.Bytes.{Bytes, text_eq, text_eq_iff}
use wimp.HashString
use wimp.HashString.{Entry}
use wimp.ProcessTable.{ProcessData, State, write}
use wimp.ProcessTable.Laws.{lookup, IsValid}

module _ (st : State) (name : Bytes) (e : Entry ℕ) (d : ProcessData) (valid : IsValid st)
    (at : HashString.find st.table.hash_table name ≡ some e) where
  abbrev pub updated : State
  updated = record st { heap = write st.heap e.value (some d) }

  -- Another process has other data.
  other_ne :
      (j : Bytes) (f : Entry ℕ)
      → HashString.find st.table.hash_table j ≡ some f
      → text_eq name j ≡ false
      → (e.value == f.value) ≡ false
  other_ne j f there other = elim (Bool-cases (e.value == f.value)) [
    | inr ne ↦ ne
    | inl same ↦
        let named = valid.apart name j e f at there ((==_iff e.value f.value).0 same) in
        cc ((text_eq_iff name j).1 named)
  ]

  pub updated-IsValid : IsValid updated
  unfolding write
  updated-IsValid = record {
    hashed = valid.hashed;
    live = λ j f there. elim (Bool-cases (e.value == f.value)) [
      | inl same ↦ rw same refl
      | inr ne ↦ rw ne (valid.live j f there)
    ];
    apart = valid.apart;
    counted = valid.counted;
  }

  pub lookup-updated :
      (j : Bytes) → lookup updated j ≡ (if text_eq name j then some d else lookup st j)
  unfolding lookup write
  lookup-updated j = elim (Bool-cases (text_eq name j)) [
    | inl same ↦
        let named = (text_eq_iff name j).0 same in rw (same, ← named, at, ==_refl e.value) refl
    | inr other ↦ elim (Option-cases (HashString.find st.table.hash_table j)) [
      | inl absent ↦ rw (other, absent) refl
      | inr (f, there) ↦ rw (other, there, other_ne j f there other) refl
    ]
  ]
