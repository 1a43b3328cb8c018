-- ===== src/Server/Routes.antt =====
-- Where an instruction goes (wimp_server_send_instructions).
use wimp.Prelude.{
  ℕ, ◌≡◌, refl, sym, ◌∙◌, Option, none, some, true, if◌then◌else◌, ◌>>=◌, is_some, Option-cases,
  inl, inr,
}
use wimp.Prelude.Bytes.{Bytes}
use wimp.HashString
use wimp.ProcessTable.{State, process_table_get, success, fail}
use wimp.ProcessTable.Laws.{IsValid, lookup}
use wimp.Server.{Server, destination}

-- A lookup of the table that finds nothing, or the pointer to the data.
pub data Gets (st : State) (name : Bytes) : Type 0 where
  missing : (process_table_get st.table (some name)).0 ≡ fail → lookup st name ≡ none → Gets st name
  present :
      (p : ℕ)
      → (process_table_get st.table (some name)).0 ≡ success
      → (process_table_get st.table (some name)).1 ≡ some p
      → is_some (lookup st name) ≡ true
      → lookup st name ≡ st.heap p
      → Gets st name

pub process_table_get-Gets : (st : State) (name : Bytes) → IsValid st → Gets st name
unfolding process_table_get lookup
process_table_get-Gets st name valid =
    elim (Option-cases (HashString.find st.table.hash_table name)) [
      | inl absent ↦ missing (rw (absent, process_table_get) refl) (rw absent refl)
      | inr (e, at) ↦
          present e.value (rw (at, process_table_get) refl) (rw (at, process_table_get) refl)
            (rw at (valid.live name e at)) (rw at refl)
    ]

-- The parent, if there is one and the table has it.
parent-lookup :
    (st : State) (parent : Option Bytes)
    → IsValid st
    → ((elim (process_table_get st.table parent).0 as (λ _. Option ℕ) [
      | success ↦ (process_table_get st.table parent).1
      | fail ↦ none
    ])
        >>= st.heap)
      ≡ (parent >>= lookup st)
parent-lookup st none valid = unfold process_table_get in refl
parent-lookup st (some parent) valid = elim (process_table_get-Gets st parent valid) [
  | present p run at there same ↦ rw (run, at, same) refl
  | missing run absent ↦ rw (run, absent) refl
]

-- The process that wimp_server_send_instructions sends to, with a well-formed table: the one that the
-- message names, if it is in the table, and otherwise the server's parent, if it has one that is in
-- the table.
pub destination-lookup :
    (server : Server) (dest_process : Bytes)
    → IsValid server.ptable
    → (destination server dest_process >>= server.ptable.heap) ≡ (
        if is_some (lookup server.ptable dest_process)
        then lookup server.ptable dest_process
        else (server.parent >>= lookup server.ptable))
unfolding destination
destination-lookup server dest_process valid =
    elim (process_table_get-Gets server.ptable dest_process valid) [
      | present p run at there same ↦ rw (run, at, there, same, destination) refl
      | missing run absent ↦
          rw (run, absent, destination) (parent-lookup server.ptable server.parent valid)
    ]

-- The pointer that the table gives for the parent leads to process data.
parent-live :
    (st : State) (parent : Option Bytes) (p : ℕ)
    → IsValid st
    → (elim (process_table_get st.table parent).0 as (λ _. Option ℕ) [
      | success ↦ (process_table_get st.table parent).1
      | fail ↦ none
    ])
      ≡ some p
    → is_some (st.heap p) ≡ true
parent-live st none p valid leads = unfold process_table_get in cc leads
parent-live st (some parent) p valid leads = elim (process_table_get-Gets st parent valid) [
  | present q run at there same ↦
      let q-p : some q ≡ some p = sym at ∙ rw run at leads in
      let found : lookup st parent ≡ st.heap p = cc in rw (← found) there
  | missing run absent ↦ cc (rw run at leads)
]

-- The pointer that is sent to leads to process data.
pub destination-live :
    (server : Server) (dest_process : Bytes) (p : ℕ)
    → IsValid server.ptable
    → destination server dest_process ≡ some p
    → is_some (server.ptable.heap p) ≡ true
unfolding destination
destination-live server dest_process p valid leads =
    elim (process_table_get-Gets server.ptable dest_process valid) [
      | present q run at there same ↦
          let q-p : some q ≡ some p = sym at ∙ rw (run, destination) at leads in
          let found : lookup server.ptable dest_process ≡ server.ptable.heap p = cc in
          rw (← found) there
      | missing run absent ↦
          parent-live server.ptable server.parent p valid (rw (run, destination) at leads)
    ]
