-- ===== src/Handshake/Connected.antt =====
-- What a named connection does to the process table of the server (wimp_server_process_accept).
use wimp.Prelude.{
  ℕ, ◌+◌, ◌≡◌, refl, ap, ◌∙◌, none, some, List, true, false, ◌&&◌, if◌then◌else◌, ◌>>=◌, is_some,
  Bool-cases, Option-cases, inl, inr,
}
use wimp.Prelude.Bytes.{Bytes, text_eq, text_eq_iff}
use wimp.HashString
use wimp.HashString.{Entry}
use wimp.ProcessTable.{ProcessData, process_table_get, write}
use wimp.ProcessTable.Laws.{IsValid, lookup}
use wimp.ProcessTable.Update.{updated-IsValid, lookup-updated}
use wimp.Server.{Socket}
use wimp.Handshake.{
  AcceptState, is_expected, set_connected, accept_process, accept_named, unexpected_process,
}

-- The process, active on the connection.
abbrev pub on_connection : ℕ → ProcessData → ProcessData
on_connection con process = record process { process_connection = some con; process_active = true }

pub record Connected (pnames : List Bytes) (con : ℕ) (name : Bytes) (st st' : AcceptState)
    : Type 0 where
  pub valid : IsValid st'.server.ptable
  pub seen :
      (j : Bytes)
      → lookup st'.server.ptable j ≡ (
          if is_expected name pnames && text_eq name j
          then (lookup st.server.ptable j >>= λ process. some (on_connection con process))
          else lookup st.server.ptable j)
  pub count : st'.accepted_count ≡ (
      if is_expected name pnames && is_some (lookup st.server.ptable name)
      then st.accepted_count + 1
      else st.accepted_count)

module _ (socket : Socket) (pnames : List Bytes) (con : ℕ) (st : AcceptState) (name : Bytes)
    (valid : IsValid st.server.ptable) where
  absent-Connected :
      HashString.find st.server.ptable.table.hash_table name ≡ none
      → is_expected name pnames ≡ true
      → Connected pnames con name st st
  unfolding lookup
  absent-Connected absent expected = record {
    valid = valid;
    seen = λ j. elim (Bool-cases (text_eq name j)) [
      | inr other ↦ rw (expected, other) refl
      | inl same ↦ rw (expected, same, ← (text_eq_iff name j).0 same, absent) refl
    ];
    count = rw (expected, absent) refl;
  }

  found-Connected :
      (e : Entry ℕ) (process : ProcessData) (st' : AcceptState)
      → HashString.find st.server.ptable.table.hash_table name ≡ some e
      → st.server.ptable.heap e.value ≡ some process
      → is_expected name pnames ≡ true
      → st'.server.ptable ≡ record st.server.ptable {
        heap = write st.server.ptable.heap e.value (some (on_connection con process));
      }
      → st'.accepted_count ≡ st.accepted_count + 1
      → Connected pnames con name st st'
  found-Connected e process st' at there expected table count =
      let here : lookup st.server.ptable name ≡ some process =
        unfold lookup in rw (at, there) refl in
      record {
        valid =
            rw table (updated-IsValid st.server.ptable name e (on_connection con process) valid at);
        seen = λ j.
            ap (λ t. lookup t j) table
            ∙ lookup-updated st.server.ptable name e (on_connection con process) valid at j
            ∙ elim (Bool-cases (text_eq name j)) [
              | inl same ↦ rw (expected, same, ← (text_eq_iff name j).0 same, here) refl
              | inr other ↦ rw (expected, other) refl
            ];
        count = rw (expected, here) count;
      }

  unexpected-Connected :
      (st' : AcceptState)
      → is_expected name pnames ≡ false
      → st'.server ≡ st.server
      → st'.accepted_count ≡ st.accepted_count
      → Connected pnames con name st st'
  unexpected-Connected st' no_name same count = record {
    valid = rw same valid;
    seen = λ j. rw (no_name, same) refl;
    count = rw no_name count;
  }

  -- A connection with the name of a process, taken by the round of wimp_server_process_accept on a
  -- well-formed table: the round ends, and counts exactly if the name is an expected one. If the
  -- process is expected and in the table, it is active on this connection from then on and one more
  -- is accepted; no other process is affected, and the table stays well-formed.
  pub accept_named-Connected :
      (st' : AcceptState) × (accept_named socket pnames con st name
        ≡ some (is_expected name pnames, st'))
      × Connected pnames con name st st'
  unfolding accept_named accept_process set_connected
  accept_named-Connected = elim (Bool-cases (is_expected name pnames)) [
    | inr no_name ↦ (
      record st { failure_reason = unexpected_process },
      rw (no_name, accept_named) refl,
      unexpected-Connected (record st { failure_reason = unexpected_process }) no_name refl refl,
    )
    | inl expected ↦ elim (Option-cases (HashString.find st.server.ptable.table.hash_table name)) [
      | inl absent ↦ (
        st,
        unfold process_table_get in rw (expected, absent, accept_named, process_table_get) refl,
        absent-Connected absent expected,
      )
      | inr (e, at) ↦ elim (Option-cases (st.server.ptable.heap e.value)) [
        | inl gone ↦ cc (rw gone at (valid.live name e at))
        | inr (process, there) ↦ (
          accept_process socket con st e.value process name,
          unfold process_table_get in
              rw (expected, at, there, accept_named, process_table_get) refl,
          found-Connected e process (accept_process socket con st e.value process name) at there
              expected refl refl,
        )
      ]
    ]
  ]
