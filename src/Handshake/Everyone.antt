-- ===== src/Handshake/Everyone.antt =====
-- The accept loop of wimp_server_process_accept when every process that is waited for connects.
use wimp.Prelude.{
  ℕ, ◌+◌, ◌<◌, ◌≡◌, refl, ap, ◌∙◌, arith, Option, none, some, List, [], ◌∷◌, ◌++◌, All, Bool, true,
  false, ◌||◌, ◌==◌, is_some, length, Bool-cases, Option-cases, inl, inr,
}
use wimp.Prelude.Bytes.{Bytes, IsText, c_string, text_eq, text_eq_iff}
use wimp.ProcessTable.{State, ProcessData}
use wimp.ProcessTable.Laws.{IsValid, lookup}
use wimp.Server.{Server, Socket}
use wimp.Handshake.{
  header_bytes, Attempt, connection, AcceptState, is_expected, accept_one, accept_loop,
  process_accept, success, too_few_processes,
}
use wimp.Handshake.Accept.{header_of, filled, accept_one-sent}
use wimp.Handshake.Connected.{Connected, accept_named-Connected}

-- A process that connects, and its connection.
pub record Joiner : Type 0 where
  pub name : Bytes
  pub con : ℕ

-- Its handshake arrives.
abbrev pub attempt_of : Joiner → Attempt
attempt_of j = connection j.con (some (header_bytes (header_of j.name) ++ c_string j.name))

abbrev pub attempts_of : List Joiner → List Attempt
attempts_of [] = []
attempts_of (j ∷ joiners) = attempt_of j ∷ attempts_of joiners

-- Its name fits the buffer, is waited for, and is in the table.
abbrev pub IsWelcome : List Bytes → State → Joiner → Type 0
IsWelcome pnames st j =
    IsText j.name
    × (length j.name + 9 < 512)
    × (is_expected j.name pnames ≡ true)
    × (is_some (lookup st j.name) ≡ true)

abbrev active_data : Option ProcessData → Bool
active_data none = false
active_data (some process) = process.process_active

abbrev pub is_active : State → Bytes → Bool
is_active st name = active_data (lookup st name)

abbrev pub joins : Bytes → List Joiner → Bool
joins name [] = false
joins name (j ∷ joiners) = text_eq j.name name || joins name joiners

-- What a connection does to the presence and the activity of any process.
Connected-is_active :
    (pnames : List Bytes) (con : ℕ) (name : Bytes) (st st' : AcceptState)
    → is_expected name pnames ≡ true
    → is_some (lookup st.server.ptable name) ≡ true
    → Connected pnames con name st st'
    → (j : Bytes)
    → (is_some (lookup st'.server.ptable j) ≡ is_some (lookup st.server.ptable j))
      × (is_active st'.server.ptable j ≡ (is_active st.server.ptable j || text_eq name j))
Connected-is_active pnames con name st st' expected there c j =
    let seen = rw expected at (c.seen j) in
    elim (Bool-cases (text_eq name j)) [
      | inl same ↦
          let named = (text_eq_iff name j).0 same in
          elim (Option-cases (lookup st.server.ptable j)) [
            | inl absent ↦ cc (rw (named, absent) at there)
            | inr (process, at) ↦
                let now = rw (same, at) at seen in rw (now, same, at) (refl, ground arith)
          ]
      | inr other ↦ let now = rw other at seen in rw (now, other) (refl, ground arith)
    ]

-- After the connections, from `st0` on: all present processes are still there, and the joiners are
-- active.
pub record Joined (joiners : List Joiner) (st st' : AcceptState) : Type 0 where
  pub valid : IsValid st'.server.ptable
  pub count : st'.accepted_count ≡ st.accepted_count + length joiners
  pub present :
      (name : Bytes)
      → is_some (lookup st'.server.ptable name) ≡ is_some (lookup st.server.ptable name)
  pub active :
      (name : Bytes)
      → is_active st'.server.ptable name ≡ (is_active st.server.ptable name || joins name joiners)

module _ (socket : Socket) (pnames : List Bytes) where
  -- One round with a welcome process.
  accept_one-Joined :
      (j : Joiner) (st : AcceptState)
      → IsValid st.server.ptable
      → IsWelcome pnames st.server.ptable j
      → (st' : AcceptState) × (accept_one socket pnames (attempt_of j) st ≡ some (true, st'))
        × Joined (j ∷ []) st st'
  accept_one-Joined j st valid (text, short, expected, there) =
      let (st', run, connected) =
        accept_named-Connected socket pnames j.con (filled j.name short st) j.name valid in
      let seen =
        Connected-is_active pnames j.con j.name (filled j.name short st) st' expected there
          connected in
      (
        st',
        accept_one-sent j.name short socket pnames j.con st text
            ∙ run
            ∙ ap (λ (b : Bool). some (b, st')) expected,
        record {
          valid = connected.valid;
          count = rw (expected, there) at connected.count;
          present = λ name. (seen name).0;
          active = λ name. (seen name).1 ∙ ground arith;
        },
      )

  accept_loop-Joined :
      (joiners : List Joiner) (st0 st : AcceptState)
      → IsValid st.server.ptable
      → ((name : Bytes)
          → is_some (lookup st.server.ptable name) ≡ is_some (lookup st0.server.ptable name))
      → All (IsWelcome pnames st0.server.ptable) joiners
      → (st' : AcceptState) × (accept_loop socket pnames (attempts_of joiners) (length joiners) st
          ≡ some st')
        × Joined joiners st st'
  unfolding accept_loop
  accept_loop-Joined [] st0 st valid same welcome = (
    st,
    refl,
    record {
      valid = valid;
      count = omega arith;
      present = λ name. refl;
      active = λ name. ground arith;
    },
  )
  accept_loop-Joined (j ∷ joiners) st0 st valid same ((text, short, expected, there), welcome) =
      let (st1, run, one) =
        accept_one-Joined j st valid (text, short, expected, same j.name ∙ there) in
      let (st', run', rest) =
        accept_loop-Joined joiners st0 st1 one.valid (λ name. one.present name ∙ same name)
          welcome in
      (
        st',
        rw (run, accept_loop) run',
        record {
          valid = rest.valid;
          count = omega (arith, rest.count, one.count);
          present = λ name. rest.present name ∙ one.present name;
          active = λ name. ground (arith, rest.active name, one.active name);
        },
      )

  -- wimp_server_process_accept, with memory and a socket that listens, on a well-formed table, where
  -- as many processes connect as are waited for, each with the handshake of a process that is waited
  -- for and in the table: the call returns success, the processes that connected are active, no other
  -- process becomes active or inactive, none appears or disappears, and the table stays well-formed.
  pub process_accept-Joined :
      (joiners : List Joiner) (recbuffer : Bytes) (server : Server)
      → IsValid server.ptable
      → length joiners ≡ length pnames
      → All (IsWelcome pnames server.ptable) joiners
      → (server' : Server) × (process_accept socket true true pnames
            (attempts_of joiners)
            recbuffer
            server
          ≡ some (success, server'))
        × IsValid server'.ptable
        × ((name : Bytes)
            → (is_some (lookup server'.ptable name) ≡ is_some (lookup server.ptable name))
              × (is_active server'.ptable name
                  ≡ (is_active server.ptable name || joins name joiners)))
  unfolding process_accept
  process_accept-Joined joiners recbuffer server valid size welcome =
      let start : AcceptState = record {
        server = server;
        recbuffer = recbuffer;
        accepted_count = 0;
        failure_reason = too_few_processes;
      } in
      let (st', run, joined) =
        accept_loop-Joined joiners start start valid (λ name. refl) welcome in
      let all : (st'.accepted_count == length pnames) ≡ true = ground (arith, joined.count, size) in
      (
        st'.server,
        rw (rw size at run, all, process_accept) refl,
        joined.valid,
        λ name. (joined.present name, joined.active name),
      )
