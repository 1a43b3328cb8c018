-- ===== src/Handshake.antt =====
-- How a reciever and a server meet: wimp_create_handshake and wimp_reciever_init of
-- wimp/src/wimp_reciever.c, and wimp_create_server and wimp_server_process_accept of
-- wimp/src/wimp_server.c. What plibsys answers is given. `none` is a read outside a buffer, or a wait
-- that does not end with the connections that are given.
pub mod Accept
pub mod Connected
pub mod Everyone
use wimp.Prelude.{
  ℕ, zero, suc, ◌+◌, ◌-◌, ◌%◌, ◌^◌, Option, none, some, List, [], ◌∷◌, ◌++◌, Bool, true, false,
  ◌==◌, ltb, leb, ◌||◌, if◌then◌else◌, ◌>>=◌, length, take, drop, replicate,
}
use wimp.Prelude.Bytes.{Bytes, c_string, le32, word_at, memcpy, text_at, text_eq}
use wimp.Queue.{InstrQueue}
use wimp.ProcessTable.{
  State, ProcessTable, ProcessData, Relation, unknown, child, parent, independent, TableResult,
  process_table_get, write,
}
use wimp.Reciever.{message_buffer_bytes}
use wimp.Server.{Server, Outbox, Socket, socket_send}

-- "wimp" as a little-endian word.
abbrev pub handshake_word : ℕ
handshake_word = 0x706d6977

abbrev pub zero_buffer : Bytes
zero_buffer = replicate message_buffer_bytes 0

-- WimpHandshakeHeader
pub record HandshakeHeader : Type 0 where
  pub handshake_header : ℕ
  pub process_name_bytes : ℕ

abbrev pub header_bytes : HandshakeHeader → Bytes
header_bytes h = le32 h.handshake_header ++ le32 h.process_name_bytes

-- A name that does not fit leaves the buffer and the header empty.
unfoldable pub create_handshake : Bytes → Bytes → Option (HandshakeHeader × Bytes)
create_handshake process_name message_buffer =
    let header : HandshakeHeader = record {
      handshake_header = handshake_word;
      process_name_bytes = length process_name + 1;
    } in
    if ltb (8 + (length process_name + 1)) message_buffer_bytes
    then (memcpy message_buffer 8 (c_string process_name) >>= λ named.
        memcpy named 0 (header_bytes header) >>= λ headed. some (header, headed))
    else some (record { handshake_header = 0; process_name_bytes = 0 }, message_buffer)

-- 0 and -1.
pub data RecieverResult : Type 0 where
  reciever_success reciever_fail : RecieverResult

-- The tries to connect: true for the first one that does.
unfoldable pub try_connect : ℕ → List Bool → Bool
try_connect zero tries = false
try_connect (suc n) [] = false
try_connect (suc n) (connected ∷ tries) = connected || try_connect n tries

-- What plibsys answers while the reciever is set up.
pub record Answers : Type 0 where
  pub address : Bool
  pub socket : Bool
  pub tries : List Bool
  pub handshake : Option Bytes

abbrev pub rec_try_count : ℕ
rec_try_count = 5

-- The result, and the bytes that are sent to the server.
unfoldable pub reciever_init : Bytes → Answers → Option (RecieverResult × List Bytes)
reciever_init process_name answers = create_handshake process_name zero_buffer >>= λ created.
    let sent : Bytes = take (8 + created.0.process_name_bytes) created.1 in
    let answered : Option (RecieverResult × List Bytes) = elim answers.handshake [
      | none ↦ some (reciever_fail, sent ∷ [])
      | some [] ↦ some (reciever_fail, sent ∷ [])
      | some (b ∷ bytes) ↦
          (word_at ((b ∷ bytes) ++ zero_buffer) >>= λ word.
          some (if word == handshake_word then reciever_success else reciever_fail, sent ∷ []))
    ] in
    if answers.address
    then (if answers.socket
        then (if try_connect rec_try_count answers.tries
            then answered
            else some (reciever_fail, []))
        else some (reciever_fail, []))
    else some (reciever_fail, [])

-- WimpServerResult
pub data ServerResult : Type 0 where
  success fail address_fail socket_fail bind_fail listen_fail : ServerResult
  too_few_processes unexpected_process : ServerResult

-- wimp_create_server: the result, and the server where there is one. The tables and queues that are
-- made on the way are given.
unfoldable pub create_server :
    (address socket bind : Bool)
    → Bytes
    → ProcessTable
    → (ℕ → Option ProcessData)
    → (incoming outgoing : InstrQueue) → ServerResult × Option Server
create_server address socket bind process_name ptable heap incoming outgoing =
    let new : Server = record {
      process_name = process_name;
      ptable = record { table = ptable; heap = heap };
      parent = none;
      incomingmsg = incoming;
      outgoingmsg = outgoing;
      outbox = [];
    } in
    if address
    then (if socket
        then (if bind then (success, some new) else (bind_fail, none))
        else (socket_fail, none))
    else (address_fail, none)

-- One return of `p_socket_accept`, with what is then received on the connection: `none` is an error
-- or the end of the connection.
pub data Attempt : Type 0 where
  no_connection : Attempt
  connection : ℕ → Option Bytes → Attempt

pub record AcceptState : Type 0 where
  pub server : Server
  pub recbuffer : Bytes
  pub accepted_count : ℕ
  pub failure_reason : ServerResult

abbrev is_parent : Relation → Bool
is_parent parent = true
is_parent _ = false

unfoldable pub is_expected : Bytes → List Bytes → Bool
is_expected name [] = false
is_expected name (p ∷ pnames) = text_eq name p || is_expected name pnames

-- The process is active on this connection. The first parent that connects is the server's.
unfoldable pub set_connected : Server → ℕ → ℕ → ProcessData → Bytes → Server
set_connected server con p process proc_name = record server {
  ptable = record server.ptable {
    heap =
        write server.ptable.heap p
          (some (record process { process_connection = some con; process_active = true }));
  };
  parent = elim server.parent [
    | none ↦ if is_parent process.process_relation then some proc_name else none
    | some old ↦ some old
  ];
}

-- The process is connected, the buffer cleared and the handshake sent back.
unfoldable pub accept_process : Socket → ℕ → AcceptState → ℕ → ProcessData → Bytes → AcceptState
accept_process socket con st p process proc_name =
    let server = set_connected st.server con p process proc_name in
    let answer =
      header_bytes (record { handshake_header = handshake_word; process_name_bytes = 0 }) in
    record st {
      server = record server { outbox = (socket_send socket server.outbox (some con) answer).1 };
      recbuffer = zero_buffer;
      accepted_count = st.accepted_count + 1;
    }

-- From the name on: whether the connection counts among the expected ones, and the state.
unfoldable pub accept_named :
    Socket → List Bytes → ℕ → AcceptState → Bytes → Option (Bool × AcceptState)
accept_named socket pnames con st proc_name =
    let found : Option (Bool × AcceptState) =
      elim (process_table_get st.server.ptable.table (some proc_name)).1 [
        | none ↦ some (true, st)
        | some p ↦
            (st.server.ptable.heap p >>= λ process.
            some (true, accept_process socket con st p process proc_name))
      ] in
    if is_expected proc_name pnames
    then found
    else some (false, record st { failure_reason = unexpected_process })

-- From the handshake in the buffer on.
unfoldable pub accept_filled : Socket → List Bytes → ℕ → AcceptState → Option (Bool × AcceptState)
accept_filled socket pnames con st = word_at st.recbuffer >>= λ word.
    let named =
      (text_at (drop 8 st.recbuffer) >>= λ proc_name.
      accept_named socket pnames con st proc_name) in
    if word == handshake_word then named else some (true, st)

-- One round of the loop. What is received lies over what was in the buffer.
unfoldable pub accept_one :
    Socket → List Bytes → Attempt → AcceptState → Option (Bool × AcceptState)
accept_one socket pnames no_connection st = some (true, st)
accept_one socket pnames (connection con none) st = some (true, st)
accept_one socket pnames (connection con (some [])) st = some (true, st)
accept_one socket pnames (connection con (some (b ∷ bytes))) st =
    accept_filled socket pnames con
      (record st { recbuffer = (b ∷ bytes) ++ drop (length (b ∷ bytes)) st.recbuffer })

-- The loop over the expected processes: an unexpected one is not counted (`i--`).
unfoldable pub accept_loop :
    Socket → List Bytes → List Attempt → ℕ → AcceptState → Option AcceptState
accept_loop socket pnames [] zero st = some st
accept_loop socket pnames [] (suc left) st = none
accept_loop socket pnames (a ∷ attempts) zero st = some st
accept_loop socket pnames (a ∷ attempts) (suc left) st =
    accept_one socket pnames a st >>= λ outcome.
    accept_loop socket pnames attempts (if outcome.0 then left else suc left) outcome.1

unfoldable pub process_accept :
    Socket
    → (memory listens : Bool) → List Bytes
    → List Attempt
    → Bytes
    → Server
    → Option (ServerResult × Server)
process_accept socket memory listens pnames attempts recbuffer server =
    let start : AcceptState = record {
      server = server;
      recbuffer = recbuffer;
      accepted_count = 0;
      failure_reason = too_few_processes;
    } in
    let accepted =
      (accept_loop socket pnames attempts (length pnames) start >>= λ st.
      some
        (if st.accepted_count == length pnames then success else st.failure_reason, st.server)) in
    if memory
    then (if listens then accepted else some (listen_fail, server))
    else some (fail, server)
