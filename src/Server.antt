-- ===== src/Server.antt =====
-- The server of wimp/src/wimp_server.c: the queues and the process table of one process, and what
-- goes out through its sockets. plibsys answers are arguments: what `p_socket_send` returns is a
-- function of what went out before, the connection and the bytes.
pub mod Adding
pub mod Chunks
pub mod Counts
pub mod Kept
pub mod Loopback
pub mod Mail
pub mod Close
pub mod Drain
pub mod Exits
pub mod Rejoined
pub mod Routed
pub mod Routes
pub mod Pass
pub mod Ended
pub mod Quiet
pub mod Sending
pub mod Told
pub mod Wait
pub mod Waiting
use wimp.Prelude.{
  ℕ, zero, suc, ◌+◌, ◌-◌, ◌%◌, ◌^◌, min, Option, none, some, List, [], ◌∷◌, ◌++◌, Bool, true, false,
  ltb, leb, ◌==◌, if◌then◌else◌, length, take, drop,
}
use wimp.Prelude.Bytes.{Bytes, le32, text_eq}
use wimp.Memory.{
  Instr, Node, Store, Exec, done, fault, unfinished, Cmd, pure, ◌>>=◌, ◌>>◌, then_run, load_node,
  write_block,
}
use wimp.Queue
use wimp.Queue.{
  InstrQueue, InstructionResult, add_existing, pop, node_free, high_prio_lock, high_prio_unlock,
}
use wimp.ProcessTable.{
  State, ProcessData, TableResult, success, fail, process_table_get, process_table_remove, write,
}
use wimp.Wire.{InstrMeta, no_meta, get_from_buffer, text_of, bundle_instr, InstrBundle}
use wimp.Reciever.{message_buffer_bytes, ping, exit_text}

-- What went out: the connection and the bytes that it took.
abbrev pub Outbox : Type 0
Outbox = List (Option ℕ × Bytes)

-- What `p_socket_send` returns, as a `size_t`: the bytes that were taken, or -1.
abbrev pub Socket : Type 0
Socket = Outbox → Option ℕ → Bytes → ℕ

-- WimpServer without its buffers, which are cleared after use, and the socket that it listens on.
pub record Server : Type 0 where
  pub process_name : Bytes
  pub ptable : State
  pub parent : Option Bytes
  pub incomingmsg : InstrQueue
  pub outgoingmsg : InstrQueue
  pub outbox : Outbox

-- One call of `p_socket_send`: its result, and what has gone out then.
unfoldable pub socket_send : Socket → Outbox → Option ℕ → Bytes → ℕ × Outbox
socket_send socket outbox connection bytes =
    let sent = socket outbox connection bytes in
    (sent, outbox ++ (connection, if leb sent (length bytes) then take sent bytes else []) ∷ [])

-- wimp_instr_get_from_node and the metadata's pointers: the content of the block and its metadata.
-- A NULL instruction has no content.
unfoldable pub get_from_node : Option ℕ → Cmd (Bytes × InstrMeta)
get_from_node p s = then_run (load_node p s) λ node. elim node.instr.instruction [
  | none ↦ pure ([], no_meta)
  | some b ↦ λ s. elim (s.block b) [
    | none ↦ fault
    | some content ↦ elim (get_from_buffer (some content) node.instr.instruction_bytes) [
      | none ↦ fault
      | some meta ↦ done (content, meta) s
    ]
  ]
]

-- A text of the message, for `strcmp`: a fault at NULL.
unfoldable pub read_text : Bytes → Option ℕ → Cmd Bytes
read_text content pointer s = elim (text_of content pointer) [ none ↦ fault | some t ↦ done t s ]

-- wimp_server_add, with the bundle on the outgoing queue, whatever it is.
unfoldable pub server_add :
    (ℕ → Option Bytes)
    → (Store → Option ℕ)
    → (Store → ℕ)
    → Server
    → (dest instr args : Bytes) → Cmd Server
server_add malloc malloc_node fresh_block server dest instr args s =
    elim (bundle_instr malloc server.process_name dest instr args) [
      | none ↦ fault
      | some bundle ↦ elim bundle.instr [
        | none ↦
            then_run (Queue.add malloc_node server.outgoingmsg none bundle.size s)
              λ added. pure (record server { outgoingmsg = added.1 })
        | some content ↦
            let b = fresh_block s in
            then_run
              (Queue.add malloc_node server.outgoingmsg (some b) bundle.size
                (write_block s b (some content)))
              λ added. pure (record server { outgoingmsg = added.1 })
      ]
    ]

-- wimp_server_instr_routed
unfoldable pub instr_routed : Server → Bytes → Option ℕ → Cmd (Bool × Server)
instr_routed server dest_process instrnode =
    if text_eq dest_process server.process_name
    then pure (false, server)
    else (add_existing server.outgoingmsg instrnode >>= λ added.
        pure (true, record server { outgoingmsg = added.1 }))

-- `while (sent_bytes < total_bytes)`
unfoldable pub send_chunks :
    Socket → ℕ → Option ℕ → Bytes → (total_bytes sent_bytes : ℕ) → Outbox → Cmd Outbox
send_chunks socket zero connection content total_bytes sent_bytes outbox = λ s. unfinished
send_chunks socket (suc rounds) connection content total_bytes sent_bytes outbox =
    let bytes_to_send = min (total_bytes - sent_bytes) message_buffer_bytes in
    let sent =
      socket_send socket outbox connection (take bytes_to_send (drop sent_bytes content)) in
    let onwards =
      send_chunks socket rounds connection content total_bytes ((sent_bytes + sent.0) % 2 ^ 64)
        sent.1 in
    if ltb sent_bytes total_bytes
    then (if leb (sent_bytes + bytes_to_send) (length content) then onwards else λ s. fault)
    else pure outbox

-- The process to send to: the destination if it is in the table, or else the parent.
unfoldable pub destination : Server → Bytes → Option ℕ
destination server dest_process =
    let first = process_table_get server.ptable.table (some dest_process) in
    let second = process_table_get server.ptable.table server.parent in
    elim first.0 [ success ↦ first.1 | fail ↦ elim second.0 [ success ↦ second.1 | fail ↦ none ] ]

-- Sending to a process of the table, if it is active.
unfoldable pub send_to : Socket → ℕ → Server → Bytes → ℕ → Option ℕ → Cmd Server
send_to socket rounds server content total_bytes none = pure server
send_to socket rounds server content total_bytes (some p) = elim (server.ptable.heap p) [
  | none ↦ λ s. fault
  | some process ↦ elim process.process_active [
    | false ↦ pure server
    | true ↦
        (send_chunks socket rounds process.process_connection content total_bytes 0 server.outbox
          >>= λ outbox. pure (record server { outbox = outbox }))
  ]
]

-- One node: to the own incoming queue, or out. A loopback queues the block of the node itself.
unfoldable pub send_current : Socket → (Store → Option ℕ) → ℕ → Server → Option ℕ → Cmd Server
send_current socket malloc_node rounds server currentn = do
  node ← load_node currentn
  current ← get_from_node currentn
  dest ← read_text current.0 current.1.dest_process
  (if text_eq dest server.process_name
      then (Queue.add malloc_node server.incomingmsg node.instr.instruction current.1.total_bytes
          >>= λ added. pure (record server { incomingmsg = added.1 }))
      else send_to socket rounds server current.0 current.1.total_bytes (destination server dest))

-- `while (currentn != NULL)`; each node is freed with its block.
unfoldable pub send_loop : Socket → (Store → Option ℕ) → (rounds chunks : ℕ) → Server → Cmd Server
send_loop socket malloc_node zero chunks server = λ s. unfinished
send_loop socket malloc_node (suc rounds) chunks server = pop server.outgoingmsg >>= λ popped.
    elim popped.0 [
      | none ↦ pure (record server { outgoingmsg = popped.1 })
      | some p ↦ do
        sent ←
            send_current socket malloc_node chunks (record server { outgoingmsg = popped.1 })
              (some p)
        node_free (some p)
        send_loop socket malloc_node rounds chunks sent
    ]

unfoldable pub send_instructions :
    Socket → (Store → Option ℕ) → (rounds chunks : ℕ) → Server → Cmd Server
send_instructions socket malloc_node rounds chunks server = do
  high_prio_lock server.outgoingmsg
  sent ← send_loop socket malloc_node rounds chunks server
  high_prio_unlock sent.outgoingmsg
  pure sent

-- A process that takes no ping is removed from the table.
unfoldable pub drop_process : Server → ℕ → ProcessData → Bytes → Outbox → Option (Bool × Server)
drop_process server p process process_name outbox =
    let inactive : State = record server.ptable {
      heap = write server.ptable.heap p (some (record process { process_active = false }));
    } in
    elim (process_table_remove (some inactive) process_name) [
      | none ↦ none
      | some removed ↦ elim removed.1 [
        | none ↦ none
        | some ptable ↦ some (false, record server { ptable = ptable; outbox = outbox })
      ]
    ]

-- `none` is a bad access.
unfoldable pub check_process_listening : Socket → Server → Bytes → Option (Bool × Server)
check_process_listening socket server process_name =
    elim (process_table_get server.ptable.table (some process_name)).1 [
      | none ↦ some (false, server)
      | some p ↦ elim (server.ptable.heap p) [
        | none ↦ none
        | some process ↦
            let sent = socket_send socket server.outbox process.process_connection (le32 ping) in
            let answer =
              if sent.0 == 2 ^ 64 - 1
              then drop_process server p process process_name sent.1
              else some (true, record server { outbox = sent.1 }) in
            if process.process_active then answer else some (false, server)
      ]
    ]

unfoldable pub is_parent_alive : Socket → Server → Option (Bool × Server)
is_parent_alive socket server = elim server.parent [
  | none ↦ some (true, server)
  | some parent ↦ check_process_listening socket server parent
]

-- wimp_server_wait_response, one pass over the queue at hand: the node with the response if there is
-- one, whether to stop, the queue, and the nodes put aside.
unfoldable pub wait_pass :
    ℕ → Bytes → InstrQueue → InstrQueue → Cmd (Option ℕ × Bool × InstrQueue × InstrQueue)
wait_pass zero instr incoming tmpqueue = λ s. unfinished
wait_pass (suc rounds) instr incoming tmpqueue = pop incoming >>= λ popped. elim popped.0 [
  | none ↦ pure (none, false, popped.1, tmpqueue)
  | some p ↦ do
    current ← get_from_node (some p)
    name ← read_text current.0 current.1.instr
    let go_on : Cmd (Option ℕ × Bool × InstrQueue × InstrQueue) =
        (add_existing tmpqueue (some p) >>= λ added. wait_pass rounds instr popped.1 added.1)
    let stop : Cmd (Option ℕ × Bool × InstrQueue × InstrQueue) =
        (node_free (some p) >> pure (none, true, popped.1, tmpqueue))
    (if text_eq name instr
        then pure (some p, true, popped.1, tmpqueue)
        else (if text_eq name exit_text then stop else go_on))
]
