-- ===== src/Server/Close.antt =====
-- The end of a server, and the server of a thread (wimp_server_free and the functions on the local server
-- of wimp/src/wimp_server.c).
use wimp.Prelude.{ℕ, Option, none, some, List, [], ◌∷◌, Bool, true, false, if◌then◌else◌}
use wimp.Prelude.Bytes.{Bytes}
use wimp.HashString.{Entry, iterate_all}
use wimp.Memory.{Store, fault, unfinished, Cmd, pure, ◌>>=◌, ◌>>◌}
use wimp.Queue.{queue_free}
use wimp.ProcessTable.{
  Relation, unknown, child, parent, independent, ProcessData, process_table_free,
}
use wimp.Reciever.{exit_text}
use wimp.Handshake.{ServerResult, fail}
use wimp.Server.{Server, Outbox, Socket, server_add, send_instructions}

abbrev pub is_child : Relation → Bool
is_child child = true
is_child unknown = false
is_child parent = false
is_child independent = false

-- `_local_server`: NULL, a block that no server was made in, or a server.
pub data Local : Type 0 where
  absent unmade : Local
  made : Server → Local

-- wimp_init_local_server, with the block that malloc gives or not, and what wimp_create_server returns.
-- `none` is a write through NULL.
unfoldable pub init_local_server :
    Bool → ServerResult × Option Server → Local → Option (ServerResult × Local)
init_local_server memory (result, server) absent =
    if memory
    then some (result, elim server as (λ _. Local) [ none ↦ unmade | some new ↦ made new ])
    else none
init_local_server memory created unmade = some (fail, unmade)
init_local_server memory created (made server) = some (fail, made server)

module _ (malloc : ℕ → Option Bytes) (malloc_node : Store → Option ℕ)
    (fresh_block : Store → ℕ) where
  -- The body of HASH_STRING_ITER: an exit for each child.
  unfoldable pub add_exits : Server → List (Entry ℕ) → Cmd Server
  add_exits server [] = pure server
  add_exits server (entry ∷ entries) = elim (server.ptable.heap entry.value) [
    | none ↦ λ s. fault
    | some process ↦ do
      let told : Cmd Server =
          server_add malloc malloc_node fresh_block server entry.key exit_text []
      server' ← elim (is_child process.process_relation) [ true ↦ told | false ↦ pure server ]
      add_exits server' entries
  ]

  -- What went out, and the process data that is left. Clearing `active`, the two pauses, and the address,
  -- socket and buffers of a server that is gone have no part in it.
  unfoldable pub server_free :
      Socket → (rounds chunks : ℕ) → Server → Cmd (Outbox × (ℕ → Option ProcessData))
  server_free socket rounds chunks server =
      elim (iterate_all rounds server.ptable.table.hash_table) [
        | none ↦ λ s. unfinished
        | some entries ↦ do
          told ← add_exits server entries
          sent ← send_instructions socket malloc_node rounds chunks told
          elim (process_table_free sent.ptable) [
            | none ↦ λ s. fault
            | some heap ↦ do
              queue_free rounds sent.incomingmsg
              queue_free rounds sent.outgoingmsg
              pure (sent.outbox, heap)
          ]
      ]

  -- wimp_close_local_server: without a local server nothing happens.
  unfoldable pub close_local_server : Socket → (rounds chunks : ℕ) → Local → Cmd Local
  close_local_server socket rounds chunks absent = pure absent
  close_local_server socket rounds chunks unmade = λ s. fault
  close_local_server socket rounds chunks (made server) = do
    server_free socket rounds chunks server
    pure absent

  -- wimp_add_local_server
  unfoldable pub add_local_server : Local → (dest instr args : Bytes) → Cmd Local
  add_local_server absent dest instr args = pure absent
  add_local_server unmade dest instr args = λ s. fault
  add_local_server (made server) dest instr args = do
    added ← server_add malloc malloc_node fresh_block server dest instr args
    pure (made added)
