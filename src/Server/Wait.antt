-- ===== src/Server/Wait.antt =====
-- Waiting for a response (wimp_server_wait_response of wimp/src/wimp_server.c). The reciever thread
-- works on the incoming queue between two passes: what it does then is an argument.
use wimp.Prelude.{ℕ, zero, suc, Option, none, some, true, false}
use wimp.Prelude.Bytes.{Bytes}
use wimp.Memory.{fault, unfinished, Cmd, pure, ◌>>=◌, ◌>>◌}
use wimp.Queue.{
  InstrQueue, success, fail, create_instr_queue, high_prio_lock, high_prio_unlock, prepend_queue,
  queue_free,
}
use wimp.Server.{Server, wait_pass}

-- `while (!disconnect)`: the node, the incoming queue, and the nodes put aside.
unfoldable pub wait_loop :
    (ℕ → InstrQueue → Cmd InstrQueue)
    → (passes rounds : ℕ) → Bytes
    → InstrQueue
    → InstrQueue
    → Cmd (Option ℕ × InstrQueue × InstrQueue)
wait_loop reciever zero rounds instr incoming tmpqueue = λ s. unfinished
wait_loop reciever (suc passes) rounds instr incoming tmpqueue = do
  high_prio_lock incoming
  pass ← wait_pass rounds instr incoming tmpqueue
  high_prio_unlock pass.2
  elim pass.1 [
    | true ↦ pure (pass.0, pass.2, pass.3)
    | false ↦ do
      changed ← reciever passes pass.2
      wait_loop reciever passes rounds instr changed pass.3
  ]

-- The nodes put aside go to the front. The queue that is unlocked is the one behind the swap, and the
-- one that is freed is the other.
unfoldable pub wait_ends : ℕ → Server → Option ℕ → InstrQueue → InstrQueue → Cmd (Option ℕ × Server)
wait_ends rounds server node incoming tmpqueue = do
  high_prio_lock incoming
  joined ← prepend_queue rounds (some incoming) (some tmpqueue)
  elim joined.0 [
    | fail ↦ λ s. fault
    | success ↦ elim joined.1 [
      | none ↦ λ s. fault
      | some whole ↦ elim joined.2 [
        | none ↦ λ s. fault
        | some left ↦ do
          high_prio_unlock whole
          queue_free rounds left
          pure (node, record server { incomingmsg = whole })
      ]
    ]
  ]

-- The handles are those of the mutexes of the temporary queue. The timeout is not used.
unfoldable pub wait_response :
    (ℕ → InstrQueue → Cmd InstrQueue)
    → (data_handle next_handle lowprio_handle : ℕ) (passes rounds : ℕ) → Server
    → Bytes
    → Cmd (Option ℕ × Server)
wait_response reciever data_handle next_handle lowprio_handle passes rounds server instr = do
  waited ←
      wait_loop reciever passes rounds instr server.incomingmsg
        (create_instr_queue data_handle next_handle lowprio_handle)
  wait_ends rounds server waited.0 waited.1 waited.2
