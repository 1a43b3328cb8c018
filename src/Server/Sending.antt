-- ===== src/Server/Sending.antt =====
-- One instruction on its way out (the body of the loop of wimp_server_send_instructions).
use wimp.Prelude.{
  ℕ, ◌-◌, ◌<◌, ◌^◌, ◌≡◌, refl, arith, Option, some, true, false, length, take, take-all,
}
use wimp.Prelude.Bytes.{Bytes, text_eq}
use wimp.Memory.{Store, done}
use wimp.Memory.Frame.{Item, Ends, Ends-bind}
use wimp.Queue.Chain.{node_of}
use wimp.Queue.Ends.{load_node-eq}
use wimp.ProcessTable.{ProcessData}
use wimp.Wire.Bundle.{message}
use wimp.Wire.Fields.{meta_of}
use wimp.Wire.RoundTrip.{meta_of-fields}
use wimp.Server.{Server, Socket, read_text, destination, send_to, send_current, send_chunks}
use wimp.Server.Chunks.{Takes, Sent, send_chunks-Sent}
use wimp.Server.Counts.{Carries, get_from_node-Carries}

pub read_dest-Carries :
    (s : Store) (i : Item) (name : Bytes) (c : Carries s i name)
    → read_text
        (message c.process c.dest name c.args)
        (meta_of c.process c.dest name c.args).dest_process
        s
      ≡ done c.dest s
unfolding read_text
read_dest-Carries s i name c =
    let fields =
      meta_of-fields c.process c.dest name c.args c.names.0 c.names.1 c.names.2 c.small in
    rw (fields.1, read_text) refl

-- Only the outbox has changed, and has the message on this connection.
abbrev pub SentOn : Option ℕ → Bytes → Server → Store → Server → Store → Type 0
SentOn connection content server s server' t =
    (t ≡ s)
    × (server' ≡ record server { outbox = server'.outbox })
    × Sent connection content server.outbox server'.outbox

module _ (socket : Socket) (takes : Takes socket) (chunks : ℕ) (server : Server) (s : Store) where
  pub send_to-SentOn :
      (content : Bytes) (p : ℕ) (process : ProcessData)
      → server.ptable.heap p ≡ some process
      → process.process_active ≡ true
      → length content < 2 ^ 63
      → length content < chunks
      → Ends
          (send_to socket chunks server content (length content) (some p) s)
          (SentOn process.process_connection content server s)
  unfolding send_to
  send_to-SentOn content p process there active small room =
      let total : length content - 0 ≡ length content = omega arith in
      let all : take (length content - 0) content ≡ content =
        take-all (length content - 0) content (omega arith) in
      rw (send_to, there, active)
        (Ends-bind
          (send_chunks socket chunks process.process_connection content (length content) 0
            server.outbox s)
          _ _ _
          (send_chunks-Sent socket process.process_connection takes chunks content (length content)
            0 server.outbox s (omega arith) (omega arith) small (omega arith))
          λ outbox t (same, sent). (same, refl, rw all at sent))

  -- One round of wimp_server_send_instructions, for a node that carries a message (with a size below
  -- 2^31 that is not a multiple of 256) for another process, where the message or else the parent
  -- leads to an active process of the table, on a socket that takes at least a byte of each chunk:
  -- the message goes out whole on the connection of that process, and nothing else changes. More
  -- chunks than bytes are enough.
  pub send_current-SentOn :
      (malloc_node : Store → Option ℕ) (i : Item) (next : Option ℕ) (name : Bytes)
      (c : Carries s i name) (p : ℕ) (process : ProcessData)
      → s.node i.at ≡ some (node_of i.instr next)
      → text_eq c.dest server.process_name ≡ false
      → destination server c.dest ≡ some p
      → server.ptable.heap p ≡ some process
      → process.process_active ≡ true
      → length (message c.process c.dest name c.args) < chunks
      → Ends
          (send_current socket malloc_node chunks server (some i.at) s)
          (SentOn process.process_connection (message c.process c.dest name c.args) server s)
  unfolding send_current
  send_current-SentOn malloc_node i next name c p process at other leads there active room =
      rw
        (
          load_node-eq s i.at (node_of i.instr next) at,
          get_from_node-Carries s i name next c at,
          read_dest-Carries s i name c,
          other,
          leads,
        )
        (send_to-SentOn (message c.process c.dest name c.args) p process there active
          (omega (arith, c.small)) room)
