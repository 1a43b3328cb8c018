-- ===== src/Server/Routed.antt =====
-- One instruction to whomever it is for (wimp_server_send_instructions).
use wimp.Prelude.{
  ℕ, ◌<◌, ◌^◌, ◌≡◌, refl, sym, ◌∙◌, arith, Option, none, some, ◌++◌, false, length, append-nil,
  Option-cases, Bool-cases, inl, inr,
}
use wimp.Prelude.Bytes.{Bytes, text_eq}
use wimp.Memory.{Store}
use wimp.Memory.Frame.{Item, Ends, Ends-mono}
use wimp.Queue.Chain.{node_of}
use wimp.Queue.Ends.{load_node-eq}
use wimp.ProcessTable.{ProcessData}
use wimp.ProcessTable.Laws.{IsValid}
use wimp.Server.{Server, Socket, destination, send_to, send_current}
use wimp.Server.Chunks.{Takes}
use wimp.Server.Counts.{get_from_node-Carries}
use wimp.Server.Mail.{Mail, Holds, gathered_on, receiver, way, part, Sent-gathered_on}
use wimp.Server.Routes.{destination-lookup, destination-live}
use wimp.Server.Sending.{send_to-SentOn, read_dest-Carries}

-- The instruction has gone to whom it is for, and nothing else has changed.
abbrev pub Routed : Server → Bytes → Bytes → Store → Server → Store → Type 0
Routed server dest content s server' t =
    (t ≡ s)
    × (server' ≡ record server { outbox = server'.outbox })
    × ((c : Option ℕ)
        → gathered_on c server'.outbox
          ≡ gathered_on c server.outbox
            ++ part (way (receiver server.ptable server.parent dest)) c content)

module _ (socket : Socket) (takes : Takes socket) (chunks : ℕ) (server : Server) (s : Store) where
  send_to-active :
      (dest content : Bytes) (p : ℕ) (process : ProcessData)
      → server.ptable.heap p ≡ some process
      → receiver server.ptable server.parent dest ≡ some process
      → length content < 2 ^ 63
      → length content < chunks
      → Ends
          (send_to socket chunks server content (length content) (some p) s)
          (Routed server dest content s)
  unfolding send_to
  send_to-active dest content p process there to small room =
      elim (Bool-cases process.process_active) [
        | inl active ↦
            Ends-mono (send_to socket chunks server content (length content) (some p) s) _ _
              (send_to-SentOn socket takes chunks server s content p process there active small
                room)
              λ server' t (same, only, sent). (
                same,
                only,
                λ c.
                    rw (to, active)
                      (Sent-gathered_on process.process_connection c content server.outbox
                        server'.outbox sent),
              )
        | inr idle ↦
            rw (send_to, there, idle)
              (refl, refl, λ c. rw (to, idle) (sym (append-nil (gathered_on c server.outbox))))
      ]

  send_to-Routed :
      (dest content : Bytes)
      → IsValid server.ptable
      → length content < 2 ^ 63
      → length content < chunks
      → Ends
          (send_to socket chunks server content (length content) (destination server dest) s)
          (Routed server dest content s)
  unfolding send_to
  send_to-Routed dest content valid small room =
      let to = destination-lookup server dest valid in
      elim (Option-cases (destination server dest)) [
        | inl nowhere ↦
            let lost : receiver server.ptable server.parent dest ≡ none =
              sym to ∙ rw nowhere refl in
            rw (nowhere, send_to)
              (refl, refl, λ c. rw lost (sym (append-nil (gathered_on c server.outbox))))
        | inr (p, leads) ↦ elim (Option-cases (server.ptable.heap p)) [
          | inl gone ↦ cc (rw gone at (destination-live server dest p valid leads))
          | inr (process, there) ↦
              let found : receiver server.ptable server.parent dest ≡ some process =
                sym to ∙ rw (leads, there) refl in
              rw leads (send_to-active dest content p process there found small room)
        ]
      ]

  pub send_current-Routed :
      (malloc_node : Store → Option ℕ) (i : Item) (next : Option ℕ) (m : Mail)
      → Holds server.process_name s i m
      → s.node i.at ≡ some (node_of i.instr next)
      → IsValid server.ptable
      → length m.content < chunks
      → Ends
          (send_current socket malloc_node chunks server (some i.at) s)
          (Routed server m.dest m.content s)
  unfolding send_current
  send_current-Routed malloc_node i next m h at valid room =
      let c = h.carried in
      let other : text_eq c.dest server.process_name ≡ false = rw (← h.dest) h.other in
      rw
        (
          load_node-eq s i.at (node_of i.instr next) at,
          get_from_node-Carries s i h.name next c at,
          read_dest-Carries s i h.name c,
          other,
          ← h.content,
          ← h.dest,
        )
        (send_to-Routed m.dest m.content valid (rw h.content (omega (arith, c.small))) room)
