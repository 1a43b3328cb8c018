-- ===== src/Server/Loopback.antt =====
-- An instruction for the own process in the outgoing queue (wimp_server_send_instructions of
-- wimp/src/wimp_server.c).
use wimp.Prelude.{
  ℕ, suc, ◌≡◌, refl, ap, sym, ◌∙◌, arith, Option, none, some, List, [], ◌∷◌, ◌++◌, true, false,
  ◌==◌, ==_iff, ==_refl, length, Bool-cases, inl, inr,
}
use wimp.Prelude.Bytes.{Bytes, text_eq}
use wimp.Memory.{Instr, Store, IsFresh, unlock}
use wimp.Memory.Frame.{Item, has, Ends, Ends-bind, has-append}
use wimp.Queue
use wimp.Queue.{InstrQueue, pop, node_free, high_prio_lock, high_prio_unlock}
use wimp.Queue.Chain.{IsQueue, Linked-frame, first_at, node_of, unused-not-has}
use wimp.Queue.Ends.{PopResult, pop-PopResult, AddResult, add-AddResult, load_node-eq}
use wimp.Queue.Free.{node_free-Cleared, IsQueue-Cleared}
use wimp.Wire.Bundle.{message}
use wimp.Server.{Server, Socket, send_current, send_loop, send_instructions}
use wimp.Server.Drain.{held}
use wimp.Server.Counts.{Carries, get_from_node-Carries}
use wimp.Server.Sending.{read_dest-Carries}

-- The incoming queue with a node for the instruction, if there was memory for one.
abbrev pub with_node : List Item → Instr → Option ℕ → List Item
with_node incoming instr none = incoming
with_node incoming instr (some p) = incoming ++ record { at = p; instr = instr } ∷ []

-- The instruction has gone to the incoming queue, and its node and its message are given back.
pub record LoopedBack (server : Server) (i : Item) (block_at : ℕ) (incoming : List Item)
    (node : Option ℕ) (s : Store) (server' : Server) (t : Store) : Type 0 where
  pub queued : IsQueue t server'.incomingmsg (with_node incoming i.instr node)
  pub dangling : t.block block_at ≡ none
  pub blocks : (b : ℕ) → (b == block_at) ≡ false → t.block b ≡ s.block b
  pub gone : t.node i.at ≡ none
  pub only :
      server'
      ≡ record server { incomingmsg = server'.incomingmsg; outgoingmsg = server'.outgoingmsg }

-- What queueing the node leaves: the nodes of the outgoing queue as they were, and apart.
record Requeued (s : Store) (items incoming : List Item) (instr : Instr) (node : Option ℕ)
    (q : InstrQueue) (t : Store) : Type 0 where
  queued : IsQueue t q (with_node incoming instr node)
  kept : (a : ℕ) → has a items ≡ true → t.node a ≡ s.node a
  blocks : t.block ≡ s.block
  apart : (a : ℕ) → has a items ≡ true → has a (with_node incoming instr node) ≡ false

AddResult-Requeued :
    (s t : Store) (items incoming : List Item) (instr : Instr) (node : Option ℕ) (q r : InstrQueue)
    (result : Queue.InstructionResult)
    → ((p : ℕ) → node ≡ some p → has p items ≡ false)
    → ((a : ℕ) → has a items ≡ true → has a incoming ≡ false)
    → IsQueue s q incoming
    → AddResult s q incoming instr node (result, r) t
    → Requeued s items incoming instr node r t
AddResult-Requeued s t items incoming instr none q r result unused apart is (failed, same, kept) =
    rw (same, kept) (record { queued = is; kept = λ a h. refl; blocks = refl; apart = apart })
AddResult-Requeued s t items incoming instr (some p) q r result unused apart is (ok, added) =
    let new : Item = record { at = p; instr = instr } in
    let other : (a : ℕ) → has a items ≡ true → (a == p) ≡ false = λ a h.
      elim (Bool-cases (a == p)) [
        | inl e ↦ cc (ap (λ (n : ℕ). has n items) ((==_iff a p).0 e), unused p refl, h)
        | inr e ↦ e
      ] in
    record {
      queued = added.queue;
      kept = λ a h. added.same.nodes a (ground (arith, other a h, apart a h));
      blocks = added.same.blocks;
      apart = λ a h. has-append a incoming (new ∷ []) ∙ ground (arith, other a h, apart a h);
    }

module _ (socket : Socket) (malloc_node : Store → Option ℕ) (fresh : IsFresh malloc_node)
    (chunks : ℕ) (server : Server) (i : Item) (name : Bytes) (incoming : List Item) (s : Store)
    (c : Carries s i name) (own : text_eq c.dest server.process_name ≡ true) where
  -- The node is queued with the message of the old one.
  send_current-added :
      (popped : Server) (next : Option ℕ)
      → popped.process_name ≡ server.process_name
      → s.node i.at ≡ some (node_of i.instr next)
      → IsQueue s popped.incomingmsg incoming
      → Ends (send_current socket malloc_node chunks popped (some i.at) s) (λ server' t.
        (server' ≡ record popped { incomingmsg = server'.incomingmsg })
        × (result : Queue.InstructionResult) × AddResult s popped.incomingmsg incoming i.instr
            (malloc_node s)
            (result, server'.incomingmsg)
            t)
  unfolding send_current
  send_current-added popped next same at is =
      let size = length (message c.process c.dest name c.args) in
      let instr : ◌≡◌ {A = Instr}
          (record { instruction = i.instr.instruction; instruction_bytes = size }) i.instr =
        ap (λ (r : Instr). record r { instruction_bytes = size }) c.instr ∙ sym c.instr in
      rw
        (
          load_node-eq s i.at (node_of i.instr next) at,
          get_from_node-Carries s i name next c at,
          read_dest-Carries s i name c,
          same,
          own,
        )
        (Ends-bind (Queue.add malloc_node popped.incomingmsg i.instr.instruction size s) _ _ _
          (add-AddResult malloc_node s popped.incomingmsg incoming i.instr.instruction size fresh
            is)
          λ (result, r) t added. (refl, result, rw instr at added))

  -- One round of the loop; `P` is whatever the later rounds reach.
  pub send_loop-loopback :
      (rounds : ℕ) (rest : List Item) (P : Server → Store → Type 0)
      → IsQueue s server.outgoingmsg (i ∷ rest)
      → IsQueue s server.incomingmsg incoming
      → ((a : ℕ) → has a (i ∷ rest) ≡ true → has a incoming ≡ false)
      → ((server' : Server) (t : Store)
          → LoopedBack server i c.block_at incoming (malloc_node s) s server' t
          → IsQueue t server'.outgoingmsg rest
          → Ends (send_loop socket malloc_node rounds chunks server' t) P)
      → Ends (send_loop socket malloc_node (suc rounds) chunks server s) P
  unfolding send_loop
  send_loop-loopback rounds rest P is js apart onwards =
      Ends-bind (pop server.outgoingmsg s) _ (PopResult s server.outgoingmsg (i ∷ rest)) _
        (pop-PopResult s server.outgoingmsg (i ∷ rest) is)
        λ (node, r) t (e, left, mutexes, et).
          let popped : Server = record server { outgoingmsg = r } in
          rw (e, et)
            (Ends-bind (send_current socket malloc_node chunks popped (some i.at) s) _ _ _
              (send_current-added popped (first_at rest) refl is.linked.0 js)
              λ sent u (only, result, added).
                let q =
                  AddResult-Requeued s u (i ∷ rest) incoming i.instr (malloc_node s)
                    server.incomingmsg sent.incomingmsg result
                    (λ p got. unused-not-has s (i ∷ rest) p is.linked (fresh s p got)) apart js
                    added in
                let first : has i.at (i ∷ rest) ≡ true = ground (arith, ==_refl i.at) in
                let there : u.block c.block_at ≡ some (message c.process c.dest name c.args) =
                  ap (λ (b : ℕ → Option Bytes). b c.block_at) q.blocks ∙ c.there in
                let queue : sent.outgoingmsg ≡ r = ap (λ (w : Server). w.outgoingmsg) only in
                let still : IsQueue u r rest = record {
                  front = left.front;
                  back = left.back;
                  linked = Linked-frame s u rest (λ a h. q.kept a (ground (arith, h))) left.linked;
                  distinct = left.distinct;
                } in
                Ends-bind (node_free (some i.at) u) _ _ _
                  (node_free-Cleared u i (first_at rest) (q.kept i.at first ∙ is.linked.0)
                    (rw c.instr (message c.process c.dest name c.args, there)))
                  λ _ v cleared.
                    onwards sent v
                      (record {
                        queued =
                            IsQueue-Cleared u v sent.incomingmsg i _ (q.apart i.at first) q.queued
                              cleared;
                        dangling =
                            cleared.blocks c.block_at ∙ rw (c.instr, ==_refl c.block_at) refl;
                        blocks = λ b ne.
                            cleared.blocks b
                            ∙ rw (c.instr, ne) (ap (λ (g : ℕ → Option Bytes). g b) q.blocks);
                        gone = cleared.nodes i.at ∙ rw (==_refl i.at) refl;
                        only =
                            only
                            ∙ ap
                                (λ (o : InstrQueue). record server {
                                  incomingmsg = sent.incomingmsg;
                                  outgoingmsg = o;
                                })
                                (sym queue);
                      })
                      (rw queue (IsQueue-Cleared u v r i rest is.distinct.0 still cleared)))

IsQueue-held :
    (server : Server) (s : Store) (q : InstrQueue) (items : List Item)
    → IsQueue s q items
    → IsQueue (held server s) q items
IsQueue-held server s q items is = record {
  front = is.front;
  back = is.back;
  linked = Linked-frame s (held server s) items (λ a h. refl) is.linked;
  distinct = is.distinct;
}

send_loop-empty :
    (socket : Socket) (malloc_node : Store → Option ℕ) (rounds chunks : ℕ) (server : Server)
    (s : Store) (P : Server → Store → Type 0)
    → IsQueue s server.outgoingmsg []
    → P server s
    → Ends (send_loop socket malloc_node (suc rounds) chunks server s) P
unfolding send_loop
send_loop-empty socket malloc_node rounds chunks server s P is p =
    Ends-bind (pop server.outgoingmsg s) _ (PopResult s server.outgoingmsg []) _
      (pop-PopResult s server.outgoingmsg [] is) λ (node, r) t (e, er, et). rw (e, er, et) p

-- wimp_server_send_instructions with one instruction in the outgoing queue, a message for the own process
-- (size below 2^31, not a multiple of 256), apart from the incoming queue: nothing goes out. Where
-- there is memory a node with the message is put at the back of the incoming queue; otherwise the
-- instruction is lost. But then the message is given back in either case, so the new node leads to
-- memory that is free. The outgoing queue is empty. Two rounds are enough.
pub send_instructions-loopback :
    (socket : Socket) (malloc_node : Store → Option ℕ) (rounds chunks : ℕ) (server : Server)
    (i : Item) (name : Bytes) (incoming : List Item) (s : Store)
    → IsFresh malloc_node
    → (c : Carries s i name) → text_eq c.dest server.process_name ≡ true
    → IsQueue s server.outgoingmsg (i ∷ [])
    → IsQueue s server.incomingmsg incoming
    → has i.at incoming ≡ false
    → Ends (send_instructions socket malloc_node (suc (suc rounds)) chunks server s) (λ server' t.
      (u : Store) × LoopedBack server i c.block_at incoming
        (malloc_node (held server s))
        s
        server'
        u
      × IsQueue u server'.outgoingmsg []
      × (t ≡ record u { calls = unlock server'.outgoingmsg.datamutex ∷ u.calls }))
unfolding send_instructions high_prio_lock high_prio_unlock
send_instructions-loopback socket malloc_node rounds chunks server i name incoming s fresh c own is
      js apart =
    let locked = held server s in
    let c' : Carries locked i name = record {
      block_at = c.block_at;
      process = c.process;
      dest = c.dest;
      args = c.args;
      names = c.names;
      small = c.small;
      odd = c.odd;
      there = c.there;
      instr = c.instr;
    } in
    Ends-bind (send_loop socket malloc_node (suc (suc rounds)) chunks server locked) _
      (λ server' u.
        LoopedBack server i c.block_at incoming (malloc_node locked) s server' u
        × IsQueue u server'.outgoingmsg [])
      _
      (send_loop-loopback socket malloc_node fresh chunks server i name incoming locked c' own
        (suc rounds) [] _ (IsQueue-held server s server.outgoingmsg (i ∷ []) is)
        (IsQueue-held server s server.incomingmsg incoming js)
        (λ a h.
          let same : (a == i.at) ≡ true = ground (arith, h) in
          ap (λ (n : ℕ). has n incoming) ((==_iff a i.at).0 same) ∙ apart)
        λ server' t looped empty.
          send_loop-empty socket malloc_node rounds chunks server' t _ empty (
            record {
              queued = looped.queued;
              dangling = looped.dangling;
              blocks = looped.blocks;
              gone = looped.gone;
              only = looped.only;
            },
            empty,
          ))
      λ server' u (looped, empty). (u, looped, empty, refl)
