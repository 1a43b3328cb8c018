-- ===== src/Server/Drain.antt =====
-- Sending the whole outgoing queue (wimp_server_send_instructions).
use wimp.Prelude.{
  ℕ, zero, suc, ◌<◌, ◌≡◌, refl, ap, ap₂, sym, ◌∙◌, arith, Option, none, some, List, [], ◌∷◌, ◌++◌,
  true, false, ◌||◌, All, if◌then◌else◌, length, append_assoc, append-nil,
}
use wimp.Prelude.Bytes.{Bytes}
use wimp.Memory.{Store, lock, unlock}
use wimp.Memory.Frame.{Item, Ends, Ends-bind, Ends-mono}
use wimp.Queue.{InstrQueue, pop, node_free, high_prio_lock, high_prio_unlock}
use wimp.Queue.Chain.{Linked-frame, IsQueue, SameMutexes, SameMutexes-trans, first_at}
use wimp.Queue.Ends.{PopResult, pop-PopResult}
use wimp.Queue.Free.{
  Owned, holds, unshared, Cleared, node_free-Cleared, IsQueue-Cleared, Owned-frame, unshared-head,
  unshared-tail, Cleared-cons,
}
use wimp.ProcessTable.Laws.{IsValid}
use wimp.Server.{Server, Socket, send_current, send_loop, send_instructions}
use wimp.Server.Chunks.{Takes}
use wimp.Server.Mail.{Mail, HoldAll, gathered_on, receiver, way, part, bound_for}
use wimp.Server.Routed.{Routed, send_current-Routed}

-- The memory with the outgoing queue locked.
abbrev pub held : Server → Store → Store
held server s = record s {
  calls =
      unlock server.outgoingmsg.nextmutex
      ∷ (lock server.outgoingmsg.datamutex ∷ (lock server.outgoingmsg.nextmutex ∷ s.calls));
}

-- What the server has done when its outgoing queue is sent.
pub record Drained (server : Server) (items : List Item) (mails : List Mail) (s : Store)
    (server' : Server) (t : Store) : Type 0 where
  pub gather :
      (c : Option ℕ)
      → gathered_on c server'.outbox
        ≡ gathered_on c server.outbox ++ bound_for server.ptable server.parent c mails
  pub only : server' ≡ record server { outgoingmsg = server'.outgoingmsg; outbox = server'.outbox }
  pub emptied : IsQueue t server'.outgoingmsg []
  pub cleared : Cleared items s t
  pub mutexes : SameMutexes server.outgoingmsg server'.outgoingmsg

-- The other nodes hold their mails when the first is freed.
HoldAll-frame :
    (process_name : Bytes) (s t : Store) (owner : Option ℕ) (items : List Item) (mails : List Mail)
    → unshared owner items ≡ true
    → ((b : ℕ) → t.block b ≡ (if holds b owner || false then none else s.block b))
    → HoldAll process_name s items mails
    → HoldAll process_name t items mails
HoldAll-frame name s t owner [] [] out f h = tt
HoldAll-frame name s t owner [] (m ∷ mails) out f h = h
HoldAll-frame name s t owner (j ∷ items) [] out f h = h
HoldAll-frame name s t owner (j ∷ items) (m ∷ mails) out f (h, hs) =
    let c = h.carried in
    let apart : holds c.block_at owner ≡ false =
      unshared-head owner j items c.block_at (rw c.instr refl) out in
    (
      record {
        name = h.name;
        carried = record {
          block_at = c.block_at;
          process = c.process;
          dest = c.dest;
          args = c.args;
          names = c.names;
          small = c.small;
          odd = c.odd;
          there = f c.block_at ∙ rw apart c.there;
          instr = c.instr;
        };
        dest = h.dest;
        content = h.content;
        other = h.other;
      },
      HoldAll-frame name s t owner items mails (unshared-tail owner j items out) f hs,
    )

Drained-cons :
    (server sent final : Server) (i : Item) (items : List Item) (m : Mail) (mails : List Mail)
    (s t u : Store)
    → Routed server m.dest m.content s sent s
    → Cleared (i ∷ []) s t
    → Drained sent items mails t final u
    → Drained server (i ∷ items) (m ∷ mails) s final u
Drained-cons server sent final i items m mails s t u (same, only, gather) cleared rest = record {
  gather = λ c.
      let first = part (way (receiver server.ptable server.parent m.dest)) c m.content in
      let others : bound_for sent.ptable sent.parent c mails
          ≡ bound_for server.ptable server.parent c mails =
        ap (λ (v : Server). bound_for v.ptable v.parent c mails) only in
      rest.gather c
      ∙ ap₂ (λ a b. a ++ b) (gather c) others
      ∙ append_assoc (gathered_on c server.outbox) first
          (bound_for server.ptable server.parent c mails);
  only =
      rest.only
      ∙ ap (λ (v : Server). record v { outgoingmsg = final.outgoingmsg; outbox = final.outbox })
          only;
  emptied = rest.emptied;
  cleared = Cleared-cons i items s t u cleared rest.cleared;
  mutexes =
      SameMutexes-trans server.outgoingmsg sent.outgoingmsg final.outgoingmsg
        (let e = ap (λ (v : Server). v.outgoingmsg) only in
          (
            ap (λ (q : InstrQueue). q.datamutex) e,
            ap (λ (q : InstrQueue). q.nextmutex) e,
            ap (λ (q : InstrQueue). q.lowpriomutex) e,
          ))
        rest.mutexes;
}

Drained-pop :
    (server final : Server) (r : InstrQueue) (items : List Item) (mails : List Mail) (s t : Store)
    → SameMutexes server.outgoingmsg r
    → Drained (record server { outgoingmsg = r }) items mails s final t
    → Drained server items mails s final t
Drained-pop server final r items mails s t mutexes d = record {
  gather = d.gather;
  only = d.only;
  emptied = d.emptied;
  cleared = d.cleared;
  mutexes = SameMutexes-trans server.outgoingmsg r final.outgoingmsg mutexes d.mutexes;
}

module _ (socket : Socket) (takes : Takes socket) (malloc_node : Store → Option ℕ)
    (chunks : ℕ) where
  send_loop-Drained :
      (rounds : ℕ) (server : Server) (items : List Item) (mails : List Mail) (s : Store)
      → IsQueue s server.outgoingmsg items
      → HoldAll server.process_name s items mails
      → Owned s items
      → IsValid server.ptable
      → All (λ m. length m.content < chunks) mails
      → length items < rounds
      → Ends (send_loop socket malloc_node rounds chunks server s) (Drained server items mails s)
  unfolding send_loop
  send_loop-Drained zero server items mails s is hold own valid room enough = absurd (omega arith)
  send_loop-Drained (suc rounds) server [] [] s is hold own valid room enough =
      Ends-bind (pop server.outgoingmsg s) _ (PopResult s server.outgoingmsg []) _
        (pop-PopResult s server.outgoingmsg [] is)
        λ (node, r) t (e, er, et).
          rw (e, er, et)
            (record {
              gather = λ c. sym (append-nil (gathered_on c server.outbox));
              only = refl;
              emptied = is;
              cleared = record { nodes = λ a. refl; blocks = λ b. refl; calls = refl };
              mutexes = (refl, refl, refl);
            })
  send_loop-Drained (suc rounds) server [] (m ∷ mails) s is hold own valid room enough = absurd hold
  send_loop-Drained (suc rounds) server (i ∷ items) [] s is hold own valid room enough = absurd hold
  send_loop-Drained (suc rounds) server (i ∷ items) (m ∷ mails) s is (h, hold) own valid
        (fits, room) enough =
      Ends-bind (pop server.outgoingmsg s) _ (PopResult s server.outgoingmsg (i ∷ items)) _
        (pop-PopResult s server.outgoingmsg (i ∷ items) is)
        λ (node, r) t (e, rest, mutexes, et).
          let popped : Server = record server { outgoingmsg = r } in
          rw (e, et)
            (Ends-bind (send_current socket malloc_node chunks popped (some i.at) s) _ _ _
              (send_current-Routed socket takes chunks popped s malloc_node i (first_at items) m h
                is.linked.0 valid fits)
              λ sent u (same, only, gather). rw same (
                Ends-bind (node_free (some i.at) s) _ _ _
                  (node_free-Cleared s i (first_at items) is.linked.0 own.0)
                  λ _ v cleared.
                    let queue : sent.outgoingmsg ≡ r = ap (λ (w : Server). w.outgoingmsg) only in
                    let table : sent.ptable ≡ server.ptable = ap (λ (w : Server). w.ptable) only in
                    let named : sent.process_name ≡ server.process_name =
                      ap (λ (w : Server). w.process_name) only in
                    Ends-mono (send_loop socket malloc_node rounds chunks sent v) _ _
                      (send_loop-Drained rounds sent items mails v
                        (rw queue (IsQueue-Cleared s v r i items is.distinct.0 rest cleared))
                        (rw named (
                          HoldAll-frame server.process_name s v i.instr.instruction items mails
                            own.1 cleared.blocks hold))
                        (Owned-frame s v i.instr.instruction items own.1 cleared.blocks own.2)
                        (rw table valid) room (omega arith))
                      λ final w drained.
                        Drained-pop server final r (i ∷ items) (m ∷ mails) s w mutexes (
                          Drained-cons popped sent final i items m mails s v w (refl, only, gather)
                            cleared drained)))

  -- wimp_server_send_instructions, for a server with a well-formed process table whose outgoing queue
  -- carries messages (with sizes below 2^31 that are not multiples of 256) for other processes, each
  -- in a block of its own, on sockets that take at least a byte of each chunk: it ends. On every
  -- connection then goes out what was there before, followed by exactly the messages, whole and in
  -- the order of the queue, whose receiver (the process that the message names if the table has it,
  -- and otherwise the parent) is active on that connection. The other messages are scrapped. The
  -- queue is empty, every node and message of it is given back and nothing else, and the rest of the
  -- server is unchanged. The queue is locked before as by a high-priority user, and unlocked after.
  -- More rounds than nodes and more chunks than bytes of each message are enough.
  pub send_instructions-Drained :
      (rounds : ℕ) (server : Server) (items : List Item) (mails : List Mail) (s : Store)
      → IsQueue s server.outgoingmsg items
      → HoldAll server.process_name s items mails
      → Owned s items
      → IsValid server.ptable
      → All (λ m. length m.content < chunks) mails
      → length items < rounds
      → Ends (send_instructions socket malloc_node rounds chunks server s) (λ server' t.
        (u : Store) × Drained server items mails (held server s) server' u
        × (t ≡ record u { calls = unlock server.outgoingmsg.datamutex ∷ u.calls }))
  unfolding send_instructions high_prio_lock high_prio_unlock
  send_instructions-Drained rounds server items mails s is hold own valid room enough =
      Ends-bind (send_loop socket malloc_node rounds chunks server (held server s)) _ _ _
        (send_loop-Drained rounds server items mails (held server s)
          (record {
            front = is.front;
            back = is.back;
            linked = Linked-frame s (held server s) items (λ a h. refl) is.linked;
            distinct = is.distinct;
          })
          (HoldAll-frame server.process_name s (held server s) none items mails refl (λ b. refl)
            hold)
          (Owned-frame s (held server s) none items refl (λ b. refl) own) valid room enough)
        λ server' u drained. (u, drained, rw drained.mutexes.0 refl)
