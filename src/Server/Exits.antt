-- ===== src/Server/Exits.antt =====
-- The exits that a server sends to its children when it is closed (wimp_server_free of
-- wimp/src/wimp_server.c).
use wimp.Prelude.{
  ℕ, suc, ◌+◌, ◌<◌, ◌≡◌, refl, ap, ◌∙◌, arith, Option, none, some, List, [], ◌∷◌, ◌++◌, true, false,
  is_some, length, All, append_assoc, append-nil, length-append, Bool-cases, Option-cases, inl, inr,
}
use wimp.Prelude.Bytes.{Bytes}
use wimp.HashString.{Entry}
use wimp.Memory.{Store, IsFresh, ◌>>=◌}
use wimp.Memory.Frame.{Item, Ends, Ends-bind, Ends-mono}
use wimp.Queue.Chain.{IsQueue}
use wimp.Queue.Free.{Owned}
use wimp.ProcessTable.Laws.{IsValid}
use wimp.Wire.Bundle.{message}
use wimp.Wire.Fields.{IsName}
use wimp.Reciever.{exit_text}
use wimp.Server.{Server, Socket, server_add, send_instructions}
use wimp.Server.Adding.{filled, server_add-Queued}
use wimp.Server.Chunks.{Takes}
use wimp.Server.Close.{is_child, add_exits}
use wimp.Server.Drain.{send_instructions-Drained}
use wimp.Server.Mail.{Mail, HoldAll, gathered_on, bound_for}
use wimp.Server.Kept.{Kept, used_ne, HoldAll-snoc, Owned-snoc}
use wimp.Server.Told.{
  exit_mail, leads_to_child, exits, IsTellable, Supply, Told, Told-more, Told-after,
}

exit-IsName : IsName exit_text
exit-IsName = ((λ e. cc, (λ e. cc, (λ e. cc, (λ e. cc, tt)))), omega arith)

module _ (malloc : ℕ → Option Bytes) (malloc_node : Store → Option ℕ) (fresh_block : Store → ℕ)
    (allocates : (n : ℕ) → is_some (malloc n) ≡ true)
    (sized : (n : ℕ) (raw : Bytes) → malloc n ≡ some raw → length raw ≡ n)
    (fresh : IsFresh malloc_node) (Room : ℕ → Store → Type 0)
    (supply : Supply malloc_node fresh_block Room) where
  -- One exit.
  tell-Told :
      (k : ℕ) (server : Server) (entry : Entry ℕ) (items : List Item) (mails : List Mail)
      (s : Store)
      → Room (suc k) s
      → IsTellable server.ptable server.process_name entry
      → IsName server.process_name
      → IsQueue s server.outgoingmsg items
      → HoldAll server.process_name s items mails
      → Owned s items
      → Ends
          (server_add malloc malloc_node fresh_block server entry.key exit_text [] s)
          (λ server' t.
            Told server
              (mails ++ exit_mail server.process_name entry.key ∷ [])
              (suc (suc (length items)))
              server'
              t
            × Room k t)
  tell-Told k server entry items mails s room (there, key, small, odd, other) named is hold own =
      let name = server.process_name in
      let content = message name entry.key exit_text [] in
      elim (Option-cases (malloc (length content))) [
        | inl e ↦ let some_block = allocates (length content) in cc (rw e at some_block)
        | inr (raw, e) ↦
            let memory =
              filled malloc malloc_node fresh_block sized fresh server entry.key exit_text [] s in
            elim (Option-cases (malloc_node memory)) [
              | inl e' ↦ let some_node = supply.gives k s content room in cc (rw e' at some_node)
              | inr (p, e') ↦
                  Ends-mono
                    (server_add malloc malloc_node fresh_block server entry.key exit_text [] s) _ _
                    (server_add-Queued malloc malloc_node fresh_block sized fresh server entry.key
                      exit_text [] s items raw p is named key exit-IsName small odd other e e')
                    λ server' t queued.
                      let new : Item = record {
                        at = p;
                        instr = record {
                          instruction = some (fresh_block s);
                          instruction_bytes = length content;
                        };
                      } in
                      let kept : Kept s t = λ b h.
                        queued.blocks b (used_ne s (fresh_block s) b (supply.unused k s room) h) in
                      (
                        record {
                          items = items ++ new ∷ [];
                          queue = queued.queue;
                          hold =
                              HoldAll-snoc name s t items mails new (exit_mail name entry.key) kept
                                hold queued.holds;
                          own =
                              Owned-snoc s t items new (fresh_block s) content kept
                                (supply.unused k s room) refl queued.there own;
                          few = omega (arith, length-append items (new ∷ []));
                          only = queued.only;
                        },
                        supply.less k s t content p room e' queued.nodes queued.blocks,
                      )
            ]
      ]

  -- All of them.
  add_exits-Told :
      (entries : List (Entry ℕ)) (server : Server) (items : List Item) (mails : List Mail)
      (s : Store)
      → Room (length entries) s
      → All (IsTellable server.ptable server.process_name) entries
      → IsName server.process_name
      → IsQueue s server.outgoingmsg items
      → HoldAll server.process_name s items mails
      → Owned s items
      → Ends (add_exits malloc malloc_node fresh_block server entries s) (
          Told server
            (mails ++ exits server.ptable server.process_name entries)
            (suc (length items + length entries)))
  unfolding add_exits
  add_exits-Told [] server items mails s room tellable named is hold own = record {
    items = items;
    queue = is;
    hold = rw (append-nil mails) hold;
    own = own;
    few = omega arith;
    only = refl;
  }
  add_exits-Told (entry ∷ entries) server items mails s room (good, tellable) named is hold own =
      elim (Option-cases (server.ptable.heap entry.value)) [
        | inl e ↦ let live = good.0 in cc (rw e at live)
        | inr (process, e) ↦ elim (Bool-cases (is_child process.process_relation)) [
          | inr stranger ↦
              let other : leads_to_child server.ptable entry ≡ false =
                rw (leads_to_child, e, stranger) refl in
              let skipped : exits server.ptable server.process_name (entry ∷ entries)
                  ≡ exits server.ptable server.process_name entries =
                rw other refl in
              rw (skipped, add_exits, e, stranger)
                (Ends-mono (add_exits malloc malloc_node fresh_block server entries s) _ _
                  (add_exits-Told entries server items mails s
                    (supply.fewer (length entries) s room) tellable named is hold own)
                  λ server' t told.
                    Told-more server server'
                      (mails ++ exits server.ptable server.process_name entries)
                      (suc (length items + length entries))
                      (suc (length items + length (entry ∷ entries))) t (omega arith) told)
          | inl kin ↦
              let related : leads_to_child server.ptable entry ≡ true =
                rw (leads_to_child, e, kin) refl in
              let counted : exits server.ptable server.process_name (entry ∷ entries)
                  ≡ exit_mail server.process_name entry.key
                    ∷ exits server.ptable server.process_name entries =
                rw related refl in
              rw (counted, add_exits, e, kin)
                (Ends-bind
                  (server_add malloc malloc_node fresh_block server entry.key exit_text [] s) _ _ _
                  (tell-Told (length entries) server entry items mails s room good named is hold
                    own)
                  λ server' t (told, room').
                    let table : server'.ptable ≡ server.ptable =
                      ap (λ (v : Server). v.ptable) told.only in
                    let name : server'.process_name ≡ server.process_name =
                      ap (λ (v : Server). v.process_name) told.only in
                    let first : Mail = exit_mail server.process_name entry.key in
                    let shape : (mails ++ first ∷ [])
                          ++ exits server'.ptable server'.process_name entries
                        ≡ mails ++ first ∷ exits server.ptable server.process_name entries =
                      rw (table, name)
                        (append_assoc mails (first ∷ [])
                          (exits server.ptable server.process_name entries)) in
                    Ends-mono (add_exits malloc malloc_node fresh_block server' entries t) _ _
                      (add_exits-Told entries server' told.items (mails ++ first ∷ []) t room'
                        (rw (table, name) tellable) (rw name named) told.queue (rw name told.hold)
                        told.own)
                      λ final u rest.
                        Told-after server server' final
                          (mails ++ first ∷ exits server.ptable server.process_name entries)
                          ((mails ++ first ∷ [])
                            ++ exits server'.ptable server'.process_name entries)
                          (suc (length items + length (entry ∷ entries))) u told.only shape
                          (Told-more server' final
                            ((mails ++ first ∷ [])
                              ++ exits server'.ptable server'.process_name entries)
                            (suc (length told.items + length entries))
                            (suc (length items + length (entry ∷ entries))) u
                            (omega (arith, told.few)) rest))
        ]
      ]

  -- The part of wimp_server_free that talks to the children, for entries of the process table that
  -- have data and names an exit can be written for (sizes below 2^31, not multiples of 256, not the
  -- server's own name), with memory for an exit each, and an outgoing queue as
  -- wimp_server_send_instructions wants it (messages for other processes, sockets that report no
  -- error): it ends. On every connection goes out what is still queued for it and then, in the order
  -- of the entries, an exit for each of their children to whose name instructions are routed on this
  -- connection, and nothing else; where the process that they are routed to is not active, the exit
  -- goes nowhere. The outgoing queue is empty. More rounds than nodes and entries, and more chunks
  -- than bytes of each message, are enough.
  pub add_exits-sent :
      (socket : Socket) (rounds chunks : ℕ) (entries : List (Entry ℕ)) (server : Server)
      (items : List Item) (mails : List Mail) (s : Store)
      → Takes socket
      → Room (length entries) s
      → IsValid server.ptable
      → All (IsTellable server.ptable server.process_name) entries
      → IsName server.process_name
      → IsQueue s server.outgoingmsg items
      → HoldAll server.process_name s items mails
      → Owned s items
      → All
          (λ m. length m.content < chunks)
          (mails ++ exits server.ptable server.process_name entries)
      → length items + length entries < rounds
      → Ends
          ((add_exits malloc malloc_node fresh_block server entries
              >>= send_instructions socket malloc_node rounds chunks)
            s)
          (λ server' t.
            ((c : Option ℕ)
              → gathered_on c server'.outbox
                ≡ gathered_on c server.outbox
                  ++ bound_for server.ptable server.parent c
                      (mails ++ exits server.ptable server.process_name entries))
            × (server'.outgoingmsg.nextnode ≡ none))
  add_exits-sent socket rounds chunks entries server items mails s takes room valid tellable named
        is hold own fits enough =
      let all = mails ++ exits server.ptable server.process_name entries in
      Ends-bind (add_exits malloc malloc_node fresh_block server entries s) _ _ _
        (add_exits-Told entries server items mails s room tellable named is hold own)
        λ told t ready.
          let table : told.ptable ≡ server.ptable = ap (λ (v : Server). v.ptable) ready.only in
          let name : told.process_name ≡ server.process_name =
            ap (λ (v : Server). v.process_name) ready.only in
          Ends-mono (send_instructions socket malloc_node rounds chunks told t) _ _
            (send_instructions-Drained socket takes malloc_node chunks rounds told ready.items all t
              ready.queue (rw name ready.hold) ready.own (rw table valid) fits
              (omega (arith, ready.few)))
            λ server' u (v, drained, calls). (
              λ c.
                  drained.gather c
                  ∙ ap (λ (w : Server). gathered_on c w.outbox ++ bound_for w.ptable w.parent c all)
                      ready.only,
              drained.emptied.front,
            )
