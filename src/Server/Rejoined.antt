-- ===== src/Server/Rejoined.antt =====
-- The end of wimp_server_wait_response (wimp/src/wimp_server.c): the nodes put aside go back to the front.
use wimp.Prelude.{
  ℕ, ◌<◌, ◌≡◌, refl, ap, ◌∙◌, arith, Option, some, List, [], ◌∷◌, ◌++◌, false, length,
}
use wimp.Prelude.Bytes.{Bytes}
use wimp.Memory.{Store, MutexCall, lock, unlock}
use wimp.Memory.Frame.{Item, has, Ends, Ends-bind, Apart}
use wimp.Queue.{InstrQueue, high_prio_lock, high_prio_unlock, prepend_queue, queue_free}
use wimp.Queue.Chain.{Linked-frame, IsQueue, SameMutexes}
use wimp.Queue.Splice.{prepend_queue-Moved}
use wimp.Queue.Free.{queue_free-Cleared}
use wimp.Server.{Server}
use wimp.Server.Wait.{wait_ends}

-- The calls to mutexes are no change of the queues.
abbrev pub called : List MutexCall → Store → Store
called calls s = record s { calls = calls }

pub IsQueue-called :
    (calls : List MutexCall) (s : Store) (q : InstrQueue) (items : List Item)
    → IsQueue s q items
    → IsQueue (called calls s) q items
IsQueue-called calls s q items is = record {
  front = is.front;
  back = is.back;
  linked = Linked-frame s (called calls s) items (λ a h. refl) is.linked;
  distinct = is.distinct;
}

-- What a caller gets: the node, and the queue without it, under the mutexes of the temporary queue.
pub record Responded (s : Store) (server : Server) (items : List Item) (waited : Option ℕ)
    (tmp : InstrQueue) (result : Option ℕ × Server) (t : Store) : Type 0 where
  pub node : result.0 ≡ waited
  pub queue : IsQueue t result.1.incomingmsg items
  pub only : result.1 ≡ record server { incomingmsg = result.1.incomingmsg }
  pub nodes : (a : ℕ) → has a items ≡ false → t.node a ≡ s.node a
  pub blocks : (b : ℕ) → t.block b ≡ s.block b
  pub mutexes : SameMutexes tmp result.1.incomingmsg

pub wait_ends-Responded :
    (rounds : ℕ) (s : Store) (server : Server) (waited : Option ℕ) (incoming tmp : InstrQueue)
    (before after : List Item)
    → IsQueue s tmp before
    → IsQueue s incoming after
    → Apart after before
    → length after < rounds
    → Ends
        (wait_ends rounds server waited incoming tmp s)
        (Responded s server (before ++ after) waited tmp)
unfolding wait_ends high_prio_lock high_prio_unlock
wait_ends-Responded rounds s server waited incoming tmp before after is js apart enough =
    let locked =
      called
        (unlock incoming.nextmutex
          ∷ (lock incoming.datamutex ∷ (lock incoming.nextmutex ∷ s.calls)))
        s in
    Ends-bind (prepend_queue rounds (some incoming) (some tmp) locked) _ _ _
      (prepend_queue-Moved rounds locked incoming tmp after before
        (IsQueue-called locked.calls s incoming after js)
        (IsQueue-called locked.calls s tmp before is) apart enough)
      λ (result, q', from') t (ok, (whole, left, e, f, moved)).
        let free = called (unlock whole.datamutex ∷ t.calls) t in
        rw (ok, e, f)
          (Ends-bind (queue_free rounds left free) _ _ _
            (queue_free-Cleared rounds free left []
              (IsQueue-called free.calls t left [] moved.emptied) tt (omega arith))
            λ _ u (nodes, blocks, calls). record {
              node = refl;
              queue = record {
                front = moved.queue.front;
                back = moved.queue.back;
                linked = Linked-frame t u (before ++ after) (λ a h. nodes a) moved.queue.linked;
                distinct = moved.queue.distinct;
              };
              only = refl;
              nodes = λ a h. nodes a ∙ moved.same.nodes a h;
              blocks = λ b. blocks b ∙ ap (λ (g : ℕ → Option Bytes). g b) moved.same.blocks;
              mutexes = moved.mutexes;
            })
