-- ===== src/Server/Waiting.antt =====
-- What waiting for a response finds (wimp_server_wait_response of wimp/src/wimp_server.c).
use wimp.Prelude.{
  ℕ, suc, ◌<◌, ◌≡◌, refl, ◌∙◌, arith, Option, List, [], ◌∷◌, ◌++◌, Bool, true, false, All, length,
  length-append,
}
use wimp.Prelude.Bytes.{Bytes, text_eq}
use wimp.Memory.{Store, Cmd, lock, unlock}
use wimp.Memory.Frame.{
  Item, has, has-append, Distinct, Ends, Ends-bind, Ends-mono, Apart, Apart-symm, Distinct-split,
  not_tail,
}
use wimp.Queue.{InstrQueue, create_instr_queue, high_prio_lock, high_prio_unlock}
use wimp.Queue.Chain.{Linked-frame, IsQueue, SameMutexes, SameMutexes-trans}
use wimp.Server.{Server, wait_pass}
use wimp.Server.Counts.{Carries}
use wimp.Server.Wait.{wait_loop, wait_ends, wait_response}
use wimp.Server.Quiet.{wait_pass-Quiet}
use wimp.Server.Pass.{Passed, Carries-frame, PassedAll-frame}
use wimp.Server.Ended.{final, answer, Disposed, Disposed-frame, wait_pass-Ended}
use wimp.Reciever.{exit_text}
use wimp.Server.Rejoined.{called, IsQueue-called, Responded, wait_ends-Responded}

-- The instructions come in batches, one for each pass: `quiet` ones, in which there is neither the
-- response nor an exit, and then one with the end of the wait `r` behind `before`: an exit if
-- `exits`, else the response.
module _ (reciever : ℕ → InstrQueue → Cmd InstrQueue) (exits : Bool) (instr : Bytes)
    (before after : List Item) (r : Item) where
  -- The batch of the next pass.
  abbrev pub arriving : List (List Item) → List Item
  arriving [] = before ++ r ∷ after
  arriving (batch ∷ quiet) = batch

  -- Its nodes carry messages.
  abbrev pub Readable : Store → List (List Item) → Type 0
  Readable s [] =
      All (Passed instr s) before
      × Carries s r (final exits instr)
      × (exits ≡ true → text_eq exit_text instr ≡ false)
  Readable s (batch ∷ quiet) = All (Passed instr s) batch

  abbrev pub passes_for : ℕ → List (List Item) → ℕ
  passes_for spare [] = suc spare
  passes_for spare (batch ∷ quiet) = suc (passes_for spare quiet)

  -- What the reciever does between two passes: it fills the empty incoming queue with the next batch,
  -- in nodes apart from those that are put aside, which it leaves alone.
  abbrev pub Recieves : (spare : ℕ) → List Item → List (List Item) → Type 0
  Recieves spare aside [] = Unit
  Recieves spare aside (batch ∷ quiet) =
      ((q : InstrQueue) (s : Store)
        → IsQueue s q []
        → Ends (reciever (passes_for spare quiet) q s) (λ q' t.
          IsQueue t q' (arriving quiet)
          × Readable t quiet
          × ((a : ℕ) → has a (aside ++ batch) ≡ true → t.node a ≡ s.node a)))
      × Apart (aside ++ batch) (arriving quiet)
      × Recieves spare (aside ++ batch) quiet

  -- All nodes that stand before the end.
  abbrev pub all_before : List Item → List (List Item) → List Item
  all_before aside [] = aside ++ before
  all_before aside (batch ∷ quiet) = all_before (aside ++ batch) quiet

  -- Every batch is shorter than the rounds of a pass.
  abbrev pub Fits : ℕ → List (List Item) → Type 0
  Fits rounds [] = length (before ++ r ∷ after) < rounds
  Fits rounds (batch ∷ quiet) = (length batch < rounds) × Fits rounds quiet

  -- What the loop hands over.
  abbrev Waited : InstrQueue → List Item → Option ℕ × InstrQueue × InstrQueue → Store → Type 0
  Waited tmp aside (node, incoming, put_aside) t =
      (node ≡ answer exits r)
      × IsQueue t incoming after
      × IsQueue t put_aside aside
      × Disposed exits instr r t
      × Apart after aside
      × (has r.at (aside ++ after) ≡ false)
      × SameMutexes tmp put_aside

  after-Apart :
      (aside : List Item)
      → Distinct (before ++ r ∷ after)
      → Apart aside (before ++ r ∷ after)
      → Apart after (aside ++ before)
  after-Apart aside distinct apart a h =
      let (dx, dy, split) = Distinct-split before (r ∷ after) distinct in
      let there : has a (before ++ r ∷ after) ≡ true =
        has-append a before (r ∷ after) ∙ ground (arith, h) in
      let e = Apart-symm aside (before ++ r ∷ after) apart a there in
      let f = Apart-symm before after (λ b k. not_tail b r after (split b k)) a h in
      has-append a aside before ∙ rw (e, f) refl

  end-out :
      (aside : List Item)
      → Distinct (before ++ r ∷ after)
      → Apart aside (before ++ r ∷ after)
      → has r.at ((aside ++ before) ++ after) ≡ false
  end-out aside distinct apart =
      let (dx, dy, split) = Distinct-split before (r ∷ after) distinct in
      let here : has r.at (r ∷ after) ≡ true = ground arith in
      let there : has r.at (before ++ r ∷ after) ≡ true =
        has-append r.at before (r ∷ after) ∙ ground (arith, here) in
      let e = Apart-symm aside (before ++ r ∷ after) apart r.at there in
      let f = Apart-symm before (r ∷ after) split r.at here in
      has-append r.at (aside ++ before) after ∙ rw (has-append r.at aside before, e, f, dy.0) refl

  module _ (spare rounds : ℕ) where
    wait_loop-Waited :
        (quiet : List (List Item)) (aside : List Item) (s : Store) (incoming tmp : InstrQueue)
        → IsQueue s incoming (arriving quiet)
        → IsQueue s tmp aside
        → Apart aside (arriving quiet)
        → Readable s quiet
        → Recieves spare aside quiet
        → Fits rounds quiet
        → Ends
            (wait_loop reciever (passes_for spare quiet) rounds instr incoming tmp s)
            (Waited tmp (all_before aside quiet))
    unfolding wait_loop high_prio_lock high_prio_unlock
    wait_loop-Waited [] aside s incoming tmp is js apart (passed, c, other) recieves fits =
        let locked =
          called
            (unlock incoming.nextmutex
              ∷ (lock incoming.datamutex ∷ (lock incoming.nextmutex ∷ s.calls)))
            s in
        Ends-bind (wait_pass rounds instr incoming tmp locked) _ _ _
          (wait_pass-Ended instr after r exits rounds locked incoming tmp aside before
            (IsQueue-called locked.calls s incoming (before ++ r ∷ after) is)
            (IsQueue-called locked.calls s tmp aside js) apart
            (PassedAll-frame instr s locked before refl passed)
            (Carries-frame s locked r (final exits instr) refl c) other
            (omega (arith, length-append before (r ∷ after))))
          λ (node, stop, q, put_aside) t ended. rw ended.stop (
            ended.node,
            IsQueue-called (unlock q.datamutex ∷ t.calls) t q after ended.queue,
            IsQueue-called (unlock q.datamutex ∷ t.calls) t put_aside (aside ++ before)
                ended.put_aside,
            Disposed-frame exits instr r t (called (unlock q.datamutex ∷ t.calls) t) refl
                (λ b. refl) ended.disposed,
            after-Apart aside is.distinct apart,
            end-out aside is.distinct apart,
            ended.tmp_mutexes,
          )
    wait_loop-Waited (batch ∷ quiet) aside s incoming tmp is js apart passed (gets, new, recieves)
          (short, fits) =
        let locked =
          called
            (unlock incoming.nextmutex
              ∷ (lock incoming.datamutex ∷ (lock incoming.nextmutex ∷ s.calls)))
            s in
        Ends-bind (wait_pass rounds instr incoming tmp locked) _ _ _
          (wait_pass-Quiet instr rounds locked incoming tmp aside batch
            (IsQueue-called locked.calls s incoming batch is)
            (IsQueue-called locked.calls s tmp aside js) apart
            (PassedAll-frame instr s locked batch refl passed) short)
          λ (node, stop, q, put_aside) t found. rw found.stop (
            let t' = called (unlock q.datamutex ∷ t.calls) t in
            Ends-bind (reciever (passes_for spare quiet) q t') _ _ _
              (gets q t' (IsQueue-called t'.calls t q [] found.queue))
              λ q' u (filled, readable, kept).
                Ends-mono (wait_loop reciever (passes_for spare quiet) rounds instr q' put_aside u)
                  _ _
                  (wait_loop-Waited quiet (aside ++ batch) u q' put_aside filled
                    (record {
                      front = found.put_aside.front;
                      back = found.put_aside.back;
                      linked = Linked-frame t u (aside ++ batch) kept found.put_aside.linked;
                      distinct = found.put_aside.distinct;
                    })
                    new readable recieves fits)
                  λ result v waited. (
                    waited.0,
                    waited.1,
                    waited.2,
                    waited.3,
                    waited.4,
                    waited.5,
                    SameMutexes-trans tmp put_aside result.2 found.mutexes waited.6,
                  ))

  -- What a caller gets: the node with the response and its message as it was sent, or NULL for an
  -- exit that is given back, and the queue with all other nodes, under the mutexes of the temporary
  -- queue.
  pub record Answered (server : Server) (items : List Item) (tmp : InstrQueue)
      (result : Option ℕ × Server) (t : Store) : Type 0 where
    pub node : result.0 ≡ answer exits r
    pub disposed : Disposed exits instr r t
    pub queue : IsQueue t result.1.incomingmsg items
    pub only : result.1 ≡ record server { incomingmsg = result.1.incomingmsg }
    pub mutexes : SameMutexes tmp result.1.incomingmsg

  Responded-Answered :
      (s : Store) (server : Server) (items : List Item) (tmp aside : InstrQueue)
      (result : Option ℕ × Server) (t : Store)
      → Disposed exits instr r s
      → has r.at items ≡ false
      → SameMutexes tmp aside
      → Responded s server items (answer exits r) aside result t
      → Answered server items tmp result t
  Responded-Answered s server items tmp aside result t d out same done' = record {
    node = done'.node;
    disposed = Disposed-frame exits instr r s t (done'.nodes r.at out) done'.blocks d;
    queue = done'.queue;
    only = done'.only;
    mutexes = SameMutexes-trans tmp aside result.1.incomingmsg same done'.mutexes;
  }

  after-Fits : (rounds : ℕ) (quiet : List (List Item)) → Fits rounds quiet → length after < rounds
  after-Fits rounds [] fits = omega (arith, length-append before (r ∷ after))
  after-Fits rounds (batch ∷ quiet) (short, fits) = after-Fits rounds quiet fits

  pub wait_response-Answered :
      (d n l spare rounds : ℕ) (quiet : List (List Item)) (s : Store) (server : Server)
      → IsQueue s server.incomingmsg (arriving quiet)
      → Readable s quiet
      → Recieves spare [] quiet
      → Fits rounds quiet
      → Ends
          (wait_response reciever d n l (passes_for spare quiet) rounds server instr s)
          (Answered server (all_before [] quiet ++ after) (create_instr_queue d n l))
  unfolding wait_response create_instr_queue
  wait_response-Answered d n l spare rounds quiet s server is readable recieves fits =
      let tmp : InstrQueue = create_instr_queue d n l in
      Ends-bind (wait_loop reciever (passes_for spare quiet) rounds instr server.incomingmsg tmp s)
        _ _ _
        (wait_loop-Waited spare rounds quiet [] s server.incomingmsg tmp is
          (record { front = refl; back = refl; linked = tt; distinct = tt }) (λ a h. cc) readable
          recieves fits)
        λ (node, incoming, aside) t (found, rest, put_aside, d, apart, out, mutexes). rw found (
          Ends-mono (wait_ends rounds server (answer exits r) incoming aside t) _ _
            (wait_ends-Responded rounds t server (answer exits r) incoming aside
              (all_before [] quiet) after put_aside rest apart (after-Fits rounds quiet fits))
            λ result u done'.
              Responded-Answered t server (all_before [] quiet ++ after) tmp aside result u d out
                mutexes done')
