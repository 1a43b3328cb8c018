-- ===== src/Queue/Splice.antt =====
-- One queue moved behind or before another
-- (wimp_instr_queue_append_queue, wimp_instr_queue_prepend_queue).
use wimp.Prelude.{
  ℕ, zero, suc, ◌<◌, ◌≡◌, refl, arith, some, List, [], ◌∷◌, ◌++◌, append_assoc, append-nil, length,
}
use wimp.Memory.{Store}
use wimp.Memory.Frame.{
  Item, SameOutside, Ends, Ends-bind, Ends-mono, not_head, Apart, Apart-symm, Apart-head,
  Apart-shift, Apart-rest, not_append, SameOutside-trans, SameOutside-mono,
}
use wimp.Queue.{InstrQueue, success, add_existing, pop, append_loop, append_queue, prepend_queue}
use wimp.Queue.Chain.{IsQueue, first_at, SameMutexes, SameMutexes-trans, IsQueue-frame}
use wimp.Queue.Ends.{add_existing-Added, PopResult, pop-PopResult}

-- All items are in the first queue, in order; the second is empty; only their nodes were written.
pub record Moved (s : Store) (q from : InstrQueue) (items : List Item) (t : Store)
    (q' from' : InstrQueue) : Type 0 where
  pub queue : IsQueue t q' items
  pub emptied : IsQueue t from' []
  pub same : SameOutside items s t
  pub mutexes : SameMutexes q q'
  pub from_mutexes : SameMutexes from from'

-- One round of the loop: what comes before it, and what the rest of the loop does.
Moved-step :
    (s t u : Store) (q from q1 from1 q' from' : InstrQueue) (xs ys : List Item) (y : Item)
    → SameOutside (y ∷ xs) s t
    → SameMutexes q q1
    → SameMutexes from from1
    → Moved t q1 from1 ((xs ++ y ∷ []) ++ ys) u q' from'
    → Moved s q from (xs ++ y ∷ ys) u q' from'
Moved-step s t u q from q1 from1 q' from' xs ys y same mq mf moved =
    let shape : (xs ++ y ∷ []) ++ ys ≡ xs ++ y ∷ ys = append_assoc xs (y ∷ []) ys in
    record {
      queue = rw shape at moved.queue;
      emptied = moved.emptied;
      same =
          SameOutside-trans (xs ++ y ∷ ys) s t u
            (SameOutside-mono (y ∷ xs) (xs ++ y ∷ ys) s t
              (λ a h. let (hx, hy) = not_append a xs (y ∷ ys) h in rw (not_head a y ys hy) hx) same)
            (rw shape at moved.same);
      mutexes = SameMutexes-trans q q1 q' mq moved.mutexes;
      from_mutexes = SameMutexes-trans from from1 from' mf moved.from_mutexes;
    }

append_loop-Moved :
    (rounds : ℕ) (s : Store) (q from : InstrQueue) (xs ys : List Item)
    → IsQueue s q xs
    → IsQueue s from ys
    → Apart xs ys
    → length ys < rounds
    → Ends (append_loop rounds q from s) (λ (q', from') t. Moved s q from (xs ++ ys) t q' from')
unfolding append_loop
append_loop-Moved zero s q from xs ys is js apart h = absurd (omega arith)
append_loop-Moved (suc rounds) s q from xs [] is js apart h =
    Ends-bind (pop from s) _ (PopResult s from []) _ (pop-PopResult s from [] js)
      λ (node, r) t (e, er, et).
        rw (e, er, et)
          (record {
            queue = rw (append-nil xs) is;
            emptied = js;
            same = record { nodes = λ a h'. refl; blocks = refl; calls = refl };
            mutexes = (refl, refl, refl);
            from_mutexes = (refl, refl, refl);
          })
append_loop-Moved (suc rounds) s q from xs (y ∷ ys) is js apart h =
    Ends-bind (pop from s) _ (PopResult s from (y ∷ ys)) _ (pop-PopResult s from (y ∷ ys) js)
      λ (node, r) t (e, rest, mutexes, et).
        rw (e, et)
          (Ends-bind (add_existing q (some y.at) s) _ _ _
            (add_existing-Added s q xs y (first_at ys) is (Apart-head xs ys y apart) js.linked.0)
            λ (result, q1) u (ok, added).
              let still : IsQueue u r ys =
                IsQueue-frame s u r ys (y ∷ xs) rest added.same
                  (Apart-rest xs ys y apart js.distinct.0) in
              Ends-mono (append_loop rounds q1 r u) _ _
                (append_loop-Moved rounds u q1 r (xs ++ y ∷ []) ys added.queue still
                  (Apart-shift xs ys y apart js.distinct.0) (omega arith))
                λ (q', from') v moved.
                  Moved-step s u v q from q1 r q' from' xs ys y added.same added.mutexes mutexes
                    moved)

-- wimp_instr_queue_append_queue: the items of the second queue follow those of the first, the
-- second queue is empty, both keep their mutexes, and no memory but the nodes is written. One round
-- more than there are items to move is enough.
pub append_queue-Moved :
    (rounds : ℕ) (s : Store) (q from : InstrQueue) (xs ys : List Item)
    → IsQueue s q xs
    → IsQueue s from ys
    → Apart xs ys
    → length ys < rounds
    → Ends (append_queue rounds (some q) (some from) s) (λ (result, q', from') t.
      (result ≡ success)
      × ((r : InstrQueue) × (f : InstrQueue) × (q' ≡ some r)
          × (from' ≡ some f)
          × Moved s q from (xs ++ ys) t r f))
unfolding append_queue
append_queue-Moved rounds s q from xs ys is js apart h =
    Ends-bind (append_loop rounds q from s) _ _ _
      (append_loop-Moved rounds s q from xs ys is js apart h)
      λ (r, f) t moved. (refl, (r, f, refl, refl, moved))

-- wimp_instr_queue_prepend_queue: the items of the second queue stand before those of the first.
-- The structs are swapped whole, so each queue ends up with the mutexes of the other.
pub prepend_queue-Moved :
    (rounds : ℕ) (s : Store) (q from : InstrQueue) (xs ys : List Item)
    → IsQueue s q xs
    → IsQueue s from ys
    → Apart xs ys
    → length xs < rounds
    → Ends (prepend_queue rounds (some q) (some from) s) (λ (result, q', from') t.
      (result ≡ success)
      × ((r : InstrQueue) × (f : InstrQueue) × (q' ≡ some r)
          × (from' ≡ some f)
          × Moved s from q (ys ++ xs) t r f))
unfolding prepend_queue
prepend_queue-Moved rounds s q from xs ys is js apart h =
    Ends-bind (append_queue rounds (some from) (some q) s) _ _ _
      (append_queue-Moved rounds s from q ys xs js is (Apart-symm xs ys apart) h)
      λ (result, q', from') t (ok, rest). rw ok (refl, rest)
