-- ===== src/Server/Ended.antt =====
-- The pass that ends the wait for a response (wimp_server_wait_response of wimp/src/wimp_server.c): by the
-- response, or by an exit that comes first.
use wimp.Prelude.{
  ℕ, zero, suc, ◌<◌, ◌≡◌, refl, ◌∙◌, arith, Option, none, some, List, [], ◌∷◌, ◌++◌, Bool, true,
  false, All, length, append_assoc, append-nil,
}
use wimp.Prelude.Bytes.{Bytes, text_eq, text_eq_refl}
use wimp.Memory.{Store}
use wimp.Memory.Frame.{Item, Ends, Ends-bind, Ends-mono, Apart, Apart-head, Apart-rest, Apart-shift}
use wimp.Queue.{InstrQueue, pop, node_free, add_existing}
use wimp.Queue.Chain.{IsQueue, IsQueue-frame, SameMutexes, SameMutexes-trans, first_at}
use wimp.Queue.Ends.{PopResult, pop-PopResult, add_existing-Added}
use wimp.Queue.Free.{node_free-Cleared, IsQueue-Cleared}
use wimp.Reciever.{exit_text}
use wimp.Server.{wait_pass}
use wimp.Server.Counts.{Carries, get_from_node-Carries, read_text-Carries}
use wimp.Server.Pass.{Passed, Carries-frame, PassedAll-frame, wait_pass-Found}

-- The name of the instruction that ends the wait.
abbrev pub final : Bool → Bytes → Bytes
final true instr = exit_text
final false instr = instr

-- What the caller gets: the node of the response, or NULL.
abbrev pub answer : Bool → Item → Option ℕ
answer true r = none
answer false r = some r.at

-- The exit is given back with its message; the response keeps its message.
abbrev pub Disposed : Bool → Bytes → Item → Store → Type 0
Disposed true instr r t =
    (t.node r.at ≡ none) × ((b : ℕ) → r.instr.instruction ≡ some b → t.block b ≡ none)
Disposed false instr r t = Carries t r instr

pub Disposed-frame :
    (exits : Bool) (instr : Bytes) (r : Item) (s t : Store)
    → t.node r.at ≡ s.node r.at
    → ((b : ℕ) → t.block b ≡ s.block b)
    → Disposed exits instr r s
    → Disposed exits instr r t
Disposed-frame true instr r s t node blocks (gone, freed) =
    (node ∙ gone, λ b own. blocks b ∙ freed b own)
Disposed-frame false instr r s t node blocks c = record {
  block_at = c.block_at;
  process = c.process;
  dest = c.dest;
  args = c.args;
  names = c.names;
  small = c.small;
  odd = c.odd;
  there = blocks c.block_at ∙ c.there;
  instr = c.instr;
}

-- The wait has ended in a pass: what came before the last instruction is put aside, and what came
-- after it is still in the incoming queue.
pub record Ended (exits : Bool) (instr : Bytes) (tmp : InstrQueue) (aside after : List Item)
    (r : Item) (result : Option ℕ × Bool × InstrQueue × InstrQueue) (t : Store) : Type 0 where
  pub node : result.0 ≡ answer exits r
  pub stop : result.1 ≡ true
  pub queue : IsQueue t result.2 after
  pub put_aside : IsQueue t result.3 aside
  pub disposed : Disposed exits instr r t
  pub tmp_mutexes : SameMutexes tmp result.3

module _ (instr : Bytes) (after : List Item) (r : Item) where
  wait_pass-Exited :
      (rounds : ℕ) (s : Store) (incoming tmp : InstrQueue) (aside before : List Item)
      → IsQueue s incoming (before ++ r ∷ after)
      → IsQueue s tmp aside
      → Apart aside (before ++ r ∷ after)
      → All (Passed instr s) before
      → Carries s r exit_text
      → text_eq exit_text instr ≡ false
      → length before < rounds
      → Ends
          (wait_pass rounds instr incoming tmp s)
          (Ended true instr tmp (aside ++ before) after r)
  unfolding wait_pass
  wait_pass-Exited zero s incoming tmp aside before is js apart passed c other enough =
      absurd (omega arith)
  wait_pass-Exited (suc rounds) s incoming tmp aside [] is js apart passed c other enough =
      Ends-bind (pop incoming s) _ (PopResult s incoming (r ∷ after)) _
        (pop-PopResult s incoming (r ∷ after) is)
        λ (node, q) t (e, rest, mutexes, et).
          rw
            (
              e,
              et,
              get_from_node-Carries s r exit_text (first_at after) c is.linked.0,
              read_text-Carries s r exit_text c,
              other,
              text_eq_refl exit_text,
            )
            (Ends-bind (node_free (some r.at) s) _ _ _
              (node_free-Cleared s r (first_at after) is.linked.0 (rw c.instr (_, c.there)))
              λ _ u cleared. record {
                node = refl;
                stop = refl;
                queue = IsQueue-Cleared s u q r after is.distinct.0 rest cleared;
                put_aside =
                    rw (append-nil aside)
                      (IsQueue-Cleared s u tmp r aside (Apart-head aside after r apart) js cleared);
                disposed = (
                  cleared.nodes r.at ∙ ground arith,
                  λ b own. cleared.blocks b ∙ rw own (ground arith),
                );
                tmp_mutexes = (refl, refl, refl);
              })
  wait_pass-Exited (suc rounds) s incoming tmp aside (y ∷ before) is js apart (p, passed) c other
        enough =
      let tail = before ++ r ∷ after in
      Ends-bind (pop incoming s) _ (PopResult s incoming (y ∷ tail)) _
        (pop-PopResult s incoming (y ∷ tail) is)
        λ (node, q) t (e, rest, mutexes, et).
          rw
            (
              e,
              et,
              get_from_node-Carries s y p.name (first_at tail) p.carried is.linked.0,
              read_text-Carries s y p.name p.carried,
              p.other,
              p.stays,
            )
            (Ends-bind (add_existing tmp (some y.at) s) _ _ _
              (add_existing-Added s tmp aside y (first_at tail) js (Apart-head aside tail y apart)
                is.linked.0)
              λ (result, tmp') u (ok, added).
                let still : IsQueue u q tail =
                  IsQueue-frame s u q tail (y ∷ aside) rest added.same
                    (Apart-rest aside tail y apart is.distinct.0) in
                Ends-mono (wait_pass rounds instr q tmp' u) _ _
                  (wait_pass-Exited rounds u q tmp' (aside ++ y ∷ []) before still added.queue
                    (Apart-shift aside tail y apart is.distinct.0)
                    (PassedAll-frame instr s u before added.same.blocks passed)
                    (Carries-frame s u r exit_text added.same.blocks c) other (omega arith))
                  λ outcome v ended. record {
                    node = ended.node;
                    stop = ended.stop;
                    queue = ended.queue;
                    put_aside = rw (append_assoc aside (y ∷ []) before) at ended.put_aside;
                    disposed = ended.disposed;
                    tmp_mutexes =
                        SameMutexes-trans tmp tmp' outcome.3 added.mutexes ended.tmp_mutexes;
                  })

  pub wait_pass-Ended :
      (exits : Bool) (rounds : ℕ) (s : Store) (incoming tmp : InstrQueue) (aside before : List Item)
      → IsQueue s incoming (before ++ r ∷ after)
      → IsQueue s tmp aside
      → Apart aside (before ++ r ∷ after)
      → All (Passed instr s) before
      → Carries s r (final exits instr)
      → (exits ≡ true → text_eq exit_text instr ≡ false)
      → length before < rounds
      → Ends
          (wait_pass rounds instr incoming tmp s)
          (Ended exits instr tmp (aside ++ before) after r)
  wait_pass-Ended true rounds s incoming tmp aside before is js apart passed c other enough =
      wait_pass-Exited rounds s incoming tmp aside before is js apart passed c (other refl) enough
  wait_pass-Ended false rounds s incoming tmp aside before is js apart passed c other enough =
      Ends-mono (wait_pass rounds instr incoming tmp s) _ _
        (wait_pass-Found instr after r rounds s incoming tmp aside before is js apart passed c
          enough)
        λ result t found. record {
          node = found.node;
          stop = found.stop;
          queue = found.queue;
          put_aside = found.put_aside;
          disposed = Carries-frame s t r instr found.same.blocks c;
          tmp_mutexes = found.tmp_mutexes;
        }
