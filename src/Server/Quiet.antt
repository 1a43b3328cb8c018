-- ===== src/Server/Quiet.antt =====
-- A pass over the incoming queue in which there is neither the response nor an exit
-- (wimp_server_wait_response of wimp/src/wimp_server.c).
use wimp.Prelude.{
  ℕ, zero, suc, ◌<◌, ◌≡◌, refl, arith, Option, some, List, [], ◌∷◌, ◌++◌, Bool, none, false, All,
  length, append_assoc, append-nil,
}
use wimp.Prelude.Bytes.{Bytes}
use wimp.Memory.{Store}
use wimp.Memory.Frame.{Item, Ends, Ends-bind, Ends-mono, Apart, Apart-head, Apart-rest, Apart-shift}
use wimp.Queue.{InstrQueue, pop, add_existing}
use wimp.Queue.Chain.{IsQueue, IsQueue-frame, SameMutexes, SameMutexes-trans, first_at}
use wimp.Queue.Ends.{PopResult, pop-PopResult, add_existing-Added}
use wimp.Server.{wait_pass}
use wimp.Server.Counts.{get_from_node-Carries, read_text-Carries}
use wimp.Server.Pass.{Passed, PassedAll-frame}

-- The pass has put all nodes aside, and the loop goes on.
pub record Quiet (tmp : InstrQueue) (items : List Item)
    (result : Option ℕ × Bool × InstrQueue × InstrQueue) (t : Store) : Type 0 where
  pub node : result.0 ≡ none
  pub stop : result.1 ≡ false
  pub queue : IsQueue t result.2 []
  pub put_aside : IsQueue t result.3 items
  pub mutexes : SameMutexes tmp result.3

module _ (instr : Bytes) where
  pub wait_pass-Quiet :
      (rounds : ℕ) (s : Store) (incoming tmp : InstrQueue) (aside items : List Item)
      → IsQueue s incoming items
      → IsQueue s tmp aside
      → Apart aside items
      → All (Passed instr s) items
      → length items < rounds
      → Ends (wait_pass rounds instr incoming tmp s) (Quiet tmp (aside ++ items))
  unfolding wait_pass
  wait_pass-Quiet zero s incoming tmp aside items is js apart passed enough = absurd (omega arith)
  wait_pass-Quiet (suc rounds) s incoming tmp aside [] is js apart passed enough =
      Ends-bind (pop incoming s) _ (PopResult s incoming []) _ (pop-PopResult s incoming [] is)
        λ (node, q) t (e, er, et).
          rw (e, er, et)
            (record {
              node = refl;
              stop = refl;
              queue = is;
              put_aside = rw (append-nil aside) js;
              mutexes = (refl, refl, refl);
            })
  wait_pass-Quiet (suc rounds) s incoming tmp aside (y ∷ items) is js apart (p, passed) enough =
      Ends-bind (pop incoming s) _ (PopResult s incoming (y ∷ items)) _
        (pop-PopResult s incoming (y ∷ items) is)
        λ (node, q) t (e, rest, mutexes, et).
          rw
            (
              e,
              et,
              get_from_node-Carries s y p.name (first_at items) p.carried is.linked.0,
              read_text-Carries s y p.name p.carried,
              p.other,
              p.stays,
            )
            (Ends-bind (add_existing tmp (some y.at) s) _ _ _
              (add_existing-Added s tmp aside y (first_at items) js (Apart-head aside items y apart)
                is.linked.0)
              λ (result, tmp') u (ok, added).
                let still : IsQueue u q items =
                  IsQueue-frame s u q items (y ∷ aside) rest added.same
                    (Apart-rest aside items y apart is.distinct.0) in
                Ends-mono (wait_pass rounds instr q tmp' u) _ _
                  (wait_pass-Quiet rounds u q tmp' (aside ++ y ∷ []) items still added.queue
                    (Apart-shift aside items y apart is.distinct.0)
                    (PassedAll-frame instr s u items added.same.blocks passed) (omega arith))
                  λ outcome v quiet. record {
                    node = quiet.node;
                    stop = quiet.stop;
                    queue = quiet.queue;
                    put_aside = rw (append_assoc aside (y ∷ []) items) at quiet.put_aside;
                    mutexes = SameMutexes-trans tmp tmp' outcome.3 added.mutexes quiet.mutexes;
                  })
