-- ===== src/Server/Pass.antt =====
-- One pass over the incoming queue for a response (wimp_server_wait_response of wimp/src/wimp_server.c).
use wimp.Prelude.{
  ℕ, zero, suc, ◌<◌, ◌≡◌, refl, ap, ◌∙◌, arith, Option, some, List, [], ◌∷◌, ◌++◌, Bool, true,
  false, All, length, append_assoc, append-nil,
}
use wimp.Prelude.Bytes.{Bytes, text_eq, text_eq_refl}
use wimp.Memory.{Store}
use wimp.Memory.Frame.{
  Item, Ends, Ends-bind, Ends-mono, SameOutside, SameOutside-trans, SameOutside-mono, Apart,
  Apart-head, Apart-rest, Apart-shift, not_head, not_append,
}
use wimp.Queue.{InstrQueue, pop, add_existing}
use wimp.Queue.Chain.{IsQueue, IsQueue-frame, SameMutexes, SameMutexes-trans, first_at}
use wimp.Queue.Ends.{PopResult, pop-PopResult, add_existing-Added}
use wimp.Reciever.{exit_text}
use wimp.Server.{wait_pass}
use wimp.Server.Counts.{Carries, get_from_node-Carries, read_text-Carries}

-- The node carries another instruction than the one waited for and than an exit.
pub record Passed (instr : Bytes) (s : Store) (i : Item) : Type 0 where
  pub name : Bytes
  pub carried : Carries s i name
  pub other : text_eq name instr ≡ false
  pub stays : text_eq name exit_text ≡ false

pub Carries-frame :
    (s t : Store) (i : Item) (name : Bytes)
    → t.block ≡ s.block
    → Carries s i name
    → Carries t i name
Carries-frame s t i name same c = record {
  block_at = c.block_at;
  process = c.process;
  dest = c.dest;
  args = c.args;
  names = c.names;
  small = c.small;
  odd = c.odd;
  there = ap (λ (b : ℕ → Option Bytes). b c.block_at) same ∙ c.there;
  instr = c.instr;
}

pub PassedAll-frame :
    (instr : Bytes) (s t : Store) (items : List Item)
    → t.block ≡ s.block
    → All (Passed instr s) items
    → All (Passed instr t) items
PassedAll-frame instr s t [] same all = tt
PassedAll-frame instr s t (i ∷ items) same (p, all) = (
  record {
    name = p.name;
    carried = Carries-frame s t i p.name same p.carried;
    other = p.other;
    stays = p.stays;
  },
  PassedAll-frame instr s t items same all,
)

-- A pass that has found the response: it stands in no queue, what came before it is behind what
-- was put aside already, and what came after it is still in the incoming queue.
pub record Found (s : Store) (incoming tmp : InstrQueue) (aside after : List Item) (r : Item)
    (touched : List Item) (result : Option ℕ × Bool × InstrQueue × InstrQueue) (t : Store)
    : Type 0 where
  pub node : result.0 ≡ some r.at
  pub stop : result.1 ≡ true
  pub queue : IsQueue t result.2 after
  pub put_aside : IsQueue t result.3 aside
  pub same : SameOutside touched s t
  pub mutexes : SameMutexes incoming result.2
  pub tmp_mutexes : SameMutexes tmp result.3

module _ (instr : Bytes) (after : List Item) (r : Item) where
  Found-step :
      (s t u : Store) (incoming q tmp tmp' : InstrQueue) (aside before : List Item) (y : Item)
      (outcome : Option ℕ × Bool × InstrQueue × InstrQueue)
      → SameOutside (y ∷ aside) s t
      → SameMutexes incoming q
      → SameMutexes tmp tmp'
      → Found t q tmp' ((aside ++ y ∷ []) ++ before) after r ((aside ++ y ∷ []) ++ before) outcome u
      → Found s incoming tmp (aside ++ y ∷ before) after r (aside ++ y ∷ before) outcome u
  Found-step s t u incoming q tmp tmp' aside before y outcome same mutexes tmp_mutexes found =
      let shape : (aside ++ y ∷ []) ++ before ≡ aside ++ y ∷ before =
        append_assoc aside (y ∷ []) before in
      record {
        node = found.node;
        stop = found.stop;
        queue = found.queue;
        put_aside = rw shape at found.put_aside;
        same =
            SameOutside-trans (aside ++ y ∷ before) s t u
              (SameOutside-mono (y ∷ aside) (aside ++ y ∷ before) s t
                (λ a h.
                  let (hx, hy) = not_append a aside (y ∷ before) h in
                  rw (not_head a y before hy) hx)
                same)
              (rw shape at found.same);
        mutexes = SameMutexes-trans incoming q outcome.2 mutexes found.mutexes;
        tmp_mutexes = SameMutexes-trans tmp tmp' outcome.3 tmp_mutexes found.tmp_mutexes;
      }

  pub wait_pass-Found :
      (rounds : ℕ) (s : Store) (incoming tmp : InstrQueue) (aside before : List Item)
      → IsQueue s incoming (before ++ r ∷ after)
      → IsQueue s tmp aside
      → Apart aside (before ++ r ∷ after)
      → All (Passed instr s) before
      → Carries s r instr
      → length before < rounds
      → Ends
          (wait_pass rounds instr incoming tmp s)
          (Found s incoming tmp (aside ++ before) after r (aside ++ before))
  unfolding wait_pass
  wait_pass-Found zero s incoming tmp aside before is js apart passed c enough =
      absurd (omega arith)
  wait_pass-Found (suc rounds) s incoming tmp aside [] is js apart passed c enough =
      Ends-bind (pop incoming s) _ (PopResult s incoming (r ∷ after)) _
        (pop-PopResult s incoming (r ∷ after) is)
        λ (node, q) t (e, rest, mutexes, et).
          rw
            (
              e,
              et,
              get_from_node-Carries s r instr (first_at after) c is.linked.0,
              read_text-Carries s r instr c,
              text_eq_refl instr,
            )
            (record {
              node = refl;
              stop = refl;
              queue = rest;
              put_aside = rw (append-nil aside) js;
              same = record { nodes = λ a h. refl; blocks = refl; calls = refl };
              mutexes = mutexes;
              tmp_mutexes = (refl, refl, refl);
            })
  wait_pass-Found (suc rounds) s incoming tmp aside (y ∷ before) is js apart (p, passed) c enough =
      Ends-bind (pop incoming s) _ (PopResult s incoming (y ∷ (before ++ r ∷ after))) _
        (pop-PopResult s incoming (y ∷ (before ++ r ∷ after)) is)
        λ (node, q) t (e, rest, mutexes, et).
          rw
            (
              e,
              et,
              get_from_node-Carries s y p.name (first_at (before ++ r ∷ after)) p.carried
                  is.linked.0,
              read_text-Carries s y p.name p.carried,
              p.other,
              p.stays,
            )
            (Ends-bind (add_existing tmp (some y.at) s) _ _ _
              (add_existing-Added s tmp aside y (first_at (before ++ r ∷ after)) js
                (Apart-head aside (before ++ r ∷ after) y apart) is.linked.0)
              λ (result, tmp') u (ok, added).
                let still : IsQueue u q (before ++ r ∷ after) =
                  IsQueue-frame s u q (before ++ r ∷ after) (y ∷ aside) rest added.same
                    (Apart-rest aside (before ++ r ∷ after) y apart is.distinct.0) in
                Ends-mono (wait_pass rounds instr q tmp' u) _ _
                  (wait_pass-Found rounds u q tmp' (aside ++ y ∷ []) before still added.queue
                    (Apart-shift aside (before ++ r ∷ after) y apart is.distinct.0)
                    (PassedAll-frame instr s u before added.same.blocks passed)
                    (Carries-frame s u r instr added.same.blocks c) (omega arith))
                  λ outcome v found.
                    Found-step s u v incoming q tmp tmp' aside before y outcome added.same mutexes
                      added.mutexes found)
