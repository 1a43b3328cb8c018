-- ===== src/Queue/Locks/Progress.antt =====
-- The locks of a queue never block each other for good.
use wimp.Prelude.{ℕ, ◌≡◌, ◌≢◌, ◌⊎◌, refl, arith, some, true, Option-cases, inl, inr}
use wimp.Queue.Locks.{
  Mutex, lowprio, next, contents, same, Action, takes, gives, Pc, away, low_begin, low_queued,
  low_next, low_entered, low_inside, low_leaving, high_begin, high_next, high_entered, high_inside,
  next_action, advance, Locks, nobody, place, Step, take_mutex, give_mutex, Reach,
}
use wimp.Queue.Locks.Exclusion.{has_mutex, Inv, Reach-Inv}

-- A thread that is at the queue makes its next call.
pub record Moves (s : Locks) : Type 0 where
  pub who : ℕ
  pub after : Locks
  pub step : Step s after
  pub busy : s.pc who ≢ away
  pub what : Action
  pub makes : next_action (s.pc who) ≡ some what
  pub moved : after.pc ≡ place s.pc who (advance (s.pc who))

busy_of : (p : Pc) (a : Action) → next_action p ≡ some a → p ≢ away
unfolding next_action
busy_of p a e same = ground arith

give_mutex-Moves : (s : Locks) (t : ℕ) (m : Mutex) → next_action (s.pc t) ≡ some (gives m) → Moves s
give_mutex-Moves s t m act = record {
  who = t;
  after = _;
  step = give_mutex s t m act;
  busy = busy_of (s.pc t) (gives m) act;
  what = gives m;
  makes = act;
  moved = refl;
}

-- A thread that wants a mutex gets it, or its owner can move.
take_mutex-Moves :
    (s : Locks) (t : ℕ) (m : Mutex)
    → Inv s
    → ((u : ℕ) → has_mutex (s.pc u) m ≡ true → Moves s)
    → next_action (s.pc t) ≡ some (takes m)
    → Moves s
take_mutex-Moves s t m inv others act = elim (Option-cases (s.owner m)) [
  | inl free ↦ record {
    who = t;
    after = _;
    step = take_mutex s t m act free;
    busy = busy_of (s.pc t) (takes m) act;
    what = takes m;
    makes = act;
    moved = refl;
  }
  | inr (u, owned) ↦ others u (inv.held u m owned)
]

-- What a thread that holds a mutex does next.
after_contents :
    (p : Pc) → has_mutex p contents ≡ true → (m : Mutex) × (next_action p ≡ some (gives m))
unfolding next_action
after_contents away h = cc
after_contents low_begin h = cc
after_contents low_queued h = cc
after_contents low_next h = cc
after_contents low_entered h = (_, refl)
after_contents low_inside h = (_, refl)
after_contents low_leaving h = cc
after_contents high_begin h = cc
after_contents high_next h = cc
after_contents high_entered h = (_, refl)
after_contents high_inside h = (_, refl)

after_next :
    (p : Pc)
    → has_mutex p next ≡ true
    → (next_action p ≡ some (takes contents)) ⊎ (next_action p ≡ some (gives next))
unfolding next_action
after_next p h = ground arith

after_lowprio :
    (p : Pc)
    → has_mutex p lowprio ≡ true
    → (next_action p ≡ some (takes next))
      ⊎ ((has_mutex p next ≡ true)
          ⊎ ((has_mutex p contents ≡ true) ⊎ (next_action p ≡ some (gives lowprio))))
unfolding next_action
after_lowprio p h = ground arith

module _ (s : Locks) (inv : Inv s) where
  contents-Moves : (u : ℕ) → has_mutex (s.pc u) contents ≡ true → Moves s
  contents-Moves u h = let (m, act) = after_contents (s.pc u) h in give_mutex-Moves s u m act

  next-Moves : (u : ℕ) → has_mutex (s.pc u) next ≡ true → Moves s
  next-Moves u h = elim (after_next (s.pc u) h) [
    | inl act ↦ take_mutex-Moves s u contents inv contents-Moves act
    | inr act ↦ give_mutex-Moves s u next act
  ]

  lowprio-Moves : (u : ℕ) → has_mutex (s.pc u) lowprio ≡ true → Moves s
  lowprio-Moves u h = elim (after_lowprio (s.pc u) h) [
    | inl act ↦ take_mutex-Moves s u next inv next-Moves act
    | inr (inl h') ↦ next-Moves u h'
    | inr (inr (inl h')) ↦ contents-Moves u h'
    | inr (inr (inr act)) ↦ give_mutex-Moves s u lowprio act
  ]

  action-Moves : (t : ℕ) (a : Action) → next_action (s.pc t) ≡ some a → Moves s
  action-Moves t (gives m) act = give_mutex-Moves s t m act
  action-Moves t (takes lowprio) act = take_mutex-Moves s t lowprio inv lowprio-Moves act
  action-Moves t (takes next) act = take_mutex-Moves s t next inv next-Moves act
  action-Moves t (takes contents) act = take_mutex-Moves s t contents inv contents-Moves act

pub some_action : (p : Pc) → p ≢ away → (a : Action) × (next_action p ≡ some a)
unfolding next_action
some_action away h = absurd (h refl)
some_action low_begin h = (_, refl)
some_action low_queued h = (_, refl)
some_action low_next h = (_, refl)
some_action low_entered h = (_, refl)
some_action low_inside h = (_, refl)
some_action low_leaving h = (_, refl)
some_action high_begin h = (_, refl)
some_action high_next h = (_, refl)
some_action high_entered h = (_, refl)
some_action high_inside h = (_, refl)

-- The locks of a queue never deadlock: in every state that the threads can reach, in any number and
-- any order of their steps, from the one in which none is at the queue, as long as a thread is at
-- the queue, one that is can make its next call.
pub Reach-Moves : {s : Locks} (t : ℕ) → Reach nobody s → s.pc t ≢ away → Moves s
Reach-Moves {s} t reach busy =
    let (a, act) = some_action (s.pc t) busy in action-Moves s (Reach-Inv reach) t a act
