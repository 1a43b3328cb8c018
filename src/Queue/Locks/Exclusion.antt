-- ===== src/Queue/Locks/Exclusion.antt =====
-- Who holds which mutex of a queue, and that only one thread is inside.
use wimp.Prelude.{
  ℕ, ◌≡◌, ◌≢◌, refl, sym, ◌∙◌, arith, none, some, Bool, true, false, not, ◌&&◌, ◌||◌, ◌==◌, ==_iff,
  Bool-cases, inl, inr,
}
use wimp.Queue.Locks.{
  Mutex, lowprio, next, contents, same, takes, gives, Pc, away, low_begin, low_queued, low_next,
  low_entered, low_inside, low_leaving, high_begin, high_next, high_entered, high_inside,
  next_action, advance, Locks, nobody, place, set_owner, Step, arrive_low, arrive_high, take_mutex,
  give_mutex, Reach, here, then_step, is_inside,
}

-- What a thread holds at each place.
abbrev pub has_mutex : Pc → Mutex → Bool
has_mutex away m = false
has_mutex low_begin m = false
has_mutex low_queued m = same lowprio m
has_mutex low_next m = same lowprio m || same next m
has_mutex low_entered m = true
has_mutex low_inside m = same lowprio m || same contents m
has_mutex low_leaving m = same lowprio m
has_mutex high_begin m = false
has_mutex high_next m = same next m
has_mutex high_entered m = same next m || same contents m
has_mutex high_inside m = same contents m

pub record Inv (s : Locks) : Type 0 where
  pub holds : (t : ℕ) (m : Mutex) → has_mutex (s.pc t) m ≡ true → s.owner m ≡ some t
  pub held : (t : ℕ) (m : Mutex) → s.owner m ≡ some t → has_mutex (s.pc t) m ≡ true

taking :
    (p : Pc) (m n : Mutex)
    → next_action p ≡ some (takes m)
    → has_mutex (advance p) n ≡ (same m n || has_mutex p n)
unfolding next_action advance
taking p m n e = ground arith

giving :
    (p : Pc) (m n : Mutex)
    → next_action p ≡ some (gives m)
    → has_mutex (advance p) n ≡ (not (same m n) && has_mutex p n)
unfolding next_action advance
giving p m n e = ground arith

giving_held : (p : Pc) (m : Mutex) → next_action p ≡ some (gives m) → has_mutex p m ≡ true
unfolding next_action
giving_held p m e = ground arith

same_refl : (m : Mutex) → same m m ≡ true
same_refl lowprio = refl
same_refl next = refl
same_refl contents = refl

same-eq : (m n : Mutex) → same m n ≡ true → m ≡ n
same-eq m n e = ground arith

-- A thread that comes to the queue holds nothing.
arriving :
    (s : Locks) (t : ℕ) (p : Pc)
    → s.pc t ≡ away
    → ((m : Mutex) → has_mutex p m ≡ false)
    → Inv s
    → Inv (record s { pc = place s.pc t p })
unfolding place
arriving s t p at empty inv = record {
  holds = λ u m h. elim (Bool-cases (t == u)) [
    | inl e ↦ cc (rw (e, empty m) at h)
    | inr e ↦ inv.holds u m (rw e at h)
  ];
  held = λ u m o. elim (Bool-cases (t == u)) [
    | inl e ↦ cc (rw (← (==_iff t u).0 e, at) at (inv.held u m o))
    | inr e ↦ rw e (inv.held u m o)
  ];
}

take_mutex-Inv :
    (s : Locks) (t : ℕ) (m : Mutex)
    → next_action (s.pc t) ≡ some (takes m)
    → s.owner m ≡ none
    → Inv s
    → Inv (record { pc = place s.pc t (advance (s.pc t)); owner = set_owner s.owner m (some t) })
unfolding place set_owner
take_mutex-Inv s t m act free inv = record {
  holds = λ u n h. elim (Bool-cases (t == u)) [
    | inl e ↦ ground (arith, inv.holds t n, taking (s.pc t) m n act, (==_iff t u).0 e)
    | inr e ↦ ground (arith, inv.holds u n, same-eq m n)
  ];
  held = λ u n o. elim (Bool-cases (t == u)) [
    | inl e ↦ ground (arith, inv.held t n, taking (s.pc t) m n act, (==_iff t u).0 e)
    | inr e ↦ ground (arith, inv.held u n, same-eq m n)
  ];
}

give_mutex-Inv :
    (s : Locks) (t : ℕ) (m : Mutex)
    → next_action (s.pc t) ≡ some (gives m)
    → Inv s
    → Inv (record { pc = place s.pc t (advance (s.pc t)); owner = set_owner s.owner m none })
unfolding place set_owner
give_mutex-Inv s t m act inv =
    let mine = inv.holds t m (giving_held (s.pc t) m act) in
    record {
      holds = λ u n h. elim (Bool-cases (t == u)) [
        | inl e ↦ ground (arith, inv.holds t n, giving (s.pc t) m n act, (==_iff t u).0 e)
        | inr e ↦ ground (arith, inv.holds u n, same-eq m n)
      ];
      held = λ u n o. elim (Bool-cases (t == u)) [
        | inl e ↦ ground (arith, inv.held t n, giving (s.pc t) m n act, (==_iff t u).0 e)
        | inr e ↦ ground (arith, inv.held u n, same-eq m n)
      ];
    }

Step-Inv : {s s' : Locks} → Step s s' → Inv s → Inv s'
Step-Inv (arrive_low s t at) inv = arriving s t low_begin at (λ m. refl) inv
Step-Inv (arrive_high s t at) inv = arriving s t high_begin at (λ m. refl) inv
Step-Inv (take_mutex s t m act free) inv = take_mutex-Inv s t m act free inv
Step-Inv (give_mutex s t m act) inv = give_mutex-Inv s t m act inv

nobody-Inv : Inv nobody
nobody-Inv = record { holds = λ t m h. cc; held = λ t m o. cc }

pub Reach-Inv : {s : Locks} → Reach nobody s → Inv s
Reach-Inv here = nobody-Inv
Reach-Inv (then_step before step) = Step-Inv step (Reach-Inv before)

-- Two threads that hold the same mutex are one.
pub owner_unique :
    (s : Locks) (t u : ℕ) (m : Mutex)
    → Inv s
    → has_mutex (s.pc t) m ≡ true
    → has_mutex (s.pc u) m ≡ true
    → t ≡ u
owner_unique s t u m inv h k =
    let e : some t ≡ some u = sym (inv.holds t m h) ∙ inv.holds u m k in cc

inside-has : (p : Pc) → is_inside p ≡ true → has_mutex p contents ≡ true
inside-has p h = ground arith

-- The locks of a queue, from the state in which no thread is at it, for any number of threads and any
-- order of their steps: at most one thread is between wimp_instr_queue_low_prio_lock and
-- wimp_instr_queue_low_prio_unlock, or between wimp_instr_queue_high_prio_lock and
-- wimp_instr_queue_high_prio_unlock; and at most one low-priority thread is past its first lock, so
-- that a high-priority thread competes with one of them at most.
pub Reach-exclusion :
    {s : Locks} (t u : ℕ)
    → Reach nobody s
    → t ≢ u
    → ((is_inside (s.pc t) && is_inside (s.pc u)) ≡ false)
      × ((has_mutex (s.pc t) lowprio && has_mutex (s.pc u) lowprio) ≡ false)
Reach-exclusion {s} t u reach apart =
    let inv = Reach-Inv reach in
    (
      ground
          (arith, inside-has (s.pc t), inside-has (s.pc u), owner_unique s t u contents inv, apart),
      ground (arith, owner_unique s t u lowprio inv, apart),
    )
