-- ===== src/Queue/Locks/Finish.antt =====
-- The threads at the locks of a queue come to an end.
use wimp.Prelude.{
  ℕ, zero, suc, ◌+◌, ◌*◌, ◌≤◌, ◌<◌, ◌≡◌, ◌≢◌, ltb, refl, ap, ◌∙◌, arith, some, false, ◌==◌, ==_iff,
  Bool-cases, inl, inr,
}
use wimp.Queue.Locks.{
  Action, Pc, away, low_begin, low_queued, low_next, low_entered, low_inside, low_leaving,
  high_begin, high_next, high_entered, high_inside, next_action, advance, Locks, nobody, place,
  Step, Reach, then_step,
}
use wimp.Queue.Locks.Progress.{Reach-Moves}

-- The calls that a thread has still to make.
abbrev pub remaining : Pc → ℕ
remaining away = 0
remaining low_begin = 6
remaining low_queued = 5
remaining low_next = 4
remaining low_entered = 3
remaining low_inside = 2
remaining low_leaving = 1
remaining high_begin = 4
remaining high_next = 3
remaining high_entered = 2
remaining high_inside = 1

-- Of the threads below `n` together.
abbrev pub total : ℕ → (ℕ → Pc) → ℕ
total zero pc = 0
total (suc n) pc = remaining (pc n) + total n pc

-- So many calls, one after the other, by threads below `n`; none comes to the queue.
pub data Calls (n : ℕ) : ℕ → Locks → Locks → Type 0 where
  stop : (s : Locks) → Calls n zero s s
  call :
      (k t : ℕ) (a : Action) (s s' u : Locks)
      → t < n
      → next_action (s.pc t) ≡ some a
      → Step s s'
      → s'.pc ≡ place s.pc t (advance (s.pc t))
      → Calls n k s' u
      → Calls n (suc k) s u

one_less :
    (p : Pc) (a : Action) → next_action p ≡ some a → suc (remaining (advance p)) ≡ remaining p
unfolding next_action advance
one_less p a e = ground arith

total-same : (n t : ℕ) (pc : ℕ → Pc) (p : Pc) → n ≤ t → total n (place pc t p) ≡ total n pc
unfolding place
total-same zero t pc p h = refl
total-same (suc n) t pc p h =
    let other : (t == n) ≡ false = ground arith in
    let rest = total-same n t pc p (omega arith) in rw (other, rest) refl

total-place :
    (n t : ℕ) (pc : ℕ → Pc) (p : Pc)
    → t < n
    → suc (remaining p) ≡ remaining (pc t)
    → suc (total n (place pc t p)) ≡ total n pc
unfolding place
total-place zero t pc p h e = absurd (omega arith)
total-place (suc n) t pc p h e = elim (Bool-cases (t == n)) [
  | inl same ↦
      let here : t ≡ n = (==_iff t n).0 same in
      let less : suc (remaining p) ≡ remaining (pc n) = rw here at e in
      let rest = total-same n t pc p (omega arith) in rw (same, rest) (omega arith)
  | inr other ↦ let rest = total-place n t pc p (ground arith) e in rw other (omega (arith, rest))
]

total-bound : (n : ℕ) (pc : ℕ → Pc) → total n pc ≤ 6 * n
total-bound zero pc = omega arith
total-bound (suc n) pc = omega (arith, total-bound n pc, six (pc n))
  where
    six : (p : Pc) → remaining p ≤ 6
    six p = ground arith

-- Every call brings the number of those that are left down by one.
Calls-total : {n k : ℕ} {s u : Locks} → Calls n k s u → k + total n u.pc ≡ total n s.pc
Calls-total (stop s) = omega arith
Calls-total {n} (call k t a s s' u below act step moved rest) =
    let others = Calls-total rest in
    let less : suc (total n s'.pc) ≡ total n s.pc =
      ap (λ pc. suc (total n pc)) moved
      ∙ total-place n t s.pc (advance (s.pc t)) below (one_less (s.pc t) a act) in
    omega (arith, others, less)

-- The threads from `n` on are not at the queue.
abbrev pub IsFor : ℕ → Locks → Type 0
IsFor n s = (t : ℕ) → n ≤ t → s.pc t ≡ away

Calls-Reach : {n k : ℕ} {s u : Locks} → Calls n k s u → Reach nobody s → Reach nobody u
Calls-Reach (stop s) reach = reach
Calls-Reach (call k t a s s' u below act step moved rest) reach =
    Calls-Reach rest (then_step reach step)

place-IsFor :
    (n t : ℕ) (s s' : Locks) (p : Pc) → t < n → s'.pc ≡ place s.pc t p → IsFor n s → IsFor n s'
unfolding place
place-IsFor n t s s' p below moved idle u h =
    let other : (t == u) ≡ false = ground arith in
    ap (λ (pc : ℕ → Pc). pc u) moved ∙ rw other (idle u h)

Calls-IsFor : {n k : ℕ} {s u : Locks} → Calls n k s u → IsFor n s → IsFor n u
Calls-IsFor (stop s) idle = idle
Calls-IsFor {n} (call k t a s s' u below act step moved rest) idle =
    Calls-IsFor rest (place-IsFor n t s s' (advance (s.pc t)) below moved idle)

remaining-away : (p : Pc) → remaining p ≡ 0 → p ≡ away
remaining-away p h = ground arith

total-away : (n t : ℕ) (pc : ℕ → Pc) → total n pc ≡ 0 → t < n → pc t ≡ away
total-away zero t pc none_left h = absurd (omega arith)
total-away (suc n) t pc none_left h = elim (Bool-cases (t == n)) [
  | inl same ↦ rw ((==_iff t n).0 same) (remaining-away (pc n) (omega arith))
  | inr other ↦ total-away n t pc (omega arith) (ground arith)
]

total-busy : (n : ℕ) (pc : ℕ → Pc) → 0 < total n pc → (t : ℕ) × (pc t ≢ away)
total-busy zero pc h = absurd (omega arith)
total-busy (suc n) pc h = elim (Bool-cases (remaining (pc n) == 0)) [
  | inl idle ↦ total-busy n pc (ground (arith, h, idle))
  | inr busy ↦ (n, λ e. ground (arith, busy, ap remaining e))
]

-- The calls that are left can be made.
finish :
    (left n : ℕ) (s : Locks)
    → Reach nobody s
    → IsFor n s
    → total n s.pc ≡ left
    → (v : Locks) × Calls n left s v × ((t : ℕ) → v.pc t ≡ away)
finish zero n s reach idle count = (
  s,
  stop s,
  λ t. elim (Bool-cases (ltb t n)) [
    | inl below ↦ total-away n t s.pc count (ground arith)
    | inr above ↦ idle t (ground arith)
  ],
)
finish (suc left) n s reach idle count =
    let (t, busy) = total-busy n s.pc (omega arith) in
    let m = Reach-Moves t reach busy in
    let below : m.who < n = elim (Bool-cases (ltb m.who n)) [
      | inl less ↦ ground arith
      | inr more ↦ absurd (m.busy (idle m.who (ground arith)))
    ] in
    let less : suc (total n m.after.pc) ≡ total n s.pc =
      ap (λ pc. suc (total n pc)) m.moved
      ∙ total-place n m.who s.pc (advance (s.pc m.who)) below
          (one_less (s.pc m.who) m.what m.makes) in
    let (v, run, gone) =
      finish left n m.after (then_step reach m.step)
        (place-IsFor n m.who s m.after (advance (s.pc m.who)) below m.moved idle)
        (omega (arith, less, count)) in
    (v, call left m.who m.what s m.after v below m.makes m.step m.moved run, gone)

-- The threads below `n` at the locks of a queue, in a state that is reached from the one in which none is
-- there, while no other thread comes: however they have made their calls so far, by now each of these
-- has brought the number of calls that are left (at most six for each thread) down by one, and the
-- rest can be made, in some order, until no thread is at the queue.
pub Calls-finish :
    {n k : ℕ} {s u : Locks}
    → Reach nobody s
    → IsFor n s
    → Calls n k s u
    → (k + total n u.pc ≡ total n s.pc)
      × (total n s.pc ≤ 6 * n)
      × (v : Locks) × Calls n (total n u.pc) u v
      × ((t : ℕ) → v.pc t ≡ away)
Calls-finish {n} {k} {s} {u} reach idle calls =
    let (v, run, gone) =
      finish (total n u.pc) n u (Calls-Reach calls reach) (Calls-IsFor calls idle) refl in
    (Calls-total calls, total-bound n s.pc, v, run, gone)
