-- ===== src/Tests/Queues.antt =====
-- Two queues in one memory: nodes 1 and 2 in the first, node 3 in the second.
use wimp.Prelude.{
  ℕ, ◌+◌, ◌≡◌, refl, arith, Option, none, some, [], ◌∷◌, if◌then◌else◌, ◌==◌, ◌||◌, is_some,
  Option-cases, inl, inr,
}
use wimp.Memory.{Instr, Node, Store, IsFresh, release}
use wimp.Memory.Frame.{Item, has, Ends, Apart}
use wimp.Queue.{InstrQueue, success, add, pop, append_queue, prepend_queue, queue_free}
use wimp.Queue.Chain.{IsQueue}
use wimp.Queue.Ends.{AddResult, PopResult, add-AddResult, pop-PopResult}
use wimp.Queue.Splice.{Moved, append_queue-Moved, prepend_queue-Moved}
use wimp.Queue.Free.{Owned, has_block, queue_free-Cleared}

abbrev message_at : ℕ → Instr
message_at b = record { instruction = some b; instruction_bytes = 4 }

abbrev item : ℕ → Item
item a = record { at = a; instr = message_at (a + 10) }

abbrev node_at : ℕ → Option ℕ → Option Node
node_at a next = some (record { instr = message_at (a + 10); nextnode = next })

abbrev memory : Store
memory = record {
  node = λ a.
      if a == 1
      then node_at 1 (some 2)
      else (if a == 2
          then node_at 2 none
          else (if a == 3 then node_at 3 none else (if a == 4 then node_at 4 (some 1) else none)));
  block = λ b. if (b == 11) || (b == 12) then some (1 ∷ 2 ∷ 3 ∷ 4 ∷ []) else none;
  calls = [];
}

abbrev outgoing : InstrQueue
outgoing = record {
  nextnode = some 1;
  backnode = some 2;
  datamutex = 100;
  nextmutex = 101;
  lowpriomutex = 102;
}

abbrev incoming : InstrQueue
incoming = record {
  nextnode = some 3;
  backnode = some 3;
  datamutex = 200;
  nextmutex = 201;
  lowpriomutex = 202;
}

outgoing-IsQueue : IsQueue memory outgoing (item 1 ∷ item 2 ∷ [])
outgoing-IsQueue = record {
  front = refl;
  back = refl;
  linked = (refl, (refl, tt));
  distinct = (refl, (refl, tt));
}

incoming-IsQueue : IsQueue memory incoming (item 3 ∷ [])
incoming-IsQueue = record { front = refl; back = refl; linked = (refl, tt); distinct = (refl, tt) }

outgoing-incoming-Apart : Apart (item 1 ∷ item 2 ∷ []) (item 3 ∷ [])
outgoing-incoming-Apart a h = ground arith

-- One address is handed out, while it is free.
abbrev malloc_nine : Store → Option ℕ
malloc_nine s = if is_some (s.node 9) then none else some 9

malloc_nine-IsFresh : IsFresh malloc_nine
malloc_nine-IsFresh s p e = elim (Option-cases (s.node 9)) [
  | inl free ↦ (let nine : p ≡ 9 = cc (rw free at e) in rw (nine, free))
  | inr (n, used) ↦ cc (rw used at e)
]

add-AddResult_example :
    Ends
      (add malloc_nine outgoing (some 19) 4 memory)
      (AddResult memory outgoing (item 1 ∷ item 2 ∷ []) (message_at 19) (some 9))
add-AddResult_example =
    add-AddResult malloc_nine memory outgoing (item 1 ∷ item 2 ∷ []) (some 19) 4 malloc_nine-IsFresh
      outgoing-IsQueue

pop-PopResult_example :
    Ends (pop outgoing memory) (PopResult memory outgoing (item 1 ∷ item 2 ∷ []))
pop-PopResult_example = pop-PopResult memory outgoing (item 1 ∷ item 2 ∷ []) outgoing-IsQueue

append_queue-Moved_example :
    Ends (append_queue 2 (some outgoing) (some incoming) memory) (λ (result, q', from') t.
      (result ≡ success)
      × ((r : InstrQueue) × (f : InstrQueue) × (q' ≡ some r)
          × (from' ≡ some f)
          × Moved memory outgoing incoming (item 1 ∷ item 2 ∷ item 3 ∷ []) t r f))
append_queue-Moved_example =
    append_queue-Moved 2 memory outgoing incoming (item 1 ∷ item 2 ∷ []) (item 3 ∷ [])
      outgoing-IsQueue incoming-IsQueue outgoing-incoming-Apart (omega arith)

prepend_queue-Moved_example :
    Ends (prepend_queue 3 (some outgoing) (some incoming) memory) (λ (result, q', from') t.
      (result ≡ success)
      × ((r : InstrQueue) × (f : InstrQueue) × (q' ≡ some r)
          × (from' ≡ some f)
          × Moved memory incoming outgoing (item 3 ∷ item 1 ∷ item 2 ∷ []) t r f))
prepend_queue-Moved_example =
    prepend_queue-Moved 3 memory outgoing incoming (item 1 ∷ item 2 ∷ []) (item 3 ∷ [])
      outgoing-IsQueue incoming-IsQueue outgoing-incoming-Apart (omega arith)

outgoing-Owned : Owned memory (item 1 ∷ item 2 ∷ [])
outgoing-Owned = ((1 ∷ 2 ∷ 3 ∷ 4 ∷ [], refl), refl, ((1 ∷ 2 ∷ 3 ∷ 4 ∷ [], refl), refl, tt))

queue_free-Cleared_example : Ends (queue_free 3 outgoing memory) (λ _ t.
    ((a : ℕ) → t.node a ≡ (if has a (item 1 ∷ item 2 ∷ []) then none else memory.node a))
    × ((b : ℕ) → t.block b ≡ (if has_block b (item 1 ∷ item 2 ∷ []) then none else memory.block b))
    × (t.calls ≡ release 102 ∷ release 101 ∷ release 100 ∷ []))
queue_free-Cleared_example =
    queue_free-Cleared 3 memory outgoing (item 1 ∷ item 2 ∷ []) outgoing-IsQueue outgoing-Owned
      (omega arith)
