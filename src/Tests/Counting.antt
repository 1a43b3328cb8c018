-- ===== src/Tests/Counting.antt =====
-- An outgoing queue of one node, which carries the instruction of Message.
use wimp.Prelude.{
  ℕ, ◌≡◌, Option, Option-cases, inl, inr, refl, arith, none, some, [], ◌∷◌, ◌==◌, if◌then◌else◌,
}
use wimp.Prelude.Bytes.{le32, text_eq}
use wimp.Memory.{Store, IsFresh, unlock}
use wimp.Memory.Frame.{Item, Ends}
use wimp.Queue.{InstrQueue, create_instr_queue}
use wimp.Queue.Chain.{IsQueue}
use wimp.Wire.Bundle.{message}
use wimp.Server.Counts.{Carries}
use wimp.Server.{Server, send_instructions}
use wimp.Server.Loopback.{LoopedBack, send_instructions-loopback}
use wimp.Tests.Serving.{master, slow}
use wimp.Tests.Message.{
  sender, receiver, order, payload, sender-IsName, receiver-IsName, order-IsName, length-order,
}

abbrev pub only : Item
only = record { at = 1; instr = record { instruction = some 11; instruction_bytes = 17 } }

abbrev pub memory : Store
memory = record {
  node = λ a. if a == 1 then some (record { instr = only.instr; nextnode = none }) else none;
  block = λ b. if b == 11 then some (message sender receiver order payload) else none;
  calls = [];
}

abbrev queue_of_one : InstrQueue
queue_of_one = record {
  nextnode = some 1;
  backnode = some 1;
  datamutex = 100;
  nextmutex = 101;
  lowpriomutex = 102;
}

queue_of_one-IsQueue : IsQueue memory queue_of_one (only ∷ [])
queue_of_one-IsQueue = record {
  front = refl;
  back = refl;
  linked = (refl, tt);
  distinct = (refl, tt);
}

unfoldable pub order_carried : Carries memory only order
unfolding message le32
order_carried = record {
  block_at = 11;
  process = sender;
  dest = receiver;
  args = payload;
  names = (sender-IsName, receiver-IsName, order-IsName);
  small = omega (arith, length-order);
  odd = refl;
  there = refl;
  instr = refl;
}

-- The server is the one that the instruction is for.
abbrev own_server : Server
own_server = record master { process_name = receiver; outgoingmsg = queue_of_one }

-- Address 2, once.
abbrev second_node : Store → Option ℕ
second_node s = elim (s.node 2) [ none ↦ some 2 | some _ ↦ none ]

second_node-IsFresh : IsFresh second_node
second_node-IsFresh s p e = elim (Option-cases (s.node 2)) [
  | inl free ↦ let same : p ≡ 2 = cc (rw (second_node, free) at e) in rw same free
  | inr (n, taken) ↦ cc (rw (second_node, taken) at e)
]

-- The new node at 2 leads to the message at 11, which is freed.
send_instructions-loopback_example :
    Ends (send_instructions slow second_node 2 20 own_server memory) (λ server' t.
      (u : Store) × LoopedBack own_server only 11 [] (some 2) memory server' u
      × IsQueue u server'.outgoingmsg []
      × (t ≡ record u { calls = unlock server'.outgoingmsg.datamutex ∷ u.calls }))
unfolding text_eq order_carried create_instr_queue
send_instructions-loopback_example =
    send_instructions-loopback slow second_node 0 20 own_server only order [] memory
      second_node-IsFresh order_carried refl queue_of_one-IsQueue
      (record { front = refl; back = refl; linked = tt; distinct = tt }) refl
