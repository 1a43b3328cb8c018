-- ===== src/Tests/Transport.antt =====
-- A server with two instructions in its outgoing queue, that of Message and an exit, both for a
-- process behind the parent, which is connected; and the reciever of that process.
use wimp.Prelude.{◌≡◌, refl, arith, none, some, List, [], ◌∷◌, inl, inr, ◌==◌, if◌then◌else◌}
use wimp.Prelude.Bytes.{Bytes, le32, text_eq}
use wimp.HashString
use wimp.Memory.{Store, unlock}
use wimp.Memory.Frame.{Item, Ends}
use wimp.Queue.Chain.{IsQueue}
use wimp.Queue.Free.{Owned}
use wimp.ProcessTable.Laws.{IsValid}
use wimp.Wire.{bundle_size}
use wimp.Wire.Bundle.{message}
use wimp.Reciever.{Packet, received, exit_text}
use wimp.Server.{Server, send_instructions}
use wimp.Server.Mail.{Mail, Holds}
use wimp.Server.Drain.{Drained, held, send_instructions-Drained}
use wimp.Tests.Processes.{processes-IsValid, find_processes}
use wimp.Tests.Message.{
  sender, receiver, order, payload, sender-IsName, receiver-IsName, order-IsName, length-order,
}
use wimp.Tests.Stream.{exit-IsMessage, length-exit}
use wimp.Tests.Sending.{connected_master}
use wimp.Tests.Serving.{slow, slow-Takes}

abbrev order_node : Item
order_node = record { at = 1; instr = record { instruction = some 11; instruction_bytes = 17 } }

abbrev exit_node : Item
exit_node = record { at = 2; instr = record { instruction = some 12; instruction_bytes = 17 } }

abbrev memory : Store
memory = record {
  node = λ a.
      if a == 1
      then some (record { instr = order_node.instr; nextnode = some 2 })
      else (if a == 2 then some (record { instr = exit_node.instr; nextnode = none }) else none);
  block = λ b.
      if b == 11
      then some (message sender receiver order payload)
      else (if b == 12 then some (message sender receiver exit_text []) else none);
  calls = [];
}

abbrev loaded : Server
loaded = record connected_master {
  outgoingmsg = record {
    nextnode = some 1;
    backnode = some 2;
    datamutex = 4;
    nextmutex = 5;
    lowpriomutex = 6;
  };
}

loaded-IsQueue : IsQueue memory loaded.outgoingmsg (order_node ∷ exit_node ∷ [])
loaded-IsQueue = record {
  front = refl;
  back = refl;
  linked = (refl, (refl, tt));
  distinct = (refl, (refl, tt));
}

abbrev order_mail : Mail
order_mail = record { dest = receiver; content = message sender receiver order payload }

abbrev exit_mail : Mail
exit_mail = record { dest = receiver; content = message sender receiver exit_text [] }

order_node-Holds : Holds loaded.process_name memory order_node order_mail
unfolding text_eq message le32 bundle_size
order_node-Holds = record {
  name = order;
  carried = record {
    block_at = 11;
    process = sender;
    dest = receiver;
    args = payload;
    names = (sender-IsName, receiver-IsName, order-IsName);
    small = omega (arith, length-order);
    odd = refl;
    there = refl;
    instr = refl;
  };
  dest = refl;
  content = refl;
  other = refl;
}

exit_node-Holds : Holds loaded.process_name memory exit_node exit_mail
unfolding text_eq message le32 bundle_size
exit_node-Holds = record {
  name = exit_text;
  carried = record {
    block_at = 12;
    process = sender;
    dest = receiver;
    args = [];
    names = (sender-IsName, receiver-IsName, exit-IsMessage.2);
    small = omega (arith, length-exit);
    odd = refl;
    there = refl;
    instr = refl;
  };
  dest = refl;
  content = refl;
  other = refl;
}

loaded-Owned : Owned memory (order_node ∷ exit_node ∷ [])
loaded-Owned = ((_, refl), refl, ((_, refl), refl, tt))

loaded-IsValid : IsValid loaded.ptable
loaded-IsValid = record {
  hashed = processes-IsValid.hashed;
  live = λ j e at. elim (find_processes j e at) [
    | inl (named, value) ↦ rw value refl
    | inr (named, value) ↦ rw value refl
  ];
  apart = processes-IsValid.apart;
  counted = processes-IsValid.counted;
}

send_instructions-Drained_example :
    Ends (send_instructions slow (λ s. none) 3 20 loaded memory) (λ server' t.
      (u : Store) × Drained loaded
        (order_node ∷ exit_node ∷ [])
        (order_mail ∷ exit_mail ∷ [])
        (held loaded memory)
        server'
        u
      × (t ≡ record u { calls = unlock 4 ∷ u.calls }))
send_instructions-Drained_example =
    send_instructions-Drained slow slow-Takes (λ s. none) 20 3 loaded (order_node ∷ exit_node ∷ [])
      (order_mail ∷ exit_mail ∷ []) memory loaded-IsQueue (order_node-Holds, (exit_node-Holds, tt))
      loaded-Owned loaded-IsValid (omega (arith, length-order), (omega (arith, length-exit), tt))
      (omega arith)

-- A network that hands over one byte at a time.
abbrev single : Bytes → List Packet
single [] = []
single (b ∷ bytes) = received (b ∷ []) ∷ single bytes
