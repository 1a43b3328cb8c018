-- ===== src/Tests/Waiting.antt =====
-- A server that waits for "ok": the order of Message stands in its incoming queue, and the response
-- comes later; and one that gets its exit.
use wimp.Prelude.{ℕ, true, refl, arith, none, some, [], ◌∷◌, ◌==◌, if◌then◌else◌}
use wimp.Prelude.Bytes.{Bytes, text_eq, le32}
use wimp.Memory.{Store, Cmd, done}
use wimp.Memory.Frame.{Item, Ends}
use wimp.Queue.{InstrQueue, create_instr_queue}
use wimp.Wire.{bundle_size}
use wimp.Wire.Bundle.{message}
use wimp.Server.{Server}
use wimp.Server.Counts.{Carries}
use wimp.Server.Wait.{wait_response}
use wimp.Server.Waiting.{Answered, wait_response-Answered}
use wimp.Tests.Message.{sender, receiver, order, payload, sender-IsName, receiver-IsName}
use wimp.Tests.Serving.{master}
use wimp.Tests.Stream.{length-exit}
use wimp.Reciever.{exit_text}

abbrev reply : Bytes
reply = 0x6f ∷ 0x6b ∷ []

abbrev order_node : Item
order_node = record { at = 1; instr = record { instruction = some 11; instruction_bytes = 17 } }

abbrev reply_node : Item
reply_node = record { at = 2; instr = record { instruction = some 12; instruction_bytes = 17 } }

abbrev memory : Store
memory = record {
  node = λ a. if a == 1 then some (record { instr = order_node.instr; nextnode = none }) else none;
  block = λ b. if b == 11 then some (message sender receiver order payload) else none;
  calls = [];
}

-- The memory with the response, and the queue with it.
abbrev with_reply : Store → Store
with_reply s = record s {
  node =
      λ a. if a == 2 then some (record { instr = reply_node.instr; nextnode = none }) else s.node a;
  block = λ b. if b == 12 then some (message sender receiver reply payload) else s.block b;
}

abbrev reciever : ℕ → InstrQueue → Cmd InstrQueue
reciever k q = λ s. done (record q { nextnode = some 2; backnode = some 2 }) (with_reply s)

abbrev expecting : Server
expecting = record master {
  incomingmsg = record {
    nextnode = some 1;
    backnode = some 1;
    datamutex = 4;
    nextmutex = 5;
    lowpriomutex = 6;
  };
}

-- The exit of the process stands in the queue instead.
abbrev exit_node : Item
exit_node = record { at = 2; instr = record { instruction = some 12; instruction_bytes = 17 } }

abbrev with_exit : Store
with_exit = record {
  node = λ a. if a == 2 then some (record { instr = exit_node.instr; nextnode = none }) else none;
  block = λ b. if b == 12 then some (message sender receiver exit_text []) else none;
  calls = [];
}

abbrev ending : Server
ending = record master {
  incomingmsg = record {
    nextnode = some 2;
    backnode = some 2;
    datamutex = 4;
    nextmutex = 5;
    lowpriomutex = 6;
  };
}

exit_node-Carries : Carries with_exit exit_node exit_text
unfolding message le32 bundle_size
exit_node-Carries = record {
  block_at = 12;
  process = sender;
  dest = receiver;
  args = [];
  names = (
    sender-IsName,
    receiver-IsName,
    ((λ e. cc, (λ e. cc, (λ e. cc, (λ e. cc, tt)))), omega arith),
  );
  small = omega (arith, length-exit);
  odd = refl;
  there = refl;
  instr = refl;
}

-- A server that waits for "ok" and gets its exit: the wait ends without a node.
wait_response-exit :
    Ends
      (wait_response reciever 7 8 9 1 3 ending reply with_exit)
      (Answered reciever true reply [] [] exit_node ending [] (create_instr_queue 7 8 9))
unfolding text_eq
wait_response-exit =
    wait_response-Answered reciever true reply [] [] exit_node 7 8 9 0 3 [] with_exit ending
      (record { front = refl; back = refl; linked = (refl, tt); distinct = (refl, tt) })
      (tt, exit_node-Carries, (λ e. refl)) tt (omega arith)
