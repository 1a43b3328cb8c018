-- ===== src/Tests/Stream.antt =====
-- The reciever of process "B" on a stream that comes in three packets: a ping, the instruction of
-- Message and an exit, cut in the middle of a header and of a text.
use wimp.Prelude.{◌==◌, ◌≡◌, refl, arith, List, [], ◌∷◌, true, length, replicate, length-replicate}
use wimp.Prelude.Bytes.{Bytes, le32, text_eq}
use wimp.Wire.{bundle_size}
use wimp.Wire.Bundle.{message, length-message}
use wimp.Reciever.{
  Allocator, Packet, received, got, crash, is_exit, exit_text, RecieverState, recieve,
}
use wimp.Reciever.Stream.{Allocates, IsMessage, is_exit-message}
use wimp.Reciever.Rounds.{ping_sent, instr_sent, started}
use wimp.Reciever.Delivery.{recieve-queue}
use wimp.Tests.Message.{
  sender, receiver, order, payload, dirty_malloc, sender-IsName, receiver-IsName, order-IsName,
  length-order,
}

abbrev order_bytes : Bytes
order_bytes = 17 ∷ 0 ∷ 0 ∷ 0 ∷ 0x42 ∷ 0 ∷ 0x41 ∷ 0 ∷ 0x67 ∷ 0x6f ∷ 0 ∷ 2 ∷ 0 ∷ 0 ∷ 0 ∷ 1 ∷ 0 ∷ []

abbrev exit_bytes : Bytes
exit_bytes =
    17 ∷ 0 ∷ 0 ∷ 0 ∷ 0x42 ∷ 0 ∷ 0x41 ∷ 0 ∷ 0x65 ∷ 0x78 ∷ 0x69 ∷ 0x74 ∷ 0 ∷ 0 ∷ 0 ∷ 0 ∷ 0 ∷ []

abbrev three_packets : List Packet
three_packets =
    received (0x70 ∷ 0x69 ∷ 0x6e ∷ 0x67 ∷ 17 ∷ 0 ∷ [])
    ∷ received (0 ∷ 0 ∷ 0x42 ∷ 0 ∷ 0x41 ∷ 0 ∷ 0x67 ∷ [])
    ∷ received (0x6f ∷ 0 ∷ 2 ∷ 0 ∷ 0 ∷ 0 ∷ 1 ∷ 0 ∷ exit_bytes)
    ∷ []

-- A node for the first instruction and for no other.
abbrev pub one_node : Allocator
one_node = record { block = dirty_malloc; node = λ queue. length queue == 0 }

-- Memory for everything.
abbrev pub plenty : Allocator
plenty = record { block = dirty_malloc; node = λ queue. true }

pub plenty-Allocates : Allocates plenty
plenty-Allocates n = (replicate n 7, refl, length-replicate n 7)

one_node-Allocates : Allocates one_node
one_node-Allocates n = (replicate n 7, refl, length-replicate n 7)

pub order-IsMessage : IsMessage sender receiver order payload
order-IsMessage = (
  sender-IsName,
  receiver-IsName,
  order-IsName,
  omega (arith, length-order),
  λ e. absurd (omega (arith, length-order)),
)

pub length-exit : length (message sender receiver exit_text []) ≡ 17
length-exit = length-message sender receiver exit_text []

pub exit-IsMessage : IsMessage sender receiver exit_text []
exit-IsMessage = (
  sender-IsName,
  receiver-IsName,
  ((λ e. cc, (λ e. cc, (λ e. cc, (λ e. cc, tt)))), omega arith),
  omega (arith, length-exit),
  λ e. absurd (omega (arith, length-exit)),
)

-- An instruction whose size is a multiple of 256: 241 bytes of arguments.
abbrev long_payload : Bytes
long_payload = replicate 241 1

length-long : length (message sender receiver order long_payload) ≡ 256
length-long = length-message sender receiver order long_payload

long-IsMessage : IsMessage sender receiver order long_payload
long-IsMessage = (
  sender-IsName,
  receiver-IsName,
  order-IsName,
  omega (arith, length-long),
  λ e. absurd (omega (arith, length-long)),
)

is_exit-message_example : is_exit receiver (message sender receiver order long_payload) 256 ≡ crash
unfolding message le32 bundle_size
is_exit-message_example = is_exit-message sender receiver order long_payload long-IsMessage receiver

recieve-queue_example :
    (end : RecieverState) × (recieve one_node receiver 3 100 (λ _. true) (started three_packets [])
      ≡ got end)
    × (end.queue ≡ order_bytes ∷ [])
unfolding message le32 bundle_size text_eq
recieve-queue_example =
    recieve-queue one_node receiver one_node-Allocates 100 (λ _. true) (λ k. refl) sender []
      exit-IsMessage refl (ping_sent ∷ instr_sent sender receiver order payload ∷ []) three_packets
      [] 3 (tt, ((order-IsMessage, refl, refl), tt))
      ((omega arith, omega arith), ((omega arith, omega arith), ((omega arith, omega arith), tt)))
      refl (omega arith) (omega arith)
