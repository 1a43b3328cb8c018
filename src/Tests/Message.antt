-- ===== src/Tests/Message.antt =====
-- A message from process "A" to process "B": the instruction "go" with two bytes of arguments.
use wimp.Prelude.{ℕ, ◌≡◌, arith, Option, some, [], ◌∷◌, length, replicate, length-replicate}
use wimp.Prelude.Bytes.{Bytes, le32}
use wimp.Wire.{bundle_instr, bundle_size, get_from_buffer}
use wimp.Wire.Bundle.{message, length-message, bundle_instr-message}
use wimp.Wire.Fields.{IsName}
use wimp.Wire.RoundTrip.{get_from_buffer-message}

abbrev pub sender : Bytes
sender = 0x41 ∷ []

abbrev pub receiver : Bytes
receiver = 0x42 ∷ []

abbrev pub order : Bytes
order = 0x67 ∷ 0x6f ∷ []

abbrev pub payload : Bytes
payload = 1 ∷ 0 ∷ []

-- 17 0 0 0 B \0 A \0 g o \0 2 0 0 0 1 0
abbrev order_bytes : Bytes
order_bytes = 17 ∷ 0 ∷ 0 ∷ 0 ∷ 0x42 ∷ 0 ∷ 0x41 ∷ 0 ∷ 0x67 ∷ 0x6f ∷ 0 ∷ 2 ∷ 0 ∷ 0 ∷ 0 ∷ 1 ∷ 0 ∷ []

-- Memory with something in it.
abbrev pub dirty_malloc : ℕ → Option Bytes
dirty_malloc n = some (replicate n 7)

pub sender-IsName : IsName sender
sender-IsName = ((λ e. cc, tt), omega arith)

pub receiver-IsName : IsName receiver
receiver-IsName = ((λ e. cc, tt), omega arith)

pub order-IsName : IsName order
order-IsName = ((λ e. cc, (λ e. cc, tt)), omega arith)

pub length-order : length (message sender receiver order payload) ≡ 17
length-order = length-message sender receiver order payload

dirty_malloc_sized : (n : ℕ) (raw : Bytes) → dirty_malloc n ≡ some raw → length raw ≡ n
dirty_malloc_sized n raw e = let same : raw ≡ replicate n 7 = cc e in rw same (length-replicate n 7)

bundle_instr-message_example :
    bundle_instr dirty_malloc sender receiver order payload
    ≡ some (record { instr = some order_bytes; size = 17 })
unfolding message le32 bundle_size
bundle_instr-message_example =
    bundle_instr-message dirty_malloc sender receiver order payload dirty_malloc_sized
      (omega (arith, length-order))

get_from_buffer-message_example :
    get_from_buffer (some order_bytes) 17
    ≡ some (record {
      source_process = some 6;
      dest_process = some 4;
      instr = some 8;
      args = some 15;
      total_bytes = 17;
      arg_bytes = 2;
      instr_bytes = 3;
    })
unfolding message le32 bundle_size
get_from_buffer-message_example =
    get_from_buffer-message sender receiver order payload sender-IsName receiver-IsName order-IsName
      (omega (arith, length-order))
