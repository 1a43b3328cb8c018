-- ===== src/Reciever.antt =====
-- The reciever thread of wimp/src/wimp_reciever.c: it puts the instructions together again from the
-- packets that the socket hands out, and queues them for its process.
-- What `p_socket_receive` will return is a list; where that is used up the thread waits. Numbers
-- that the source compares as `size_t` are 64-bit patterns, so an error (-1) is the largest one.
pub mod Chunk
pub mod Copy
pub mod Delivery
pub mod Packets
pub mod Rounds
pub mod Stream
use wimp.Prelude.{
  ℕ, zero, suc, ◌+◌, ◌-◌, ◌*◌, ◌%◌, ◌^◌, Option, none, some, List, [], ◌∷◌, ◌++◌, Bool, true, false,
  not, ◌&&◌, ◌==◌, ltb, leb, if◌then◌else◌, length, take, drop, replicate, get_elem?,
}
use wimp.Prelude.Bytes.{Bytes, le32, memcpy, text_at, text_eq}
use wimp.Wire.{InstrMeta, get_from_buffer, text_of, sign_extend}

abbrev pub message_buffer_bytes : ℕ
message_buffer_bytes = 512

-- "ping" as a little-endian word
abbrev pub ping : ℕ
ping = 0x676e6970

-- "exit"
abbrev pub exit_text : Bytes
exit_text = 0x65 ∷ 0x78 ∷ 0x69 ∷ 0x74 ∷ []

-- One return of `p_socket_receive`: up to 512 bytes, none where the peer has closed, or an error.
pub data Packet : Type 0 where
  received : Bytes → Packet
  failed : Packet

-- The socket's side of the state: the packet at hand, and what is still to come.
pub record Link : Type 0 where
  pub incoming_size : ℕ
  pub rec_offset : ℕ
  pub recbuffer : Bytes
  pub packets : List Packet

-- A step ends, waits for a packet that does not come, makes a bad access or fails an assertion, or
-- is still going when the rounds are used up.
pub data Got {ℓ} (A : Type ℓ) : Type ℓ where
  got : A → Got A
  waits : Got A
  crash : Got A
  unfinished : Got A

infixl 5 ◌>>=◌
abbrev pub ◌>>=◌ {ℓ κ} : {A : Type ℓ} {B : Type κ} → Got A → (A → Got B) → Got B
got a >>= f = f a
waits >>= f = waits
crash >>= f = crash
unfinished >>= f = unfinished

-- The buffer is zeroed before each packet.
unfoldable pub next_packet : Link → Got Link
next_packet l = elim l.packets [
  | [] ↦ waits
  | p ∷ rest ↦ elim p [
    | received bytes ↦ got (record {
      incoming_size = length bytes;
      rec_offset = 0;
      recbuffer = bytes ++ replicate (message_buffer_bytes - length bytes) 0;
      packets = rest;
    })
    | failed ↦ got (record {
      incoming_size = 2 ^ 64 - 1;
      rec_offset = 0;
      recbuffer = replicate message_buffer_bytes 0;
      packets = rest;
    })
  ]
]

-- `recbuffer[rec_offset]`, and the step past it.
unfoldable pub take_byte : Link → Got (ℕ × Link)
take_byte l = elim (get_elem? l.recbuffer l.rec_offset) [
  | none ↦ crash
  | some b ↦ got (b, record l { rec_offset = l.rec_offset + 1 })
]

-- One byte of a header, from the next packet if this one is used up.
unfoldable pub read_byte : Link → Got (ℕ × Link)
read_byte l = (if leb l.incoming_size l.rec_offset then next_packet l else got l) >>= take_byte

unfoldable pub read_header : Link → Got (ℕ × Link)
read_header l = do
  (b0, l0) ← read_byte l
  (b1, l1) ← read_byte l0
  (b2, l2) ← read_byte l1
  (b3, l3) ← read_byte l2
  got (b0 + 256 * b1 + 65536 * b2 + 16777216 * b3, l3)

pub data Mode : Type 0 where
  idle reading_headers reading_data : Mode

-- The calls on the incoming queue's locks.
pub data QueueCall : Type 0 where
  low_prio_lock low_prio_unlock : QueueCall

-- What malloc gives: a block of a size or NULL, and whether wimp_instr_queue_add gets a node for a queue
-- that holds so much.
pub record Allocator : Type 0 where
  pub block : ℕ → Option Bytes
  pub node : List Bytes → Bool

-- WimpRecieverState, with the link, the incoming queue and the calls on its locks, latest first. `none` is a NULL instruction.
pub record RecieverState : Type 0 where
  pub link : Link
  pub mode : Mode
  pub instruction : Option Bytes
  pub instruction_bytes : ℕ
  pub instruction_bytes_read : ℕ
  pub queue : List Bytes
  pub calls : List QueueCall

abbrev pub sub64 : ℕ → ℕ → ℕ
sub64 a b = (a + 2 ^ 64 - b) % 2 ^ 64

-- The bytes to copy in a round: up to the end of the packet.
unfoldable pub chunk_size : Link → (total bytes_read : ℕ) → ℕ
chunk_size l total bytes_read =
    if ltb l.incoming_size ((l.rec_offset + sub64 total bytes_read) % 2 ^ 64)
    then sub64 l.incoming_size l.rec_offset
    else sub64 total bytes_read

unfoldable pub copy_chunk : Link → Bytes → (bytes_read count : ℕ) → Got (Bytes × Link)
copy_chunk l instr bytes_read count =
    if leb (l.rec_offset + count) (length l.recbuffer)
    then elim (memcpy instr bytes_read (take count (drop l.rec_offset l.recbuffer))) [
      | none ↦ crash
      | some instr' ↦ got (instr', record l { rec_offset = l.rec_offset + count })
    ]
    else crash

-- `while (instruction_bytes_read != instruction_bytes)`
unfoldable pub copy_loop : ℕ → Link → Bytes → (total bytes_read : ℕ) → Got (Bytes × Link)
copy_loop zero l instr total bytes_read = unfinished
copy_loop (suc rounds) l instr total bytes_read =
    let count = chunk_size l total bytes_read in
    let step : Got (Bytes × Link) =
      (copy_chunk l instr bytes_read count >>= λ copied.
      if bytes_read + count == total
      then got copied
      else (next_packet copied.1 >>= λ l'.
          copy_loop rounds l' copied.0 total (bytes_read + count))) in
    if bytes_read == total then got (instr, l) else step

-- wimp_reciever_allocateinstr and the copy of the header: the new instruction.
unfoldable pub allocate_instr : Allocator → ℕ → Got Bytes
allocate_instr malloc header = elim (malloc.block (sign_extend header)) [
  | none ↦ crash
  | some raw ↦ elim (memcpy raw 0 (le32 header)) [ none ↦ crash | some instr ↦ got instr ]
]

-- Whether the instruction is "exit" for this process. A NULL text is read.
unfoldable pub is_exit : Bytes → Bytes → ℕ → Got Bool
is_exit process_name instr size = elim (get_from_buffer (some instr) size) [
  | none ↦ crash
  | some meta ↦ elim (text_of instr meta.instr) [
    | none ↦ crash
    | some name ↦
        if text_eq name exit_text
        then elim (text_of instr meta.dest_process) [
          | none ↦ crash
          | some dest ↦ got (text_eq dest process_name)
        ]
        else got false
  ]
]

module _ (malloc : Allocator) (process_name : Bytes) where
  -- READING DATA: the rest of the instruction, the check for the exit signal, and the queue, under its
  -- lock. The result of wimp_instr_queue_add is not looked at: without a node the instruction is lost.
  unfoldable pub reading_data_step : ℕ → RecieverState → Bytes → Got (Bool × RecieverState)
  reading_data_step rounds st instr = do
    (whole, l) ← copy_loop rounds st.link instr st.instruction_bytes st.instruction_bytes_read
    disconnect ← is_exit process_name whole st.instruction_bytes
    got (
      disconnect,
      record {
        link = l;
        mode = reading_headers;
        instruction = none;
        instruction_bytes = 0;
        instruction_bytes_read = 0;
        queue = if malloc.node st.queue then st.queue ++ whole ∷ [] else st.queue;
        calls = low_prio_unlock ∷ (low_prio_lock ∷ st.calls);
      },
    )

  -- What the value of a header leads to. The assertion on -1 is kept.
  unfoldable pub header_step : ℕ → ℕ → RecieverState → Got (Bool × RecieverState)
  header_step rounds header st =
      if header == 2 ^ 32 - 1
      then crash
      else (if header == 0
          then got (false, record st { mode = idle })
          else (if header == ping
              then got (false, st)
              else (allocate_instr malloc header >>= λ instr.
                  reading_data_step rounds
                    (record st {
                      mode = reading_data;
                      instruction = some instr;
                      instruction_bytes = sign_extend header;
                      instruction_bytes_read = 4;
                    })
                    instr)))

  -- READING HEADERS, and READING DATA where a header was found.
  unfoldable pub reading_headers_step : ℕ → RecieverState → Got (Bool × RecieverState)
  reading_headers_step rounds st = do
    (header, l) ← read_header st.link
    header_step rounds header (record st { link = l })

  -- One round of the loop behind the check for `active`.
  unfoldable pub recieve_step : ℕ → RecieverState → Got (Bool × RecieverState)
  recieve_step rounds st = elim st.mode [
    | idle ↦ do
      l ← next_packet st.link
      (if ltb 0 l.incoming_size && ltb l.incoming_size (2 ^ 63)
          then reading_headers_step rounds (record st { link = l; mode = reading_headers })
          else got (false, record st { link = l }))
    | reading_headers ↦ reading_headers_step rounds st
    | reading_data ↦ elim st.instruction [
      | none ↦ crash
      | some instr ↦ reading_data_step rounds st instr
    ]
  ]

  -- The loop. `active` is what the check reads in the round with so many rounds left; an
  -- instruction under way is freed when the loop is left there.
  unfoldable pub recieve : (rounds copies : ℕ) → (ℕ → Bool) → RecieverState → Got RecieverState
  recieve zero copies active st = unfinished
  recieve (suc rounds) copies active st =
      let step : Got RecieverState =
        (recieve_step copies st >>= λ outcome. elim outcome.0 [
          | true ↦ got outcome.1
          | false ↦ recieve rounds copies active outcome.1
        ]) in
      if active rounds then step else got (record st { instruction = none })
