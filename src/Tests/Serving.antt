-- ===== src/Tests/Serving.antt =====
-- A server with the process table of Processes.
use wimp.Prelude.{
  List, is_some, ◌||◌, refl, ℕ, ◌+◌, ◌≡◌, arith, none, some, [], ◌∷◌, true, min, length, take,
  replicate, length-replicate,
}
use wimp.Prelude.Bytes.{Bytes, text_eq}
use wimp.HashString
use wimp.Memory.{Store}
use wimp.Memory.Frame.{Ends}
use wimp.Queue.{create_instr_queue}
use wimp.ProcessTable.Laws.{IsValid, lookup}
use wimp.Server.{Server, Socket, send_chunks}
use wimp.Server.Chunks.{Takes, Sent, send_chunks-Sent}
use wimp.Handshake.{
  HandshakeHeader, AcceptState, too_few_processes, create_handshake, zero_buffer, accept_one,
  connection, accept_named, is_expected, process_accept, success,
}
use wimp.Handshake.Accept.{filled, accept_one-create_handshake}
use wimp.Handshake.Connected.{Connected, accept_named-Connected}
use wimp.Handshake.Everyone.{Joiner, attempts_of, is_active, joins, process_accept-Joined}
use wimp.Tests.Hash.{client, server}
use wimp.Tests.Processes.{processes, processes-IsValid}

abbrev pub master : Server
master = record {
  process_name = 0x6d ∷ [];
  ptable = processes;
  parent = some server;
  incomingmsg = create_instr_queue 1 2 3;
  outgoingmsg = create_instr_queue 4 5 6;
  outbox = [];
}

abbrev waiting : AcceptState
waiting = record {
  server = master;
  recbuffer = zero_buffer;
  accepted_count = 0;
  failure_reason = too_few_processes;
}

-- A socket that takes at most 100 bytes at once.
abbrev pub slow : Socket
slow outbox to bytes = min 100 (length bytes)

pub slow-Takes : Takes slow
slow-Takes outbox to bytes there = (omega arith, omega arith)

abbrev empty_store : Store
empty_store = record { node = λ a. none; block = λ b. none; calls = [] }

send_chunks-Sent_example :
    Ends
      (send_chunks slow 1000 (some 9) (replicate 700 1) 700 0 [] empty_store)
      (λ after t. (t ≡ empty_store) × Sent (some 9) (take 700 (replicate 700 1)) [] after)
send_chunks-Sent_example =
    send_chunks-Sent slow (some 9) slow-Takes 1000 (replicate 700 1) 700 0 [] empty_store
      (omega arith) (omega (arith, length-replicate {0} {A = ℕ} 700 1)) (omega arith) (omega arith)

accept_one-create_handshake_example :
    (header : HandshakeHeader) × (buffer : Bytes) × (create_handshake client zero_buffer
      ≡ some (header, buffer))
    × (accept_one slow
          (client ∷ [])
          (connection 9 (some (take (8 + header.process_name_bytes) buffer)))
          waiting
        ≡ accept_named slow (client ∷ []) 9 (filled client (omega arith) waiting) client)
accept_one-create_handshake_example =
    accept_one-create_handshake client (omega arith) slow (client ∷ []) 9 waiting ((λ e. cc, tt))

accept_named-Connected_example :
    (st' : AcceptState) × (accept_named slow (client ∷ []) 9 waiting client ≡ some (true, st'))
    × Connected (client ∷ []) 9 client waiting st'
unfolding text_eq is_expected
accept_named-Connected_example =
    accept_named-Connected slow (client ∷ []) 9 waiting client processes-IsValid

abbrev both : List Joiner
both = record { name = client; con = 8 } ∷ record { name = server; con = 9 } ∷ []

process_accept-Joined_example :
    (server' : Server) × (process_accept slow true true
        (client ∷ server ∷ [])
        (attempts_of both)
        zero_buffer
        master
      ≡ some (success, server'))
    × IsValid server'.ptable
    × ((name : Bytes)
        → (is_some (lookup server'.ptable name) ≡ is_some (lookup processes name))
          × (is_active server'.ptable name ≡ (is_active processes name || joins name both)))
unfolding lookup is_expected HashString.find HashString.find_chain HashString.hash text_eq
process_accept-Joined_example =
    process_accept-Joined slow (client ∷ server ∷ []) both zero_buffer master processes-IsValid refl
      (((λ e. cc, tt), omega arith, refl, refl), (((λ e. cc, tt), omega arith, refl, refl), tt))
