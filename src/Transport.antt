-- ===== src/Transport.antt =====
-- From the outgoing queue of one process to the incoming queue of another:
-- wimp_server_send_instructions of wimp/src/wimp_server.c at one end of a connection, and
-- wimp_reciever_recieve of wimp/src/wimp_reciever.c at the other.
use wimp.Prelude.{
  ℕ, ◌≤◌, ◌≡◌, Option, none, some, List, [], ◌∷◌, Bool, true, false, if◌then◌else◌, All, length,
}
use wimp.Prelude.Bytes.{Bytes}
use wimp.ProcessTable.{State}
use wimp.Wire.Bundle.{message}
use wimp.Reciever.{Packet}
use wimp.Reciever.Packets.{IsPacket, contents}
use wimp.Reciever.Rounds.{Sent, instr_sent, wire, instructions, IsSendable}
use wimp.Server.{Server}
use wimp.Server.Mail.{Mail, receiver, way, bound_for, same_connection}

abbrev pub goes : Option (Option ℕ) → Option ℕ → Bool
goes none c = false
goes (some to) c = same_connection to c

-- The instructions that are sent on a connection, in order.
abbrev pub contents_for : State → Option Bytes → Option ℕ → List Mail → List Bytes
contents_for ptable parent c [] = []
contents_for ptable parent c (m ∷ mails) =
    let rest = contents_for ptable parent c mails in
    if goes (way (receiver ptable parent m.dest)) c then m.content ∷ rest else rest

-- TCP: it loses nothing and keeps the order, and each packet has a byte and fits the buffer.
abbrev pub IsNetwork : (Bytes → List Packet) → Type 0
IsNetwork cut = (bytes : Bytes) → All IsPacket (cut bytes) × (contents (cut bytes) ≡ bytes)

-- An instruction that a reciever understands, and that does not stop the process `me`.
pub record Letter (me : Bytes) (m : Mail) : Type 0 where
  pub process : Bytes
  pub dest : Bytes
  pub instr : Bytes
  pub args : Bytes
  pub is : m.content ≡ message process dest instr args
  pub sendable : IsSendable me (instr_sent process dest instr args)

module _ (ptable : State) (parent : Option Bytes) (c : Option ℕ) where
  -- Everything that goes to the connection is a letter for it.
  abbrev pub Letters : Bytes → List Mail → Type 0
  Letters me = All (λ m. goes (way (receiver ptable parent m.dest)) c ≡ true → Letter me m)

  -- The letters, as a reciever sees them.
  record Posted (me : Bytes) (mails : List Mail) : Type 0 where
    sent : List Sent
    good : All (IsSendable me) sent
    bytes : wire sent ≡ bound_for ptable parent c mails
    queue : instructions sent ≡ contents_for ptable parent c mails
    fewer : length sent ≤ length mails
