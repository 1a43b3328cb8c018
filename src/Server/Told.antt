-- ===== src/Server/Told.antt =====
-- The exits for the children of a server, and a queue that holds them (wimp_server_free of
-- wimp/src/wimp_server.c).
use wimp.Prelude.{
  ℕ, suc, ◌<◌, ◌≤◌, ◌≡◌, ap, ◌∙◌, arith, Option, none, some, List, [], ◌∷◌, Bool, true, false, ◌==◌,
  ◌%◌, ◌^◌, if◌then◌else◌, is_some, length,
}
use wimp.Prelude.Bytes.{Bytes, text_eq}
use wimp.HashString.{Entry}
use wimp.Memory.{write_block, Store}
use wimp.Memory.Frame.{Item}
use wimp.Queue.Chain.{IsQueue}
use wimp.Queue.Free.{Owned}
use wimp.ProcessTable.{State}
use wimp.Wire.Bundle.{message}
use wimp.Wire.Fields.{IsName}
use wimp.Reciever.{exit_text}
use wimp.Server.{Server}
use wimp.Server.Close.{is_child}
use wimp.Server.Mail.{Mail, HoldAll}

-- The exit for a process.
abbrev pub exit_mail : Bytes → Bytes → Mail
exit_mail process_name dest = record {
  dest = dest;
  content = message process_name dest exit_text [];
}

abbrev pub leads_to_child : State → Entry ℕ → Bool
leads_to_child ptable entry = elim (ptable.heap entry.value) [
  | none ↦ false
  | some process ↦ is_child process.process_relation
]

-- An exit for each child among the entries.
abbrev pub exits : State → Bytes → List (Entry ℕ) → List Mail
exits ptable name [] = []
exits ptable name (entry ∷ entries) =
    let rest = exits ptable name entries in
    if leads_to_child ptable entry then exit_mail name entry.key ∷ rest else rest

-- The entry has process data, and an exit for it can be written.
abbrev pub IsTellable : State → Bytes → Entry ℕ → Type 0
IsTellable ptable name entry =
    (is_some (ptable.heap entry.value) ≡ true)
    × IsName entry.key
    × (length (message name entry.key exit_text []) < 2 ^ 31)
    × ((length (message name entry.key exit_text []) % 256 == 0) ≡ false)
    × (text_eq entry.key name ≡ false)

-- `Room k s` says that there is memory in `s` for `k` more messages with their nodes: then a block that
-- is not in use and a node are given, and when they are filled there is memory for one message less.
pub record Supply (malloc_node : Store → Option ℕ) (fresh_block : Store → ℕ)
    (Room : ℕ → Store → Type 0) : Type 0 where
  pub fewer : (k : ℕ) (s : Store) → Room (suc k) s → Room k s
  pub unused : (k : ℕ) (s : Store) → Room (suc k) s → s.block (fresh_block s) ≡ none
  pub gives :
      (k : ℕ) (s : Store) (content : Bytes)
      → Room (suc k) s
      → is_some (malloc_node (write_block s (fresh_block s) (some content))) ≡ true
  pub less :
      (k : ℕ) (s t : Store) (content : Bytes) (p : ℕ)
      → Room (suc k) s
      → malloc_node (write_block s (fresh_block s) (some content)) ≡ some p
      → ((a : ℕ) → (a == p) ≡ false → s.node a ≡ none → t.node a ≡ none)
      → ((b : ℕ) → (fresh_block s == b) ≡ false → t.block b ≡ s.block b)
      → Room k t

-- The outgoing queue with the exits.
pub record Told (server : Server) (mails : List Mail) (most : ℕ) (server' : Server) (t : Store)
    : Type 0 where
  pub items : List Item
  pub queue : IsQueue t server'.outgoingmsg items
  pub hold : HoldAll server.process_name t items mails
  pub own : Owned t items
  pub few : length items < most
  pub only : server' ≡ record server { outgoingmsg = server'.outgoingmsg }

pub Told-more :
    (server server' : Server) (mails : List Mail) (few more : ℕ) (t : Store)
    → few ≤ more
    → Told server mails few server' t
    → Told server mails more server' t
Told-more server server' mails few more t le told = record {
  items = told.items;
  queue = told.queue;
  hold = told.hold;
  own = told.own;
  few = omega (arith, told.few);
  only = told.only;
}

-- The rest of the exits come from a server that differs in its queue only.
pub Told-after :
    (server server' final : Server) (mails mails' : List Mail) (most : ℕ) (t : Store)
    → server' ≡ record server { outgoingmsg = server'.outgoingmsg }
    → mails' ≡ mails
    → Told server' mails' most final t
    → Told server mails most final t
Told-after server server' final mails mails' most t only same told = record {
  items = told.items;
  queue = told.queue;
  hold =
      let named : server'.process_name ≡ server.process_name =
        ap (λ (v : Server). v.process_name) only in
      rw (same, named) at told.hold;
  own = told.own;
  few = told.few;
  only = told.only ∙ ap (λ (v : Server). record v { outgoingmsg = final.outgoingmsg }) only;
}
