-- ===== src/Server/Adding.antt =====
-- What wimp_server_add puts on the outgoing queue (wimp/src/wimp_server.c).
use wimp.Prelude.{
  ℕ, ◌<◌, ◌≡◌, refl, ap, ◌∙◌, arith, Option, none, some, List, [], ◌∷◌, ◌++◌, false, ◌==◌, ◌%◌, ◌^◌,
  length,
}
use wimp.Prelude.Bytes.{Bytes, text_eq}
use wimp.Memory.{Store, IsFresh, write_block}
use wimp.Memory.Frame.{Item, Ends, Ends-bind}
use wimp.Queue
use wimp.Queue.{InstrQueue}
use wimp.Queue.Chain.{unused-not-has, IsQueue, Linked-frame, SameMutexes}
use wimp.Queue.Ends.{add-AddResult}
use wimp.Wire.{bundle_instr}
use wimp.Wire.Bundle.{message, bundle_instr-message}
use wimp.Wire.Fields.{IsName}
use wimp.Server.{Server, server_add}
use wimp.Server.Mail.{Mail, Holds}

write_block_self : (s : Store) (b : ℕ) (c : Option Bytes) → (write_block s b c).block b ≡ c
unfolding write_block
write_block_self s b c = ground arith

write_block_ne :
    (s : Store) (b a : ℕ) (c : Option Bytes)
    → (b == a) ≡ false
    → (write_block s b c).block a ≡ s.block a
unfolding write_block
write_block_ne s b a c ne = rw ne refl

-- The message stands at the back of the outgoing queue, in a block of its own.
pub record Queued (s : Store) (server : Server) (items : List Item) (new : Item) (m : Mail) (b : ℕ)
    (server' : Server) (t : Store) : Type 0 where
  pub queue : IsQueue t server'.outgoingmsg (items ++ new ∷ [])
  pub holds : Holds server.process_name t new m
  pub only : server' ≡ record server { outgoingmsg = server'.outgoingmsg }
  pub there : t.block b ≡ some m.content
  pub blocks : (c : ℕ) → (b == c) ≡ false → t.block c ≡ s.block c
  pub nodes : (a : ℕ) → (a == new.at) ≡ false → s.node a ≡ none → t.node a ≡ none
  pub mutexes : SameMutexes server.outgoingmsg server'.outgoingmsg

module _ (malloc : ℕ → Option Bytes) (malloc_node : Store → Option ℕ) (fresh_block : Store → ℕ)
    (sized : (n : ℕ) (raw : Bytes) → malloc n ≡ some raw → length raw ≡ n)
    (fresh : IsFresh malloc_node) (server : Server) (dest instr args : Bytes) where
  abbrev content : Bytes
  content = message server.process_name dest instr args

  abbrev node : Store → ℕ → Item
  node s p = record {
    at = p;
    instr = record { instruction = some (fresh_block s); instruction_bytes = length content };
  }

  -- The memory with the new message.
  abbrev pub filled : Store → Store
  filled s = write_block s (fresh_block s) (some content)

  filled_nodes : (s : Store) (a : ℕ) → (filled s).node a ≡ s.node a
  unfolding write_block
  filled_nodes s a = refl

  filled-IsQueue :
      (s : Store) (items : List Item)
      → IsQueue s server.outgoingmsg items
      → IsQueue (filled s) server.outgoingmsg items
  unfolding write_block
  filled-IsQueue s items is = record {
    front = is.front;
    back = is.back;
    linked = Linked-frame s (filled s) items (λ a h. refl) is.linked;
    distinct = is.distinct;
  }

  -- wimp_server_add of an instruction for another process (names without terminators, a size below
  -- 2^31 that is not a multiple of 256), where there is memory for the message and for a node: the
  -- node with the message stands at the back of the outgoing queue, behind what was queued before, as
  -- wimp_server_send_instructions wants it, and no other message is touched.
  pub server_add-Queued :
      (s : Store) (items : List Item) (raw : Bytes) (p : ℕ)
      → IsQueue s server.outgoingmsg items
      → IsName server.process_name
      → IsName dest
      → IsName instr
      → length content < 2 ^ 31
      → (length content % 256 == 0) ≡ false
      → text_eq dest server.process_name ≡ false
      → malloc (length content) ≡ some raw
      → malloc_node (filled s) ≡ some p
      → Ends (server_add malloc malloc_node fresh_block server dest instr args s) (
          Queued s server items
            (node s p)
            (record { dest = dest; content = content })
            (fresh_block s))
  unfolding server_add
  server_add-Queued s items raw p is named dest_named instr_named small odd other got_block
        got_node =
      let bundled : bundle_instr malloc server.process_name dest instr args
          ≡ some (record { instr = some content; size = length content }) =
        bundle_instr-message malloc server.process_name dest instr args sized (omega (arith, small))
        ∙ rw got_block refl in
      let added =
        add-AddResult malloc_node (filled s) server.outgoingmsg items (some (fresh_block s))
          (length content) fresh (filled-IsQueue s items is) in
      rw (server_add, bundled)
        (Ends-bind
          (Queue.add malloc_node server.outgoingmsg (some (fresh_block s)) (length content)
            (filled s))
          _ _ _ (rw got_node at added)
          λ (result, q) t (ok, more). record {
            queue = more.queue;
            holds = record {
              name = instr;
              carried = record {
                block_at = fresh_block s;
                process = server.process_name;
                dest = dest;
                args = args;
                names = (named, dest_named, instr_named);
                small = small;
                odd = odd;
                there =
                    ap (λ (f : ℕ → Option Bytes). f (fresh_block s)) more.same.blocks
                    ∙ write_block_self s (fresh_block s) (some content);
                instr = refl;
              };
              dest = refl;
              content = refl;
              other = other;
            };
            only = refl;
            there =
                ap (λ (f : ℕ → Option Bytes). f (fresh_block s)) more.same.blocks
                ∙ write_block_self s (fresh_block s) (some content);
            blocks = λ c ne.
                ap (λ (f : ℕ → Option Bytes). f c) more.same.blocks
                ∙ write_block_ne s (fresh_block s) c (some content) ne;
            nodes = λ a ne empty.
                more.same.nodes a (rw ne (unused-not-has s items a is.linked empty))
                ∙ filled_nodes s a
                ∙ empty;
            mutexes = more.mutexes;
          })
