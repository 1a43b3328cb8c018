-- ===== src/Tests/Processes.antt =====
-- A table of two processes.
use mathlib.Core.List.{flatten}
use wimp.Prelude.{
  ℕ, ◌≡◌, ◌⊎◌, ◌∙◌, sym, ◌↔◌, refl, arith, none, some, [], ◌∷◌, true, ◌==◌, if◌then◌else◌, is_some,
  Bool-cases, inl, inr,
}
use wimp.Prelude.Bytes.{Bytes, text_eq, text_eq_iff}
use wimp.HashString
use wimp.HashString.{Entry, HashString, hash, find_chain, bucket}
use wimp.HashString.Chains.{Overruns}
use wimp.ProcessTable.{
  child, parent, State, success, fail, process_table_add, process_table_remove, process_data_free,
  remove_ends, write,
}
use wimp.ProcessTable.Laws.{lookup, IsValid, Added, new_process, process_table_add-Added}
use wimp.ProcessTable.Remove.{Removed, process_table_remove-none, process_table_remove-Removed}
use wimp.Tests.Hash.{client, server, one_chain, one_chain-IsValid}

abbrev pub localhost : Bytes
localhost = 0x31 ∷ 0x32 ∷ 0x37 ∷ []

abbrev newcomer : Bytes
newcomer = 0x6e ∷ []

abbrev pub processes : State
processes = record {
  table = record { hash_table = one_chain; table_length = 2 };
  heap = λ a.
      if a == 1
      then some (new_process (some localhost) 8000 child none)
      else (if a == 2 then some (new_process (some localhost) 8001 parent none) else none);
}

-- The same without the first.
abbrev remove_client : State
remove_client = record {
  table = record {
    hash_table = record { size = 1; table = (record { key = server; value = 2 } ∷ []) ∷ [] };
    table_length = 1;
  };
  heap = λ a. if 1 == a then none else processes.heap a;
}

home_zero : (j : Bytes) → hash 1 j ≡ 0
unfolding hash
home_zero j = omega arith

-- What stands in the table.
pub find_processes :
    (j : Bytes) (e : Entry ℕ)
    → HashString.find one_chain j ≡ some e
    → ((client ≡ j) × (e.value ≡ 1)) ⊎ ((server ≡ j) × (e.value ≡ 2))
unfolding HashString.find find_chain
find_processes j e at = elim (Bool-cases (text_eq client j)) [
  | inl c ↦ inl ((text_eq_iff client j).0 c, cc (rw (home_zero j, c) at at))
  | inr c ↦ elim (Bool-cases (text_eq server j)) [
    | inl s ↦ inr ((text_eq_iff server j).0 s, cc (rw (home_zero j, c, s) at at))
    | inr s ↦ cc (rw (home_zero j, c, s) at at)
  ]
]

pub processes-IsValid : IsValid processes
unfolding flatten
processes-IsValid = record {
  hashed = one_chain-IsValid;
  live = λ j e at. elim (find_processes j e at) [
    | inl (named, value) ↦ rw value refl
    | inr (named, value) ↦ rw value refl
  ];
  apart = λ j k e f at there same. elim (find_processes j e at) [
    | inl (named, value) ↦ elim (find_processes k f there) [
      | inl (named', value') ↦ sym named ∙ named'
      | inr (named', value') ↦ absurd (omega arith)
    ]
    | inr (named, value) ↦ elim (find_processes k f there) [
      | inl (named', value') ↦ absurd (omega arith)
      | inr (named', value') ↦ sym named ∙ named'
    ]
  ];
  counted = refl;
}

process_table_add-Added_example :
    (st' : State) × (process_table_add
        (record { process_data = some 3; domain = true; entry = true; key = true })
        (some processes)
        newcomer
        localhost
        8002
        child
        none
      ≡ (success, some st'))
    × Added processes newcomer (new_process (some localhost) 8002 child none) true st'
unfolding HashString.find find_chain hash text_eq
process_table_add-Added_example =
    process_table_add-Added
      (record { process_data = some 3; domain = true; entry = true; key = true }) processes newcomer
      localhost 8002 child none processes-IsValid
      (λ p e. (let third : p ≡ 3 = cc e in rw third refl))

process_table_remove-none_example :
    (process_table_remove (some processes) server ≡ none)
    ↔ ((is_some (lookup processes server) ≡ true) × Overruns server (bucket one_chain server))
process_table_remove-none_example = process_table_remove-none processes server processes-IsValid

process_table_remove-Removed_example :
    (success ≡ (if is_some (lookup processes client) then success else fail))
    × ((st' : State) × (some (remove_client) ≡ some st') × Removed processes client st')
unfolding HashString.find find_chain HashString.remove hash text_eq process_table_remove
    process_data_free remove_ends write
process_table_remove-Removed_example =
    process_table_remove-Removed processes client processes-IsValid success (some remove_client)
      refl
