-- ===== src/Process.antt =====
-- The starting of processes (wimp/src/wimp_process.c, in its version for unix). What the operating
-- system and plibsys answer is given. `none` of `Option (...)` as a result is a bad access or an
-- assertion that fails.
pub mod Directory
pub mod Arguments
pub mod Entered
pub mod Entry
pub mod Freed
pub mod Launch
pub mod Leftover
use wimp.Prelude.{
  ℕ, ◌+◌, ◌-◌, Option, none, some, Bool, true, false, ◌==◌, if◌then◌else◌, ◌>>=◌, List, [], ◌∷◌,
  replicate,
}
use wimp.Prelude.Bytes.{Bytes, c_string, memcpy}
use wimp.Log.Numerals.{print_dec}

abbrev pub max_directory_path_len : ℕ
max_directory_path_len = 1024

abbrev pub max_port_string_len : ℕ
max_port_string_len = 6

-- WIMP_PROCESS_SUCCESS and its kin
pub data ProcessResult : Type 0 where
  success fail invalid_path unresolved_exe_dir : ProcessResult

-- The count of users, and whether plibsys is initialised.
pub record Library : Type 0 where
  pub init_ref_counter : ℕ
  pub started : Bool

unfoldable pub wimp_init : Library → Library
wimp_init lib = record {
  init_ref_counter = lib.init_ref_counter + 1;
  started = if lib.init_ref_counter == 0 then true else lib.started;
}

-- The assertion on the counter fails where it falls below zero.
unfoldable pub wimp_shutdown : Library → Option Library
wimp_shutdown lib =
    if lib.init_ref_counter == 0
    then none
    else some (record {
      init_ref_counter = lib.init_ref_counter - 1;
      started = if lib.init_ref_counter - 1 == 0 then false else lib.started;
    })

-- wimp_port_to_string: the buffer that the caller gives is zeroed, and sprintf writes into it.
unfoldable pub port_to_string : ℕ → Option Bytes
port_to_string port = memcpy (replicate max_port_string_len 0) 0 (c_string (print_dec port))

-- What the calls of plibsys in wimp_assign_unused_local_port return: an address, a socket, whether the
-- socket is bound, and the port of the address that it is bound to.
pub record Answers : Type 0 where
  pub address_new : Option ℕ
  pub socket_new : Option ℕ
  pub socket_bind : Bool
  pub bound_address : Option ℕ
  pub port : ℕ

pub data Release : Type 0 where
  address_free : Option ℕ → Release
  socket_free : ℕ → Release
  socket_close : ℕ → Release

-- The port, or a failure; and what is given back, in order. The address of the socket is used without a
-- look at it.
unfoldable pub assign_unused_local_port : Answers → Option (Option ℕ × List Release)
assign_unused_local_port answers = elim answers.address_new [
  | none ↦ some (none, address_free none ∷ [])
  | some address ↦ elim answers.socket_new [
    | none ↦ some (none, address_free (some address) ∷ [])
    | some socket ↦ elim answers.socket_bind [
      | false ↦ some (none, address_free (some address) ∷ socket_free socket ∷ [])
      | true ↦ elim answers.bound_address [
        | none ↦ none
        | some bound ↦ some (
          some answers.port,
          address_free (some address) ∷ address_free (some bound) ∷ socket_close socket ∷ [],
        )
      ]
    ]
  ]
]

-- wimp_start_library_process, where p_uthread_create_full gives a thread or not.
unfoldable pub start_library_process : Option ℕ → ProcessResult
start_library_process none = fail
start_library_process (some thread) = success
