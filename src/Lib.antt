-- ===== src/Lib.antt =====
-- wimp: message passing between processes (C). Each process runs a server with an outgoing and an
-- incoming instruction queue; for each peer a reciever thread puts instructions together from the
-- bytes of a socket and queues them; a process table leads from names to connections.
--
-- Which file models what:
-- Wire: the byte format of an instruction. wimp_server_bundle_instr (wimp/src/wimp_server.c) is
-- `bundle_instr`, wimp_instr_get_from_buffer (wimp/src/wimp_instruction.c) is `get_from_buffer`.
-- Wire/Bundle has the message that is written, Wire/Fields and Wire/RoundTrip read it back.
-- Memory: the heap of queue nodes and message blocks, with faults as values, and the record of the
-- calls to mutexes. Memory/Frame says what a write leaves alone.
-- Queue: the linked instruction queues of wimp/src/wimp_instruction.c; each function
-- wimp_instr_queue_x is `x`, wimp_instr_queue_free is `queue_free`.
-- HashString: the hash table of wimp/src/utility/HashString.c. A pointer to an entry is the rest
-- of its chain.
-- ProcessTable: wimp/src/wimp_process_table.c over that hash table.
-- Reciever: the loop of wimp/src/wimp_reciever.c. p_socket_receive is the list of its results.
-- Server: wimp/src/wimp_server.c over those: `server_add`, `send_instructions` down to the chunks
-- that go out through the sockets, routing and pings. Server/Wait is wimp_server_wait_response,
-- Server/Close is wimp_server_free and the local server of a thread. Server/Mail tells what goes out
-- on a connection from the instructions and the process table alone; Server/Drain is the loop over
-- the whole queue against it, Server/Loopback that over instructions for the own process. A wait goes
-- through passes: Server/Quiet has those that find nothing, Server/Ended the last one, Server/Rejoined
-- what follows it, Server/Waiting all of them.
-- Transport: from the outgoing queue of one process to the incoming queue of another, over a network
-- that cuts the bytes into any packets. Server and Reciever meet here.
-- Queue/Locks: the lock functions of wimp/src/wimp_instruction.c as steps of threads in any order.
-- Log: the formatter of wimp/src/wimp_log.c and the line that a child process sends to its parent.
-- Log/Numerals has what printf writes for a number, Log/Render what a format means.
-- Process: wimp/src/wimp_process.c in its version for unix. Process/Entry has the arguments of a
-- process with their blocks, Process/Directory and Process/Launch the command line.
-- Handshake: how a connection is made, wimp_create_handshake and wimp_reciever_init on the one side,
-- wimp_create_server and wimp_server_process_accept on the other.
-- Server/Counts: wimp_instr_get_instruction_count.
-- StrPack: the string packs of wimp/src/wimp_instruction.c.
-- Arena: wimp/src/utility/simple_arena.c.
-- SharedData: the slots of wimp/src/wimp_data.c, each with an arena. SharedData/Life makes the table,
-- links a process to it and gives it back.
-- Tests: the theorems at work on small inputs.
-- Prelude: lists over native numbers, Boolean tests, C strings, `memcpy` and 32-bit words.
--
-- Conventions: a pointer is `Option ℕ` with NULL as `none`, a machine word is its bit pattern, with
-- the wrap-around written out, memory that is allocated or not is an argument, and an access that
-- C leaves undefined ends the run. Loops that the source does not bound run on rounds; the theorems
-- say how many are enough.
--
-- Not modelled: the version of wimp/src/wimp_process.c for Windows, the colours of log lines and the
-- console, the SDS library (its strings are lists of bytes), plibsys (sockets, threads, mutexes and
-- shared memory; what its calls return is an argument), the tests and examples, and the Murmur2
-- variant of the hash, which is not compiled.
pub mod Prelude
pub mod Wire
pub mod Memory
pub mod Queue
pub mod HashString
pub mod ProcessTable
pub mod Reciever
pub mod Arena
pub mod StrPack
pub mod Server
pub mod Handshake
pub mod Log
pub mod Process
pub mod SharedData
pub mod Tests
pub mod Transport
