-- ===== src/Tests/Sending.antt =====
-- The instruction of Message, for a process that is not in the table: it goes to the parent.
use wimp.Prelude.{some, true, ◌==◌, if◌then◌else◌}
use wimp.ProcessTable.{ProcessData, parent}
use wimp.Server.{Server}
use wimp.Tests.Processes.{processes, localhost}
use wimp.Tests.Serving.{master}

abbrev pub active_parent : ProcessData
active_parent = record {
  process_domain = some localhost;
  process_connection = some 9;
  process_port = 8001;
  process_active = true;
  process_relation = parent;
}

abbrev pub connected_master : Server
connected_master = record master {
  ptable = record processes { heap = λ a. if a == 2 then some active_parent else processes.heap a };
}
