-- ===== src/Processes/Tests.antt =====
-- Runs of the process registry (code_index/run_lifecycle.py), and the theorems at these runs.
use Prim.Native.String.{String}
use memory_network.Prelude.{ℕ, ◌≡◌, ◌≢◌, refl, true, false, none, some, List, [], ◌∷◌}
use memory_network.Prelude.Exec.{ok}
use memory_network.Prelude.Int.{pos}
use memory_network.Text.Ascii.{ascii, ascii_lower}
use memory_network.Runs.{Run, run_of}
use memory_network.Processes.{
  ProcessStatus, Row, Registry, find_process, finish_process, process_liveness_by_run,
}
use memory_network.Prelude.{inl}
use memory_network.Processes.Liveness.{Speaks, process_liveness_by_run-Speaks}
use memory_network.Processes.Status.{
  Call, register, heartbeat, finish, Ended, perform_all, perform_all-Ended, finish_process-status,
}

abbrev run_1 : Run
run_1 = record {
  run_pk = 4;
  run_id = "run-1";
  agent_name = none;
  status = none;
  archived_at = none;
}

abbrev empty : Registry ℕ
empty = record { runs = run_1 ∷ []; processes = [] }

-- one process is over, and a second one of the run has begun
abbrev calls : List (Call ℕ)
calls =
    register "run-1" "pty" none (some (pos 77)) none 0 "p1" 10
    ∷ finish "p1" (some " failed ") (some (pos 1)) 20
    ∷ register "run-1" "pty" none none none 0 "p2" 30
    ∷ heartbeat "p1" 40
    ∷ []

abbrev row_1 : Row ℕ
row_1 = record {
  process_pk = 1;
  process_id = "p1";
  run_pk = 4;
  transport = "pty";
  provider = none;
  pid = none;
  command_label = none;
  status = ProcessStatus.failed;
  started_at = 10;
  heartbeat_at = some 20;
  ended_at = some 20;
  exit_code = none;
  metadata = 0;
}

abbrev one : Registry ℕ
one = record { runs = run_1 ∷ []; processes = row_1 ∷ [] }

-- what the runs unfold
program : Unit {0}
unfolding perform_all process_liveness_by_run ascii_lower find_process run_of finish_process
program = tt

alive_run : process_liveness_by_run (perform_all calls empty) ≡ ("run-1", true) ∷ []
unfolding program
alive_run = refl

dead_run : process_liveness_by_run one ≡ ("run-1", false) ∷ []
unfolding program
dead_run = refl

perform_all-Ended_example : Ended "p1" 4 (perform_all calls one)
unfolding program
perform_all-Ended_example = perform_all-Ended calls "p1" 4 one (row_1, refl, refl, refl)

finish_process-status_example :
    ((finish_process "p1" (some "completed") none 50 one).0
      ≡ ok (
        run_1,
        record row_1 {
          status = ProcessStatus.completed;
          ended_at = some 50;
          heartbeat_at = some 50;
          exit_code = none;
        },
      ))
    × ((q : String)
        → q ≢ "p1"
        → find_process q (finish_process "p1" (some "completed") none 50 one).1.processes
          ≡ find_process q (row_1 ∷ []))
unfolding program
finish_process-status_example =
    finish_process-status "p1" (some "completed") ProcessStatus.completed none 50 one row_1 run_1
      refl refl refl

process_liveness_by_run-Speaks_example : Speaks one.runs one.processes "run-1" false
unfolding program
process_liveness_by_run-Speaks_example = process_liveness_by_run-Speaks one "run-1" false (inl refl)
