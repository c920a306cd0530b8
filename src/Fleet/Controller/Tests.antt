-- ===== src/Fleet/Controller/Tests.antt =====
-- Runs of the no-progress check (code_index/openclaw_hostd/leases.py) on both stores.
use Prim.Native.String.{String}
use memory_network.Prelude.{
  ℕ, ◌≡◌, refl, Option, none, some, List, [], ◌∷◌, map, if◌then◌else◌, str_eq,
}
use memory_network.Prelude.Exec.{Result, ok, err}
use memory_network.Prelude.Int.{pos}
use memory_network.Prelude.Lists.{All}
use memory_network.Prelude.Dict.{get, put}
use memory_network.Text.Ascii.{ascii, ascii_lower}
use memory_network.Fleet.Payload.{text, object, Fields, end, field}
use memory_network.Fleet.Model.{FleetLease, LeaseError}
use memory_network.Fleet.Memory
use memory_network.Fleet.Memory.{Memory}
use memory_network.Fleet.Sqlite
use memory_network.Fleet.Sqlite.{Database}
use memory_network.Fleet.Controller.{
  NoProgressRevocation, NoProgressCheckResult, revoke_no_progress_task_leases,
  run_no_progress_check,
}
use memory_network.Fleet.Controller.Progress.{OfOneOf, revoke_no_progress-OfOneOf}
use memory_network.Fleet.Controller.Stores.{memory_store, sqlite_store}
use memory_network.Fleet.Tests.{key, store_a, lease_a}

from_iso : String → Option ℕ
from_iso s = if str_eq s "0+00:00" then some 5 else none

-- what host-a reported of its task
abbrev report : Fields
report =
    field "payload"
      (object "{…}" (
        field "task_id" (text "t 1") (
          field "host_id" (text "host-a")
            (field "run_id" (text " run-1") (field "last_action_at" (text "0Z") end)))))
      end

abbrev memory : Memory
memory = record store_a { agent_states = ("host-a", report) ∷ [] }

abbrev database : Database
database = record {
  leases = (key, lease_a) ∷ [];
  tasks = [];
  agent_states = ("host-a", report) ∷ [];
}

abbrev revoked_tasks : Result LeaseError NoProgressCheckResult → List String
revoked_tasks (ok r) = map (λ x. x.task_id) r.revoked
revoked_tasks (err e) = []

-- what the runs unfold
program : Unit {0}
unfolding from_iso run_no_progress_check Memory.list_agent_states Memory.list_active_leases
    Memory.get_task_record Memory.revoke_lease Memory.mark_task_reassignable
    Sqlite.list_agent_states Sqlite.list_active_leases Sqlite.get_task_record Sqlite.revoke_lease
    Sqlite.mark_task_reassignable get put ascii_lower
program = tt

memory_check :
    revoked_tasks (run_no_progress_check from_iso memory_store 50 (pos 20) memory).0 ≡ "t 1" ∷ []
unfolding program
memory_check = refl

sqlite_check :
    revoked_tasks (run_no_progress_check from_iso sqlite_store 50 (pos 20) database).0 ≡ "t 1" ∷ []
unfolding program
sqlite_check = refl

too_early : revoked_tasks (run_no_progress_check from_iso memory_store 50 (pos 46) memory).0 ≡ []
unfolding program
too_early = refl

abbrev revocation : NoProgressRevocation
revocation = record {
  task_id = "t 1";
  host_id = "host-a";
  run_id = some "run-1";
  lease_id = "task-t-1-1";
  fencing_revision = 1;
  last_action_at = 5;
  threshold_seconds = 0;
}

revoke_no_progress-OfOneOf_example :
    (leases : List FleetLease) × (listed : Memory) × (memory_store.list_active_leases
        (some "task")
        50
        memory
      ≡ (ok leases, listed))
    × All (OfOneOf from_iso (report ∷ []) 50 (pos 20) memory_store leases) (revocation ∷ [])
unfolding program
revoke_no_progress-OfOneOf_example =
    revoke_no_progress-OfOneOf from_iso (report ∷ []) 50 (pos 20) memory_store memory
      (revoke_no_progress_task_leases from_iso memory_store (report ∷ []) 50 (pos 20) memory).1
      (revocation ∷ []) refl
