-- ===== src/Fleet/Tests.antt =====
-- Runs of the fleet lease stores (code_index/openclaw_hostd/leases.py), and the theorems at
-- concrete inputs.
use Prim.Native.String.{String}
use memory_network.Prelude.{
  ℕ, ◌≡◌, refl, ◌+◌, inl, Option, none, some, List, [], ◌∷◌, arith, eq_iff,
}
use memory_network.Prelude.Int.{pos}
use memory_network.Prelude.Dict.{get, put}
use memory_network.Prelude.Exec.{Result, ok, err}
use memory_network.Text.Ascii.{ascii, ascii_lower, ascii_alnum}
use memory_network.Fleet.Model.{
  LeaseError, conflict_error, Scope, Key, key_eq, FleetLease, Status, span,
}
use memory_network.Fleet.Calls.{Call, Reply}
use memory_network.Fleet.Memory
use memory_network.Fleet.Memory.{Memory}
use memory_network.Fleet.Memory.Run as MemoryRun
use memory_network.Fleet.Memory.Steps.{live, live_of, revision}
use memory_network.Fleet.Memory.Invariant.{IsValid}
use memory_network.Fleet.Memory.Outcomes.{Holds, Owns, next_lease, Renewed, Released}
use memory_network.Fleet.Memory.Fencing.{
  after, Raises, history-IsValid, lease_kept, fence_used_once,
}
use memory_network.Fleet.Memory.Acquire.{acquire_conflict}
use memory_network.Fleet.Memory.Owner.{
  renew_lease-Renewed, release_lease-Released, renew_succeeds, release_succeeds,
}
use memory_network.Fleet.Refinement.Counters.{Counted, history-Counted}
use memory_network.Fleet.Refinement.History.{InOrder, stores_agree}
use memory_network.Fleet.Sqlite
use memory_network.Fleet.Sqlite.Run as SqliteRun

-- host-a takes a task, host-b is refused, host-a renews; a second renewal with the first fence is
-- refused, and after the expiry host-b gets the lease under the third revision.
abbrev script : List Call
script =
    Call.acquire (some " TASK") (some "t 1 ") (some "host-a") (some "run-1") (some (span (pos 100)))
      10
    ∷ Call.acquire (some "task") (some "t 1") (some "host-b") none (some (span (pos 100))) 20
    ∷ Call.renew (some "task") (some "t 1") (some "host-a") (some "run-1") 1 (some (span (pos 100)))
        30
    ∷ Call.renew (some "task") (some "t 1") (some "host-a") (some "run-1") 1 (some (span (pos 100)))
        40
    ∷ Call.acquire (some "task") (some "t 1") (some "host-b") (some "run-2") none 500
    ∷ []

abbrev fence_of : Result LeaseError Reply → Option ℕ
fence_of (ok (Reply.lease l)) = some l.fencing_revision
fence_of _ = none

abbrev fences : List (Result LeaseError Reply) → List (Option ℕ)
fences [] = []
fences (r ∷ rs) = fence_of r ∷ fences rs

program : Unit {0}
unfolding MemoryRun.perform_all SqliteRun.perform_all ascii_lower ascii_alnum get put live_of
program = tt

memory_run :
    fences (MemoryRun.perform_all script Memory.init).0
    ≡ some 1 ∷ none ∷ some 2 ∷ none ∷ some 3 ∷ []
unfolding program
memory_run = refl

sqlite_run :
    fences (SqliteRun.perform_all script Sqlite.init).0
    ≡ some 1 ∷ none ∷ some 2 ∷ none ∷ some 3 ∷ []
unfolding program
sqlite_run = refl

-- An acquisition for 10 ** 12 seconds raises `OverflowError` in both stores; the next one gets the
-- second revision from the in-memory store, which has counted one, and the first from SQLite.
abbrev too_long : List Call
too_long =
    Call.acquire (some "repo") (some "r") (some "host-a") none
      (some (span (pos 1000000000000000000))) 10
    ∷ Call.acquire (some "repo") (some "r") (some "host-a") none none 20
    ∷ []

memory_overflow : fences (MemoryRun.perform_all too_long Memory.init).0 ≡ none ∷ some 2 ∷ []
unfolding program
memory_overflow = refl

sqlite_overflow : fences (SqliteRun.perform_all too_long Sqlite.init).0 ≡ none ∷ some 1 ∷ []
unfolding program
sqlite_overflow = refl

abbrev pub key : Key
key = (Scope.task, "t 1")

abbrev pub lease_a : FleetLease
lease_a = record {
  lease_id = "task-t-1-1";
  scope = Scope.task;
  resource_id = "t 1";
  owner_host_id = "host-a";
  owner_run_id = some "run-1";
  fencing_revision = 1;
  status = Status.active;
  acquired_at = 10;
  updated_at = 10;
  expires_at = some 110;
}

abbrev pub store_a : Memory
store_a = record {
  leases = (key, lease_a) ∷ [];
  revisions = (key, 1) ∷ [];
  tasks = [];
  agent_states = [];
}

store_a-IsValid : IsValid store_a
unfolding get
store_a-IsValid = record { counted = λ k l h. ground arith }

abbrev Text : Type 0
Text = Option String

abbrev task_scope : Text
task_scope = some "task"

abbrev resource : Text
resource = some "t 1"

abbrev host_a : Text
host_a = some "host-a"

abbrev host_b : Text
host_b = some "host-b"

abbrev release_a : Call
release_a = Call.release task_scope resource host_a none 1 30

abbrev renew_a : Call
renew_a = Call.renew task_scope resource host_a none 1 none 60

abbrev acquire_b : Call
acquire_b = Call.acquire task_scope resource host_b none none 20

holds : Holds task_scope resource 1 30 store_a key lease_a
unfolding program
holds = record { parsed = refl; was_live = refl; fence = refl }

owns : Owns host_a none lease_a
unfolding program
owns = (refl, inl refl)

abbrev released_a : FleetLease
released_a = next_lease 2 lease_a 30 none Status.released

abbrev renewed_a : FleetLease
renewed_a = next_lease 2 lease_a 30 none Status.active

script-InOrder : InOrder 0 script
script-InOrder = (
  omega arith,
  tt,
  (some 110, (refl, omega arith)),
  (
    omega arith,
    tt,
    (some 120, (refl, omega arith)),
    (
      omega arith,
      tt,
      (some 130, (refl, omega arith)),
      (omega arith, tt, (some 140, (refl, omega arith)), (omega arith, tt, (none, refl), tt)),
    ),
  ),
)

stores_agree_example :
    (MemoryRun.perform_all script Memory.init).0 ≡ (SqliteRun.perform_all script Sqlite.init).0
stores_agree_example = stores_agree script script-InOrder

history-Counted_example :
    Counted
      (get key (after script Memory.init).leases)
      (get key (after script Memory.init).revisions)
history-Counted_example = history-Counted script key script-InOrder

fence_used_once_example :
    Raises
      (MemoryRun.perform renew_a (after (acquire_b ∷ []) (MemoryRun.perform release_a store_a).1))
unfolding program
fence_used_once_example =
    fence_used_once release_a store_a (MemoryRun.perform release_a store_a).1
      (Reply.lease released_a) (acquire_b ∷ []) renew_a store_a-IsValid tt refl refl

lease_kept_example : live key 50 (after (acquire_b ∷ []) store_a) ≡ some lease_a
unfolding program
lease_kept_example =
    lease_kept 50 key lease_a (acquire_b ∷ []) store_a ((omega arith, ground arith), tt) refl

history-IsValid_example : IsValid (after script Memory.init)
history-IsValid_example = history-IsValid script

acquire_conflict_example :
    (Memory.acquire_lease task_scope resource host_b none none 20 store_a).0 ≡ err conflict_error
unfolding program
acquire_conflict_example =
    acquire_conflict task_scope resource host_b none none 20 store_a key "host-b" lease_a refl refl
      refl (ground (arith, eq_iff "host-a" "host-b"))

renew_lease-Renewed_example :
    Renewed task_scope resource host_a none 1 none 30 store_a renewed_a
      (Memory.renew_lease task_scope resource host_a none 1 none 30 store_a).1
unfolding program
renew_lease-Renewed_example =
    renew_lease-Renewed task_scope resource host_a none 1 none 30 store_a
      (Memory.renew_lease task_scope resource host_a none 1 none 30 store_a).1 renewed_a refl

release_lease-Released_example :
    Released task_scope resource host_a none 1 30 store_a released_a
      (Memory.release_lease task_scope resource host_a none 1 30 store_a).1
unfolding program
release_lease-Released_example =
    release_lease-Released task_scope resource host_a none 1 30 store_a
      (Memory.release_lease task_scope resource host_a none 1 30 store_a).1 released_a refl

renew_succeeds_example :
    (Memory.renew_lease task_scope resource host_a none 1 (some (span (pos 100))) 30 store_a).0
    ≡ ok (next_lease (revision key store_a + 1) lease_a 30 (some 130) Status.active)
unfolding program
renew_succeeds_example =
    renew_succeeds task_scope resource host_a none 1 30 store_a key lease_a holds owns
      (some (span (pos 100))) (some 130) (refl, omega arith)

release_succeeds_example :
    (Memory.release_lease task_scope resource host_a none 1 30 store_a).0
    ≡ ok (next_lease (revision key store_a + 1) lease_a 30 none Status.released)
release_succeeds_example =
    release_succeeds task_scope resource host_a none 1 30 store_a key lease_a holds owns
