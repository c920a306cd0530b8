-- ===== src/Lib.antt =====
-- Fleet leases, path leases, writer lock, event outbox, process registry and blocked runs of
-- memory_network.
--
-- The program coordinates agents that run on several hosts. A host takes a lease on a host, a
-- repository or a task before it works on it (code_index/openclaw_hostd/leases.py); each grant of a
-- lease has a fencing revision, which the holder presents with every later call. Events for the
-- other hosts wait in an outbox until the NATS client has taken them
-- (code_index/openclaw_hostd/outbox.py). The processes of agent runs are registered, beat and are
-- finished in a table of their own (code_index/run_lifecycle.py). Runs that share a working tree
-- claim the files that they read or write, or lease them with a secret token, and a run may wait for
-- others (code_index/agent_activity.py, code_index/lease_manager.py). One writer at a time updates
-- the index (code_index/locking.py). The state of a component is a record, each method is a function
-- from that record to a result and the next record (Prelude.Exec), and an exception is an error value
-- beside the state at the moment of the raise.
--
-- Prelude, Text: shared names, dictionaries (Python's dict, and a table with a primary key), signed
-- numbers, methods that may raise, `str.strip` and `_optional_text`.
--
-- code_index/openclaw_hostd/leases.py:
--   Fleet.Model       FleetLease, FleetTaskRecord, the errors, `_required_text`, `_lease_scope`,
--                     `_require_lease_owner`, `_raise_if_owner_run_conflicts`, `_expires_at`, lease ids;
--                     Fleet.Expiry describes what `_expires_at` returns
--   Fleet.Payload     agent states, JSON objects of which a few entries are read
--   Fleet.Memory      InMemoryFleetLeaseStore, each method under its Python name
--   Fleet.Sqlite      SQLiteFleetLeaseStore, each method under its Python name; the table is a
--                     dictionary under its primary key, a transaction undoes its writes on a raise
--   Fleet.Calls       the calls of the FleetLeaseStore protocol as data; Fleet.Memory.Run and
--                     Fleet.Sqlite.Run perform a history of them
--   Fleet.Memory.*    Steps, Trace and Methods: each method as steps that expire or grant a lease, or
--                     count a revision; Invariant and Fencing: what every history keeps; Outcomes,
--                     Acquire and Owner: what each method returns
--   Fleet.Refinement  the two stores side by side; Counters: what the counters are then
--   Fleet.Controller  FleetLeaseController, `revoke_no_progress_task_leases` and
--                     `release_task_lease_on_terminal_status`, over any FleetLeaseStore
-- code_index/openclaw_hostd/outbox.py:
--   Outbox            EventOutbox, each method under its Python name; Events, Order, Drain, Enqueue
--                     and History hold its proofs
-- code_index/run_lifecycle.py:
--   Processes         the table agent_run_processes beside the runs, each function under its Python
--                     name; Rows, Status and Liveness hold the proofs. Metadata are a value of any type, and
--                     `uuid.uuid4().hex` is an argument of `register_process`
-- code_index/agent_activity.py and code_index/lease_manager.py:
--   Runs              the rows of agent_runs as far as the registry and the claims join them
--   Claims            the tables agent_file_claims and agent_file_claim_events and the tests of their
--                     queries; an update of rows and a select of rows with their runs
--   Claims.Metadata   JSON values and `redact_public_metadata`
--   Claims.Expiry     `record_claim_event`, `expire_stale_leases`, the claim as it is returned
--   Claims.Files      `claim_file`, `claim_files`; Claims.Upkeep: `verify_claim_fence`,
--                     `heartbeat_claim`, `release_claims`; Claims.Writes: `verify_write_claim`
--   Claims.Leases     `create_lease`, `renew_lease`, `release_lease`, `claim_events`
--   Claims.Exclusion  which rows are in force; Fences, Updates, Steps, Stale, Renewal, Growth,
--                     Claiming and Releases: each operation by itself; History: every order of them
--   Claims.Outcomes, Claims.Creation, Claims.Verified, Claims.Redaction, Claims.Stored and
--                     Claims.Table: what the operations return and keep
-- code_index/agent_activity.py, blocked runs:
--   Activity          agent_runs and agent_run_blockers beside the claims: `add_run_blockers`,
--                     `_sync_blocked_runs`, `end_run` (with `release_claims`) and `archive_run`;
--                     Blocking, Steps and History hold the proofs
-- code_index/locking.py:
--   Locking           `writer_lock` for one lock path, as the moves of the threads of all processes;
--                     Exclusion and Moves: each move keeps the counts; History: every order of them
--
-- Conventions. In the fleet leases an instant is a number of microseconds since `datetime.min`, and
-- `now` is the value that `_utc(now)` has; a time to live is a signed number of microseconds,
-- infinite or not a number. `_expires_at` raises for the last two and for an end after
-- `datetime.max`; by then `_next_revision` of the in-memory store has counted, which nothing
-- undoes, while SQLite rolls back. The rounding of `float` seconds is left out, and where SQL
-- compares the texts of two instants the model compares the instants. In the stored rows an instant
-- and a JSON payload stand for themselves: the round trips of `isoformat` and `json` through the
-- columns of the lease tables are not modelled. A fencing revision that a caller presents is a
-- natural number. A method of a lease store is one atomic step, as the store's lock makes it;
-- concurrent calls are the histories in which they can be ordered. `drain` of the outbox takes no
-- lock around its loop and is modelled as it runs by itself. The texts of LeaseConflictError,
-- LeaseFencingError and LeaseOwnerError are left out. Counters are unbounded, as Python's are;
-- SQLite's 64-bit limit is not modelled. Each function on the claims and the runs is one step, with
-- no other writer in between. The functions of lease_manager.py that write are transactions;
-- `claim_file` and the others of agent_activity.py open none, and are atomic only under the
-- `writer_lock` or the `BEGIN IMMEDIATE` of their callers.
-- For the claims an instant is a number of milliseconds, all clock readings of one call are the
-- same `now`, and a time to live is a signed number of milliseconds, where the range of `datetime`
-- is left out; a primary key is one more than the greatest one in the table; the texts of the
-- errors are left out, and of `verify_write_claim` the messages. Recursion is structural
-- everywhere, so no function takes fuel but the digits of a number (Text.decimal, one more step
-- than the number).
--
-- A call of `writer_lock` is made of three kinds of move (the `RLock` with the test of the count, a
-- round of the loop, the end of the `with`), each of them atomic; each `with` ends before the one
-- around it. A process may end at any time, and the system then takes the lock back.
--
-- Parameters. `str.lower` and `str.isalnum` are a `Unicode`, of which only this is assumed: a text of
-- small ASCII letters, `_` and `-` is its own lower case. `datetime.fromisoformat` is a function from
-- texts to instants. For the claims and the runs, SQLite's `LOWER`, `uuid.uuid5` and the hash of a
-- token are functions of texts (a `Platform`); only the history of blocked runs assumes something of
-- them: `LOWER` leaves a text of small ASCII letters as it is and agrees with `str.lower` on which
-- texts are the word `completed`. The token that `secrets` makes is an argument of `create_lease`.
-- Python's `json` is, for the outbox, a `JsonCodec`: an object that was written is read back with the
-- same entries. The NATS client of `drain` is any function with a state of its own that may raise,
-- and the store of the controller is any record of the methods it calls.
--
-- Of agent_runs only the columns that these functions test are modelled; updated_at and ended_at are
-- left out, and so is the key of agent_run_blockers, whose order is that of the list.
--
-- Not modelled: opening and closing of databases, PRAGMA lines; of agent_activity.py the start of
-- runs and events (which may set any status of a run; the histories of blocked runs have none of
-- them), decisions, suggestions and reports; the other packages of the repository.

pub mod Prelude
pub mod Text
pub mod Fleet
pub mod Outbox
pub mod Runs
pub mod Processes
pub mod Claims
pub mod Locking
pub mod Activity
