-- ===== src/Processes.antt =====
-- The registry of agent processes (code_index/run_lifecycle.py): the table `agent_run_processes`
-- beside the runs of `agent_runs`. Each function runs with no other writer in between; `now` is the
-- instant of `_now_iso()`.
pub mod Rows
pub mod Status
pub mod Liveness
mod Tests
use Prim.Native.String.{String, ◌++◌}
use memory_network.Prelude.{
  ℕ, ◌+◌, Char, code, Bool, true, false, ◌&&◌, ◌||◌, Option, none, some, List, [], ◌∷◌, map, not,
  nat_beq, ltb, if◌then◌else◌, or_else, value_or, str_eq, is_some,
}
use memory_network.Prelude.Lists.{add_last}
use memory_network.Prelude.Exec.{Result, ok, err, Exec, ◌>>=◌, ◌>>◌, pure, lift, modify}
use memory_network.Prelude.Int.{ℤ}
use memory_network.Runs.{Run, get_run, run_of}
use memory_network.Text.{Unicode, stripped}

-- `ValueError` for an unknown run, a status that is not terminal and an unknown process, SQLite's
-- `IntegrityError` for a second row with one `process_id`, and the `AssertionError`.
pub data ProcessError : Type 0 where
  unknown_run unknown_process not_terminal duplicate_process missing_process : ProcessError

-- `PROCESS_STATUSES`, and any other text that stands in the column
pub data ProcessStatus : Type 0 where
  started completed failed cancelled orphaned : ProcessStatus
  other : String → ProcessStatus

-- `status in TERMINAL_PROCESS_STATUSES`
abbrev pub is_terminal : ProcessStatus → Bool
is_terminal started = false
is_terminal (other text) = false
is_terminal _ = true

-- `status in ACTIVE_PROCESS_STATUSES`
abbrev pub is_started : ProcessStatus → Bool
is_started started = true
is_started _ = false

-- a row of `agent_run_processes`, with metadata of the type `D`
pub record Row (D : Type 0) : Type 0 where
  pub process_pk : ℕ
  pub process_id : String
  pub run_pk : ℕ
  pub transport : String
  pub provider : Option String
  pub pid : Option ℤ
  pub command_label : Option String
  pub status : ProcessStatus
  pub started_at : ℕ
  pub heartbeat_at : Option ℕ
  pub ended_at : Option ℕ
  pub exit_code : Option ℤ
  pub metadata : D

pub record Registry (D : Type 0) : Type 0 where
  pub runs : List Run
  pub processes : List (Row D)

-- the status that a normalized text names, if it is one of `TERMINAL_PROCESS_STATUSES`
unfoldable pub terminal_status : String → Option ProcessStatus
terminal_status s =
    if str_eq s "completed"
    then some completed
    else if str_eq s "failed"
    then some failed
    else if str_eq s "cancelled"
    then some cancelled
    else if str_eq s "orphaned"
    then some orphaned
    else none

-- `s.replace("-", "_")`
unfoldable pub underscores : String → String
underscores String.[] = String.[]
underscores (String.◌∷◌ c s) =
    (if nat_beq (code c) b'-' then "_" else String.◌∷◌ c String.[]) ++ underscores s

abbrev pub Action : Type 0 → Type 0 → Type 0
Action D = Exec ProcessError (Registry D)

module _ {D : Type 0} where
  unfoldable pub find_process : String → List (Row D) → Option (Row D)
  find_process process_id [] = none
  find_process process_id (row ∷ rows) =
      if str_eq row.process_id process_id then some row else find_process process_id rows

  -- `_get_process`: the row under the id, joined with its run
  unfoldable pub get_process : String → Registry D → Option (Run × Row D)
  unfolding find_process run_of
  get_process process_id registry = elim (find_process process_id registry.processes) [
    | none ↦ none
    | some row ↦ elim (run_of row.run_pk registry.runs) [ none ↦ none | some run ↦ some (run, row) ]
  ]

  -- the key that SQLite gives to a new row of an INTEGER PRIMARY KEY
  unfoldable pub next_pk : List (Row D) → ℕ
  next_pk [] = 1
  next_pk (row ∷ rows) =
      let rest = next_pk rows in if ltb row.process_pk rest then rest else row.process_pk + 1

  -- `process_id` is what `uuid.uuid4().hex` returns
  unfoldable pub register_process :
      String
      → String
      → Option String
      → Option ℤ
      → Option String
      → D
      → String
      → ℕ
      → Action D (Run × Row D)
  unfolding get_run find_process next_pk get_process
  register_process run_id transport provider pid command_label metadata process_id now registry =
      elim (get_run run_id registry.runs) [
        | none ↦ (err unknown_run, registry)
        | some run ↦
            if is_some (find_process process_id registry.processes)
            then (err duplicate_process, registry)
            else (let row : Row D = record {
              process_pk = next_pk registry.processes;
              process_id = process_id;
              run_pk = run.run_pk;
              transport = transport;
              provider = provider;
              pid = pid;
              command_label = command_label;
              status = started;
              started_at = now;
              heartbeat_at = some now;
              ended_at = none;
              exit_code = none;
              metadata = metadata;
            } in
                let registry' = record registry { processes = add_last row registry.processes } in
                (
                  elim (get_process process_id registry') [
                    | none ↦ err missing_process
                    | some process ↦ ok process
                  ],
                  registry',
                ))
      ]

  -- `SET heartbeat_at = ? WHERE process_id = ? AND status = 'started'`, on one row
  unfoldable pub beat_row : String → ℕ → Row D → Row D
  beat_row process_id now row =
      if str_eq row.process_id process_id && is_started row.status
      then record row { heartbeat_at = some now }
      else row

  unfoldable pub heartbeat_process : String → ℕ → Action D (Option (Run × Row D))
  unfolding beat_row get_process
  heartbeat_process process_id now registry =
      let registry' : Registry D = record registry {
        processes = map (beat_row process_id now) registry.processes;
      } in
      (ok (get_process process_id registry'), registry')

  -- `SET status = ?, ended_at = ?, heartbeat_at = ?, exit_code = ? WHERE process_id = ?`, on one row
  unfoldable pub finish_row : String → ProcessStatus → Option ℤ → ℕ → Row D → Row D
  finish_row process_id status exit_code now row =
      if str_eq row.process_id process_id
      then record row {
        status = status;
        ended_at = some now;
        heartbeat_at = some now;
        exit_code = exit_code;
      }
      else row

  unfoldable pub finish_process :
      ⦃u : Unicode⦄ → String → Option String → Option ℤ → ℕ → Action D (Run × Row D)
  unfolding terminal_status underscores stripped finish_row get_process
  finish_process ⦃u⦄ process_id status exit_code now registry =
      elim (terminal_status (underscores (u.lower (stripped status)))) [
        | none ↦ (err not_terminal, registry)
        | some normalized ↦
            let registry' : Registry D = record registry {
              processes = map (finish_row process_id normalized exit_code now) registry.processes;
            } in
            (
              elim (get_process process_id registry') [
                | none ↦ err unknown_process
                | some process ↦ ok process
              ],
              registry',
            )
      ]

  -- `COALESCE(p.heartbeat_at, p.ended_at, p.started_at)`
  unfoldable pub last_seen : Row D → ℕ
  last_seen row = value_or row.started_at (or_else row.heartbeat_at row.ended_at)

  -- row `a` comes before row `b` in the window's order
  unfoldable pub is_newer : Row D → Row D → Bool
  unfolding last_seen
  is_newer a b =
      ltb (last_seen b) (last_seen a)
      || (nat_beq (last_seen a) (last_seen b) && ltb b.process_pk a.process_pk)

  -- the row with `rn = 1` of a run's partition
  unfoldable pub newest : ℕ → List (Row D) → Option (Row D)
  unfolding is_newer
  newest run_pk [] = none
  newest run_pk (row ∷ rows) =
      let rest = newest run_pk rows in
      if nat_beq row.run_pk run_pk
      then some (elim rest [ none ↦ row | some best ↦ if is_newer best row then best else row ])
      else rest

  -- `process_liveness_by_run`: the runs with a process of a known status, each with whether it is
  -- alive
  unfoldable pub liveness_of : List Run → List (Row D) → List (String × Bool)
  unfolding newest
  liveness_of [] rows = []
  liveness_of (run ∷ runs) rows =
      let rest = liveness_of runs rows in
      elim (newest run.run_pk rows) [
        | none ↦ rest
        | some row ↦
            if is_started row.status
            then (run.run_id, true) ∷ rest
            else if is_terminal row.status
            then (run.run_id, false) ∷ rest
            else rest
      ]

  unfoldable pub process_liveness_by_run : Registry D → List (String × Bool)
  unfolding liveness_of
  process_liveness_by_run registry = liveness_of registry.runs registry.processes
