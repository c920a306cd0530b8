-- ===== src/Runs.antt =====
-- The table `agent_runs` as the registry of processes and the file claims join it
-- (code_index/agent_activity.py).
use Prim.Native.String.{String}
use memory_network.Prelude.{
  ℕ, Bool, not, ◌&&◌, Option, none, some, List, [], ◌∷◌, nat_beq, if◌then◌else◌, str_eq, value_or,
  is_some,
}
use memory_network.Prelude.Equality.{string_eq}
use memory_network.Prelude.Lists.{contains}

pub record Run : Type 0 where
  pub run_pk : ℕ
  pub run_id : String
  pub agent_name : Option String
  pub status : Option String
  pub archived_at : Option ℕ

-- the row under `run_id`
unfoldable pub get_run : String → List Run → Option Run
get_run run_id [] = none
get_run run_id (run ∷ runs) = if str_eq run.run_id run_id then some run else get_run run_id runs

-- the row under `run_pk`
unfoldable pub run_of : ℕ → List Run → Option Run
run_of run_pk [] = none
run_of run_pk (run ∷ runs) = if nat_beq run.run_pk run_pk then some run else run_of run_pk runs

-- `STOPPED_STATUSES`
abbrev pub stopped_statuses : List String
stopped_statuses =
    "completed" ∷ "failed" ∷ "cancelled" ∷ "canceled" ∷ "review" ∷ "needs_review" ∷ "needs-review"
    ∷ []

-- `archived_at IS NULL AND LOWER(COALESCE(status, 'working')) NOT IN (…)`, `lower` being SQLite's
unfoldable pub is_going : (String → String) → Run → Bool
is_going lower run =
    not (is_some run.archived_at)
    && not (contains (lower (value_or "working" run.status)) stopped_statuses)
