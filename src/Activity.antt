-- ===== src/Activity.antt =====
-- Runs that wait for other runs: the tables `agent_runs` and `agent_run_blockers` beside the claims
-- (code_index/agent_activity.py). A row of `agent_runs` is what Runs has of it.
pub mod Blocking
pub mod Steps
pub mod History
mod Tests
use Prim.Native.String.{String}
use memory_network.Prelude.{
  ℕ, Bool, true, false, not, ◌&&◌, ◌||◌, Option, none, some, List, [], ◌∷◌, map, nat_beq, ltb,
  if◌then◌else◌, str_eq, value_or, is_some,
}
use memory_network.Prelude.Equality.{string_eq}
use memory_network.Prelude.Exec.{
  Result, ok, err, Exec, ◌>>=◌, ◌>>◌, pure, raise, lift, or_error, modify, gets,
}
use memory_network.Prelude.Lists.{add_last, contains, filter}
use memory_network.Prelude.Sort.{sort}
use memory_network.Text.{Unicode, is_empty, is_space, strip}
use memory_network.Runs.{Run, get_run, run_of, stopped_statuses}
use memory_network.Claims.{Claims, ClaimError, Platform, Action}
use memory_network.Claims.Metadata.{Json}
use memory_network.Claims.Expiry.{text_or}
use memory_network.Claims.Upkeep.{release_claims}

pub data LinkStatus : Type 0 where
  active resolved : LinkStatus

-- a row of `agent_run_blockers`: the run waits for the blocker
pub record Link : Type 0 where
  pub run_pk : ℕ
  pub blocker_run_pk : ℕ
  pub status : LinkStatus
  pub reason : String
  pub created_at : ℕ
  pub resolved_at : Option ℕ
  pub metadata : Json

pub record Activity : Type 0 where
  pub claims : Claims
  pub links : List Link

pub data ActivityError : Type 0 where
  unknown_run terminal_run blocks_itself unknown_blocker : ActivityError
  in_claims : ClaimError → ActivityError

abbrev pub Step : Type 0 → Type 0
Step = Exec ActivityError Activity

-- an action on the claims alone
abbrev pub on_claims_result :
    {A : Type 0} → Activity → Result ClaimError A × Claims → Result ActivityError A × Activity
on_claims_result db (ok a, claims) = (ok a, record db { claims = claims })
on_claims_result db (err e, claims) = (err (in_claims e), record db { claims = claims })

abbrev pub on_claims : {A : Type 0} → Action A → Step A
on_claims m db = on_claims_result db (m db.claims)

-- `TERMINAL_STATUSES`
abbrev pub terminal_statuses : List String
terminal_statuses = "completed" ∷ "failed" ∷ "cancelled" ∷ "canceled" ∷ []

abbrev pub is_open : LinkStatus → Bool
is_open active = true
is_open resolved = false

-- an `UPDATE` of `agent_runs`
unfoldable pub update_runs : (Run → Bool) → (Run → Run) → List Run → List Run
update_runs where' set [] = []
update_runs where' set (run ∷ runs) =
    (if where' run then set run else run) ∷ update_runs where' set runs

abbrev pub set_status : String → Run → Run
set_status status run = record run { status = some status }

-- `_active_blocker_count(conn, run_pk)`, as far as it is tested: whether there is one
unfoldable pub has_blocker : ℕ → List Link → Bool
has_blocker pk [] = false
has_blocker pk (link ∷ links) =
    (nat_beq link.run_pk pk && is_open link.status) || has_blocker pk links

unfoldable pub upsert_link : Link → List Link → List Link
upsert_link new [] = new ∷ []
upsert_link new (link ∷ links) =
    if nat_beq link.run_pk new.run_pk && nat_beq link.blocker_run_pk new.blocker_run_pk
    then record link {
      status = new.status;
      reason = new.reason;
      resolved_at = new.resolved_at;
      metadata = new.metadata;
    }
      ∷ links
    else link ∷ upsert_link new links

-- the texts of `_string_list(value)`, for a list of texts
unfoldable pub add_texts : List String → List String → List String
unfolding strip is_space is_empty
add_texts out [] = out
add_texts out (item ∷ items) =
    let text = strip is_space item in
    add_texts (if is_empty text || contains text out then out else add_last text out) items

-- `ORDER BY CASE b.status WHEN 'active' THEN 0 ELSE 1 END, b.created_at ASC, b.blocker_pk ASC`; the
-- table's order is that of its keys
unfoldable pub listed_before : Run × Link → Run × Link → Bool
listed_before (r, a) (s, b) =
    (is_open a.status && not (is_open b.status))
    || ((is_open a.status || not (is_open b.status)) && ltb a.created_at b.created_at)

-- the rows of the join in `_run_blockers_for_run`
unfoldable pub links_of : ℕ → List Run → List Link → List (Run × Link)
unfolding run_of
links_of pk runs [] = []
links_of pk runs (link ∷ links) =
    let rest = links_of pk runs links in
    if nat_beq link.run_pk pk
    then elim (run_of link.blocker_run_pk runs) [
      | none ↦ rest
      | some blocker ↦ (blocker, link) ∷ rest
    ]
    else rest

-- `_run_blockers_for_run(conn, run_pk)`
unfoldable pub run_blockers_for_run : ℕ → Activity → List (Run × Link)
unfolding links_of sort listed_before
run_blockers_for_run pk db = sort listed_before (links_of pk db.claims.runs db.links)

module _ ⦃u : Unicode⦄ ⦃p : Platform⦄ where
  -- `LOWER(COALESCE(status, ''))`
  unfoldable pub sql_status : Run → String
  sql_status run = p.sql_lower (value_or "" run.status)

  -- whether the run of a key has completed, in SQL
  unfoldable pub has_completed : ℕ → List Run → Bool
  unfolding sql_status
  has_completed pk [] = false
  has_completed pk (run ∷ runs) =
      (nat_beq run.run_pk pk && str_eq (sql_status run) "completed") || has_completed pk runs

  -- the first `UPDATE` of `_sync_blocked_runs`
  unfoldable pub resolve_link : ℕ → List Run → Link → Link
  unfolding has_completed
  resolve_link now runs link =
      if is_open link.status && has_completed link.blocker_run_pk runs
      then record link { status = resolved; resolved_at = some (value_or now link.resolved_at) }
      else link

  -- the condition of the second one
  unfoldable pub is_unblocked : List Link → Run → Bool
  unfolding sql_status has_blocker
  is_unblocked links run =
      str_eq (sql_status run) "blocked"
      && not (is_some run.archived_at)
      && not (has_blocker run.run_pk links)

  -- `_sync_blocked_runs(conn)`
  unfoldable pub sync_blocked_runs : ℕ → Activity → Activity
  unfolding resolve_link is_unblocked update_runs
  sync_blocked_runs now db =
      let links = map (resolve_link now db.claims.runs) db.links in
      record {
        claims = record db.claims {
          runs = update_runs (is_unblocked links) (set_status "queued") db.claims.runs;
        };
        links = links;
      }

  -- Python's `str(run.get("status") or "").lower()` of a run that `get_run` has returned
  unfoldable pub python_status : Run → String
  unfolding text_or
  python_status run = u.lower (text_or "working" run.status)

  -- the row that `add_run_blockers` stores
  unfoldable pub new_link : Run → Run → Option String → Json → ℕ → Link
  unfolding python_status
  new_link run blocker reason metadata now =
      let done = str_eq (python_status blocker) "completed" in
      record {
        run_pk = run.run_pk;
        blocker_run_pk = blocker.run_pk;
        status = if done then resolved else active;
        reason = value_or "" reason;
        created_at = now;
        resolved_at = if done then some now else none;
        metadata = metadata;
      }

  -- its loop
  unfoldable pub link_all : Run → List String → Option String → Json → ℕ → Step (Unit {0})
  unfolding get_run new_link upsert_link
  link_all run [] reason metadata now = pure tt
  link_all run (blocker_id ∷ blocker_ids) reason metadata now =
      let rest = link_all run blocker_ids reason metadata now in
      (do
        found ← gets λ db. get_run blocker_id db.claims.runs
        blocker ← lift (or_error unknown_blocker found)
        modify λ db. record db {
          links = upsert_link (new_link run blocker reason metadata now) db.links;
        }
        rest)

  -- the condition of its `UPDATE`
  unfoldable pub may_block : ℕ → Run → Bool
  unfolding sql_status
  may_block pk run = nat_beq run.run_pk pk && not (contains (sql_status run) stopped_statuses)

  unfoldable pub block_or_sync : ℕ → ℕ → Activity → Activity
  unfolding has_blocker update_runs may_block sync_blocked_runs
  block_or_sync pk now db =
      if has_blocker pk db.links
      then record db {
        claims = record db.claims {
          runs = update_runs (may_block pk) (set_status "blocked") db.claims.runs;
        };
      }
      else sync_blocked_runs now db

  -- `add_run_blockers` from its loop on
  unfoldable pub store_blockers :
      Run → List String → Option String → Json → ℕ → Step (List (Run × Link))
  unfolding link_all block_or_sync run_blockers_for_run
  store_blockers run blocker_ids reason metadata now = do
    link_all run blocker_ids reason metadata now
    modify (block_or_sync run.run_pk now)
    gets λ db.
        filter (λ (row : Run × Link). contains row.0.run_id blocker_ids)
          (run_blockers_for_run run.run_pk db)

  -- `add_run_blockers` after its first checks
  unfoldable pub block_on : Run → List String → Option String → Json → ℕ → Step (List (Run × Link))
  unfolding store_blockers
  block_on run [] reason metadata now = pure []
  block_on run (first ∷ others) reason metadata now =
      if contains run.run_id (first ∷ others)
      then raise blocks_itself
      else store_blockers run (first ∷ others) reason metadata now

  -- `add_run_blockers(conn, …)`
  unfoldable pub add_run_blockers :
      String → List String → Option String → Json → ℕ → Step (List (Run × Link))
  unfolding get_run python_status add_texts block_on
  add_run_blockers run_id blocked_by reason metadata now = do
    found ← gets λ db. get_run run_id db.claims.runs
    run ← lift (or_error unknown_run found)
    let ids = add_texts [] blocked_by
    if contains (python_status run) terminal_statuses
        then raise terminal_run
        else block_on run ids reason metadata now

  -- `end_run` after the release of the claims
  unfoldable pub finish_run : String → String → ℕ → Activity → Activity
  unfolding update_runs sync_blocked_runs
  finish_run run_id status now db =
      let ended : Activity = record db {
        claims = record db.claims {
          runs = update_runs (λ run. str_eq run.run_id run_id) (set_status status) db.claims.runs;
        };
      } in
      if str_eq (u.lower status) "completed" then sync_blocked_runs now ended else ended

  -- `end_run(conn, …)`
  unfoldable pub end_run : String → Option String → ℕ → Step (Option Run)
  unfolding get_run release_claims finish_run text_or
  end_run run_id status now = do
    found ← gets λ db. get_run run_id db.claims.runs
    run ← lift (or_error unknown_run found)
    on_claims (release_claims run_id none none (some "released") now)
    modify (finish_run run_id (text_or "completed" status) now)
    gets λ db. get_run run_id db.claims.runs

  -- `archive_run(conn, …)`
  unfoldable pub archive_run : String → Option ℕ → ℕ → Step (Option Run)
  unfolding get_run release_claims update_runs
  archive_run run_id archived_at now = do
    found ← gets λ db. get_run run_id db.claims.runs
    run ← lift (or_error unknown_run found)
    on_claims (release_claims run_id none none (some "released") now)
    modify λ db. record db {
      claims = record db.claims {
        runs =
            update_runs (λ r. str_eq r.run_id run_id)
              (λ r. record r { archived_at = some (value_or now archived_at) }) db.claims.runs;
      };
    }
    gets λ db. get_run run_id db.claims.runs
