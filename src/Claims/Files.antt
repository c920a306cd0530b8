-- ===== src/Claims/Files.antt =====
-- The file claims of code_index/agent_activity.py.
use Prim.Native.String.{String, ◌++◌}
use memory_network.Prelude.{
  ℕ, ◌+◌, Bool, true, false, not, ◌&&◌, ◌||◌, Option, none, some, List, [], ◌∷◌, nat_beq, ltb,
  if◌then◌else◌, str_eq, value_or, is_some,
}
use memory_network.Prelude.Equality.{nat_eq}
use memory_network.Prelude.Exec.{ok, err, ◌>>=◌, ◌>>◌, pure, raise, lift, or_error, gets}
use memory_network.Prelude.Int.{ℤ}
use memory_network.Prelude.Lists.{add_last}
use memory_network.Text.{Unicode, is_empty, is_space, strip}
use memory_network.Runs.{Run, get_run, is_going}
use memory_network.Claims.{
  Mode, ClaimStatus, Kind, EventType, unknown_run, file_path_required, unknown_mode, conflict,
  duplicate_claim_id, changed, Claim, Platform, Action, is_active, is_lease, mode_beq, normal_path,
  iso_after, is_current, mode_of, modes_conflict, select_rows, first_of, update_rows,
}
use memory_network.Claims.Metadata.{Json}
use memory_network.Claims.Expiry.{ClaimView, public_claim, record_claim_event, expire_stale_leases}

-- `(mode or "edit").strip().lower()`, and the word it has to be
unfoldable pub claim_mode : ⦃u : Unicode⦄ → Option String → Option Mode
unfolding mode_of strip is_space is_empty
claim_mode ⦃u⦄ none = some Mode.edit
claim_mode ⦃u⦄ (some s) =
    if is_empty s then some Mode.edit else mode_of (u.lower (strip is_space s))

-- The text that `uuid5` gets: `f"{run_id}:{path}:{mode}"`.
unfoldable pub mode_text : Mode → String
mode_text Mode.read = "read"
mode_text Mode.edit = "edit"
mode_text Mode.review = "review"
mode_text Mode.test = "test"
mode_text Mode.exclusive = "exclusive"

-- `COALESCE(MAX(fence_token), 0)` of the rows of a path
unfoldable pub max_fence : String → List Claim → ℕ
max_fence path [] = 0
max_fence path (row ∷ rows) =
    let rest = max_fence path rows in
    if str_eq row.file_path path && ltb rest row.fence_token then row.fence_token else rest

-- `_next_fence_token(conn, file_path)`
unfoldable pub next_fence_token : String → List Claim → ℕ
unfolding max_fence
next_fence_token path rows = max_fence path rows + 1

unfoldable pub next_pk : List Claim → ℕ
next_pk [] = 1
next_pk (row ∷ rows) =
    let rest = next_pk rows in if ltb row.claim_pk rest then rest else row.claim_pk + 1

-- `UNIQUE(run_pk, file_path, mode)`
unfoldable pub has_key : ℕ → String → Mode → Claim → Bool
has_key run_pk path mode row =
    nat_beq row.run_pk run_pk && str_eq row.file_path path && mode_beq row.mode mode

unfoldable pub find_row : (Claim → Bool) → List Claim → Option Claim
find_row p [] = none
find_row p (row ∷ rows) = if p row then some row else find_row p rows

-- the condition of each `CASE` in the upsert of `claim_file`
unfoldable pub keeps_lease : ℕ → Claim → Bool
unfolding is_current
keeps_lease now row =
    is_lease row.lease_kind
    && is_active row.status
    && is_some row.lease_token_hash
    && is_current row.expires_at now

-- `DO UPDATE SET …`, with the values of the row that was to be inserted
unfoldable pub refresh_row : Claim → Claim → Claim
unfolding keeps_lease
refresh_row new row =
    let kept = keeps_lease new.updated_at row in
    record row {
      status = ClaimStatus.active;
      reason = new.reason;
      fence_token = if kept then row.fence_token else new.fence_token;
      lease_token_hash = if kept then row.lease_token_hash else none;
      lease_kind = if kept then row.lease_kind else Kind.claim;
      owner_agent = if kept then row.owner_agent else none;
      heartbeat_interval_ms = if kept then row.heartbeat_interval_ms else none;
      conflict_policy = if kept then row.conflict_policy else none;
      last_conflict = if kept then row.last_conflict else none;
      updated_at = new.updated_at;
      heartbeat_at = new.heartbeat_at;
      expires_at = if kept then row.expires_at else new.expires_at;
      released_at = none;
      metadata = new.metadata;
    }

-- `INSERT … ON CONFLICT(run_pk, file_path, mode) DO UPDATE …`
unfoldable pub upsert : Claim → Action (Unit {0})
unfolding has_key find_row refresh_row update_rows
upsert new db =
    let same = has_key new.run_pk new.file_path new.mode in
    if is_some (find_row same db.rows)
    then (ok tt, record db { rows = update_rows same (refresh_row new) db.rows })
    else if is_some (find_row (λ row. str_eq row.claim_id new.claim_id) db.rows)
    then (err duplicate_claim_id, db)
    else (ok tt, record db { rows = add_last new db.rows })

module _ ⦃u : Unicode⦄ ⦃p : Platform⦄ where
  -- the rows that `_raise_on_claim_conflict` selects
  unfoldable pub is_held_by_other : ℕ → String → ℕ → Run → Claim → Bool
  unfolding is_current is_going
  is_held_by_other run_pk path now run row =
      str_eq row.file_path path
      && is_active row.status
      && not (nat_beq row.run_pk run_pk)
      && is_current row.expires_at now
      && is_going p.sql_lower run

  unfoldable pub any_conflict : Mode → List (Run × Claim) → Bool
  unfolding modes_conflict
  any_conflict mode [] = false
  any_conflict mode ((run, row) ∷ rows) = modes_conflict mode row.mode || any_conflict mode rows

  -- `_raise_on_claim_conflict(conn, …)`
  unfoldable pub raise_on_claim_conflict : ℕ → String → Mode → ℕ → Action (Unit {0})
  unfolding is_held_by_other any_conflict select_rows
  raise_on_claim_conflict run_pk path mode now db =
      if any_conflict mode (select_rows (is_held_by_other run_pk path now) db.runs db.rows)
      then (err conflict, db)
      else (ok tt, db)

  -- the row that `claim_file` inserts
  unfoldable pub new_claim :
      Run → String → Mode → Option String → Option ℤ → Json → ℕ → List Claim → Claim
  unfolding next_pk mode_text next_fence_token iso_after
  new_claim run path mode reason ttl metadata now rows = record {
    claim_pk = next_pk rows;
    claim_id = p.uuid5 (run.run_id ++ ":" ++ path ++ ":" ++ mode_text mode);
    run_pk = run.run_pk;
    file_path = path;
    mode = mode;
    status = ClaimStatus.active;
    reason = value_or "" reason;
    fence_token = next_fence_token path rows;
    lease_token_hash = none;
    lease_kind = Kind.claim;
    owner_agent = none;
    heartbeat_interval_ms = none;
    conflict_policy = none;
    last_conflict = none;
    created_at = now;
    updated_at = now;
    heartbeat_at = some now;
    expires_at = iso_after now ttl;
    released_at = none;
    metadata = metadata;
  }

  -- the end of `claim_file`, with the row that it has read back
  unfoldable pub answer_claim : Json → Bool → ℕ → Option (Run × Claim) → Action ClaimView
  unfolding record_claim_event public_claim
  answer_claim metadata record_lifecycle_event now none = raise changed
  answer_claim metadata record_lifecycle_event now (some (owner, row)) =
      if record_lifecycle_event && not (is_lease row.lease_kind && is_some row.lease_token_hash)
      then (do
        record_claim_event row EventType.created ("Claim created for " ++ row.file_path ++ ".")
            metadata now
        pure (public_claim (owner, row)))
      else pure (public_claim (owner, row))

  -- `claim_file` from the insertion on
  unfoldable pub store_claim :
      Run → String → Mode → Option String → Option ℤ → Json → Bool → ℕ → Action ClaimView
  unfolding new_claim upsert select_rows first_of has_key answer_claim
  store_claim run path mode reason ttl metadata record_lifecycle_event now = do
    new ← gets λ db. new_claim run path mode reason ttl metadata now db.rows
    upsert new
    found ←
        gets
          λ db. first_of (select_rows (λ r row. has_key run.run_pk path mode row) db.runs db.rows)
    answer_claim metadata record_lifecycle_event now found

  -- `claim_file(conn, …)`
  unfoldable pub claim_file :
      String
      → Option String
      → Option String
      → Option String
      → Option ℤ
      → Json
      → Bool
      → ℕ
      → Action ClaimView
  unfolding get_run normal_path claim_mode expire_stale_leases raise_on_claim_conflict store_claim
  claim_file run_id file_path mode reason ttl metadata record_lifecycle_event now = do
    found ← gets λ db. get_run run_id db.runs
    run ← lift (or_error unknown_run found)
    path ← lift (or_error file_path_required (normal_path file_path))
    expire_stale_leases none now
    word ← lift (or_error unknown_mode (claim_mode mode))
    raise_on_claim_conflict run.run_pk path word now
    store_claim run path word reason ttl metadata record_lifecycle_event now

  -- `claim_files(conn, …)`
  unfoldable pub claim_files :
      String
      → List String
      → Option String
      → Option String
      → Option ℤ
      → Json
      → ℕ
      → Action (List ClaimView)
  unfolding claim_file normal_path
  claim_files run_id [] mode reason ttl metadata now = pure []
  claim_files run_id (path ∷ paths) mode reason ttl metadata now =
      let rest = claim_files run_id paths mode reason ttl metadata now in
      if is_some (normal_path (some path))
      then (do
        one ← claim_file run_id (some path) mode reason ttl metadata true now
        others ← rest
        pure (one ∷ others))
      else rest
