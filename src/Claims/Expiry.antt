-- ===== src/Claims/Expiry.antt =====
-- `record_claim_event` and `expire_stale_leases` of code_index/lease_manager.py.
use Prim.Native.String.{String, ◌++◌}
use memory_network.Prelude.{
  ℕ, Bool, true, ◌&&◌, ◌||◌, Option, none, some, List, [], ◌∷◌, nat_beq, ltb, if◌then◌else◌, str_eq,
  value_or,
}
use memory_network.Prelude.Exec.{◌>>=◌, ◌>>◌, pure, modify, gets}
use memory_network.Prelude.Lists.{add_last}
use memory_network.Prelude.Sort.{sort}
use memory_network.Text.{Unicode, nonempty}
use memory_network.Runs.{Run}
use memory_network.Claims.{
  Mode, Claim, EventType, ClaimStatus, Action, is_active, is_lease, is_stale, claim_row,
  select_rows, update_rows, row_count,
}
use memory_network.Claims.Metadata.{Json, object, no_entries, redact_public_metadata}

-- `metadata or {}`
abbrev pub no_metadata : Json
no_metadata = object no_entries

-- The message of an event begins with `Lease`, `Claim` or a reason for a refusal.
abbrev pub message_for : String → Claim → String
message_for verb row = verb ++ " for " ++ row.file_path ++ "."

-- A claim as it is returned.
pub record ClaimView : Type 0 where
  pub claim_pk : ℕ
  pub claim_id : String
  pub run_id : String
  pub agent_name : String
  pub run_status : String
  pub file_path : String
  pub mode : Mode
  pub status : ClaimStatus
  pub reason : String
  pub fence_token : ℕ
  pub created_at : ℕ
  pub updated_at : ℕ
  pub heartbeat_at : Option ℕ
  pub expires_at : Option ℕ
  pub released_at : Option ℕ
  pub metadata : Json

-- `text or default`
unfoldable pub text_or : String → Option String → String
unfolding nonempty
text_or default none = default
text_or default (some s) = value_or default (nonempty s)

module _ ⦃u : Unicode⦄ where
  -- `_public_claim(row)` and `_row_to_claim(row)`
  unfoldable pub public_claim : Run × Claim → ClaimView
  unfolding redact_public_metadata text_or
  public_claim (run, row) = record {
    claim_pk = row.claim_pk;
    claim_id = row.claim_id;
    run_id = run.run_id;
    agent_name = text_or "Agent" run.agent_name;
    run_status = text_or "working" run.status;
    file_path = row.file_path;
    mode = row.mode;
    status = row.status;
    reason = row.reason;
    fence_token = row.fence_token;
    created_at = row.created_at;
    updated_at = row.updated_at;
    heartbeat_at = row.heartbeat_at;
    expires_at = row.expires_at;
    released_at = row.released_at;
    metadata = redact_public_metadata row.metadata;
  }

  -- `record_claim_event(conn, …)` of a row
  unfoldable pub record_claim_event : Claim → EventType → String → Json → ℕ → Action (Unit {0})
  unfolding redact_public_metadata
  record_claim_event row event_type message metadata now = modify λ db. record db {
    events =
        add_last
          (record {
            claim_pk = row.claim_pk;
            event_type = event_type;
            timestamp = now;
            file_path = row.file_path;
            mode = row.mode;
            fence_token = row.fence_token;
            message = message;
            metadata = redact_public_metadata metadata;
          })
          db.events;
  }

  -- the rows that `expire_stale_leases` selects; an empty id is no condition
  unfoldable pub is_stale_lease : Option String → ℕ → Claim → Bool
  unfolding is_stale
  is_stale_lease claim_id cutoff row =
      is_lease row.lease_kind
      && is_active row.status
      && is_stale row.expires_at cutoff
      && elim claim_id [ none ↦ true | some id ↦ str_eq id "" || str_eq row.claim_id id ]

  -- `ORDER BY c.expires_at ASC, c.claim_pk ASC`
  unfoldable pub expires_before : Run × Claim → Run × Claim → Bool
  expires_before (r, a) (s, b) =
      let t = value_or 0 a.expires_at in
      let t' = value_or 0 b.expires_at in ltb t t' || (nat_beq t t' && ltb a.claim_pk b.claim_pk)

  -- `WHERE claim_pk = ? AND status = 'active'`
  unfoldable pub is_active_pk : ℕ → Claim → Bool
  is_active_pk pk row = nat_beq row.claim_pk pk && is_active row.status

  -- `SET status = …, lease_token_hash = NULL, updated_at = ?, released_at = ?`
  unfoldable pub close_row : ClaimStatus → ℕ → Claim → Claim
  close_row status now row = record row {
    status = status;
    lease_token_hash = none;
    updated_at = now;
    released_at = some now;
  }

  -- one round of the loop: the row after its update, or nothing if no row was updated
  unfoldable pub expire_one : ℕ → Claim → Action (Option (Run × Claim))
  unfolding is_active_pk close_row record_claim_event claim_row update_rows row_count
  expire_one cutoff row db =
      if nat_beq (row_count (is_active_pk row.claim_pk) db.rows) 1
      then (do
        modify λ db. record db {
          rows =
              update_rows (is_active_pk row.claim_pk) (close_row ClaimStatus.expired cutoff)
                db.rows;
        }
        record_claim_event row EventType.expired (message_for "Lease expired" row) no_metadata
            cutoff
        gets (claim_row row.claim_id))
          db
      else pure none db

  unfoldable pub expire_from : ℕ → List (Run × Claim) → Action (List ClaimView)
  unfolding expire_one public_claim
  expire_from cutoff [] = pure []
  expire_from cutoff ((run, row) ∷ rows) =
      let rest = expire_from cutoff rows in
      (do
        refreshed ← expire_one cutoff row
        others ← rest
        pure (elim refreshed [ none ↦ others | some joined ↦ public_claim joined ∷ others ]))

  -- `expire_stale_leases(conn, claim_id=…, now=…)`; none of its statements raises, so that its
  -- transaction is its body
  unfoldable pub expire_stale_leases : Option String → ℕ → Action (List ClaimView)
  unfolding is_stale_lease expires_before expire_from select_rows sort
  expire_stale_leases claim_id cutoff db =
      expire_from cutoff
        (sort expires_before
          (select_rows (λ run row. is_stale_lease claim_id cutoff row) db.runs db.rows))
        db
