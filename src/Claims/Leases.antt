-- ===== src/Claims/Leases.antt =====
-- The leases of code_index/lease_manager.py: claims with a secret token, of which the hash is stored.
use Prim.Native.String.{String, ◌++◌}
use memory_network.Prelude.{
  ℕ, Bool, true, false, not, ◌&&◌, Option, none, some, List, [], ◌∷◌, map, nat_beq, if◌then◌else◌,
  str_eq, is_some,
}
use memory_network.Prelude.Equality.{nat_eq}
use memory_network.Prelude.Exec.{
  Result, ok, err, ◌>>=◌, ◌>>◌, pure, raise, modify, gets, transaction, bind_result,
}
use memory_network.Prelude.Int.{ℤ, pos, negsuc}
use memory_network.Prelude.Lists.{contains, filter}
use memory_network.Text.{Unicode}
use memory_network.Runs.{Run}
use memory_network.Claims.{
  ClaimStatus, Kind, EventType, ClaimError, changed, Event, Claim, Claims, Platform, Action,
  is_active, is_lease, iso_after, first_of, update_rows,
}
use memory_network.Claims.Metadata.{Json, object, entry, text, no_entries, redact_public_metadata}
use memory_network.Claims.Upkeep.{event_of, status_text}
use memory_network.Claims.Expiry.{
  ClaimView, public_claim, no_metadata, message_for, record_claim_event, close_row,
  expire_stale_leases,
}
use memory_network.Claims.Files.{claim_file}
use memory_network.Claims.{
  claim_row, row_count, unknown_claim, lease_expired, not_active, bad_token, malformed_fence,
  stale_fence,
}

abbrev default_heartbeat_interval_ms : ℕ
default_heartbeat_interval_ms = 30000

module _ ⦃u : Unicode⦄ ⦃p : Platform⦄ where
  -- `_token_matches(row, lease_token)`
  unfoldable pub token_matches : Claim → String → Bool
  token_matches row lease_token = elim row.lease_token_hash [
    | none ↦ false
    | some expected ↦ str_eq expected (p.hash_token lease_token)
  ]

  -- `SET lease_token_hash = ?, lease_kind = 'lease', owner_agent = ?, heartbeat_interval_ms = ?`
  unfoldable pub make_lease : String → String → Claim → Claim
  make_lease token agent_name row = record row {
    lease_token_hash = some (p.hash_token token);
    lease_kind = Kind.lease;
    owner_agent = some agent_name;
    heartbeat_interval_ms = some default_heartbeat_interval_ms;
  }

  -- the end of `create_lease`, with the row that it has read back
  unfoldable pub answer_lease :
      Json → String → ℕ → Option (Run × Claim) → Action (ClaimView × String)
  unfolding record_claim_event public_claim
  answer_lease metadata token now none = raise unknown_claim
  answer_lease metadata token now (some (run, row)) = do
    record_claim_event row EventType.created (message_for "Lease created" row) metadata now
    pure (public_claim (run, row), token)

  -- `create_lease(conn, …)`; `token` is what `secrets.token_urlsafe` returns
  unfoldable pub create_lease :
      String
      → Option String
      → Option String
      → Option String
      → Option ℤ
      → Json
      → String
      → ℕ
      → Action (ClaimView × String)
  unfolding claim_file make_lease update_rows claim_row answer_lease
  create_lease run_id file_path mode reason ttl metadata token now = transaction (do
    view ← claim_file run_id file_path mode reason ttl metadata false now
    modify λ db. record db {
      rows =
          update_rows (λ row. str_eq row.claim_id view.claim_id) (make_lease token view.agent_name)
            db.rows;
    }
    found ← gets (claim_row view.claim_id)
    answer_lease metadata token now found)

  -- The checks of `renew_lease` and `release_lease` on the row that was read, after the expiry:
  -- `expired` tells whether it expired a lease with this id.
  unfoldable pub check_lease :
      Bool → Option (Run × Claim) → String → Result ClaimError (Run × Claim)
  unfolding token_matches
  check_lease expired none lease_token = err unknown_claim
  check_lease expired (some (run, row)) lease_token =
      if expired
      then err lease_expired
      else if not (is_active row.status)
      then err not_active
      else if token_matches row lease_token
      then ok (run, row)
      else err bad_token

  -- `_validate_fence_token(fence_token)`, `none` where `int` raises, and the comparison after it
  unfoldable pub check_fence_token : Option ℤ → Claim → Result ClaimError (Unit {0})
  check_fence_token none row = err malformed_fence
  check_fence_token (some (negsuc n)) row = err stale_fence
  check_fence_token (some (pos n)) row =
      if nat_beq row.fence_token n then ok tt else err stale_fence

  abbrev refusal : String → String → Json
  refusal key reason = object (entry key (text reason) no_entries)

  -- `_record_denied_event(conn, …)` for the errors that record one
  unfoldable pub record_denied : ClaimError → Option (Run × Claim) → Bool → ℕ → Action (Unit {0})
  unfolding record_claim_event
  record_denied error none renewing now = pure tt
  record_denied error (some (run, row)) renewing now = elim error [
    | bad_token ↦
        record_claim_event row EventType.denied
          (if renewing
            then "Lease renewal denied: lease token does not match claim."
            else "Lease release denied: lease token does not match claim.")
          (refusal "reason" "bad_token") now
    | malformed_fence ↦
        record_claim_event row EventType.denied
          "Lease renewal denied: lease fence token is malformed." (refusal "reason" "bad_fence") now
    | stale_fence ↦
        record_claim_event row EventType.denied "Lease renewal denied: lease fence token is stale."
          (refusal "reason" "stale_fence") now
    | _ ↦ pure tt
  ]

  -- `WHERE claim_id = ? AND status = 'active' AND lease_kind = 'lease' AND lease_token_hash = ?`
  unfoldable pub is_same_lease : Claim → Claim → Bool
  is_same_lease held row =
      str_eq row.claim_id held.claim_id
      && is_active row.status
      && is_lease row.lease_kind
      && elim row.lease_token_hash [
        | none ↦ false
        | some hash ↦ elim held.lease_token_hash [
          | none ↦ false
          | some expected ↦ str_eq hash expected
        ]
      ]

  unfoldable pub renew_row : ℕ → Option ℤ → Claim → Claim
  unfolding iso_after
  renew_row now ttl row = record row {
    heartbeat_at = some now;
    updated_at = now;
    expires_at = iso_after now ttl;
  }

  -- the update of `renew_lease` or `release_lease` with the event that follows it
  unfoldable pub change_lease :
      (Claim → Bool) → (Claim → Claim) → String → EventType → String → ℕ → Action ClaimView
  unfolding update_rows row_count claim_row record_claim_event public_claim
  change_lease where' set claim_id event_type verb now db =
      if nat_beq (row_count where' db.rows) 1
      then (do
        modify λ db. record db { rows = update_rows where' set db.rows }
        found ← gets (claim_row claim_id)
        elim found [
          | none ↦ raise unknown_claim
          | some (run, row) ↦ (do
            record_claim_event row event_type (message_for verb row) no_metadata now
            pure (public_claim (run, row)))
        ])
          db
      else raise changed db

  -- `renew_lease` after its checks, which a refusal of them is recorded and raised by
  unfoldable pub renew_checked :
      Option ℤ → String → ℕ → Option (Run × Claim) → Result ClaimError Claim → Action ClaimView
  unfolding record_denied is_same_lease renew_row change_lease
  renew_checked ttl claim_id now found (err error) = do
    record_denied error found true now
    raise error
  renew_checked ttl claim_id now found (ok row) =
      change_lease (λ r. is_same_lease row r && nat_beq r.fence_token row.fence_token)
        (renew_row now ttl) claim_id EventType.renewed "Lease renewed" now

  -- the checks of `renew_lease` in their order
  unfoldable pub check_renewal :
      Bool → Option (Run × Claim) → String → Option ℤ → Result ClaimError Claim
  unfolding check_lease check_fence_token
  check_renewal expired found lease_token fence_token =
      bind_result (check_lease expired found lease_token)
        λ joined. bind_result (check_fence_token fence_token joined.1) λ _. ok joined.1

  -- `renew_lease(conn, …)`: its transaction is committed before the error is raised
  unfoldable pub renew_lease : String → String → Option ℤ → Option ℤ → ℕ → Action ClaimView
  unfolding expire_stale_leases claim_row check_renewal renew_checked
  renew_lease claim_id lease_token fence_token ttl now = do
    expired ← expire_stale_leases (some claim_id) now
    found ← gets (claim_row claim_id)
    renew_checked ttl claim_id now found
        (check_renewal (is_some (first_of expired)) found lease_token fence_token)

  -- `release_lease` after its checks
  unfoldable pub release_checked :
      ClaimStatus
      → String
      → ℕ
      → Option (Run × Claim)
      → Result ClaimError (Run × Claim)
      → Action ClaimView
  unfolding record_denied is_same_lease close_row change_lease event_of status_text
  release_checked next claim_id now found (err error) = do
    record_denied error found false now
    raise error
  release_checked next claim_id now found (ok (run, row)) =
      change_lease (is_same_lease row) (close_row next now) claim_id (event_of next)
        ("Lease " ++ status_text next) now

  -- `next_status` of `release_lease`
  unfoldable pub next_status : String → ClaimStatus
  next_status status = if str_eq status "expired" then ClaimStatus.expired else ClaimStatus.released

  -- `release_lease(conn, …)`
  unfoldable pub release_lease : String → String → String → ℕ → Action ClaimView
  unfolding expire_stale_leases claim_row check_lease release_checked next_status
  release_lease claim_id lease_token status now = do
    expired ← expire_stale_leases (some claim_id) now
    found ← gets (claim_row claim_id)
    release_checked (next_status status) claim_id now found
        (check_lease (is_some (first_of expired)) found lease_token)

-- `claim_events(conn, claim_id=…)`: an event is returned with its metadata redacted
module _ ⦃u : Unicode⦄ where
  unfoldable pub events_of : List ℕ → List Event → List Event
  unfolding redact_public_metadata
  events_of pks [] = []
  events_of pks (event ∷ events) =
      let rest = events_of pks events in
      if contains event.claim_pk pks
      then record event { metadata = redact_public_metadata event.metadata } ∷ rest
      else rest

  unfoldable pub claim_events : String → Claims → List Event
  unfolding events_of
  claim_events claim_id db =
      events_of
        (map (λ (row : Claim). row.claim_pk) (filter (λ row. str_eq row.claim_id claim_id) db.rows))
        db.events
