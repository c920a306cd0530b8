-- ===== src/Claims/Upkeep.antt =====
-- The checks, heartbeats and releases of the file claims (code_index/agent_activity.py).
use Prim.Native.String.{String, ◌++◌}
use memory_network.Prelude.{
  ℕ, Bool, true, false, not, ◌&&◌, ◌||◌, Option, none, some, List, [], ◌∷◌, map, nat_beq, ltb,
  if◌then◌else◌, str_eq, value_or, is_some,
}
use memory_network.Prelude.Equality.{nat_eq}
use memory_network.Prelude.Exec.{◌>>=◌, ◌>>◌, pure, lift, or_error, modify, gets, transaction}
use memory_network.Prelude.Int.{ℤ}
use memory_network.Prelude.Lists.{contains}
use memory_network.Prelude.Sort.{sort}
use memory_network.Text.{Unicode, is_empty, is_space, strip}
use memory_network.Runs.{Run, get_run}
use memory_network.Claims.{
  Mode, ClaimStatus, EventType, unknown_run, file_path_required, unknown_release_status,
  no_active_claim, Claim, Claims, Action, is_active, is_lease, mode_beq, normal_path, iso_after,
  is_current, mode_of, select_rows, first_of, update_rows,
}
use memory_network.Claims.Expiry.{
  ClaimView, public_claim, no_metadata, message_for, record_claim_event, close_row,
  expire_stale_leases,
}
use memory_network.Claims.Files.{find_row}

module _ ⦃u : Unicode⦄ where
  -- `verify_claim_fence(conn, …)`; no mode is any mode, and an unknown word is in no row
  unfoldable pub verify_claim_fence : String → Option String → ℕ → Option String → ℕ → Claims → Bool
  unfolding normal_path get_run find_row is_current mode_of strip is_space is_empty
  verify_claim_fence run_id file_path fence_token mode now db = elim (normal_path file_path) [
    | none ↦ false
    | some path ↦ elim (get_run run_id db.runs) [
      | none ↦ false
      | some run ↦
          let word = u.lower (strip is_space (value_or "" mode)) in
          let in_mode : Mode → Bool =
            λ m. is_empty word || elim (mode_of word) [ none ↦ false | some w ↦ mode_beq m w ] in
          is_some (
            find_row
              (λ row.
                nat_beq row.run_pk run.run_pk
                && str_eq row.file_path path
                && is_active row.status
                && is_current row.expires_at now
                && nat_beq row.fence_token fence_token
                && in_mode row.mode)
              db.rows)
    ]
  ]

  -- `heartbeat_claim(conn, …)`: the rows that are refreshed
  unfoldable pub is_beating : ℕ → String → Option (Option Mode) → Claim → Bool
  is_beating run_pk path mode row =
      nat_beq row.run_pk run_pk
      && str_eq row.file_path path
      && elim mode [ none ↦ true | some none ↦ false | some (some m) ↦ mode_beq row.mode m ]

  -- a mode that is given, and the word that it is
  unfoldable pub given_mode : Option String → Option (Option Mode)
  unfolding is_empty mode_of strip is_space
  given_mode none = none
  given_mode (some s) = if is_empty s then none else some (mode_of (u.lower (strip is_space s)))

  unfoldable pub beat_claim : ℕ → Option ℕ → Claim → Claim
  beat_claim now expires row = record row {
    heartbeat_at = some now;
    updated_at = now;
    expires_at = elim expires [ none ↦ row.expires_at | some t ↦ some t ];
  }

  unfoldable pub heartbeat_claim :
      String → Option String → Option String → Option ℤ → ℕ → Action ClaimView
  unfolding get_run normal_path is_beating given_mode beat_claim update_rows select_rows first_of
      iso_after public_claim
  heartbeat_claim run_id file_path mode ttl now = do
    found ← gets λ db. get_run run_id db.runs
    run ← lift (or_error unknown_run found)
    path ← lift (or_error file_path_required (normal_path file_path))
    modify λ db. record db {
      rows =
          update_rows
            (λ row. is_beating run.run_pk path (given_mode mode) row && is_active row.status)
            (beat_claim now (iso_after now ttl)) db.rows;
    }
    rows ← gets λ db.
        select_rows (λ r row. is_beating run.run_pk path (given_mode mode) row) db.runs db.rows
    joined ← lift (or_error no_active_claim (first_of rows))
    pure (public_claim joined)

  -- `ORDER BY c.updated_at DESC, c.claim_pk DESC`
  unfoldable pub newest_first : Run × Claim → Run × Claim → Bool
  newest_first (r, a) (s, b) =
      ltb b.updated_at a.updated_at
      || (nat_beq a.updated_at b.updated_at && ltb b.claim_pk a.claim_pk)

  -- the rows that `release_claims` selects
  unfoldable pub is_releasable : ℕ → Option String → Option (Option Mode) → Claim → Bool
  is_releasable run_pk path mode row =
      nat_beq row.run_pk run_pk
      && is_active row.status
      && elim path [ none ↦ true | some s ↦ str_eq row.file_path s ]
      && elim mode [ none ↦ true | some none ↦ false | some (some m) ↦ mode_beq row.mode m ]
      && not (is_lease row.lease_kind)

  unfoldable pub release_status : String → Option ClaimStatus
  release_status s =
      if str_eq s "released"
      then some ClaimStatus.released
      else if str_eq s "expired"
      then some ClaimStatus.expired
      else none

  -- the event and its verb for a status that ends a claim
  unfoldable pub event_of : ClaimStatus → EventType
  event_of ClaimStatus.expired = EventType.expired
  event_of _ = EventType.released

  unfoldable pub status_text : ClaimStatus → String
  status_text ClaimStatus.active = "active"
  status_text ClaimStatus.released = "released"
  status_text ClaimStatus.expired = "expired"

  unfoldable pub record_releases : ClaimStatus → ℕ → List (Run × Claim) → Action (Unit {0})
  unfolding record_claim_event event_of status_text
  record_releases status now [] = pure tt
  record_releases status now ((run, row) ∷ rows) =
      let rest = record_releases status now rows in
      (do
        record_claim_event row (event_of status) (message_for ("Claim " ++ status_text status) row)
            no_metadata now
        rest)

  -- `str(status or "released").strip().lower()`, and the status that it has to be
  unfoldable pub wanted_status : Option String → Option ClaimStatus
  unfolding release_status strip is_space is_empty
  wanted_status status =
      let text = value_or "released" status in
      release_status (u.lower (strip is_space (if is_empty text then "released" else text)))

  -- the rows that were read are closed, read again and returned
  unfoldable pub close_rows : ClaimStatus → ℕ → List ℕ → Action (List ClaimView)
  unfolding select_rows sort newest_first update_rows close_row record_releases public_claim
  close_rows next now pks = do
    modify λ db. record db {
      rows = update_rows (λ row. contains row.claim_pk pks) (close_row next now) db.rows;
    }
    updated ←
        gets
          λ db. sort newest_first (select_rows (λ r row. contains row.claim_pk pks) db.runs db.rows)
    record_releases next now updated
    pure (map public_claim updated)

  -- `release_claims(conn, …)`
  unfoldable pub release_claims :
      String → Option String → Option String → Option String → ℕ → Action (List ClaimView)
  unfolding get_run wanted_status normal_path given_mode is_releasable select_rows sort newest_first
      close_rows expire_stale_leases
  release_claims run_id file_path mode status now = do
    found ← gets λ db. get_run run_id db.runs
    run ← lift (or_error unknown_run found)
    next ← lift (or_error unknown_release_status (wanted_status status))
    transaction (do
      expire_stale_leases none now
      let chosen = is_releasable run.run_pk (normal_path file_path) (given_mode mode)
      rows ← gets λ db. sort newest_first (select_rows (λ r row. chosen row) db.runs db.rows)
      close_rows next now (map (λ (joined : Run × Claim). joined.1.claim_pk) rows))
