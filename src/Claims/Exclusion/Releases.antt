-- ===== src/Claims/Exclusion/Releases.antt =====
-- Releases and heartbeats that keep the claim table sound: `release_claims` and `heartbeat_claim`
-- of code_index/agent_activity.py.
use Prim.Native.String.{String}
use memory_network.Prelude.{
  ℕ, ◌≡◌, refl, Bool, true, false, inl, inr, Option, none, some, List, [], ◌∷◌, ◌&&◌, Bool-cases,
  if◌then◌else◌, str_eq, eq_iff, value_or, sym, ap, ◌∙◌, arith,
}
use memory_network.Prelude.Equality.{nat_eq, nat_beq_iff}
use memory_network.Prelude.Exec.{or_error, or_error-ok, Ends-bind, Ends-lift, Ends-settle}
use memory_network.Prelude.Int.{ℤ}
use memory_network.Prelude.Lists.{Among, contains}
use memory_network.Prelude.Sort.{sort}
use memory_network.Text.{Unicode, is_empty, is_space, strip}
use memory_network.Runs.{get_run, Run}
use memory_network.Claims.{
  Mode, Claim, Claims, ClaimStatus, unknown_run, file_path_required, unknown_release_status,
  no_active_claim, normal_path, iso_after, is_active, is_current, update_rows, select_rows,
  first_of,
}
use memory_network.Claims.Expiry.{close_row, record_claim_event, expire_stale_leases}
use memory_network.Claims.Upkeep.{
  wanted_status, close_rows, release_status, newest_first, given_mode, record_releases,
  release_claims, is_beating, beat_claim, heartbeat_claim,
}
use memory_network.Claims.Exclusion.{Sound}
use memory_network.Claims.Exclusion.Updates.{Tame, update_rows-Sound}
use memory_network.Claims.Exclusion.Steps.{close_row-Tame, expire_stale_leases-Sound}

module _ ⦃u : Unicode⦄ (lower : String → String) where
  release_status-closed :
      (s : String) (next : ClaimStatus) → release_status s ≡ some next → is_active next ≡ false
  unfolding release_status
  release_status-closed s next e = elim (Bool-cases (str_eq s "released")) [
    | inl a ↦ let same : ClaimStatus.released ≡ next = cc (rw a at e) in rw (← same) refl
    | inr a ↦ elim (Bool-cases (str_eq s "expired")) [
      | inl b ↦ let same : ClaimStatus.expired ≡ next = cc (rw (a, b) at e) in rw (← same) refl
      | inr b ↦ absurd (cc (rw (a, b) at e))
    ]
  ]

  wanted_status-closed :
      (status : Option String) (next : ClaimStatus)
      → wanted_status status ≡ some next
      → is_active next ≡ false
  unfolding wanted_status
  wanted_status-closed status next e =
      let text = value_or "released" status in
      release_status-closed (u.lower (strip is_space (if is_empty text then "released" else text)))
        next e

  beating :
      (run_pk : ℕ) (path : String) (mode : Option (Option Mode)) (row : Claim)
      → (is_beating run_pk path mode row && is_active row.status) ≡ true
      → (row.run_pk ≡ run_pk) × (path ≡ row.file_path) × (is_active row.status ≡ true)
  unfolding is_beating
  beating run_pk path mode row h = (
    (nat_beq_iff row.run_pk run_pk).0 (ground arith),
    sym ((eq_iff row.file_path path).0 (ground arith)),
    ground arith,
  )

  record_releases-Sound :
      (now t : ℕ) (next : ClaimStatus) (rows : List (Run × Claim)) (db : Claims)
      → Sound lower now db
      → Sound lower now (record_releases next t rows db).1
  unfolding record_releases record_claim_event
  record_releases-Sound now t next [] db h = h
  record_releases-Sound now t next ((run, row) ∷ rows) db h =
      record_releases-Sound now t next rows _ h

  close_rows-Sound :
      (now t : ℕ) (next : ClaimStatus) (pks : List ℕ) (db : Claims)
      → is_active next ≡ false
      → Sound lower now db
      → Sound lower now (close_rows next t pks db).1
  unfolding close_rows
  close_rows-Sound now t next pks db e h =
      let w : Claim → Bool = λ row. contains row.claim_pk pks in
      let after : Claims = record db { rows = update_rows w (close_row next t) db.rows } in
      let rows = sort newest_first (select_rows (λ r row. w row) after.runs after.rows) in
      Ends-bind (record_releases next t rows after) _ (Sound lower now)
        (record_releases-Sound now t next rows after (
          update_rows-Sound lower now w (close_row next t) db
            (close_row-Tame lower now t db w next e) h))
        λ v s f k. k

  pub release_claims-Sound :
      (run_id : String) (path mode status : Option String) (now : ℕ) (db : Claims)
      → Sound lower now db
      → Sound lower now (release_claims run_id path mode status now db).1
  unfolding release_claims wanted_status
  release_claims-Sound run_id path mode status now db h =
      let P = Sound lower now in
      Ends-lift (or_error unknown_run (get_run run_id db.runs)) _ db P h λ run e.
        Ends-lift (or_error unknown_release_status (wanted_status status)) _ db P h λ next e'.
          Ends-settle db _ P h (
            Ends-bind (expire_stale_leases none now db) _ P
              (expire_stale_leases-Sound lower now now none db h)
              λ v s f k.
                close_rows-Sound now now next _ s
                  (wanted_status-closed status next
                    (or_error-ok unknown_release_status (wanted_status status) next e'))
                  k)

  -- A heartbeat keeps the table sound where every claim that it is for is current.
  beat_claim-Tame :
      (now : ℕ) (expires : Option ℕ) (w : Claim → Bool) (db : Claims)
      → ((row : Claim) → Among row db.rows → w row ≡ true → is_current row.expires_at now ≡ true)
      → Tame lower now db w (beat_claim now expires)
  unfolding beat_claim
  beat_claim-Tame now expires w db h r =
      (refl, refl, refl, refl, refl, λ i e (run, f, g, a, c). (run, f, g, a, h r i e))

  pub heartbeat_claim-Sound :
      (run_id : String) (path mode : Option String) (ttl : Option ℤ) (now : ℕ) (db : Claims)
      → ((run : Run) (row : Claim)
          → get_run run_id db.runs ≡ some run
          → Among row db.rows
          → row.run_pk ≡ run.run_pk
          → normal_path path ≡ some row.file_path
          → is_active row.status ≡ true
          → is_current row.expires_at now ≡ true)
      → Sound lower now db
      → Sound lower now (heartbeat_claim run_id path mode ttl now db).1
  unfolding heartbeat_claim is_beating
  heartbeat_claim-Sound run_id path mode ttl now db current h =
      let P = Sound lower now in
      Ends-lift (or_error unknown_run (get_run run_id db.runs)) _ db P h λ run e.
        Ends-lift (or_error file_path_required (normal_path path)) _ db P h λ at e'.
          let w : Claim → Bool =
            λ row. is_beating run.run_pk at (given_mode mode) row && is_active row.status in
          let after : Claims = record db {
            rows = update_rows w (beat_claim now (iso_after now ttl)) db.rows;
          } in
          let kept : P after =
            update_rows-Sound lower now w (beat_claim now (iso_after now ttl)) db
              (beat_claim-Tame now (iso_after now ttl) w db λ row i hit.
                let (own, same, on) = beating run.run_pk at (given_mode mode) row hit in
                current run row (or_error-ok unknown_run (get_run run_id db.runs) run e) i own
                  (or_error-ok file_path_required (normal_path path) at e' ∙ ap some same) on)
              h in
          Ends-lift
            (or_error no_active_claim (
              first_of (
                select_rows (λ r row. is_beating run.run_pk at (given_mode mode) row) after.runs
                  after.rows)))
            _ after P kept λ joined f. kept
