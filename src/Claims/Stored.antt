-- ===== src/Claims/Stored.antt =====
-- The release of claims leaves the table of runs as it is (code_index/agent_activity.py).
use Prim.Native.String.{String}
use memory_network.Prelude.{
  ℕ, ◌≡◌, Bool, inl, inr, Option, none, List, [], ◌∷◌, nat_beq, Bool-cases,
}
use memory_network.Prelude.Equality.{nat_eq}
use memory_network.Prelude.Exec.{or_error, Ends-bind, Ends-lift, Ends-settle}
use memory_network.Prelude.Lists.{contains}
use memory_network.Prelude.Sort.{sort}
use memory_network.Text.{Unicode}
use memory_network.Runs.{Run, get_run}
use memory_network.Claims.{
  Claim, Claims, ClaimStatus, unknown_run, unknown_release_status, row_count, update_rows,
  select_rows,
}
use memory_network.Claims.Expiry.{
  expire_one, expire_from, expire_stale_leases, record_claim_event, is_active_pk, close_row,
}
use memory_network.Claims.Upkeep.{
  wanted_status, close_rows, newest_first, record_releases, release_claims,
}

module _ ⦃u : Unicode⦄ (runs : List Run) where
  abbrev Kept : Claims → Type 0
  Kept db = db.runs ≡ runs

  expire_one-runs : (t : ℕ) (row : Claim) (db : Claims) → Kept db → Kept (expire_one t row db).1
  unfolding expire_one record_claim_event
  expire_one-runs t row db h =
      elim (Bool-cases (nat_beq (row_count (is_active_pk row.claim_pk) db.rows) 1)) [
        | inl e ↦ rw e h
        | inr e ↦ rw e h
      ]

  expire_from-runs :
      (t : ℕ) (rows : List (Run × Claim)) (db : Claims) → Kept db → Kept (expire_from t rows db).1
  unfolding expire_from
  expire_from-runs t [] db h = h
  expire_from-runs t ((run, row) ∷ rows) db h =
      Ends-bind (expire_one t row db) _ Kept (expire_one-runs t row db h) λ a s e k.
        Ends-bind (expire_from t rows s) _ Kept (expire_from-runs t rows s k) λ b s' e' k'. k'

  expire_stale_leases-runs :
      (id : Option String) (t : ℕ) (db : Claims) → Kept db → Kept (expire_stale_leases id t db).1
  unfolding expire_stale_leases
  expire_stale_leases-runs id t db h = expire_from-runs t _ db h

  record_releases-runs :
      (next : ClaimStatus) (t : ℕ) (rows : List (Run × Claim)) (db : Claims)
      → Kept db
      → Kept (record_releases next t rows db).1
  unfolding record_releases record_claim_event
  record_releases-runs next t [] db h = h
  record_releases-runs next t ((run, row) ∷ rows) db h = record_releases-runs next t rows _ h

  close_rows-runs :
      (next : ClaimStatus) (t : ℕ) (pks : List ℕ) (db : Claims)
      → Kept db
      → Kept (close_rows next t pks db).1
  unfolding close_rows
  close_rows-runs next t pks db h =
      let w : Claim → Bool = λ row. contains row.claim_pk pks in
      let after : Claims = record db { rows = update_rows w (close_row next t) db.rows } in
      let rows = sort newest_first (select_rows (λ r row. w row) after.runs after.rows) in
      Ends-bind (record_releases next t rows after) _ Kept
        (record_releases-runs next t rows after h) λ v s f k. k

  pub release_claims-runs :
      (run_id : String) (path mode status : Option String) (now : ℕ) (db : Claims)
      → Kept db
      → Kept (release_claims run_id path mode status now db).1
  unfolding release_claims wanted_status
  release_claims-runs run_id path mode status now db h =
      Ends-lift (or_error unknown_run (get_run run_id db.runs)) _ db Kept h λ run e.
        Ends-lift (or_error unknown_release_status (wanted_status status)) _ db Kept h λ next e'.
          Ends-settle db _ Kept h (
            Ends-bind (expire_stale_leases none now db) _ Kept
              (expire_stale_leases-runs none now db h) λ v s f k. close_rows-runs next now _ s k)
