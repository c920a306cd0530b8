-- ===== src/Claims/Exclusion/Steps.antt =====
-- The operations on file claims and leases that keep the claim table sound
-- (code_index/agent_activity.py, code_index/lease_manager.py).
use Prim.Native.String.{String}
use memory_network.Prelude.{
  ℕ, ◌≡◌, refl, Bool, false, inl, inr, Option, none, some, List, [], ◌∷◌, Bool-cases, nat_beq,
  Option-cases, str_eq,
}
use memory_network.Prelude.Exec.{Result, ok, err, Ends-bind}
use memory_network.Text.{Unicode}
use memory_network.Runs.{Run}
use memory_network.Claims.{
  Claim, Claims, ClaimStatus, EventType, ClaimError, bad_token, malformed_fence, stale_fence,
  Platform, is_active, update_rows, row_count, claim_row,
}
use memory_network.Claims.Expiry.{
  expire_one, expire_from, expire_stale_leases, is_active_pk, close_row, record_claim_event,
}
use memory_network.Claims.Leases.{
  change_lease, record_denied, release_lease, release_checked, next_status,
}
use memory_network.Claims.Exclusion.{Sound}
use memory_network.Claims.Exclusion.Updates.{Tame, update_rows-Sound}

module _ ⦃u : Unicode⦄ (lower : String → String) where
  pub close_row-Tame :
      (now t : ℕ) (db : Claims) (w : Claim → Bool) (status : ClaimStatus)
      → is_active status ≡ false
      → Tame lower now db w (close_row status t)
  unfolding close_row
  close_row-Tame now t db w status e r =
      (refl, refl, refl, refl, refl, λ i h (run, f, g, a, c). absurd (cc (e, a)))

  expire_one-Sound :
      (now t : ℕ) (row : Claim) (db : Claims)
      → Sound lower now db
      → Sound lower now (expire_one t row db).1
  unfolding expire_one record_claim_event
  expire_one-Sound now t row db h =
      elim (Bool-cases (nat_beq (row_count (is_active_pk row.claim_pk) db.rows) 1)) [
        | inr e ↦ rw e h
        | inl e ↦ rw e (
            update_rows-Sound lower now (is_active_pk row.claim_pk)
              (close_row ClaimStatus.expired t) db
              (close_row-Tame now t db (is_active_pk row.claim_pk) ClaimStatus.expired refl) h)
      ]

  expire_from-Sound :
      (now t : ℕ) (rows : List (Run × Claim)) (db : Claims)
      → Sound lower now db
      → Sound lower now (expire_from t rows db).1
  unfolding expire_from
  expire_from-Sound now t [] db h = h
  expire_from-Sound now t ((run, row) ∷ rows) db h =
      Ends-bind (expire_one t row db) _ (Sound lower now) (expire_one-Sound now t row db h)
        λ a s e k.
          Ends-bind (expire_from t rows s) _ (Sound lower now) (expire_from-Sound now t rows s k)
            λ b s' e' k'. k'

  pub expire_stale_leases-Sound :
      (now t : ℕ) (id : Option String) (db : Claims)
      → Sound lower now db
      → Sound lower now (expire_stale_leases id t db).1
  unfolding expire_stale_leases
  expire_stale_leases-Sound now t id db h = expire_from-Sound now t _ db h

module _ ⦃u : Unicode⦄ ⦃p : Platform⦄ (lower : String → String) where
  -- a change by `change_lease` with the event after it
  pub change_lease-Sound :
      (now t : ℕ) (w : Claim → Bool) (set : Claim → Claim) (id : String) (event : EventType)
      (verb : String) (db : Claims)
      → Tame lower now db w set
      → Sound lower now db
      → Sound lower now (change_lease w set id event verb t db).1
  unfolding change_lease record_claim_event
  change_lease-Sound now t w set id event verb db tame h =
      elim (Bool-cases (nat_beq (row_count w db.rows) 1)) [
        | inr e ↦ rw e h
        | inl e ↦
            let changed = update_rows-Sound lower now w set db tame h in
            rw e
              (elim (Option-cases (claim_row id (record db { rows = update_rows w set db.rows }))) [
                | inl n ↦ rw n changed
                | inr ((run, row), n) ↦ rw n (update_rows-Sound lower now w set db tame h)
              ])
      ]

  pub record_denied-Sound :
      (now t : ℕ) (error : ClaimError) (found : Option (Run × Claim)) (renewing : Bool)
      (db : Claims)
      → Sound lower now db
      → Sound lower now (record_denied error found renewing t db).1
  unfolding record_denied record_claim_event
  record_denied-Sound now t error none renewing db h = h
  record_denied-Sound now t bad_token (some (run, row)) renewing db h = h
  record_denied-Sound now t malformed_fence (some (run, row)) renewing db h = h
  record_denied-Sound now t stale_fence (some (run, row)) renewing db h = h
  record_denied-Sound now t _ (some (run, row)) renewing db h = h

  release_checked-Sound :
      (now t : ℕ) (next : ClaimStatus) (id : String) (found : Option (Run × Claim))
      (r : Result ClaimError (Run × Claim)) (db : Claims)
      → is_active next ≡ false
      → Sound lower now db
      → Sound lower now (release_checked next id t found r db).1
  unfolding release_checked
  release_checked-Sound now t next id found (err error) db e h =
      Ends-bind (record_denied error found false t db) _ (Sound lower now)
        (record_denied-Sound now t error found false db h) λ a s x k. k
  release_checked-Sound now t next id found (ok (run, row)) db e h =
      change_lease-Sound now t _ _ id _ _ db (close_row-Tame lower now t db _ next e) h

  next_status-closed : (status : String) → is_active (next_status status) ≡ false
  unfolding next_status
  next_status-closed status = elim (Bool-cases (str_eq status "expired")) [
    | inl e ↦ rw e refl
    | inr e ↦ rw e refl
  ]

  pub release_lease-Sound :
      (now t : ℕ) (id token status : String) (db : Claims)
      → Sound lower now db
      → Sound lower now (release_lease id token status t db).1
  unfolding release_lease
  release_lease-Sound now t id token status db h =
      Ends-bind (expire_stale_leases (some id) t db) _ (Sound lower now)
        (expire_stale_leases-Sound lower now t (some id) db h)
        λ expired s e k.
          release_checked-Sound now t (next_status status) id (claim_row id s) _ s
            (next_status-closed status) k
