-- ===== src/Claims/Outcomes.antt =====
-- When a lease is renewed or released, and what a refusal leaves (code_index/lease_manager.py), and
-- what a verified write means (code_index/agent_activity.py).
use Prim.Native.String.{String}
use memory_network.Prelude.{
  ℕ, zero, suc, if◌then◌else◌, ltb, ◌+◌, ◌≡◌, ◌↔◌, ◌⊎◌, refl, sym, ap, Bool, true, false, inl, inr,
  Option, none, some, List, [], ◌∷◌, ◌&&◌, Bool-cases, subst, nat_beq, Option-cases, is_some, arith,
  eq_iff, str_eq,
}
use memory_network.Prelude.Equality.{nat_beq_iff}
use memory_network.Prelude.Exec.{Result, ok, err, resume, raise, resume-ok}
use memory_network.Prelude.Int.{ℤ, pos, negsuc}
use memory_network.Prelude.Lists.{Among}
use memory_network.Text.{Unicode}
use memory_network.Runs.{Run}
use memory_network.Claims.{
  Claim, Claims, ClaimStatus, EventType, ClaimError, unknown_claim, lease_expired, not_active,
  bad_token, malformed_fence, stale_fence, first_of, Platform, is_active, is_lease, iso_after,
  update_rows, row_count, claim_row,
}
use memory_network.Claims.Expiry.{ClaimView, expire_stale_leases, close_row, record_claim_event}
use memory_network.Claims.Leases.{
  change_lease, check_lease, token_matches, check_renewal, renew_checked, record_denied,
  is_same_lease, renew_row, renew_lease, release_lease, release_checked, next_status,
}
use memory_network.Claims.Exclusion.Renewal.{
  first_of-nil, check_lease-ok, check_renewal-ok, claim_row-some,
}

module _ ⦃u : Unicode⦄ ⦃p : Platform⦄ where
  -- The holder of a lease: the row under the id in the table, active, with the hash of the token.
  abbrev pub Holds : String → String → Claim → Claims → Type 0
  Holds claim_id token row db =
      Among row db.rows
      × (row.claim_id ≡ claim_id)
      × (is_active row.status ≡ true)
      × (token_matches row token ≡ true)

  change_lease-ok :
      (w : Claim → Bool) (set : Claim → Claim) (id : String) (event : EventType) (verb : String)
      (now : ℕ) (db s : Claims) (view : ClaimView)
      → change_lease w set id event verb now db ≡ (ok view, s)
      → s.rows ≡ update_rows w set db.rows
  unfolding change_lease record_claim_event
  change_lease-ok w set id event verb now db s view e =
      elim (Bool-cases (nat_beq (row_count w db.rows) 1)) [
        | inr more ↦ absurd (cc (rw more at e))
        | inl one ↦
            elim (Option-cases (claim_row id (record db { rows = update_rows w set db.rows }))) [
              | inl n ↦ absurd (cc (rw (one, n) at e))
              | inr ((run, row), n) ↦
                  ap (λ (x : Result ClaimError ClaimView × Claims). x.1.rows)
                    (sym (rw (one, n) at e))
            ]
      ]

  abbrev renewed_rows : ℕ → Option ℤ → Claim → List Claim → List Claim
  renewed_rows now ttl row rows =
      update_rows (λ r. is_same_lease row r && nat_beq r.fence_token row.fence_token)
        (renew_row now ttl) rows

  -- an active lease under the same id with the same token hash
  abbrev pub SameLease : Claim → Claim → Type 0
  SameLease held row =
      (row.claim_id ≡ held.claim_id)
      × (is_active row.status ≡ true)
      × (is_lease row.lease_kind ≡ true)
      × (row.lease_token_hash ≡ held.lease_token_hash)

  -- The rows of a table after those with a property are replaced: row by row, each of them is
  -- replaced and every other one is kept.
  abbrev pub Replaced : (Claim → Type 0) → (Claim → Claim) → List Claim → List Claim → Type 0
  Replaced P new [] [] = Unit
  Replaced P new (r ∷ rs) (r' ∷ rs') =
      ((P r × (r' ≡ new r)) ⊎ (¬ P r × (r' ≡ r))) × Replaced P new rs rs'
  Replaced P new _ _ = ⊥

  update_rows-Replaced :
      (w : Claim → Bool) (set : Claim → Claim) (P : Claim → Type 0) (new : Claim → Claim)
      (rows : List Claim)
      → ((r : Claim) → w r ≡ true → P r × (set r ≡ new r))
      → ((r : Claim) → w r ≡ false → ¬ P r)
      → Replaced P new rows (update_rows w set rows)
  unfolding update_rows
  update_rows-Replaced w set P new [] yes_of no_of = tt
  update_rows-Replaced w set P new (r ∷ rows) yes_of no_of = (
    elim (Bool-cases (w r)) [
      | inl e ↦ rw e (inl (yes_of r e))
      | inr e ↦ rw e (inr (no_of r e, refl))
    ],
    update_rows-Replaced w set P new rows yes_of no_of,
  )

  is_same_lease-SameLease :
      (held row : Claim) (token : String)
      → token_matches held token ≡ true
      → (is_same_lease held row ≡ true) ↔ SameLease held row
  unfolding is_same_lease token_matches
  is_same_lease-SameLease held row token hit = elim (Option-cases held.lease_token_hash) [
    | inl n ↦ absurd (let z = rw (token_matches, n) at hit in cc z)
    | inr (x, n) ↦ elim (Option-cases row.lease_token_hash) [
      | inl m ↦ (
        λ h. absurd (let z = rw (is_same_lease, m) at h in ground arith),
        λ p. absurd (let z = rw (n, m) at p.3 in cc z),
      )
      | inr (y, m) ↦
          rw (is_same_lease, m, n)
            (
              λ h. (
                (eq_iff row.claim_id held.claim_id).0 (ground arith),
                ground arith,
                ground arith,
                ap some ((eq_iff y x).0 (ground arith)),
              ),
              λ (a, b, c, e).
                  rw ((eq_iff row.claim_id held.claim_id).1 a, b, c, (eq_iff y x).1 (cc e)) refl,
            )
    ]
  ]

  -- the expiry that a renewal writes
  abbrev pub expiry : ℕ → Option ℤ → Option ℕ
  expiry now none = none
  expiry now (some (negsuc n)) = none
  expiry now (some (pos n)) = if ltb 0 n then some (now + n) else none

  iso_after-expiry : (now : ℕ) (ttl : Option ℤ) → iso_after now ttl ≡ expiry now ttl
  unfolding iso_after
  iso_after-expiry now none = refl
  iso_after-expiry now (some (negsuc n)) = refl
  iso_after-expiry now (some (pos zero)) = refl
  iso_after-expiry now (some (pos (suc n))) = ground arith

  -- a row after its renewal
  abbrev pub renewed : ℕ → Option ℤ → Claim → Claim
  renewed now ttl row = record row {
    heartbeat_at = some now;
    updated_at = now;
    expires_at = expiry now ttl;
  }

  -- a row after its release: expired if that was asked for
  abbrev pub closed : String → ℕ → Claim → Claim
  closed status now row = record row {
    status = if str_eq status "expired" then ClaimStatus.expired else ClaimStatus.released;
    lease_token_hash = none;
    updated_at = now;
    released_at = some now;
  }

  renewed_rows-Replaced :
      (now : ℕ) (ttl : Option ℤ) (row : Claim) (token : String) (rows : List Claim)
      → token_matches row token ≡ true
      → Replaced
          (λ r. SameLease row r × (r.fence_token ≡ row.fence_token))
          (renewed now ttl)
          rows
          (renewed_rows now ttl row rows)
  unfolding renew_row
  renewed_rows-Replaced now ttl row token rows hit =
      update_rows-Replaced _ _ (λ r. SameLease row r × (r.fence_token ≡ row.fence_token)) _ rows
        (λ r e. (
          (
            (is_same_lease-SameLease row r token hit).0 (ground arith),
            (nat_beq_iff r.fence_token row.fence_token).0 (ground arith),
          ),
          ap
              (λ (x : Option ℕ). record r {
                heartbeat_at = some now;
                updated_at = now;
                expires_at = x;
              })
              (iso_after-expiry now ttl),
        ))
        (λ r e (same, fence).
          let z =
            rw
              (
                (is_same_lease-SameLease row r token hit).1 same,
                (nat_beq_iff r.fence_token row.fence_token).1 fence,
              )
              at e in
          cc z)

  closed_rows-Replaced :
      (now : ℕ) (status : String) (row : Claim) (token : String) (rows : List Claim)
      → token_matches row token ≡ true
      → Replaced
          (SameLease row)
          (closed status now)
          rows
          (update_rows (is_same_lease row) (close_row (next_status status) now) rows)
  unfolding close_row next_status
  closed_rows-Replaced now status row token rows hit =
      update_rows-Replaced _ _ (SameLease row) _ rows
        (λ r e. ((is_same_lease-SameLease row r token hit).0 e, refl))
        (λ r e same. let z = rw ((is_same_lease-SameLease row r token hit).1 same) at e in cc z)

  renew_checked-ok :
      (ttl : Option ℤ) (id : String) (now : ℕ) (found : Option (Run × Claim))
      (r : Result ClaimError Claim) (db s : Claims) (view : ClaimView)
      → renew_checked ttl id now found r db ≡ (ok view, s)
      → (row : Claim) × (r ≡ ok row) × (s.rows ≡ renewed_rows now ttl row db.rows)
  unfolding renew_checked
  renew_checked-ok ttl id now found (err error) db s view e =
      let (v, t, x, y) = resume-ok (record_denied error found true now db) _ view s e in
      absurd (cc y)
  renew_checked-ok ttl id now found (ok row) db s view e =
      (row, refl, change_lease-ok _ (renew_row now ttl) id _ _ now db s view e)

  release_checked-ok :
      (next : ClaimStatus) (id : String) (now : ℕ) (found : Option (Run × Claim))
      (r : Result ClaimError (Run × Claim)) (db s : Claims) (view : ClaimView)
      → release_checked next id now found r db ≡ (ok view, s)
      → (joined : Run × Claim) × (r ≡ ok joined)
        × (s.rows ≡ update_rows (is_same_lease joined.1) (close_row next now) db.rows)
  unfolding release_checked
  release_checked-ok next id now found (err error) db s view e =
      let (v, t, x, y) = resume-ok (record_denied error found false now db) _ view s e in
      absurd (cc y)
  release_checked-ok next id now found (ok (run, row)) db s view e =
      ((run, row), refl, change_lease-ok _ (close_row next now) id _ _ now db s view e)

  -- A lease is renewed only for the token of which its row has the hash and for its own fence,
  -- while it is active: the row stands under the id after the stale leases under it have been
  -- expired, and none was. Then the active lease rows with that id, hash and fence, and no others,
  -- have `now` as their heartbeat and update, and the expiry `now` plus a positive duration, or none;
  -- all else in them stays.
  pub renew_lease-Holds :
      (claim_id token : String) (fence ttl : Option ℤ) (now : ℕ) (db s : Claims) (view : ClaimView)
      → renew_lease claim_id token fence ttl now db ≡ (ok view, s)
      → (row : Claim) × (t : Claims) × (expire_stale_leases (some claim_id) now db ≡ (ok [], t))
        × Holds claim_id token row t
        × (fence ≡ some (pos row.fence_token))
        × Replaced
            (λ r. SameLease row r × (r.fence_token ≡ row.fence_token))
            (renewed now ttl)
            t.rows
            s.rows
  unfolding renew_lease
  renew_lease-Holds claim_id token fence ttl now db s view e =
      let (expired, t, x, y) = resume-ok (expire_stale_leases (some claim_id) now db) _ view s e in
      let (row, c, changed) =
        renew_checked-ok ttl claim_id now (claim_row claim_id t)
          (check_renewal (is_some (first_of expired)) (claim_row claim_id t) token fence) t s view
          y in
      let (run, f, none_expired, on, hit, same) =
        check_renewal-ok (is_some (first_of expired)) (claim_row claim_id t) token fence row c in
      let (a, r, own) = claim_row-some claim_id t run row f in
      (
        row,
        t,
        subst (λ (v : List ClaimView). expire_stale_leases (some claim_id) now db ≡ (ok v, t))
            (first_of-nil expired none_expired) x,
        (a, own, on, hit),
        same,
        rw changed (renewed_rows-Replaced now ttl row token t.rows hit),
      )

  -- A lease is released only for the token of which its row has the hash, while it is active: the
  -- row stands under the id after the stale leases under it have been expired, and none was. Then
  -- the active lease rows with that id and hash, and no others, are expired if the text `expired` is
  -- given and released otherwise, without a token hash, updated and released at `now`; all else in
  -- them stays.
  pub release_lease-Holds :
      (claim_id token status : String) (now : ℕ) (db s : Claims) (view : ClaimView)
      → release_lease claim_id token status now db ≡ (ok view, s)
      → (row : Claim) × (t : Claims) × (expire_stale_leases (some claim_id) now db ≡ (ok [], t))
        × Holds claim_id token row t
        × Replaced (SameLease row) (closed status now) t.rows s.rows
  unfolding release_lease
  release_lease-Holds claim_id token status now db s view e =
      let (expired, t, x, y) = resume-ok (expire_stale_leases (some claim_id) now db) _ view s e in
      let ((run, row), c, changed) =
        release_checked-ok (next_status status) claim_id now (claim_row claim_id t)
          (check_lease (is_some (first_of expired)) (claim_row claim_id t) token) t s view y in
      let (f, none_expired, on, hit) =
        check_lease-ok (is_some (first_of expired)) (claim_row claim_id t) token (run, row) c in
      let (a, r, own) = claim_row-some claim_id t run row f in
      (
        row,
        t,
        subst (λ (v : List ClaimView). expire_stale_leases (some claim_id) now db ≡ (ok v, t))
            (first_of-nil expired none_expired) x,
        (a, own, on, hit),
        rw changed (closed_rows-Replaced now status row token t.rows hit),
      )

  -- The call raises, and leaves the runs and the rows of `t`.
  abbrev pub Refused : Result ClaimError ClaimView × Claims → Claims → Type 0
  Refused x t =
      ((error : ClaimError) × (x.0 ≡ err error)) × (x.1.rows ≡ t.rows) × (x.1.runs ≡ t.runs)

  -- no row that stands under the id has the hash of the token
  abbrev pub NoMatch : String → Option (Run × Claim) → Type 0
  NoMatch token found =
      (run : Run) (row : Claim) → found ≡ some (run, row) → token_matches row token ≡ false

  check_lease-NoMatch :
      (expired : Bool) (found : Option (Run × Claim)) (token : String)
      → NoMatch token found
      → (error : ClaimError) × (check_lease expired found token ≡ err error)
  unfolding check_lease
  check_lease-NoMatch expired none token miss = (unknown_claim, refl)
  check_lease-NoMatch true (some (run, row)) token miss = (lease_expired, refl)
  check_lease-NoMatch false (some (run, row)) token miss =
      elim (Bool-cases (is_active row.status)) [
        | inl on ↦ (bad_token, rw (on, miss run row refl) refl)
        | inr off ↦ (not_active, rw off refl)
      ]

  raise-Refused :
      (error error' : ClaimError) (found : Option (Run × Claim)) (renewing : Bool) (now : ℕ)
      (t : Claims)
      → Refused (resume (record_denied error found renewing now t) (λ _. raise error')) t
  unfolding record_denied record_claim_event
  raise-Refused error error' none renewing now t = ((error', refl), refl, refl)
  raise-Refused bad_token error' (some (run, row)) renewing now t = ((error', refl), refl, refl)
  raise-Refused malformed_fence error' (some (run, row)) renewing now t =
      ((error', refl), refl, refl)
  raise-Refused stale_fence error' (some (run, row)) renewing now t = ((error', refl), refl, refl)
  raise-Refused _ error' (some (run, row)) renewing now t = ((error', refl), refl, refl)

  -- A token of which the row under the id does not have the hash, or an id without a row, is refused
  -- in every state of the table, whatever fence, duration or status is given: both `renew_lease` and
  -- `release_lease` raise, and leave the runs and the rows as the expiry of the stale leases under
  -- the id left them.
  pub wrong_token-Refused :
      (claim_id token status : String) (fence ttl : Option ℤ) (now : ℕ) (db t : Claims)
      (expired : List ClaimView)
      → expire_stale_leases (some claim_id) now db ≡ (ok expired, t)
      → NoMatch token (claim_row claim_id t)
      → Refused (renew_lease claim_id token fence ttl now db) t
        × Refused (release_lease claim_id token status now db) t
  unfolding renew_lease release_lease check_renewal renew_checked release_checked
  wrong_token-Refused claim_id token status fence ttl now db t expired x miss =
      let (error, e) =
        check_lease-NoMatch (is_some (first_of expired)) (claim_row claim_id t) token miss in
      (
        rw (x, e) (raise-Refused error error (claim_row claim_id t) true now t),
        rw (x, e) (raise-Refused error error (claim_row claim_id t) false now t),
      )
