-- ===== src/Claims/Exclusion/Renewal.antt =====
-- A lease is renewed before it is stale only: `renew_lease` of code_index/lease_manager.py.
use Prim.Native.String.{String}
use memory_network.Prelude.{
  ℕ, ◌≡◌, refl, sym, ap, ◌∙◌, Bool, true, false, inl, inr, Option, none, some, List, [], ◌∷◌, ◌&&◌,
  arith, Bool-cases, subst, nat_beq, str_eq, is_some, eq_iff,
}
use memory_network.Prelude.Equality.{nat_beq_iff}
use memory_network.Prelude.Exec.{Result, ok, err, Ends-bind, Result-cases, bind_result}
use memory_network.Prelude.Int.{ℤ, pos, negsuc}
use memory_network.Prelude.Lists.{Among}
use memory_network.Text.{Unicode}
use memory_network.Runs.{Run, run_of}
use memory_network.Claims.{
  Claim, Claims, ClaimError, first_of, Platform, is_active, is_lease, is_current, claim_row,
  select_rows,
}
use memory_network.Claims.Table.{Among-first_of, select_rows-Among}
use memory_network.Claims.Expiry.{ClaimView, expire_stale_leases}
use memory_network.Claims.Leases.{
  check_lease, token_matches, check_renewal, renew_checked, check_fence_token, record_denied,
  is_same_lease, renew_row, renew_lease,
}
use memory_network.Claims.Exclusion.{Sound}
use memory_network.Claims.Exclusion.Updates.{Tame}
use memory_network.Claims.Exclusion.Steps.{
  change_lease-Sound, expire_stale_leases-Sound, record_denied-Sound,
}
use memory_network.Claims.Exclusion.Stale.{expire_stale_leases-nil}

module _ ⦃u : Unicode⦄ ⦃p : Platform⦄ where
  pub first_of-nil : {A : Type 0} (xs : List A) → is_some (first_of xs) ≡ false → xs ≡ []
  unfolding first_of
  first_of-nil [] e = refl
  first_of-nil (x ∷ xs) e = absurd (cc e)

  both : (a b : Bool) → (a && b) ≡ true → a ≡ true
  both true b h = refl
  both false b h = h

  is_same_lease-true :
      (held row : Claim)
      → is_same_lease held row ≡ true
      → (row.claim_id ≡ held.claim_id)
        × (is_active row.status ≡ true)
        × (is_lease row.lease_kind ≡ true)
  unfolding is_same_lease
  is_same_lease-true held row h =
      ((eq_iff row.claim_id held.claim_id).0 (ground arith), ground arith, ground arith)

  -- the row that a successful check hands on
  pub check_lease-ok :
      (expired : Bool) (found : Option (Run × Claim)) (token : String) (joined : Run × Claim)
      → check_lease expired found token ≡ ok joined
      → (found ≡ some joined)
        × (expired ≡ false)
        × (is_active joined.1.status ≡ true)
        × (token_matches joined.1 token ≡ true)
  unfolding check_lease
  check_lease-ok expired none token joined e = absurd (cc e)
  check_lease-ok true (some (run, row)) token joined e = absurd (cc e)
  check_lease-ok false (some (run, row)) token joined e = elim (Bool-cases (is_active row.status)) [
    | inr off ↦ absurd (cc (rw off at e))
    | inl on ↦ elim (Bool-cases (token_matches row token)) [
      | inr miss ↦ absurd (cc (rw (on, miss) at e))
      | inl hit ↦
          let same : joined ≡ (run, row) = cc (rw (on, hit) at e) in rw same (refl, refl, on, hit)
    ]
  ]

  pub check_renewal-ok :
      (expired : Bool) (found : Option (Run × Claim)) (token : String) (fence : Option ℤ)
      (row : Claim)
      → check_renewal expired found token fence ≡ ok row
      → (run : Run) × (found ≡ some (run, row))
        × (expired ≡ false)
        × (is_active row.status ≡ true)
        × (token_matches row token ≡ true)
        × (fence ≡ some (pos row.fence_token))
  unfolding check_renewal check_fence_token
  check_renewal-ok expired found token fence row e =
      elim (Result-cases (check_lease expired found token)) [
        | inr (error, c) ↦ absurd (cc (rw (check_renewal, c) at e))
        | inl ((run, held), c) ↦
            let (f, x, on, hit) = check_lease-ok expired found token (run, held) c in
            let (same, v) = fence-ok held fence row (rw (check_renewal, c) at e) in
            rw (← same) (run, f, x, on, hit, v)
      ]
    where
      fence-ok :
          (held : Claim) (fence : Option ℤ) (row : Claim)
          → bind_result (check_fence_token fence held) (λ v. ok held) ≡ ok row
          → (held ≡ row) × (fence ≡ some (pos held.fence_token))
      fence-ok held none row e = absurd (cc e)
      fence-ok held (some (negsuc n)) row e = absurd (cc e)
      fence-ok held (some (pos n)) row e = elim (Bool-cases (nat_beq held.fence_token n)) [
        | inr x ↦ absurd (cc (rw x at e))
        | inl x ↦
            (cc (rw x at e), ap (λ k. some (pos k)) (sym ((nat_beq_iff held.fence_token n).0 x)))
      ]

  pub claim_row-some :
      (id : String) (db : Claims) (run : Run) (row : Claim)
      → claim_row id db ≡ some (run, row)
      → Among row db.rows × (run_of row.run_pk db.runs ≡ some run) × (row.claim_id ≡ id)
  unfolding claim_row
  claim_row-some id db run row e =
      let w : Run → Claim → Bool = λ q c. str_eq c.claim_id id in
      let i = Among-first_of (run, row) (select_rows w db.runs db.rows) e in
      let (a, r, h) = select_rows-Among w db.runs db.rows row run i in
      (a, r, (eq_iff row.claim_id id).0 h)

  renew_checked-Sound :
      (now : ℕ) (ttl : Option ℤ) (id : String) (found : Option (Run × Claim))
      (r : Result ClaimError Claim) (db : Claims)
      → ((held : Claim) (row : Claim) (run : Run)
          → r ≡ ok held
          → Among row db.rows
          → run_of row.run_pk db.runs ≡ some run
          → row.claim_id ≡ held.claim_id
          → is_active row.status ≡ true
          → is_lease row.lease_kind ≡ true
          → is_current row.expires_at now ≡ true)
      → Sound p.sql_lower now db
      → Sound p.sql_lower now (renew_checked ttl id now found r db).1
  unfolding renew_checked renew_row
  renew_checked-Sound now ttl id found (err error) db h k =
      Ends-bind (record_denied error found true now db) _ (Sound p.sql_lower now)
        (record_denied-Sound p.sql_lower now now error found true db k) λ a s x l. l
  renew_checked-Sound now ttl id found (ok held) db h k =
      change_lease-Sound p.sql_lower now now _ (renew_row now ttl) id _ _ db tame k
    where
      tame :
          Tame p.sql_lower now db
            (λ r. is_same_lease held r && nat_beq r.fence_token held.fence_token)
            (renew_row now ttl)
      tame r = (
        refl,
        refl,
        refl,
        refl,
        refl,
        λ i w (run, f, g, a, c).
            let (same, on, lease) =
              is_same_lease-true held r
                (both (is_same_lease held r) (nat_beq r.fence_token held.fence_token) w) in
            (run, f, g, a, h held r run refl i f same on lease),
      )

  pub renew_lease-Sound :
      (id token : String) (fence ttl : Option ℤ) (now : ℕ) (db : Claims)
      → Sound p.sql_lower now db
      → Sound p.sql_lower now (renew_lease id token fence ttl now db).1
  unfolding renew_lease
  renew_lease-Sound id token fence ttl now db h =
      Ends-bind (expire_stale_leases (some id) now db) _ (Sound p.sql_lower now)
        (expire_stale_leases-Sound p.sql_lower now now (some id) db h)
        λ expired s e k.
          renew_checked-Sound now ttl id (claim_row id s)
            (check_renewal (is_some (first_of expired)) (claim_row id s) token fence) s
            (λ held row run c a r same on lease.
              let (q, f, x, y, z, v) =
                check_renewal-ok (is_some (first_of expired)) (claim_row id s) token fence held c in
              let (b, t, own) = claim_row-some id s q held f in
              expire_stale_leases-nil id now db s run row h.1
                (subst (λ (v : List ClaimView). expire_stale_leases (some id) now db ≡ (ok v, s))
                  (first_of-nil expired x) e)
                a r (same ∙ own) on lease)
            k
