-- ===== src/Claims/Exclusion/Stale.antt =====
-- When `expire_stale_leases` of code_index/lease_manager.py returns no lease, none was stale.
use Prim.Native.String.{String}
use memory_network.Prelude.{
  ℕ, ◌≡◌, ◌≢◌, refl, sym, ap, Bool, true, false, inl, inr, Option, none, some, List, [], ◌∷◌, arith,
  Bool-cases, subst, nat_beq, str_eq, eq_iff,
}
use memory_network.Prelude.Equality.{nat_beq_iff}
use memory_network.Prelude.Exec.{Result, ok, err, resume, pure}
use memory_network.Prelude.Lists.{Among, All, All-at}
use memory_network.Prelude.Sort.{sort, sort-Among, sort-nil}
use memory_network.Text.{Unicode}
use memory_network.Runs.{Run, run_of}
use memory_network.Claims.{
  Claim, Claims, ClaimStatus, ClaimError, is_active, is_lease, is_current, is_stale, update_rows,
  row_count, claim_row, select_rows,
}
use memory_network.Claims.Table.{
  Among-select_rows, Among-update_rows, first_of-Among, select_rows-Among,
}
use memory_network.Claims.Expiry.{
  expire_one, expire_from, expire_stale_leases, is_active_pk, close_row, record_claim_event,
  is_stale_lease, expires_before, public_claim,
}
use memory_network.Claims.Exclusion.{Distinct}

module _ ⦃u : Unicode⦄ where
  row_count-absent :
      (pk : ℕ) (rows : List Claim)
      → All (λ (r : Claim). r.claim_pk ≢ pk) rows
      → row_count (is_active_pk pk) rows ≡ 0
  unfolding row_count is_active_pk
  row_count-absent pk [] h = refl
  row_count-absent pk (r ∷ rows) (h, hs) = elim (Bool-cases (nat_beq r.claim_pk pk)) [
    | inl e ↦ absurd (h ((nat_beq_iff r.claim_pk pk).0 e))
    | inr e ↦ rw e (row_count-absent pk rows hs)
  ]

  -- An active row is the one that its primary key finds.
  row_count-one :
      (row : Claim) (rows : List Claim)
      → Distinct rows
      → Among row rows
      → is_active row.status ≡ true
      → row_count (is_active_pk row.claim_pk) rows ≡ 1
  unfolding row_count is_active_pk
  row_count-one row [] d a h = absurd a
  row_count-one row (r ∷ rows) (d, ds) (inl e) h =
      let same : nat_beq r.claim_pk row.claim_pk ≡ true =
        (nat_beq_iff r.claim_pk row.claim_pk).1 (ap (λ (x : Claim). x.claim_pk) (sym e)) in
      let on : is_active r.status ≡ true = subst (λ (x : Claim). is_active x.status ≡ true) e h in
      let others =
        row_count-absent row.claim_pk rows
          (subst (λ (x : Claim). All (λ (y : Claim). y.claim_pk ≢ x.claim_pk) rows) (sym e) d) in
      rw (row_count, is_active_pk, same, on, others) refl
  row_count-one row (r ∷ rows) (d, ds) (inr a) h =
      let ne = All-at (λ (y : Claim). y.claim_pk ≢ r.claim_pk) row rows a d in
      elim (Bool-cases (nat_beq r.claim_pk row.claim_pk)) [
        | inl e ↦ absurd (ne (sym ((nat_beq_iff r.claim_pk row.claim_pk).0 e)))
        | inr e ↦ rw (row_count, is_active_pk, e) (row_count-one row rows ds a h)
      ]

  -- The row that is closed is read again.
  expire_one-some :
      (t : ℕ) (run : Run) (row : Claim) (db : Claims)
      → Distinct db.rows
      → Among row db.rows
      → is_active row.status ≡ true
      → run_of row.run_pk db.runs ≡ some run
      → (joined : Run × Claim) × (s : Claims) × (expire_one t row db ≡ (ok (some joined), s))
  unfolding expire_one claim_row close_row is_active_pk record_claim_event
  expire_one-some t run row db d a on r =
      let w = is_active_pk row.claim_pk in
      let set = close_row ClaimStatus.expired t in
      let hit : w row ≡ true =
        rw (is_active_pk, (nat_beq_iff row.claim_pk row.claim_pk).1 refl, on) refl in
      let closed = Among-update_rows w set db.rows row a hit in
      let kept =
        Among-select_rows (λ q c. str_eq c.claim_id row.claim_id) db.runs
          (update_rows w set db.rows) (set row) run closed r
          ((eq_iff row.claim_id row.claim_id).1 refl) in
      let (joined, e, i) = first_of-Among (run, set row) _ kept in
      let value : (expire_one t row db).0 ≡ ok (some joined) =
        rw (expire_one, row_count-one row db.rows d a on, claim_row, e) refl in
      (joined, (expire_one t row db).1, ap (λ v. (v, (expire_one t row db).1)) value)

  cons-nonempty :
      {A : Type 0} (v : A) (x : Result ClaimError (List A) × Claims) (s : Claims)
      → resume x (λ vs. pure (v ∷ vs)) ≢ (ok [], s)
  cons-nonempty v (ok vs, s') s e = absurd (cc e)
  cons-nonempty v (err b, s') s e = absurd (cc e)

  -- If no view is returned, then no lease was stale.
  pub expire_from-nil :
      (t : ℕ) (rows : List (Run × Claim)) (db s : Claims)
      → Distinct db.rows
      → ((run : Run) (row : Claim)
          → Among (run, row) rows
          → Among row db.rows
            × (is_active row.status ≡ true)
            × (run_of row.run_pk db.runs ≡ some run))
      → expire_from t rows db ≡ (ok [], s)
      → (rows ≡ []) × (s ≡ db)
  unfolding expire_from
  expire_from-nil t [] db s d h e = (refl, cc e)
  expire_from-nil t ((run, row) ∷ rows) db s d h e =
      let (a, on, r) = h run row (inl refl) in
      let (joined, s', x) = expire_one-some t run row db d a on r in
      absurd
        (cons-nonempty (public_claim joined) (expire_from t rows s') s (rw (expire_from, x) at e))

  stale-active :
      (id : String) (t : ℕ) (row : Claim)
      → is_stale_lease (some id) t row ≡ true
      → is_active row.status ≡ true
  unfolding is_stale_lease
  stale-active id t row h = ground arith

  fresh-current : (e : Option ℕ) (t : ℕ) → is_stale e t ≡ false → is_current e t ≡ true
  unfolding is_stale is_current
  fresh-current none t h = refl
  fresh-current (some x) t h = ground arith

  -- When no lease under the id was expired, then none that a stored run holds is stale.
  pub expire_stale_leases-nil :
      (id : String) (t : ℕ) (db s : Claims) (run : Run) (row : Claim)
      → Distinct db.rows
      → expire_stale_leases (some id) t db ≡ (ok [], s)
      → Among row s.rows
      → run_of row.run_pk s.runs ≡ some run
      → row.claim_id ≡ id
      → is_active row.status ≡ true
      → is_lease row.lease_kind ≡ true
      → is_current row.expires_at t ≡ true
  unfolding expire_stale_leases
  expire_stale_leases-nil id t db s run row d e a r same on lease =
      let w : Run → Claim → Bool = λ q c. is_stale_lease (some id) t c in
      let stale = select_rows w db.runs db.rows in
      let (nothing, unchanged) =
        expire_from-nil t (sort expires_before stale) db s d
          (λ q c i.
            let (x, y, z) =
              select_rows-Among w db.runs db.rows c q (sort-Among expires_before (q, c) stale i) in
            (x, stale-active id t c z, y))
          e in
      let none_stale = sort-nil expires_before stale nothing in
      elim (Bool-cases (is_stale row.expires_at t)) [
        | inr fresh ↦ fresh-current row.expires_at t fresh
        | inl old ↦
            let chosen : w run row ≡ true = elim (Bool-cases (str_eq id "")) [
              | inl empty ↦ rw (is_stale_lease, lease, on, old, empty) refl
              | inr given ↦
                  rw (is_stale_lease, lease, on, old, given, (eq_iff row.claim_id id).1 same) refl
            ] in
            let here : Among row db.rows = subst (λ (x : Claims). Among row x.rows) unchanged a in
            let found : run_of row.run_pk db.runs ≡ some run =
              subst (λ (x : Claims). run_of row.run_pk x.runs ≡ some run) unchanged r in
            let listed : Among {A = Run × Claim} (run, row) [] =
              subst (Among {A = Run × Claim} (run, row)) none_stale
                (Among-select_rows w db.runs db.rows row run here found chosen) in
            absurd listed
      ]
