-- ===== src/Claims/Verified.antt =====
-- What a verified write means: `verify_write_claim` of code_index/agent_activity.py.
use Prim.Native.String.{String}
use memory_network.Prelude.{
  ℕ, ◌≡◌, ◌≢◌, refl, sym, ap, Bool, true, false, inl, inr, ◌⊎◌, Option, none, some, List, [], ◌∷◌,
  arith, Bool-cases, subst, nat_beq, Option-cases, eq_iff,
}
use memory_network.Prelude.Equality.{nat_beq_iff}
use memory_network.Prelude.Int.{ℤ, pos, negsuc}
use memory_network.Prelude.Lists.{Among, filter}
use memory_network.Prelude.Sort.{sort, sort-Among, Among-sort}
use memory_network.Text.{Unicode}
use memory_network.Runs.{Run, run_of, get_run}
use memory_network.Claims.{
  Claim, Claims, Platform, is_active, is_current, is_write_mode, normal_path, first_of, select_rows,
}
use memory_network.Claims.Expiry.{ClaimView, public_claim}
use memory_network.Claims.Table.{
  Among-select_rows, select_rows-Among, first_of-Among, Among-first_of,
}
use memory_network.Claims.Upkeep.{newest_first}
use memory_network.Claims.Writes.{
  expired_claim, verified, has_fence, is_foreign_write, is_own_write, check_current, check_own,
  verify_write_claim,
}
use memory_network.Claims.Exclusion.{Live}

module _ ⦃u : Unicode⦄ ⦃p : Platform⦄ where
  -- a claim that lets its run write at an instant, with the fence that is presented
  abbrev pub MayWrite : Run → String → ℤ → ℕ → Claim → Claims → Type 0
  MayWrite run path fence now row db =
      Among row db.rows
      × (row.run_pk ≡ run.run_pk)
      × (row.file_path ≡ path)
      × (is_active row.status ≡ true)
      × (is_write_mode row.mode ≡ true)
      × (is_current row.expires_at now ≡ true)
      × (fence ≡ pos row.fence_token)

  -- No claim in force of another run lets it write.
  abbrev pub NoOtherWriter : Run → String → ℕ → Claims → Type 0
  NoOtherWriter run path now db =
      (other : Claim)
      → Among other db.rows
      → Live p.sql_lower now db.runs other
      → other.file_path ≡ path
      → other.run_pk ≢ run.run_pk
      → is_write_mode other.mode ≡ false

  filter-Among :
      {A : Type 0} (w : A → Bool) (x : A) (xs : List A)
      → Among x (filter w xs)
      → Among x xs × (w x ≡ true)
  filter-Among w x [] a = absurd a
  filter-Among w x (y ∷ xs) a = elim (Bool-cases (w y)) [
    | inr h ↦ let (b, e) = filter-Among w x xs (rw (filter, h) at a) in (inr b, e)
    | inl h ↦ first h (filter-Among w x xs) (rw (filter, h) at a)
  ]
    where
      first :
          w y ≡ true
          → (Among x (filter w xs) → Among x xs × (w x ≡ true))
          → (x ≡ y) ⊎ Among x (filter w xs)
          → ((x ≡ y) ⊎ Among x xs) × (w x ≡ true)
      first h later (inl e) = (inl e, subst (λ z. w z ≡ true) (sym e) h)
      first h later (inr b) = let (c, e) = later b in (inr c, e)

  check_current-verified :
      (fence : ℤ) (current : List (Run × Claim)) (view : ClaimView)
      → check_current fence current ≡ verified view
      → (joined : Run × Claim) × Among joined current
        × (has_fence fence joined.1 ≡ true)
        × (view ≡ public_claim joined)
  unfolding check_current
  check_current-verified fence current view e =
      let w : Run × Claim → Bool = λ joined. has_fence fence joined.1 in
      elim (Option-cases (first_of (filter w current))) [
        | inl n ↦ absurd (cc (rw (check_current, n) at e))
        | inr (joined, f) ↦
            let (a, h) =
              filter-Among w joined current (Among-first_of joined (filter w current) f) in
            (joined, a, h, cc (rw (check_current, f) at e))
      ]

  check_own-verified :
      (fence : ℤ) (now : ℕ) (own : List (Run × Claim)) (view : ClaimView)
      → check_own fence now own ≡ verified view
      → (joined : Run × Claim) × Among joined own
        × (is_current joined.1.expires_at now ≡ true)
        × (has_fence fence joined.1 ≡ true)
        × (view ≡ public_claim joined)
  unfolding check_own
  check_own-verified fence now [] view e = absurd (cc e)
  check_own-verified fence now (oldest ∷ own) view e = by_current _ refl e
    where
      w : Run × Claim → Bool
      w joined = is_current joined.1.expires_at now

      by_current :
          (current : List (Run × Claim))
          → current ≡ filter w (oldest ∷ own)
          → elim current [
            | [] ↦ expired_claim (public_claim oldest)
            | joined ∷ rest ↦ check_current fence (joined ∷ rest)
          ]
            ≡ verified view
          → (joined : Run × Claim) × Among joined (oldest ∷ own)
            × (is_current joined.1.expires_at now ≡ true)
            × (has_fence fence joined.1 ≡ true)
            × (view ≡ public_claim joined)
      by_current [] same e = absurd (cc e)
      by_current (x ∷ xs) same e =
          let (joined, a, h, v) = check_current-verified fence (x ∷ xs) view e in
          let (b, c) = filter-Among w joined (oldest ∷ own) (subst (Among joined) same a) in
          (joined, b, c, h, v)

  -- What the tests of the two queries say of a row.
  own_write :
      (run_pk : ℕ) (path : String) (row : Claim)
      → is_own_write run_pk path row ≡ true
      → (row.run_pk ≡ run_pk)
        × (row.file_path ≡ path)
        × (is_active row.status ≡ true)
        × (is_write_mode row.mode ≡ true)
  unfolding is_own_write
  own_write run_pk path row h = (
    (nat_beq_iff row.run_pk run_pk).0 (ground arith),
    (eq_iff row.file_path path).0 (ground arith),
    ground arith,
    ground arith,
  )

  has_fence-pos :
      (fence : ℤ) (row : Claim) → has_fence fence row ≡ true → fence ≡ pos row.fence_token
  unfolding has_fence
  has_fence-pos (pos n) row h = ap pos (sym ((nat_beq_iff row.fence_token n).0 h))
  has_fence-pos (negsuc n) row h = absurd (cc h)

  no_foreign_write :
      (run : Run) (path : String) (now : ℕ) (db : Claims)
      → first_of
          (sort newest_first (select_rows (is_foreign_write run.run_pk path now) db.runs db.rows))
        ≡ none
      → NoOtherWriter run path now db
  unfolding is_foreign_write
  no_foreign_write run path now db nothing other a (q, r, going, on, current) same apart =
      elim (Bool-cases (is_write_mode other.mode)) [
        | inr reads ↦ reads
        | inl writes ↦
            let w = is_foreign_write run.run_pk path now in
            let differ : nat_beq other.run_pk run.run_pk ≡ false = ground arith in
            let hit : w q other ≡ true =
              rw
                (
                  is_foreign_write,
                  (eq_iff other.file_path path).1 same,
                  differ,
                  on,
                  writes,
                  current,
                  going,
                )
                refl in
            let listed =
              Among-sort newest_first (q, other) _
                (Among-select_rows w db.runs db.rows other q a r hit) in
            let (one, found, i) = first_of-Among (q, other) _ listed in absurd (cc (nothing, found))
      ]

  -- A write that is verified has a claim of the run on the path, active, current and for writing,
  -- whose fence is the one that was presented; and no claim in force of another run lets it write there.
  pub verify_write_claim-NoOtherWriter :
      (run_id : String) (file_path : Option String) (fence : Option ℤ) (now : ℕ) (db : Claims)
      (view : ClaimView)
      → verify_write_claim run_id file_path fence now db ≡ verified view
      → (run : Run) × (path : String) × (presented : ℤ) × (row : Claim) × (get_run run_id db.runs
          ≡ some run)
        × (normal_path file_path ≡ some path)
        × (fence ≡ some presented)
        × NoOtherWriter run path now db
        × MayWrite run path presented now row db
        × (owner : Run) × (run_of row.run_pk db.runs ≡ some owner)
        × (view ≡ public_claim (owner, row))
  unfolding verify_write_claim
  verify_write_claim-NoOtherWriter run_id file_path fence now db view e =
      elim (Option-cases (normal_path file_path)) [
        | inl n ↦ absurd (cc (rw (verify_write_claim, n) at e))
        | inr (path, n) ↦ elim (Option-cases fence) [
          | inl f ↦ absurd (cc (rw (verify_write_claim, n, f) at e))
          | inr (presented, f) ↦ elim (Option-cases (get_run run_id db.runs)) [
            | inl g ↦ absurd (cc (rw (verify_write_claim, n, f, g) at e))
            | inr (run, g) ↦
                let own =
                  sort newest_first
                    (select_rows (λ r row. is_own_write run.run_pk path row) db.runs db.rows) in
                elim (Option-cases (
                  first_of (
                    sort newest_first
                      (select_rows (is_foreign_write run.run_pk path now) db.runs db.rows)))) [
                        | inr (joined, c) ↦ absurd (cc (rw (verify_write_claim, n, f, g, c) at e))
                        | inl c ↦
                            let ((owner, row), a, current, h, v) =
                              check_own-verified presented now own view
                                (rw (verify_write_claim, n, f, g, c) at e) in
                            let (b, r, w) =
                              select_rows-Among (λ r row. is_own_write run.run_pk path row) db.runs
                                db.rows row owner (sort-Among newest_first (owner, row) _ a) in
                            let (mine, here, on, writes) = own_write run.run_pk path row w in
                            (
                              run,
                              path,
                              presented,
                              row,
                              g,
                              n,
                              f,
                              no_foreign_write run path now db c,
                              (b, mine, here, on, writes, current, has_fence-pos presented row h),
                              owner,
                              r,
                              v,
                            )
                      ]
          ]
        ]
      ]
