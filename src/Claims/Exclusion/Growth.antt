-- ===== src/Claims/Exclusion/Growth.antt =====
-- The upsert of `claim_file` (code_index/agent_activity.py) in a table that the check for conflicts
-- has found clear.
use memory_network.Prelude.{
  ℕ, ◌<◌, ◌≡◌, ◌≢◌, refl, sym, ap, ◌∙◌, false, inl, inr, ◌⊎◌, List, [], ◌∷◌, arith, Bool-cases,
  subst, str_eq, is_some,
}
use memory_network.Prelude.Lists.{Among, All, All-weaken, add_last}
use memory_network.Text.{Unicode}
use memory_network.Claims.{Claim, Claims, Platform, update_rows, modes_conflict}
use memory_network.Claims.Table.{update_rows-Among, add_last-Among}
use memory_network.Claims.Files.{has_key, find_row, refresh_row, upsert, next_pk}
use memory_network.Claims.Exclusion.{Live, Exclusive, Distinct, Sound, modes_conflict_comm}
use memory_network.Claims.Exclusion.Fences.{
  SameKey, has_key-SameKey, Newest, add_last-Fenced, refreshed-Fenced,
}
use memory_network.Claims.Exclusion.Updates.{update_rows-Distinct}

module _ ⦃u : Unicode⦄ ⦃p : Platform⦄ where
  -- What the check for conflicts leaves true of the table: a row in force that another run holds on
  -- the path has a mode that agrees.
  abbrev pub Clear : ℕ → Claim → Claims → Type 0
  Clear now new db =
      (row : Claim)
      → Among row db.rows
      → Live p.sql_lower now db.runs row
      → row.run_pk ≢ new.run_pk
      → row.file_path ≡ new.file_path
      → modes_conflict new.mode row.mode ≡ false

  -- A row in force of the new table has the key of the new row or of a row that was in force.
  abbrev Grown : ℕ → Claim → Claims → List Claim → Type 0
  Grown now new db rows =
      (r : Claim)
      → Among r rows
      → Live p.sql_lower now db.runs r
      → ((old : Claim) × Among old db.rows × Live p.sql_lower now db.runs old × SameKey r old)
        ⊎ SameKey r new

  Grown-Exclusive :
      (now : ℕ) (new : Claim) (db : Claims) (rows : List Claim)
      → Grown now new db rows
      → Clear now new db
      → Exclusive p.sql_lower now db
      → Exclusive p.sql_lower now (record db { rows = rows })
  Grown-Exclusive now new db rows grown clear ex a b in_a in_b la lb other path =
      elim (grown a in_a la) [
        | inl (a', ha, fa, (ra, pa, ma)) ↦ elim (grown b in_b lb) [
          | inl (b', hb, fb, (rb, pb, mb)) ↦
              rw (ma, mb) (ex a' b' ha hb fa fb (λ e. other (ra ∙ e ∙ sym rb)) (sym pa ∙ path ∙ pb))
          | inr (rb, pb, mb) ↦
              let c = clear a' ha fa (λ e. other (ra ∙ e ∙ sym rb)) (sym pa ∙ path ∙ pb) in
              rw (ma, mb) (modes_conflict_comm a'.mode new.mode ∙ c)
        ]
        | inr (ra, pa, ma) ↦ elim (grown b in_b lb) [
          | inl (b', hb, fb, (rb, pb, mb)) ↦
              rw (ma, mb)
                (clear b' hb fb (λ e. other (ra ∙ sym e ∙ sym rb)) (sym pb ∙ sym path ∙ pa))
          | inr (rb, pb, mb) ↦ absurd (other (ra ∙ sym rb))
        ]
      ]

  Distinct-add_last :
      (new : Claim) (rows : List Claim)
      → All (λ (r : Claim). r.claim_pk ≢ new.claim_pk) rows
      → Distinct rows
      → Distinct (add_last new rows)
  Distinct-add_last new [] h d = (tt, tt)
  Distinct-add_last new (r ∷ rows) (h, hs) (d, ds) =
      (All-add_last r.claim_pk new rows (λ e. h (sym e)) d, Distinct-add_last new rows hs ds)
    where
      All-add_last :
          (pk : ℕ) (x : Claim) (xs : List Claim)
          → x.claim_pk ≢ pk
          → All (λ (r : Claim). r.claim_pk ≢ pk) xs
          → All (λ (r : Claim). r.claim_pk ≢ pk) (add_last x xs)
      All-add_last pk x [] h hs = (h, tt)
      All-add_last pk x (y ∷ ys) h (k, ks) = (k, All-add_last pk x ys h ks)

  -- The primary key of a new row is greater than all others.
  pub next_pk-fresh : (rows : List Claim) → All (λ (r : Claim). r.claim_pk < next_pk rows) rows
  unfolding next_pk
  next_pk-fresh [] = tt
  next_pk-fresh (r ∷ rows) = (
    ground arith,
    All-weaken (λ (x : Claim). x.claim_pk < next_pk rows) _ rows (λ x h. ground arith)
        (next_pk-fresh rows),
  )

  refreshed-Grown :
      (now : ℕ) (new : Claim) (db : Claims)
      → Grown now new db
          (update_rows (has_key new.run_pk new.file_path new.mode) (refresh_row new) db.rows)
  unfolding refresh_row
  refreshed-Grown now new db r a l =
      let same = has_key new.run_pk new.file_path new.mode in
      let (old, b, e) = update_rows-Among same (refresh_row new) db.rows r a in
      elim (Bool-cases (same old)) [
        | inl h ↦
            let was : r ≡ refresh_row new old = rw h at e in
            inr (subst (λ (x : Claim). SameKey x new) (sym was) (has_key-SameKey new old h))
        | inr h ↦
            let was : r ≡ old = rw h at e in
            inl (
              old,
              b,
              subst (Live p.sql_lower now db.runs) was l,
              (
                ap (λ (x : Claim). x.run_pk) was,
                ap (λ (x : Claim). x.file_path) was,
                ap (λ (x : Claim). x.mode) was,
              ),
            )
      ]

  added-Grown : (now : ℕ) (new : Claim) (db : Claims) → Grown now new db (add_last new db.rows)
  added-Grown now new db r a l = elim (add_last-Among new r db.rows a) [
    | inl b ↦ inl (r, b, l, (refl, refl, refl))
    | inr e ↦ inr (
      ap (λ (x : Claim). x.run_pk) e,
      ap (λ (x : Claim). x.file_path) e,
      ap (λ (x : Claim). x.mode) e,
    )
  ]

  pub upsert-Sound :
      (now : ℕ) (new : Claim) (db : Claims)
      → All (λ (r : Claim). r.claim_pk < new.claim_pk) db.rows
      → Newest new db.rows
      → Clear now new db
      → Sound p.sql_lower now db
      → Sound p.sql_lower now (upsert new db).1
  unfolding upsert refresh_row
  upsert-Sound now new db fresh newest clear (ex, d, f) =
      let same = has_key new.run_pk new.file_path new.mode in
      elim (Bool-cases (is_some (find_row same db.rows))) [
        | inl e ↦ rw e (
          Grown-Exclusive now new db _ (refreshed-Grown now new db) clear ex,
          update_rows-Distinct p.sql_lower same (refresh_row new) db.rows (λ r. refl) d,
          refreshed-Fenced new db.rows newest f,
        )
        | inr e ↦
            elim (Bool-cases
              (is_some (find_row (λ row. str_eq row.claim_id new.claim_id) db.rows))) [
                | inl e' ↦ rw (e, e') (ex, d, f)
                | inr e' ↦
                    rw (e, e')
                      (
                        Grown-Exclusive now new db _ (added-Grown now new db) clear ex,
                        Distinct-add_last new db.rows
                            (All-weaken (λ (r : Claim). r.claim_pk < new.claim_pk) _ db.rows
                              (λ r h. ground arith) fresh)
                            d,
                        add_last-Fenced new db.rows e newest f,
                      )
              ]
      ]
