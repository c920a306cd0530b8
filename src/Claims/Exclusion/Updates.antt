-- ===== src/Claims/Exclusion/Updates.antt =====
-- Updates of the claim table that keep it sound (code_index/agent_activity.py,
-- code_index/lease_manager.py).
use memory_network.Prelude.{
  ℕ, ◌≡◌, ◌≢◌, refl, sym, ◌∙◌, Bool, true, inl, inr, List, [], ◌∷◌, Bool-cases, String, subst,
}
use memory_network.Prelude.Lists.{Among, All}
use memory_network.Runs.{Run}
use memory_network.Claims.{Claim, Claims, update_rows}
use memory_network.Claims.Table.{update_rows-Among}
use memory_network.Claims.Exclusion.Fences.{update_rows-Fenced}
use memory_network.Claims.Exclusion.{Live, Distinct, Sound}

module _ (lower : String → String) where
  -- An update that writes no key and puts no row in force that was not.
  abbrev pub Tame : ℕ → Claims → (Claim → Bool) → (Claim → Claim) → Type 0
  Tame now db w set =
      (r : Claim)
      → ((set r).claim_pk ≡ r.claim_pk)
        × ((set r).run_pk ≡ r.run_pk)
        × ((set r).file_path ≡ r.file_path)
        × ((set r).mode ≡ r.mode)
        × ((set r).fence_token ≡ r.fence_token)
        × (Among r db.rows → w r ≡ true → Live lower now db.runs (set r) → Live lower now db.runs r)

  -- What a row of the updated table was.
  abbrev pub Was : ℕ → List Run → Claim → Claim → Type 0
  Was now runs r old =
      (r.run_pk ≡ old.run_pk)
      × (r.file_path ≡ old.file_path)
      × (r.mode ≡ old.mode)
      × (Live lower now runs r → Live lower now runs old)

  pub update_rows-Was :
      (now : ℕ) (db : Claims) (w : Claim → Bool) (set : Claim → Claim) (r : Claim)
      → Tame now db w set
      → Among r (update_rows w set db.rows)
      → (old : Claim) × Among old db.rows × Was now db.runs r old
  update_rows-Was now db w set r t a =
      let (old, b, e) = update_rows-Among w set db.rows r a in
      (
        old,
        b,
        subst (λ x. Was now db.runs x old) (sym e)
            (elim (Bool-cases (w old)) [
              | inl h ↦ rw h ((t old).1, (t old).2, (t old).3, (t old).5 b h)
              | inr h ↦ rw h (refl, refl, refl, λ l. l)
            ]),
      )

  update_rows-All :
      (pk : ℕ) (w : Claim → Bool) (set : Claim → Claim) (rows : List Claim)
      → ((r : Claim) → (set r).claim_pk ≡ r.claim_pk)
      → All (λ (r : Claim). r.claim_pk ≢ pk) rows
      → All (λ (r : Claim). r.claim_pk ≢ pk) (update_rows w set rows)
  unfolding update_rows
  update_rows-All pk w set [] k h = tt
  update_rows-All pk w set (r ∷ rows) k (h, hs) = (
    elim (Bool-cases (w r)) [ inl e ↦ rw e λ same. h (sym (k r) ∙ same) | inr e ↦ rw e h ],
    update_rows-All pk w set rows k hs,
  )

  pub update_rows-Distinct :
      (w : Claim → Bool) (set : Claim → Claim) (rows : List Claim)
      → ((r : Claim) → (set r).claim_pk ≡ r.claim_pk)
      → Distinct rows
      → Distinct (update_rows w set rows)
  unfolding update_rows
  update_rows-Distinct w set [] k h = tt
  update_rows-Distinct w set (r ∷ rows) k (h, hs) =
      let rest = update_rows-Distinct w set rows k hs in
      elim (Bool-cases (w r)) [
        | inl e ↦ rw e (rw (k r) (update_rows-All r.claim_pk w set rows k h), rest)
        | inr e ↦ rw e (update_rows-All r.claim_pk w set rows k h, rest)
      ]

  -- A tame update keeps the table sound.
  pub update_rows-Sound :
      (now : ℕ) (w : Claim → Bool) (set : Claim → Claim) (db : Claims)
      → Tame now db w set
      → Sound lower now db
      → Sound lower now (record db { rows = update_rows w set db.rows })
  update_rows-Sound now w set db t (ex, d, f) = (
    λ a b in_a in_b la lb other path.
        let (a', ha, (ra, pa, ma, fa)) = update_rows-Was now db w set a t in_a in
        let (b', hb, (rb, pb, mb, fb)) = update_rows-Was now db w set b t in_b in
        let agree =
          ex a' b' ha hb (fa la) (fb lb) (λ e. other (ra ∙ e ∙ sym rb)) (sym pa ∙ path ∙ pb) in
        rw (ma, mb) agree,
    update_rows-Distinct w set db.rows (λ r. (t r).0) d,
    update_rows-Fenced w set db.rows (λ r. ((t r).0, (t r).1, (t r).2, (t r).3, (t r).4)) f,
  )
