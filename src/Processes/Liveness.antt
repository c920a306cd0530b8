-- ===== src/Processes/Liveness.antt =====
-- `process_liveness_by_run` (code_index/run_lifecycle.py): which process speaks for a run.
use Prim.Native.String.{String}
use memory_network.Prelude.{
  ℕ, ◌≡◌, ◌≢◌, ◌<◌, ◌≤◌, ◌⊎◌, refl, sym, ap, subst, ◌∙◌, Bool, true, false, inl, inr, Option, none,
  some, List, [], ◌∷◌, arith, Bool-cases, if◌then◌else◌, nat_beq,
}
use memory_network.Prelude.Equality.{nat_beq_iff}
use memory_network.Prelude.Lists.{Among}
use memory_network.Runs.{Run}
use memory_network.Processes.{
  ProcessStatus, started, is_terminal, is_started, Row, Registry, is_newer, last_seen, newest,
  liveness_of, process_liveness_by_run,
}

-- what a status says: alive if it is `started`, dead if it is terminal
abbrev pub Says : ProcessStatus → Bool → Type 0
Says status alive =
    ((status ≡ started) × (alive ≡ true)) ⊎ ((is_terminal status ≡ true) × (alive ≡ false))

is_started-true : (status : ProcessStatus) → is_started status ≡ true → status ≡ started
is_started-true status h = ground arith

module _ {D : Type 0} where
  is_newer_irrefl : (a : Row D) → is_newer a a ≡ false
  unfolding is_newer
  is_newer_irrefl a = ground arith

  is_newer_asym : (a b : Row D) → is_newer a b ≡ true → is_newer b a ≡ false
  unfolding is_newer
  is_newer_asym a b h = ground arith

  not_newer_trans :
      (a b c : Row D) → is_newer a b ≡ false → is_newer b c ≡ false → is_newer a c ≡ false
  unfolding is_newer
  not_newer_trans a b c h k = ground arith

  -- the row is one of the run's, and no row of the run is newer
  abbrev pub Newest : ℕ → List (Row D) → Row D → Type 0
  Newest run_pk rows row =
      Among row rows
      × (row.run_pk ≡ run_pk)
      × ((r : Row D) → Among r rows → r.run_pk ≡ run_pk → is_newer r row ≡ false)

  abbrev Verdict : ℕ → List (Row D) → Option (Row D) → Type 0
  Verdict run_pk rows none = (r : Row D) → Among r rows → r.run_pk ≢ run_pk
  Verdict run_pk rows (some row) = Newest run_pk rows row

  choose-Newest :
      (run_pk : ℕ) (row : Row D) (rows : List (Row D)) (o : Option (Row D))
      → row.run_pk ≡ run_pk
      → Verdict run_pk rows o
      → Newest run_pk
          (row ∷ rows)
          (elim o [ none ↦ row | some best ↦ if is_newer best row then best else row ])
  choose-Newest run_pk row rows none e v = (inl refl, e, go)
    where
      go : (r : Row D) → Among r (row ∷ rows) → r.run_pk ≡ run_pk → is_newer r row ≡ false
      go r (inl same) k = rw same (is_newer_irrefl row)
      go r (inr a) k = absurd (v r a k)
  choose-Newest run_pk row rows (some other) e (a, k, best) =
      elim (Bool-cases (is_newer other row)) [
        | inl w ↦
            let w' : (if is_newer other row then other else row) ≡ other = rw w refl in
            subst (Newest run_pk (row ∷ rows)) (sym w') (inr a, k, other_wins w)
        | inr w ↦
            let w' : (if is_newer other row then other else row) ≡ row = rw w refl in
            subst (Newest run_pk (row ∷ rows)) (sym w') (inl refl, e, row_wins w)
      ]
    where
      other_wins :
          is_newer other row ≡ true
          → (r : Row D) → Among r (row ∷ rows)
          → r.run_pk ≡ run_pk
          → is_newer r other ≡ false
      other_wins w r (inl same) q = rw same (is_newer_asym other row w)
      other_wins w r (inr b) q = best r b q

      row_wins :
          is_newer other row ≡ false
          → (r : Row D) → Among r (row ∷ rows)
          → r.run_pk ≡ run_pk
          → is_newer r row ≡ false
      row_wins w r (inl same) q = rw same (is_newer_irrefl row)
      row_wins w r (inr b) q = not_newer_trans r other row (best r b q) w

  skip-Verdict :
      (run_pk : ℕ) (row : Row D) (rows : List (Row D)) (o : Option (Row D))
      → row.run_pk ≢ run_pk
      → Verdict run_pk rows o
      → Verdict run_pk (row ∷ rows) o
  skip-Verdict run_pk row rows none ne v = go
    where
      go : (r : Row D) → Among r (row ∷ rows) → r.run_pk ≢ run_pk
      go r (inl same) k = ne (ap (λ (x : Row D). x.run_pk) (sym same) ∙ k)
      go r (inr a) k = v r a k
  skip-Verdict run_pk row rows (some best) ne (a, k, v) = (inr a, k, go)
    where
      go : (r : Row D) → Among r (row ∷ rows) → r.run_pk ≡ run_pk → is_newer r best ≡ false
      go r (inl same) q = absurd (ne (ap (λ (x : Row D). x.run_pk) (sym same) ∙ q))
      go r (inr b) q = v r b q

  newest-Verdict : (run_pk : ℕ) (rows : List (Row D)) → Verdict run_pk rows (newest run_pk rows)
  unfolding newest
  newest-Verdict run_pk [] = λ r a. absurd a
  newest-Verdict run_pk (row ∷ rows) = elim (Bool-cases (nat_beq row.run_pk run_pk)) [
    | inl e ↦ rw e (
        choose-Newest run_pk row rows (newest run_pk rows) ((nat_beq_iff row.run_pk run_pk).0 e)
          (newest-Verdict run_pk rows))
    | inr e ↦
        let ne : row.run_pk ≢ run_pk =
          λ k. absurd (let z = rw ((nat_beq_iff row.run_pk run_pk).1 k) at e in cc z) in
        rw e (skip-Verdict run_pk row rows (newest run_pk rows) ne (newest-Verdict run_pk rows))
  ]

  -- `r` was seen before `row`, or at the same instant under no later key
  abbrev pub IsNoLater : Row D → Row D → Type 0
  IsNoLater r row =
      (last_seen r < last_seen row)
      ⊎ ((last_seen r ≡ last_seen row) × (r.process_pk ≤ row.process_pk))

  is_newer-IsNoLater : (r row : Row D) → is_newer r row ≡ false → IsNoLater r row
  unfolding is_newer
  is_newer-IsNoLater r row h = grind arith

  -- some process of a run with this id speaks for it
  abbrev pub Speaks : List Run → List (Row D) → String → Bool → Type 0
  Speaks runs rows run_id alive =
      (run : Run) × (row : Row D) × Among run runs
      × (run.run_id ≡ run_id)
      × Among row rows
      × (row.run_pk ≡ run.run_pk)
      × ((r : Row D) → Among r rows → r.run_pk ≡ run.run_pk → IsNoLater r row)
      × Says row.status alive

  Speaks-later :
      (run : Run) (runs : List Run) (rows : List (Row D)) (id : String) (alive : Bool)
      → Speaks runs rows id alive
      → Speaks (run ∷ runs) rows id alive
  Speaks-later run runs rows id alive (s, row, a, i, b, k, n, e) = (s, row, inr a, i, b, k, n, e)

  liveness_of-Speaks :
      (runs : List Run) (rows : List (Row D)) (id : String) (alive : Bool)
      → Among (id, alive) (liveness_of runs rows)
      → Speaks runs rows id alive
  unfolding liveness_of
  liveness_of-Speaks [] rows id alive a = absurd a
  liveness_of-Speaks (run ∷ runs) rows id alive a =
      go (newest run.run_pk rows) refl (newest-Verdict run.run_pk rows)
        (liveness_of-Speaks runs rows id alive)
    where
      entry :
          (verdict : Bool) (row : Row D)
          → Newest run.run_pk rows row
          → Says row.status verdict
          → (Among (id, alive) (liveness_of runs rows) → Speaks runs rows id alive)
          → Among (id, alive) ((run.run_id, verdict) ∷ liveness_of runs rows)
          → Speaks (run ∷ runs) rows id alive
      entry verdict row v' says ih (inr b) = Speaks-later run runs rows id alive (ih b)
      entry verdict row v' says ih (inl same) = (
        run,
        row,
        inl refl,
        ap (λ (x : String × Bool). x.0) (sym same),
        v'.0,
        v'.1,
        λ r a k. is_newer-IsNoLater r row (v'.2 r a k),
        subst (Says row.status) (ap (λ (x : String × Bool). x.1) (sym same)) says,
      )

      go :
          (o : Option (Row D))
          → newest run.run_pk rows ≡ o
          → Verdict run.run_pk rows (newest run.run_pk rows)
          → (Among (id, alive) (liveness_of runs rows) → Speaks runs rows id alive)
          → Speaks (run ∷ runs) rows id alive
      go none e v ih = Speaks-later run runs rows id alive (ih (rw (liveness_of, e) at a))
      go (some row) e v ih =
          let v' : Newest run.run_pk rows row = rw e at v in
          elim (Bool-cases (is_started row.status)) [
            | inl on ↦
                entry true row v' (inl (is_started-true row.status on, refl)) ih
                  (rw (liveness_of, e, on) at a)
            | inr off ↦ elim (Bool-cases (is_terminal row.status)) [
              | inl over ↦
                  entry false row v' (inr (over, refl)) ih (rw (liveness_of, e, off, over) at a)
              | inr unknown ↦
                  Speaks-later run runs rows id alive (ih (rw (liveness_of, e, off, unknown) at a))
            ]
          ]

  -- If `process_liveness_by_run` calls a run id alive, or dead, then a process of a stored run with
  -- that id has the status `started`, or a terminal one, and no process of that run was seen later
  -- than it, nor at the same instant under a later key.
  pub process_liveness_by_run-Speaks :
      (registry : Registry D) (id : String) (alive : Bool)
      → Among (id, alive) (process_liveness_by_run registry)
      → Speaks registry.runs registry.processes id alive
  unfolding process_liveness_by_run
  process_liveness_by_run-Speaks registry id alive a =
      liveness_of-Speaks registry.runs registry.processes id alive a
