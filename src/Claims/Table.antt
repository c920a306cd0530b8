-- ===== src/Claims/Table.antt =====
-- What the updates and selections of the claim table do to its rows
-- (code_index/agent_activity.py, code_index/lease_manager.py).
use memory_network.Prelude.{
  ◌≡◌, refl, ap, Bool, true, inl, inr, ◌⊎◌, some, List, [], ◌∷◌, Bool-cases, Option-cases, subst,
  if◌then◌else◌,
}
use memory_network.Prelude.Lists.{Among, add_last}
use memory_network.Runs.{Run, run_of}
use memory_network.Claims.{Claim, select_rows, first_of, update_rows}

-- An updated row is the update of a row of the table or such a row itself.
pub update_rows-Among :
    (w : Claim → Bool) (set : Claim → Claim) (rows : List Claim) (r : Claim)
    → Among r (update_rows w set rows)
    → (old : Claim) × Among old rows × (r ≡ (if w old then set old else old))
unfolding update_rows
update_rows-Among w set [] r a = absurd a
update_rows-Among w set (x ∷ xs) r (inl e) = (x, inl refl, e)
update_rows-Among w set (x ∷ xs) r (inr a) =
    let (old, b, e) = update_rows-Among w set xs r a in (old, inr b, e)

pub add_last-Among :
    {A : Type 0} (x r : A) (xs : List A) → Among r (add_last x xs) → Among r xs ⊎ (r ≡ x)
add_last-Among x r [] (inl e) = inr e
add_last-Among x r [] (inr a) = absurd a
add_last-Among x r (y ∷ ys) (inl e) = inl (inl e)
add_last-Among x r (y ∷ ys) (inr a) = elim (add_last-Among x r ys a) [
  | inl b ↦ inl (inr b)
  | inr e ↦ inr e
]

-- A row that satisfies the condition and whose run is stored is selected.
pub Among-select_rows :
    (w : Run → Claim → Bool) (runs : List Run) (rows : List Claim) (r : Claim) (run : Run)
    → Among r rows
    → run_of r.run_pk runs ≡ some run
    → w run r ≡ true
    → Among (run, r) (select_rows w runs rows)
unfolding select_rows
Among-select_rows w runs [] r run a e h = absurd a
Among-select_rows w runs (x ∷ xs) r run (inl s) e h =
    let found : run_of x.run_pk runs ≡ some run =
      subst (λ (y : Claim). run_of y.run_pk runs ≡ some run) s e in
    let holds : w run x ≡ true = subst (λ (y : Claim). w run y ≡ true) s h in
    rw (select_rows, found, holds) (inl (ap (λ (y : Claim). (run, y)) s))
Among-select_rows w runs (x ∷ xs) r run (inr a) e h = elim (Option-cases (run_of x.run_pk runs)) [
  | inl n ↦ rw (select_rows, n) (Among-select_rows w runs xs r run a e h)
  | inr (other, n) ↦ elim (Bool-cases (w other x)) [
    | inl t ↦ rw (select_rows, n, t) (inr (Among-select_rows w runs xs r run a e h))
    | inr t ↦ rw (select_rows, n, t) (Among-select_rows w runs xs r run a e h)
  ]
]

-- A selected row is a row of the table that satisfies the condition, with its run.
pub select_rows-Among :
    (w : Run → Claim → Bool) (runs : List Run) (rows : List Claim) (r : Claim) (run : Run)
    → Among (run, r) (select_rows w runs rows)
    → Among r rows × (run_of r.run_pk runs ≡ some run) × (w run r ≡ true)
unfolding select_rows
select_rows-Among w runs [] r run a = absurd a
select_rows-Among w runs (x ∷ xs) r run a = elim (Option-cases (run_of x.run_pk runs)) [
  | inl n ↦
      let (b, e, h) = select_rows-Among w runs xs r run (rw (select_rows, n) at a) in (inr b, e, h)
  | inr (other, n) ↦ elim (Bool-cases (w other x)) [
    | inr t ↦
        let (b, e, h) = select_rows-Among w runs xs r run (rw (select_rows, n, t) at a) in
        (inr b, e, h)
    | inl t ↦ go other n t (select_rows-Among w runs xs r run) (rw (select_rows, n, t) at a)
  ]
]
  where
    go :
        (other : Run)
        → run_of x.run_pk runs ≡ some other
        → w other x ≡ true
        → (Among (run, r) (select_rows w runs xs)
            → Among r xs × (run_of r.run_pk runs ≡ some run) × (w run r ≡ true))
        → Among (run, r) ((other, x) ∷ select_rows w runs xs)
        → Among r (x ∷ xs) × (run_of r.run_pk runs ≡ some run) × (w run r ≡ true)
    go other n t ih (inl s) =
        let s0 : run ≡ other = ap (λ (q : Run × Claim). q.0) s in
        let s1 : r ≡ x = ap (λ (q : Run × Claim). q.1) s in rw (s0, s1) (inl refl, n, t)
    go other n t ih (inr b) = let (c, e, h) = ih b in (inr c, e, h)

pub Among-update_rows :
    (w : Claim → Bool) (set : Claim → Claim) (rows : List Claim) (r : Claim)
    → Among r rows
    → w r ≡ true
    → Among (set r) (update_rows w set rows)
unfolding update_rows
Among-update_rows w set [] r a h = absurd a
Among-update_rows w set (x ∷ xs) r (inl e) h =
    let here : w x ≡ true = subst (λ (y : Claim). w y ≡ true) e h in
    inl (rw (update_rows, here) (ap set e))
Among-update_rows w set (x ∷ xs) r (inr a) h = inr (Among-update_rows w set xs r a h)

-- What is among the selected rows makes the first of them something.
pub first_of-Among :
    {A : Type 0} (x : A) (xs : List A) → Among x xs → (y : A) × (first_of xs ≡ some y) × Among y xs
unfolding first_of
first_of-Among x [] a = absurd a
first_of-Among x (y ∷ xs) a = (y, refl, inl refl)

pub Among-first_of : {A : Type 0} (x : A) (xs : List A) → first_of xs ≡ some x → Among x xs
unfolding first_of
Among-first_of x [] e = absurd (cc e)
Among-first_of x (y ∷ xs) e = inl (cc e)
