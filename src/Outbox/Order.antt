-- ===== src/Outbox/Order.antt =====
-- The order of the rows of the outbox (code_index/openclaw_hostd/outbox.py), and what marking the
-- first pending row leaves.
use Prim.Native.String.{String}
use memory_network.Prelude.{
  ℕ, ◌≤◌, ◌<◌, ◌≡◌, refl, ◌∙◌, false, inl, inr, List, [], ◌∷◌, map, arith, ap₂, Bool-cases,
}
use memory_network.Prelude.Lists.{filter}
use memory_network.Outbox.{Row, mark_row, is_pending}

abbrev pub Increasing : {C : Type 0} → ℕ → List (Row C) → Type 0
Increasing n [] = Unit
Increasing n (r ∷ rs) = (n < r.event_sequence) × Increasing r.event_sequence rs

module _ {C : Type 0} where
  mark_row-other : (s : ℕ) (now : String) (r : Row C) → s < r.event_sequence → mark_row s now r ≡ r
  unfolding mark_row
  mark_row-other s now r h = ground arith

  pub mark_row-sequence :
      (s : ℕ) (now : String) (r : Row C) → (mark_row s now r).event_sequence ≡ r.event_sequence
  unfolding mark_row
  mark_row-sequence s now r = ground arith

  mark_row-published :
      (s : ℕ) (now : String) (r : Row C)
      → is_pending r ≡ false
      → is_pending (mark_row s now r) ≡ false
  unfolding mark_row is_pending
  mark_row-published s now r h = ground arith

  mark_row-own : (now : String) (r : Row C) → is_pending (mark_row r.event_sequence now r) ≡ false
  unfolding mark_row is_pending
  mark_row-own now r = ground arith

  mark-fresh :
      (s n : ℕ) (now : String) (rows : List (Row C))
      → s ≤ n
      → Increasing n rows
      → map (mark_row s now) rows ≡ rows
  mark-fresh s n now [] le h = refl
  mark-fresh s n now (r ∷ rs) le (lt, h) =
      ap₂ ◌∷◌ (mark_row-other s now r (omega arith))
        (mark-fresh s r.event_sequence now rs (omega arith) h)

  pub mark-Increasing :
      (s n : ℕ) (now : String) (rows : List (Row C))
      → Increasing n rows
      → Increasing n (map (mark_row s now) rows)
  mark-Increasing s n now [] h = tt
  mark-Increasing s n now (r ∷ rs) (lt, h) =
      rw (mark_row-sequence s now r) (lt, mark-Increasing s r.event_sequence now rs h)

  mark-head :
      (s : ℕ) (now : String) (r : Row C) (rs : List (Row C))
      → s ≡ r.event_sequence
      → Increasing r.event_sequence rs
      → filter is_pending (map (mark_row s now) (r ∷ rs)) ≡ filter is_pending rs
  mark-head s now r rs e h =
      rw (mark-fresh s r.event_sequence now rs (omega arith) h) (rw (e, mark_row-own now r) refl)

  -- the first pending row, once marked, is the only one that leaves
  pub mark-first :
      (n : ℕ) (now : String) (rows : List (Row C)) (first : Row C) (rest : List (Row C))
      → Increasing n rows
      → filter is_pending rows ≡ first ∷ rest
      → filter is_pending (map (mark_row first.event_sequence now) rows) ≡ rest
  mark-first n now [] first rest h e = absurd (cc)
  mark-first n now (r ∷ rs) first rest (lt, h) e = elim (Bool-cases (is_pending r)) [
    | inl p ↦
        let z = rw p at e in
        let head : r ≡ first = (cc z) in
        let tail : filter is_pending rs ≡ rest = (cc z) in
        mark-head first.event_sequence now r rs (cc head) h ∙ tail
    | inr p ↦
        rw (mark_row-published first.event_sequence now r p)
          (mark-first r.event_sequence now rs first rest h (rw p at e))
  ]
