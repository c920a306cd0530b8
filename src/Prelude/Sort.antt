-- ===== src/Prelude/Sort.antt =====
-- A stable sort by a strict order, and the order of texts by code points.
use Prim.Native.Nat.{Ordering}
use Prim.Native.String.{String, compare}
use mathlib.Core.Path.{◌≡◌, refl}
use mathlib.Core.Logic.{◌≢◌, ◌⊎◌, inl, inr}
use mathlib.Core.Bool.{Bool, true, false}
use mathlib.Core.List.{List, [], ◌∷◌}
use memory_network.Prelude.Tests.{if◌then◌else◌, Bool-cases}
use memory_network.Prelude.Lists.{Among}

unfoldable pub text_before : String → String → Bool
text_before a b = elim (compare a b) [ Ordering.lt ↦ true | _ ↦ false ]

module _ {A : Type 0} (before : A → A → Bool) where
  unfoldable pub insert_sorted : A → List A → List A
  insert_sorted x [] = x ∷ []
  insert_sorted x (y ∷ ys) = if before y x then y ∷ insert_sorted x ys else x ∷ y ∷ ys

  unfoldable pub sort : List A → List A
  unfolding insert_sorted
  sort [] = []
  sort (x ∷ xs) = insert_sorted x (sort xs)

  insert_sorted-nonempty : (x : A) (xs : List A) → insert_sorted x xs ≢ []
  unfolding insert_sorted
  insert_sorted-nonempty x [] e = absurd (cc e)
  insert_sorted-nonempty x (y ∷ ys) e = elim (Bool-cases (before y x)) [
    | inl b ↦ absurd (cc (rw b at e))
    | inr b ↦ absurd (cc (rw b at e))
  ]

  pub sort-nil : (xs : List A) → sort xs ≡ [] → xs ≡ []
  unfolding sort
  sort-nil [] e = refl
  sort-nil (x ∷ xs) e = absurd (insert_sorted-nonempty x (sort xs) e)

  insert_sorted-Among :
      (x y : A) (xs : List A) → Among x (insert_sorted y xs) → (x ≡ y) ⊎ Among x xs
  unfolding insert_sorted
  insert_sorted-Among x y [] a = a
  insert_sorted-Among x y (z ∷ xs) a = elim (Bool-cases (before z y)) [
    | inr b ↦ rw (insert_sorted, b) at a
    | inl b ↦ elim (rw (insert_sorted, b) at a) [
      | inl e ↦ inr (inl e)
      | inr c ↦ elim (insert_sorted-Among x y xs c) [ inl e ↦ inl e | inr i ↦ inr (inr i) ]
    ]
  ]

  pub sort-Among : (x : A) (xs : List A) → Among x (sort xs) → Among x xs
  unfolding sort
  sort-Among x [] a = a
  sort-Among x (y ∷ xs) a = elim (insert_sorted-Among x y (sort xs) a) [
    | inl e ↦ inl e
    | inr b ↦ inr (sort-Among x xs b)
  ]

  Among-insert_sorted :
      (x y : A) (xs : List A) → (x ≡ y) ⊎ Among x xs → Among x (insert_sorted y xs)
  unfolding insert_sorted
  Among-insert_sorted x y [] h = h
  Among-insert_sorted x y (z ∷ xs) h = elim (Bool-cases (before z y)) [
    | inr b ↦ rw b h
    | inl b ↦ rw b (elim h [
      | inl e ↦ inr (Among-insert_sorted x y xs (inl e))
      | inr (inl e) ↦ inl e
      | inr (inr a) ↦ inr (Among-insert_sorted x y xs (inr a))
    ])
  ]

  pub Among-sort : (x : A) (xs : List A) → Among x xs → Among x (sort xs)
  unfolding sort
  Among-sort x [] a = a
  Among-sort x (y ∷ xs) (inl e) = Among-insert_sorted x y (sort xs) (inl e)
  Among-sort x (y ∷ xs) (inr a) = Among-insert_sorted x y (sort xs) (inr (Among-sort x xs a))
