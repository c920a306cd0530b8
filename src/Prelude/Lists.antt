-- ===== src/Prelude/Lists.antt =====
-- Lists over the native numbers, and a predicate on all entries.
use Prim.Native.Nat.{ℕ, zero, suc, ◌+◌}
use mathlib.Core.Path.{◌≡◌, refl, sym, subst, ap}
use mathlib.Core.Logic.{◌⊎◌, inl, inr}
use mathlib.Core.Bool.{Bool, false, ◌||◌}
use mathlib.Core.List.{List, [], ◌∷◌, ◌++◌}
use native.Mathlib.Omega.{arith}
use memory_network.Prelude.Tests.{if◌then◌else◌}
use memory_network.Prelude.Equality.{Comparable, ◌==◌}

module _ {ℓ} {A : Type ℓ} where
  abbrev pub length : List A → ℕ
  length [] = 0
  length (x ∷ xs) = suc (length xs)

  pub length-append : (xs ys : List A) → length (xs ++ ys) ≡ length xs + length ys
  length-append [] ys = omega arith
  length-append (x ∷ xs) ys = omega (arith, length-append xs ys)

  abbrev pub take : ℕ → List A → List A
  take zero xs = []
  take (suc n) [] = []
  take (suc n) (x ∷ xs) = x ∷ take n xs

  abbrev pub drop : ℕ → List A → List A
  drop zero xs = xs
  drop (suc n) [] = []
  drop (suc n) (x ∷ xs) = drop n xs

  abbrev pub add_last : A → List A → List A
  add_last x [] = x ∷ []
  add_last x (y ∷ ys) = y ∷ add_last x ys

  abbrev pub filter : (A → Bool) → List A → List A
  filter p [] = []
  filter p (x ∷ xs) = let rest = filter p xs in if p x then x ∷ rest else rest

  pub take-drop : (n : ℕ) (xs : List A) → take n xs ++ drop n xs ≡ xs
  take-drop zero xs = refl
  take-drop (suc n) [] = refl
  take-drop (suc n) (x ∷ xs) = ap (◌∷◌ x) (take-drop n xs)

abbrev pub All {ℓ κ} : {A : Type ℓ} → (A → Type κ) → List A → Type κ
All P [] = Unit
All P (x ∷ xs) = P x × All P xs

-- `x in (…)`
abbrev pub contains {ℓ} : {A : Type ℓ} ⦃e : Comparable A⦄ → A → List A → Bool
contains x [] = false
contains x (y ∷ ys) = x == y || contains x ys

-- `x` is one of the entries.
abbrev pub Among : {A : Type 0} → A → List A → Type 0
Among x [] = ⊥
Among x (y ∷ ys) = (x ≡ y) ⊎ Among x ys

pub All-weaken :
    {A : Type 0} (P Q : A → Type 0) (xs : List A) → ((x : A) → P x → Q x) → All P xs → All Q xs
All-weaken P Q [] f h = tt
All-weaken P Q (x ∷ xs) f (h, hs) = (f x h, All-weaken P Q xs f hs)

pub Among-append :
    {A : Type 0} (x y : A) (xs : List A) → Among x (xs ++ y ∷ []) → Among x xs ⊎ (x ≡ y)
Among-append x y [] (inl e) = inr e
Among-append x y [] (inr h) = absurd h
Among-append x y (z ∷ zs) (inl e) = inl (inl e)
Among-append x y (z ∷ zs) (inr h) = elim (Among-append x y zs h) [
  | inl g ↦ inl (inr g)
  | inr e ↦ inr e
]

pub All-at : {A : Type 0} (P : A → Type 0) (x : A) (xs : List A) → Among x xs → All P xs → P x
All-at P x [] a h = absurd a
All-at P x (y ∷ ys) (inl e) (h, hs) = subst P (sym e) h
All-at P x (y ∷ ys) (inr a) (h, hs) = All-at P x ys a hs
