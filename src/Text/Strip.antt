-- ===== src/Text/Strip.antt =====
-- Stripping a text twice is stripping it once, so a stored key or owner is its own normal form.
use Prim.Native.String.{String}
use memory_network.Prelude.{
  Char, Bool, false, ◌≡◌, refl, Option, none, some, arith, Bool-cases, inl, inr,
}
use memory_network.Text.{
  is_space, is_empty, lstrip, rstrip, rstrip_cons, strip, nonempty, stripped, optional_text,
}

module _ (p : Char → Bool) where
  -- does the text begin with a character of the set?
  leads : String → Bool
  leads String.[] = false
  leads (String.◌∷◌ c s) = p c

  leads-lstrip : (s : String) → leads (lstrip p s) ≡ false
  unfolding leads lstrip
  leads-lstrip String.[] = refl
  leads-lstrip (String.◌∷◌ c s) = ground (arith, leads-lstrip s)

  lstrip_fixed : (s : String) → leads s ≡ false → lstrip p s ≡ s
  unfolding leads lstrip
  lstrip_fixed String.[] h = refl
  lstrip_fixed (String.◌∷◌ c s) h = rw h

  leads-rstrip : (s : String) → leads s ≡ false → leads (rstrip p s) ≡ false
  unfolding leads rstrip rstrip_cons
  leads-rstrip String.[] h = refl
  leads-rstrip (String.◌∷◌ c s) h = ground arith

  rstrip-rstrip_cons :
      (c : Char) (r : String) → rstrip p r ≡ r → rstrip p (rstrip_cons p c r) ≡ rstrip_cons p c r
  unfolding rstrip_cons
  rstrip-rstrip_cons c r h = elim (Bool-cases (p c)) [
    | inl yes' ↦ elim (Bool-cases (is_empty r)) [
      | inl e ↦ rw (yes', e) (unfold rstrip in refl)
      | inr e ↦ rw (yes', e) (unfold rstrip in rw h (rw (yes', e)))
    ]
    | inr no' ↦ rw no' (unfold rstrip in rw h (rw no'))
  ]

  rstrip-rstrip : (s : String) → rstrip p (rstrip p s) ≡ rstrip p s
  unfolding rstrip
  rstrip-rstrip String.[] = refl
  rstrip-rstrip (String.◌∷◌ c s) = rstrip-rstrip_cons c (rstrip p s) (rstrip-rstrip s)

  pub strip-strip : (s : String) → strip p (strip p s) ≡ strip p s
  unfolding strip
  strip-strip s =
      rw (lstrip_fixed (rstrip p (lstrip p s)) (leads-rstrip (lstrip p s) (leads-lstrip s)))
        (rstrip-rstrip (lstrip p s))

stripped_self : (v : Option String) → stripped (some (stripped v)) ≡ stripped v
unfolding stripped strip lstrip rstrip
stripped_self none = refl
stripped_self (some s) = strip-strip is_space s

pub nonempty-eq-some : (s t : String) → nonempty s ≡ some t → (s ≡ t) × (is_empty t ≡ false)
unfolding nonempty
nonempty-eq-some s t h = elim (Bool-cases (is_empty s)) [
  | inl e ↦ absurd (ground arith)
  | inr e ↦ ground arith
]

-- A text that came out of the normalisation goes through it unchanged.
pub stripped-optional_text :
    (v : Option String) (t : String)
    → optional_text v ≡ some t
    → (stripped (some t) ≡ t) × (is_empty t ≡ false)
unfolding optional_text
stripped-optional_text v t h =
    let (e, ne) = nonempty-eq-some (stripped v) t h in (rw (← e) (stripped_self v), ne)

pub optional_text_fixed :
    (t : String) → stripped (some t) ≡ t → is_empty t ≡ false → optional_text (some t) ≡ some t
unfolding optional_text nonempty
optional_text_fixed t e ne = rw e (rw ne)

pub optional_text_idem : (v : Option String) → optional_text (optional_text v) ≡ optional_text v
optional_text_idem v = go (optional_text v) refl
  where
    go : (o : Option String) → optional_text v ≡ o → optional_text o ≡ o
    go none e = unfold optional_text nonempty stripped in refl
    go (some t) e = let (a, b) = stripped-optional_text v t e in optional_text_fixed t a b
