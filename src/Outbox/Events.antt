-- ===== src/Outbox/Events.antt =====
-- The rows of the outbox as events (code_index/openclaw_hostd/outbox.py): what is read back from
-- a list of rows, from a limited one, and from one with a row more.
use memory_network.Prelude.{
  ℕ, zero, suc, ◌≡◌, refl, sym, ap, inl, inr, Option, none, some, List, [], ◌∷◌, ◌++◌,
}
use memory_network.Prelude.Exec.{Result, ok, Result-cases}
use memory_network.Prelude.Lists.{take, drop, take-drop}
use memory_network.Prelude.Int.{ℤ, pos, negsuc}
use memory_network.Outbox.{Row, OutboxEvent, limited, event_of, event, events}
use memory_network.Outbox.Json.{JsonCodec, Payload}

-- what `limited` leaves out
unfoldable pub past_limit {ℓ} : {A : Type ℓ} → Option ℤ → List A → List A
past_limit none xs = []
past_limit (some (pos n)) xs = drop n xs
past_limit (some (negsuc n)) xs = xs

append-empty {ℓ} : {A : Type ℓ} (xs : List A) → xs ++ [] ≡ xs
append-empty [] = refl
append-empty (x ∷ xs) = ap (◌∷◌ x) (append-empty xs)

pub limited-past_limit {ℓ} :
    {A : Type ℓ} (l : Option ℤ) (xs : List A) → limited l xs ++ past_limit l xs ≡ xs
unfolding limited past_limit
limited-past_limit none xs = append-empty xs
limited-past_limit (some (pos n)) xs = take-drop n xs
limited-past_limit (some (negsuc n)) xs = refl

ok_unique : {E A : Type 0} {a b : A} (x : Result E A) → x ≡ ok a → x ≡ ok b → a ≡ b
ok_unique x p q = cc (p, q)

module _ ⦃j : JsonCodec⦄ where
  abbrev pub Event : Type 0
  Event = OutboxEvent (Payload j.Json)

  pub event-sequence :
      (r : Row j.Column) (e : Event) → event r ≡ ok e → e.sequence ≡ r.event_sequence
  unfolding event
  event-sequence r e h = go (j.load r.payload_json) refl h
    where
      go :
          (o : Option (Payload j.Json))
          → j.load r.payload_json ≡ o
          → event r ≡ ok e
          → e.sequence ≡ r.event_sequence
      go none q h = absurd (let z = rw (event, q) at h in cc z)
      go (some p) q h = sym (
          ap (λ (x : Event). x.sequence)
            (ok_unique {a = event_of r p} (event r) (rw (event, q) refl) h))

  pub events-cons :
      (r : Row j.Column) (rs : List (Row j.Column)) (es : List Event)
      → events (r ∷ rs) ≡ ok es
      → (e : Event) × (es' : List Event) × (es ≡ e ∷ es') × (event r ≡ ok e) × (events rs ≡ ok es')
  unfolding events
  events-cons r rs es h = elim (Result-cases (event r)) [
    | inl (e, p) ↦ elim (Result-cases (events rs)) [
      | inl (es', q) ↦ let z = rw (p, q) at h in (e, es', sym (cc z), p, q)
      | inr (x, q) ↦ absurd (let z = rw (p, q) at h in cc z)
    ]
    | inr (x, p) ↦ absurd (let z = rw p at h in cc z)
  ]

  events-take :
      (n : ℕ) (rs : List (Row j.Column)) (es : List Event)
      → events rs ≡ ok es
      → events (take n rs) ≡ ok (take n es)
  unfolding events
  events-take zero rs es h = refl
  events-take (suc n) [] es h = rw (← ok_unique (events []) refl h) refl
  events-take (suc n) (r ∷ rs) es h =
      let (e, es', p, q, q') = events-cons r rs es h in rw (q, events-take n rs es' q', p) refl

  pub events-limited :
      (limit : Option ℤ) (rs : List (Row j.Column)) (es : List Event)
      → events rs ≡ ok es
      → events (limited limit rs) ≡ ok (limited limit es)
  unfolding limited events
  events-limited none rs es h = h
  events-limited (some (pos n)) rs es h = events-take n rs es h
  events-limited (some (negsuc n)) rs es h = refl

  pub events-append :
      (rows : List (Row j.Column)) (r : Row j.Column) (p : Payload j.Json) (es : List Event)
      → j.load r.payload_json ≡ some p
      → events rows ≡ ok es
      → events (rows ++ r ∷ []) ≡ ok (es ++ event_of r p ∷ [])
  unfolding events
  events-append [] r p es e h = rw (← ok_unique (events []) refl h, event, e) refl
  events-append (x ∷ xs) r p es e h =
      let (f, fs, q, s, s') = events-cons x xs es h in rw (q, events-append xs r p fs e s', s) refl
