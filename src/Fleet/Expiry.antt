-- ===== src/Fleet/Expiry.antt =====
-- `_expires_at` of code_index/openclaw_hostd/leases.py against a description of its own: no expiry
-- without a duration, the instant itself for a duration that is not positive, and else the end of
-- the duration, which must be an instant of `datetime`.
use memory_network.Prelude.{
  ℕ, ◌+◌, ◌≤◌, ◌≡◌, refl, inl, inr, Option, none, some, arith, Bool-cases, leb, true,
}
use memory_network.Prelude.Int.{pos, negsuc}
use memory_network.Prelude.Exec.{ok}
use memory_network.Fleet.Model.{
  Duration, span, infinite, not_a_number, max_instant, expires_at, rebound_expires_at,
}

abbrev pub Expiry : ℕ → Option Duration → Option ℕ → Type 0
Expiry now none e = e ≡ none
Expiry now (some (span (negsuc n))) e = e ≡ some now
Expiry now (some (span (pos n))) e = (e ≡ some (now + n)) × (now + n ≤ max_instant)
Expiry now (some infinite) e = ⊥
Expiry now (some not_a_number) e = ⊥

pub expires_at-Expiry :
    (now : ℕ) (ttl : Option Duration) (e : Option ℕ) → expires_at now ttl ≡ ok e → Expiry now ttl e
unfolding expires_at
expires_at-Expiry now none e h = cc h
expires_at-Expiry now (some (span (negsuc n))) e h = cc h
expires_at-Expiry now (some (span (pos n))) e h = elim (Bool-cases (leb (now + n) max_instant)) [
  | inl k ↦ let z = rw k at h in (cc z, ground arith)
  | inr k ↦ absurd (let z = rw k at h in cc z)
]
expires_at-Expiry now (some infinite) e h = absurd (cc h)
expires_at-Expiry now (some not_a_number) e h = absurd (cc h)

pub Expiry-expires_at :
    (now : ℕ) (ttl : Option Duration) (e : Option ℕ) → Expiry now ttl e → expires_at now ttl ≡ ok e
unfolding expires_at
Expiry-expires_at now none e h = rw h refl
Expiry-expires_at now (some (span (negsuc n))) e h = rw h refl
Expiry-expires_at now (some (span (pos n))) e (h, le) =
    let k : leb (now + n) max_instant ≡ true = ground arith in rw (h, k) refl
Expiry-expires_at now (some infinite) e h = absurd h
Expiry-expires_at now (some not_a_number) e h = absurd h

-- `_expires_at` returns
abbrev pub InRange : ℕ → Option Duration → Type 0
InRange now ttl = (e : Option ℕ) × Expiry now ttl e

-- so does the choice of `bind_lease_owner_run`
pub rebound_expires_at-InRange :
    (held : Option ℕ) (now : ℕ) (ttl : Option Duration)
    → InRange now ttl
    → (e : Option ℕ) × (rebound_expires_at held now ttl ≡ ok e)
unfolding rebound_expires_at
rebound_expires_at-InRange held now none h = (held, refl)
rebound_expires_at-InRange held now (some ttl) (e, h) = (e, Expiry-expires_at now (some ttl) e h)
