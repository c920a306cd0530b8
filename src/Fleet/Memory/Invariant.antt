-- ===== src/Fleet/Memory/Invariant.antt =====
-- What every step of the in-memory fleet lease store keeps (code_index/openclaw_hostd/leases.py).
use memory_network.Prelude.{
  ℕ, ◌≤◌, ◌<◌, ◌≡◌, ◌≢◌, refl, false, inl, inr, Option, none, some, arith, Bool-cases,
}
use memory_network.Prelude.Equality.{◌==◌, ==_true}
use memory_network.Prelude.Dict.{get, get-put}
use memory_network.Fleet.Model.{Key, key_eq, FleetLease, is_due}
use memory_network.Fleet.Memory.{Memory, init}
use memory_network.Fleet.Memory.Steps.{
  live_of, live, revision, Presented, Step, expire, grant, count, other, Steps, here, next,
}

-- The revision counter of a key is no less than the fencing revision of its lease.
pub record IsValid (m : Memory) : Type 0 where
  pub counted :
      (key : Key) (l : FleetLease) → get key m.leases ≡ some l → l.fencing_revision ≤ revision key m

-- A fencing revision of a key is past: the key's counter is beyond it, and so is the lease's.
pub record Past (key : Key) (f : ℕ) (m : Memory) : Type 0 where
  pub counter : f < revision key m
  pub lease : (l : FleetLease) → get key m.leases ≡ some l → f < l.fencing_revision

pub init-IsValid : IsValid init
unfolding get
init-IsValid = record { counted = λ key l h. absurd (cc h) }

due_mono : (now t : ℕ) (o : Option ℕ) → now ≤ t → is_due o t ≡ false → is_due o now ≡ false
unfolding is_due
due_mono now t none h d = refl
due_mono now t (some e) h d = ground arith

-- A lease that is live at a later instant is live now.
pub live_of_earlier :
    (now t : ℕ) (o : Option FleetLease) (l : FleetLease)
    → now ≤ t
    → live_of o t ≡ some l
    → live_of o now ≡ some l
unfolding live_of
live_of_earlier now t none l h e = e
live_of_earlier now t (some x) l h e = ground (arith, due_mono now t x.expires_at h)

not-due_of_live :
    (now t : ℕ) (x l : FleetLease)
    → now ≤ t
    → live_of (some x) t ≡ some l
    → is_due x.expires_at now ≡ false
unfolding live_of
not-due_of_live now t x l h e = ground (arith, due_mono now t x.expires_at h)

module _ {now : ℕ} {by : Presented} where
  pub Step-IsValid : {m u : Memory} → Step now by m u → IsValid m → IsValid u
  Step-IsValid (expire key l e a d p) v = record {
    counted = λ j x.
        rw (p, get-put) (ground (arith, v.counted j x, v.counted key l e, key_eq.same_iff key j));
  }
  Step-IsValid (grant key l e a p) v = record {
    counted =
        λ j x. rw (p, get-put, get-put) (ground (arith, v.counted j x, key_eq.same_iff key j));
  }
  Step-IsValid (count key p) v = record {
    counted = λ j x. rw (p, get-put) (ground (arith, v.counted j x, key_eq.same_iff key j));
  }
  Step-IsValid (other p q) v = record { counted = λ j x. rw (p, q) (v.counted j x) }

  -- A revision counter never goes back.
  pub Step-revision : {m u : Memory} (j : Key) → Step now by m u → revision j m ≤ revision j u
  Step-revision j (expire key l e a d p) = rw p (omega arith)
  Step-revision j (grant key l e a p) = rw (p, get-put) (ground (arith, key_eq.same_iff key j))
  Step-revision j (count key p) = rw (p, get-put) (ground (arith, key_eq.same_iff key j))
  Step-revision j (other p q) = rw q (omega arith)

  -- What is past stays past.
  Step-Past : {m u : Memory} (j : Key) (f : ℕ) → Step now by m u → Past j f m → Past j f u
  Step-Past j f (expire key l e a d p) v = record {
    counter = rw p (v.counter);
    lease = λ x. rw (p, get-put) (ground (arith, v.lease x, v.lease l, key_eq.same_iff key j, e));
  }
  Step-Past j f (grant key l e a p) v = record {
    counter = rw (p, get-put) (ground (arith, v.counter, key_eq.same_iff key j));
    lease = λ x. rw (p, get-put) (ground (arith, v.counter, v.lease x, key_eq.same_iff key j));
  }
  Step-Past j f (count key p) v = record {
    counter = rw (p, get-put) (ground (arith, v.counter, key_eq.same_iff key j));
    lease = λ x. rw p (v.lease x);
  }
  Step-Past j f (other p q) v = record { counter = rw q (v.counter); lease = λ x. rw p (v.lease x) }

  -- A step does not touch a lease that is live and whose fence the call does not present.
  pub Step-live :
      {m u : Memory} (t : ℕ) (j : Key) (l : FleetLease)
      → now ≤ t
      → live j t m ≡ some l
      → by ≢ some (j, l.fencing_revision)
      → Step now by m u
      → live j t u ≡ some l
  Step-live {m} t j l h e ne (expire key x g a d p) = elim (Bool-cases (key == j)) [
    | inr k ↦ rw (p, get-put, k) e
    | inl k ↦
        let same : get j m.leases ≡ some x = rw (← ==_true key j k) g in
        absurd (cc (not-due_of_live now t x l h (rw same at e)))
  ]
  Step-live {m} t j l h e ne (grant key x g a p) = elim (Bool-cases (key == j)) [
    | inr k ↦ rw (p, get-put, k) e
    | inl k ↦
        let same : key ≡ j = ==_true key j k in
        let now_live : live key now m ≡ some l =
          rw same (live_of_earlier now t (get j m.leases) l h e) in
        absurd (elim a [ inl free ↦ cc | inr (x', lx, pr) ↦ ne (rw (pr, same) (cc)) ])
  ]
  Step-live t j l h e ne (count key p) = rw p e
  Step-live t j l h e ne (other p q) = rw p e

  pub Steps-IsValid : {m u : Memory} → Steps now by m u → IsValid m → IsValid u
  Steps-IsValid here v = v
  Steps-IsValid (next r s) v = Step-IsValid s (Steps-IsValid r v)

  pub Steps-Past : {m u : Memory} (j : Key) (f : ℕ) → Steps now by m u → Past j f m → Past j f u
  Steps-Past j f here v = v
  Steps-Past j f (next r s) v = Step-Past j f s (Steps-Past j f r v)

  pub Steps-revision : {m u : Memory} (j : Key) → Steps now by m u → revision j m ≤ revision j u
  Steps-revision j here = omega arith
  Steps-revision j (next r s) = omega (arith, Steps-revision j r, Step-revision j s)

  pub Steps-live :
      {m u : Memory} (t : ℕ) (j : Key) (l : FleetLease)
      → now ≤ t
      → live j t m ≡ some l
      → by ≢ some (j, l.fencing_revision)
      → Steps now by m u
      → live j t u ≡ some l
  Steps-live t j l h e ne here = e
  Steps-live t j l h e ne (next r s) = Step-live t j l h (Steps-live t j l h e ne r) ne s
