-- ===== src/Fleet/Memory/Outcomes.antt =====
-- When a method of the in-memory fleet lease store returns, what it presented and what it wrote
-- (code_index/openclaw_hostd/leases.py).
use Prim.Native.String.{String}
use memory_network.Prelude.{
  ℕ, ◌+◌, ◌≡◌, refl, ◌&&◌, ◌⊎◌, inl, inr, Option, none, some, nat_beq, str_eq, eq_iff, Bool-cases,
}
use memory_network.Prelude.Equality.{nat_beq_iff}
use memory_network.Prelude.Dict.{get, put}
use memory_network.Prelude.Exec.{Result, ok, err, resume, ◌>>=◌, lift}
use memory_network.Text.{Unicode, optional_text}
use memory_network.Fleet.Model.{
  Duration, LeaseError, owner_error, Key, key_eq, FleetLease, Status, released, revoked,
  required_text, check_fence, lease_key, require_lease_owner, raise_if_owner_run_conflicts,
  new_lease, expires_at, is_active, is_due,
}
use memory_network.Fleet.Expiry.{Expiry, expires_at-Expiry}
use memory_network.Fleet.Memory.Trace.{counted}
use memory_network.Fleet.Memory.{
  Memory, Action, store_lease, next_revision, require_current_fence, renew_lease, release_lease,
  revoke_lease, overwrite_lease,
}
use memory_network.Fleet.Memory.Steps.{live, revision, settled, settle_of, active_lease_for_key-eq}

abbrev Text : Type 0
Text = Option String

revisions-settle_of :
    (key : Key) (now : ℕ) (o : Option FleetLease) (m : Memory)
    → (settle_of key now o m).revisions ≡ m.revisions
unfolding settle_of
revisions-settle_of key now none m = refl
revisions-settle_of key now (some l) m =
    elim (Bool-cases (is_active l.status && is_due l.expires_at now)) [
      | inl e ↦ rw e
      | inr e ↦ rw e
    ]

pub revisions-settled :
    (key : Key) (now : ℕ) (m : Memory) → (settled key now m).revisions ≡ m.revisions
revisions-settled key now m = revisions-settle_of key now (get key m.leases) m

-- What holds of the value and the state that a method returns; nothing if it raises.
abbrev pub Returns : {A : Type 0} → Result LeaseError A × Memory → (A → Memory → Type 0) → Type 0
Returns (ok a, m) P = P a m
Returns (err e, m) P = Unit

pub Returns-at :
    {A : Type 0} (x : Result LeaseError A × Memory) (P : A → Memory → Type 0) (a : A) (m : Memory)
    → Returns x P
    → x ≡ (ok a, m)
    → P a m
Returns-at x P a m h e = rw e at h

pub lift-Returns :
    {A B : Type 0} (r : Result LeaseError A) (k : A → Action B) (m : Memory)
    (P : B → Memory → Type 0)
    → ((a : A) → r ≡ ok a → Returns (k a m) P)
    → Returns ((lift r >>= k) m) P
lift-Returns (ok a) k m P h = h a refl
lift-Returns (err e) k m P h = tt

-- A method that presents a fence returns only if that is the live lease's fence.
pub fenced-Returns :
    {B : Type 0} (key : Key) (f now : ℕ) (k : FleetLease → Action B) (m : Memory)
    (P : B → Memory → Type 0)
    → ((a : FleetLease)
        → live key now m ≡ some a
        → a.fencing_revision ≡ f
        → Returns (k a (settled key now m)) P)
    → Returns ((require_current_fence key f now >>= k) m) P
unfolding require_current_fence
fenced-Returns key f now k m P h = rw (active_lease_for_key-eq key now m) (go (live key now m) refl)
  where
    go :
        (o : Option FleetLease)
        → live key now m ≡ o
        → Returns (resume (check_fence o f, settled key now m) k) P
    go none e = unfold check_fence in tt
    go (some a) e = elim (Bool-cases (nat_beq a.fencing_revision f)) [
      | inl same ↦ rw (same, check_fence) (h a e ((nat_beq_iff a.fencing_revision f).0 same))
      | inr stale ↦ rw (stale, check_fence) tt
    ]

-- `m` after a lease is stored under the next revision of its key
abbrev pub granted : Key → FleetLease → ℕ → Memory → Memory
granted key l now m = record (settled key now m) {
  leases = put key l (settled key now m).leases;
  revisions = put key (revision key m + 1) m.revisions;
}

-- The run that a call names, if it names one, is the owner run, if the lease has one.
abbrev pub RunAgrees : FleetLease → Text → Type 0
RunAgrees held run =
    (optional_text run ≡ none)
    ⊎ (held.owner_run_id ≡ none)
    ⊎ (held.owner_run_id ≡ optional_text run)

pub run_of_ok :
    (a : FleetLease) (run : Text) (e : LeaseError) (x : Unit {0})
    → raise_if_owner_run_conflicts a run e ≡ ok x
    → RunAgrees a run
unfolding raise_if_owner_run_conflicts
run_of_ok a run e x h = go (optional_text run) a.owner_run_id refl refl
  where
    go : (o h' : Option String) → optional_text run ≡ o → a.owner_run_id ≡ h' → RunAgrees a run
    go none h' p q = inl p
    go (some t) none p q = inr (inl q)
    go (some t) (some t') p q = elim (Bool-cases (str_eq t' t)) [
      | inl same ↦ inr (inr (rw (p, q) (cc ((eq_iff t' t).0 same))))
      | inr differ ↦ absurd (let z = rw (raise_if_owner_run_conflicts, p, q, differ) at h in cc z)
    ]

pub owner_of_ok :
    (a : FleetLease) (host : String) (run : Text) (x : Unit {0})
    → require_lease_owner a host run ≡ ok x
    → (a.owner_host_id ≡ host) × RunAgrees a run
unfolding require_lease_owner
owner_of_ok a host run x h = elim (Bool-cases (str_eq a.owner_host_id host)) [
  | inl e ↦ (
    (eq_iff a.owner_host_id host).0 e,
    run_of_ok a run owner_error x (rw (e, require_lease_owner) at h),
  )
  | inr e ↦ absurd (let z = rw (e, require_lease_owner) at h in cc z)
]

-- The lease that a call was made on: it is live, the call presents its fence, and the call is its
-- owner's.
pub record Holds ⦃u : Unicode⦄ (s r : Text) (f now : ℕ) (m : Memory) (key : Key) (held : FleetLease)
    : Type 0 where
  pub parsed : lease_key s r ≡ ok key
  pub was_live : live key now m ≡ some held
  pub fence : held.fencing_revision ≡ f

-- the caller names the owner host, and no other run
abbrev pub Owns : Text → Text → FleetLease → Type 0
Owns owner run held =
    (required_text owner "owner_host_id" ≡ ok held.owner_host_id) × RunAgrees held run

Owns-of_ok :
    (owner run : Text) (host : String) (a : FleetLease) (x : Unit {0})
    → required_text owner "owner_host_id" ≡ ok host
    → require_lease_owner a host run ≡ ok x
    → Owns owner run a
Owns-of_ok owner run host a x q o = let (e, ag) = owner_of_ok a host run x o in (rw e q, ag)

abbrev pub next_lease : ℕ → FleetLease → ℕ → Option ℕ → Status → FleetLease
next_lease revision held now expires status' = record held {
  fencing_revision = revision;
  status = status';
  updated_at = now;
  expires_at = expires;
}

module _ ⦃u : Unicode⦄ (s r : Text) where
  abbrev pub Renewed : Text → Text → ℕ → Option Duration → ℕ → Memory → FleetLease → Memory → Type 0
  Renewed owner run f ttl now m l m' =
      (key : Key) × (held : FleetLease) × Holds s r f now m key held
      × Owns owner run held
      × (expires : Option ℕ) × Expiry now ttl expires
      × (l ≡ next_lease (revision key m + 1) held now expires held.status)
      × (m' ≡ granted key l now m)

  -- What a returning `renew_lease` presented, and what it wrote.
  pub renew_lease-Returns :
      (owner run : Text) (f : ℕ) (ttl : Option Duration) (now : ℕ) (m : Memory)
      → Returns (renew_lease s r owner run f ttl now m) (Renewed owner run f ttl now m)
  unfolding renew_lease next_revision store_lease
  renew_lease-Returns owner run f ttl now m = lift-Returns (lease_key s r) _ m _ λ key p.
      lift-Returns (required_text owner "owner_host_id") _ m _ λ host q.
        fenced-Returns key f now _ m _ λ a la fa.
          lift-Returns (require_lease_owner a host run) _ (settled key now m) _ λ x o.
            lift-Returns (expires_at now ttl) _ (counted key (settled key now m)) _ λ expires w.
              rw (revisions-settled key now m) (
                key,
                a,
                record { parsed = p; was_live = la; fence = fa },
                Owns-of_ok owner run host a x q o,
                expires,
                expires_at-Expiry now ttl expires w,
                refl,
                refl,
              )

  abbrev pub Released : Text → Text → ℕ → ℕ → Memory → FleetLease → Memory → Type 0
  Released owner run f now m l m' =
      (key : Key) × (held : FleetLease) × Holds s r f now m key held
      × Owns owner run held
      × (l ≡ next_lease (revision key m + 1) held now none released)
      × (m' ≡ granted key l now m)

  pub release_lease-Returns :
      (owner run : Text) (f now : ℕ) (m : Memory)
      → Returns (release_lease s r owner run f now m) (Released owner run f now m)
  unfolding release_lease next_revision store_lease
  release_lease-Returns owner run f now m = lift-Returns (lease_key s r) _ m _ λ key p.
      lift-Returns (required_text owner "owner_host_id") _ m _ λ host q.
        fenced-Returns key f now _ m _ λ a la fa.
          lift-Returns (require_lease_owner a host run) _ (settled key now m) _ λ x o.
            rw (revisions-settled key now m) (
              key,
              a,
              record { parsed = p; was_live = la; fence = fa },
              Owns-of_ok owner run host a x q o,
              refl,
              refl,
            )

  abbrev pub Revoked : ℕ → ℕ → Memory → FleetLease → Memory → Type 0
  Revoked f now m l m' =
      (key : Key) × (held : FleetLease) × Holds s r f now m key held
      × (l ≡ next_lease (revision key m + 1) held now none revoked)
      × (m' ≡ granted key l now m)

  pub revoke_lease-Returns :
      (f now : ℕ) (m : Memory) → Returns (revoke_lease s r f now m) (Revoked f now m)
  unfolding revoke_lease next_revision store_lease
  revoke_lease-Returns f now m = lift-Returns (lease_key s r) _ m _ λ key p.
      fenced-Returns key f now _ m _ λ a la fa.
        rw (revisions-settled key now m)
          (key, a, record { parsed = p; was_live = la; fence = fa }, refl, refl)

  abbrev pub Overwritten :
      Text → Text → ℕ → Option Duration → ℕ → Memory → FleetLease → Memory → Type 0
  Overwritten owner run f ttl now m l m' =
      (key : Key) × (held : FleetLease) × Holds s r f now m key held
      × (host : String) × (required_text owner "owner_host_id" ≡ ok host)
      × (expires : Option ℕ) × Expiry now ttl expires
      × (l ≡ new_lease key host run (revision key m + 1) held.acquired_at now expires)
      × (m' ≡ granted key l now m)

  pub overwrite_lease-Returns :
      (owner run : Text) (f : ℕ) (ttl : Option Duration) (now : ℕ) (m : Memory)
      → Returns (overwrite_lease s r owner run f ttl now m) (Overwritten owner run f ttl now m)
  unfolding overwrite_lease next_revision store_lease
  overwrite_lease-Returns owner run f ttl now m = lift-Returns (lease_key s r) _ m _ λ key p.
      lift-Returns (required_text owner "owner_host_id") _ m _ λ host q.
        fenced-Returns key f now _ m _ λ a la fa.
          lift-Returns (expires_at now ttl) _ (counted key (settled key now m)) _ λ expires w.
            rw (revisions-settled key now m) (
              key,
              a,
              record { parsed = p; was_live = la; fence = fa },
              host,
              q,
              expires,
              expires_at-Expiry now ttl expires w,
              refl,
              refl,
            )
