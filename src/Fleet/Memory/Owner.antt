-- ===== src/Fleet/Memory/Owner.antt =====
-- What the owner of a live lease can do with it in the in-memory fleet lease store, and nobody
-- else: `renew_lease` and `release_lease` of code_index/openclaw_hostd/leases.py.
use Prim.Native.String.{String}
use memory_network.Prelude.{
  ℕ, ◌+◌, ◌≡◌, refl, ◌∙◌, inl, inr, Option, none, some, eq_iff, Option-cases,
}
use memory_network.Prelude.Equality.{nat_beq_iff, string_eq}
use memory_network.Prelude.Exec.{ok}
use memory_network.Text.{Unicode, optional_text}
use memory_network.Fleet.Model.{
  Duration, LeaseError, Key, key_eq, FleetLease, released, check_fence, require_lease_owner,
  raise_if_owner_run_conflicts,
}
use memory_network.Fleet.Expiry.{Expiry, Expiry-expires_at}
use memory_network.Fleet.Memory.{
  Memory, renew_lease, release_lease, require_current_fence, next_revision, store_lease,
}
use memory_network.Fleet.Memory.Steps.{revision, active_lease_for_key-eq}
use memory_network.Fleet.Memory.Outcomes.{
  Returns-at, RunAgrees, Owns, Holds, next_lease, Renewed, Released, renew_lease-Returns,
  release_lease-Returns, revisions-settled,
}

abbrev Text : Type 0
Text = Option String

run_agrees :
    (a : FleetLease) (run : Text) (e : LeaseError)
    → RunAgrees a run
    → raise_if_owner_run_conflicts a run e ≡ ok tt
unfolding raise_if_owner_run_conflicts
run_agrees a run e (inl p) = rw (p, raise_if_owner_run_conflicts)
run_agrees a run e (inr (inl p)) = elim (Option-cases (optional_text run)) [
  | inl q ↦ rw (q, raise_if_owner_run_conflicts)
  | inr (t, q) ↦ rw (raise_if_owner_run_conflicts, q, p)
]
run_agrees a run e (inr (inr p)) = elim (Option-cases (optional_text run)) [
  | inl q ↦ rw (q, raise_if_owner_run_conflicts)
  | inr (t, q) ↦ rw (raise_if_owner_run_conflicts, q, p ∙ q, (eq_iff t t).1 refl)
]

owner_passes :
    (a : FleetLease) (run : Text)
    → RunAgrees a run
    → require_lease_owner a a.owner_host_id run ≡ ok tt
unfolding require_lease_owner
owner_passes a run h = rw ((eq_iff a.owner_host_id a.owner_host_id).1 refl) (run_agrees a run _ h)

module _ ⦃u : Unicode⦄ (s r owner run : Text) (f : ℕ) where
  -- If `renew_lease` returns a lease, then the caller presented the fencing revision of the key's
  -- live lease and named its owner host and no other run than its own, and the same lease is stored
  -- under the next revision, with the expiry that the duration gives.
  pub renew_lease-Renewed :
      (ttl : Option Duration) (now : ℕ) (m m' : Memory) (l : FleetLease)
      → renew_lease s r owner run f ttl now m ≡ (ok l, m')
      → Renewed s r owner run f ttl now m l m'
  renew_lease-Renewed ttl now m m' l e =
      Returns-at _ (Renewed s r owner run f ttl now m) l m'
        (renew_lease-Returns s r owner run f ttl now m) e

  -- If `release_lease` returns a lease, then the caller presented the fencing revision of the key's
  -- live lease and named its owner host and no other run than its own, and the lease is stored as
  -- released, without expiry, under the next revision.
  pub release_lease-Released :
      (now : ℕ) (m m' : Memory) (l : FleetLease)
      → release_lease s r owner run f now m ≡ (ok l, m')
      → Released s r owner run f now m l m'
  release_lease-Released now m m' l e =
      Returns-at _ (Released s r owner run f now m) l m'
        (release_lease-Returns s r owner run f now m) e

  module _ (now : ℕ) (m : Memory) (key : Key) (held : FleetLease) (h : Holds s r f now m key held)
      (o : Owns owner run held) where
    fence_passes : check_fence (some held) f ≡ ok held
    unfolding check_fence
    fence_passes = rw ((nat_beq_iff held.fencing_revision f).1 h.fence)

    -- The owner of a live lease that presents its fencing revision and no other run renews it, for
    -- every duration that ends at an instant of `datetime`: the lease gets the next revision, and no
    -- expiry without a duration, `now` for a duration that is not positive, and else its end.
    pub renew_succeeds :
        (ttl : Option Duration) (expires : Option ℕ)
        → Expiry now ttl expires
        → (renew_lease s r owner run f ttl now m).0
          ≡ ok (next_lease (revision key m + 1) held now expires held.status)
    unfolding renew_lease require_current_fence next_revision store_lease
    renew_succeeds ttl expires w =
        rw
          (
            h.parsed,
            o.0,
            active_lease_for_key-eq key now m,
            h.was_live,
            fence_passes,
            owner_passes held run o.1,
            Expiry-expires_at now ttl expires w,
            revisions-settled key now m,
          )
          refl

    -- The owner of a live lease that presents its fencing revision and no other run releases it.
    pub release_succeeds :
        (release_lease s r owner run f now m).0
        ≡ ok (next_lease (revision key m + 1) held now none released)
    unfolding release_lease require_current_fence next_revision store_lease
    release_succeeds =
        rw
          (
            h.parsed,
            o.0,
            active_lease_for_key-eq key now m,
            h.was_live,
            fence_passes,
            owner_passes held run o.1,
            revisions-settled key now m,
          )
          refl
