-- ===== src/Fleet/Memory/Acquire.antt =====
-- Who gets a lease from the in-memory fleet lease store: `acquire_lease` of
-- code_index/openclaw_hostd/leases.py.
use Prim.Native.String.{String}
use memory_network.Prelude.{
  ℕ, ◌+◌, ◌≡◌, ◌≢◌, refl, ◌⊎◌, inl, inr, Option, none, some, str_eq, eq_iff, Bool-cases,
}
use memory_network.Prelude.Dict.{get}
use memory_network.Prelude.Exec.{ok, err}
use memory_network.Text.{Unicode}
use memory_network.Fleet.Model.{
  Duration, conflict_error, Key, key_eq, FleetLease, required_text, lease_key, new_lease,
}
use memory_network.Fleet.Expiry.{Expiry}
use memory_network.Fleet.Memory.{Memory, acquire_at, acquire_lease}
use memory_network.Fleet.Memory.Steps.{live, revision, active_lease_for_key-eq}
use memory_network.Fleet.Memory.Outcomes.{RunAgrees}

abbrev Text : Type 0
Text = Option String

-- A lease is returned to its owner again, or granted on a key that is free.
abbrev pub Acquired :
    ⦃u : Unicode⦄
    → Key
    → String
    → Text
    → Option Duration
    → ℕ
    → Memory
    → FleetLease
    → Memory
    → Type 0
Acquired key owner run ttl now m l m' =
    ((live key now m ≡ some l)
      × (l.owner_host_id ≡ owner)
      × RunAgrees l run
      × ((j : Key) → live j now m' ≡ live j now m))
    ⊎ ((live key now m ≡ none)
        × (expires : Option ℕ) × Expiry now ttl expires
        × (l ≡ new_lease key owner run (revision key m + 1) now now expires)
        × (get key m'.leases ≡ some l)
        × (get key m'.revisions ≡ some (revision key m + 1)))

module _ ⦃u : Unicode⦄ where
  abbrev Granted : Key → String → Text → Option Duration → ℕ → ℕ → FleetLease → Memory → Type 0
  Granted key owner run ttl now n l m' =
      (expires : Option ℕ) × Expiry now ttl expires
      × (l ≡ new_lease key owner run n now now expires)
      × (get key m'.leases ≡ some l)
      × (get key m'.revisions ≡ some n)

  abbrev pub AcquiredBy :
      Text → Text → Text → Text → Option Duration → ℕ → Memory → FleetLease → Memory → Type 0
  AcquiredBy s r owner run ttl now m l m' =
      (key : Key) × (host' : String) × (lease_key s r ≡ ok key)
      × (required_text owner "owner_host_id" ≡ ok host')
      × Acquired key host' run ttl now m l m'

  -- `acquire_lease` of a host on a key with a live lease of another host raises `LeaseConflictError`.
  pub acquire_conflict :
      (s r owner run : Text) (ttl : Option Duration) (now : ℕ) (m : Memory) (key : Key)
      (host' : String) (l : FleetLease)
      → lease_key s r ≡ ok key
      → required_text owner "owner_host_id" ≡ ok host'
      → live key now m ≡ some l
      → l.owner_host_id ≢ host'
      → (acquire_lease s r owner run ttl now m).0 ≡ err conflict_error
  unfolding acquire_lease
  acquire_conflict s r owner run ttl now m key host' l p q e ne =
      rw (p, q, active_lease_for_key-eq key now m, e)
        (elim (Bool-cases (str_eq l.owner_host_id host')) [
          | inl same ↦ absurd (ne ((eq_iff l.owner_host_id host').0 same))
          | inr differ ↦ rw (differ, acquire_at) refl
        ])
