-- ===== src/Fleet/Memory/Steps.antt =====
-- The in-memory fleet lease store as a transition system: each method of
-- code_index/openclaw_hostd/leases.py is a sequence of steps that expire a lease that is due,
-- grant a lease under the next revision, count a revision that no lease gets since the expiry cannot
-- be computed, or leave leases and revisions alone.
use memory_network.Prelude.{
  ℕ, ◌+◌, ◌≡◌, refl, true, not, ◌&&◌, ◌⊎◌, inl, inr, Option, none, some, arith, if◌then◌else◌,
  value_or, Bool-cases,
}
use memory_network.Prelude.Dict.{get, put, get-put}
use memory_network.Prelude.Exec.{ok}
use memory_network.Fleet.Model.{Key, key_eq, FleetLease, expired, is_active, is_due}
use memory_network.Fleet.Memory.{Memory, active_of, active_lease_for_key}

-- the lease of a key that counts at an instant
unfoldable pub live_of : Option FleetLease → ℕ → Option FleetLease
unfolding is_due
live_of none now = none
live_of (some l) now = if is_active l.status && not (is_due l.expires_at now) then some l else none

pub live_of-some :
    (o : Option FleetLease) (now : ℕ) (l : FleetLease) → live_of o now ≡ some l → o ≡ some l
unfolding live_of
live_of-some none now l h = h
live_of-some (some x) now l h = ground arith

abbrev pub live : Key → ℕ → Memory → Option FleetLease
live key now m = live_of (get key m.leases) now

abbrev pub revision : Key → Memory → ℕ
revision key m = value_or 0 (get key m.revisions)

-- `m` after `_active_lease_for_key`
unfoldable pub settle_of : Key → ℕ → Option FleetLease → Memory → Memory
unfolding is_due
settle_of key now none m = m
settle_of key now (some l) m =
    if is_active l.status && is_due l.expires_at now
    then record m { leases = put key (record l { status = expired; updated_at = now }) m.leases }
    else m

abbrev pub settled : Key → ℕ → Memory → Memory
settled key now m = settle_of key now (get key m.leases) m

active_of-eq :
    (key : Key) (now : ℕ) (o : Option FleetLease) (m : Memory)
    → active_of key now o m ≡ (ok (live_of o now), settle_of key now o m)
unfolding active_of live_of settle_of
active_of-eq key now none m = refl
active_of-eq key now (some l) m = elim (Bool-cases (is_active l.status)) [
  | inl a ↦ elim (Bool-cases (is_due l.expires_at now)) [ inl d ↦ rw (a, d) | inr d ↦ rw (a, d) ]
  | inr a ↦ rw a
]

-- `_active_lease_for_key` returns the live lease, and expires one that is due.
pub active_lease_for_key-eq :
    (key : Key) (now : ℕ) (m : Memory)
    → active_lease_for_key key now m ≡ (ok (live key now m), settled key now m)
unfolding active_lease_for_key
active_lease_for_key-eq key now m = active_of-eq key now (get key m.leases) m

-- What a call may present: a key and a fencing revision.
abbrev pub Presented : Type 0
Presented = Option (Key × ℕ)

-- A key may be granted anew if it has no live lease, or if the call presents the live one's fence.
abbrev pub Allowed : ℕ → Presented → Key → Memory → Type 0
Allowed now by key m =
    (live key now m ≡ none)
    ⊎ ((l : FleetLease) × (live key now m ≡ some l) × (by ≡ some (key, l.fencing_revision)))

pub data Step (now : ℕ) (by : Presented) (m u : Memory) : Type 0 where
  expire :
      (key : Key) (l : FleetLease)
      → get key m.leases ≡ some l
      → is_active l.status ≡ true
      → is_due l.expires_at now ≡ true
      → u ≡ record m { leases = put key (record l { status = expired; updated_at = now }) m.leases }
      → Step now by m u
  grant :
      (key : Key) (l : FleetLease)
      → l.fencing_revision ≡ revision key m + 1
      → Allowed now by key m
      → u ≡ record m {
        leases = put key l m.leases;
        revisions = put key (revision key m + 1) m.revisions;
      }
      → Step now by m u
  count :
      (key : Key)
      → u ≡ record m { revisions = put key (revision key m + 1) m.revisions }
      → Step now by m u
  other : u.leases ≡ m.leases → u.revisions ≡ m.revisions → Step now by m u

pub data Steps (now : ℕ) (by : Presented) (m : Memory) : Memory → Type 0 where
  here : Steps now by m m
  next : {t u : Memory} → Steps now by m t → Step now by t u → Steps now by m u

module _ {now : ℕ} {by : Presented} where
  pub one : {m u : Memory} → Step now by m u → Steps now by m u
  one s = next here s

  pub join : {m t u : Memory} → Steps now by m t → Steps now by t u → Steps now by m u
  join r here = r
  join r (next q s) = next (join r q) s

  settle_of-Steps :
      (key : Key) (o : Option FleetLease) (m : Memory)
      → get key m.leases ≡ o
      → Steps now by m (settle_of key now o m)
  unfolding settle_of
  settle_of-Steps key none m e = here
  settle_of-Steps key (some l) m e = elim (Bool-cases (is_active l.status)) [
    | inl a ↦ elim (Bool-cases (is_due l.expires_at now)) [
      | inl d ↦ rw (a, d) (one (expire key l e a d refl))
      | inr d ↦ rw (a, d) here
    ]
    | inr a ↦ rw a here
  ]

  pub settled-Steps : (key : Key) (m : Memory) → Steps now by m (settled key now m)
  settled-Steps key m = settle_of-Steps key (get key m.leases) m refl

live_of-settle_of :
    (key : Key) (now : ℕ) (o : Option FleetLease) (m : Memory) (j : Key)
    → get key m.leases ≡ o
    → live j now (settle_of key now o m) ≡ live j now m
unfolding settle_of live_of
live_of-settle_of key now none m j e = refl
live_of-settle_of key now (some l) m j e =
    elim (Bool-cases (is_active l.status && is_due l.expires_at now)) [
      | inr k ↦ rw k
      | inl k ↦ rw (k, get-put) (ground (arith, key_eq.same_iff key j))
    ]

-- Settling a key changes no live lease.
pub live-settled :
    (key : Key) (now : ℕ) (m : Memory) (j : Key) → live j now (settled key now m) ≡ live j now m
live-settled key now m j = live_of-settle_of key now (get key m.leases) m j refl
