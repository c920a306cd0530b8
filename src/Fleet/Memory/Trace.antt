-- ===== src/Fleet/Memory/Trace.antt =====
-- Every call of the in-memory fleet lease store (code_index/openclaw_hostd/leases.py) is a sequence
-- of the steps of Fleet/Memory/Steps.
use Prim.Native.String.{String}
use memory_network.Prelude.{
  ℕ, ◌+◌, ◌≡◌, refl, Bool, true, false, not, inl, inr, Option, none, some, List, [], ◌∷◌,
  if◌then◌else◌, nat_beq, str_eq, Bool-cases,
}
use memory_network.Prelude.Equality.{nat_beq_iff}
use memory_network.Prelude.Dict.{put}
use memory_network.Prelude.Exec.{Result, ok, err, resume, ◌>>=◌, lift, pure, Result-cases}
use memory_network.Text.{Unicode}
use memory_network.Fleet.Model.{
  Duration, LeaseError, conflict_error, Scope, host, repo, task, Key, key_eq, scope_beq, FleetLease,
  required_text, check_fence, expires_at, rebound_expires_at, new_lease,
  raise_if_owner_run_conflicts,
}
use memory_network.Fleet.Memory.{
  Memory, Action, store_lease, next_revision, active_lease_for_key, require_current_fence,
  write_task, record_task_status, note_leased, acquire_at, rebind, collect_active,
}
use memory_network.Fleet.Memory.Steps.{
  live, revision, settled, active_lease_for_key-eq, Presented, Allowed, Step, grant, count, other,
  Steps, here, next, one, join, settled-Steps, live-settled,
}

-- `m` after `_next_revision`
abbrev pub counted : Key → Memory → Memory
counted key m = record m { revisions = put key (revision key m + 1) m.revisions }

pub resume-state :
    {A B : Type 0} (x : Result LeaseError A × Memory) (f : A → B)
    → (resume x (λ a. pure (f a))).1 ≡ x.1
resume-state (ok a, m) f = refl
resume-state (err e, m) f = refl

module _ {now : ℕ} {by : Presented} where
  pub map-Steps :
      {A B : Type 0} (x : Result LeaseError A × Memory) (f : A → B) {m : Memory}
      → Steps now by m x.1
      → Steps now by m (resume x (λ a. pure (f a))).1
  map-Steps x f h = rw (resume-state x f) h

  pub lift-Steps :
      {A B : Type 0} (r : Result LeaseError A) (k : A → Action B) (m : Memory)
      → ((a : A) → r ≡ ok a → Steps now by m (k a m).1)
      → Steps now by m ((lift r >>= k) m).1
  lift-Steps (ok a) k m h = h a refl
  lift-Steps (err e) k m h = here

  -- the continuation of `_require_current_fence` runs only on the live lease with that fence
  pub fenced-Steps :
      {B : Type 0} (key : Key) (f : ℕ) (k : FleetLease → Action B) (m : Memory)
      → ((a : FleetLease)
          → live key now (settled key now m) ≡ some a
          → a.fencing_revision ≡ f
          → Steps now by (settled key now m) (k a (settled key now m)).1)
      → Steps now by m ((require_current_fence key f now >>= k) m).1
  unfolding require_current_fence
  fenced-Steps key f k m h =
      rw (active_lease_for_key-eq key now m) (join (settled-Steps key m) (go (live key now m) refl))
    where
      go :
          (o : Option FleetLease)
          → live key now m ≡ o
          → Steps now by (settled key now m) (resume (check_fence o f, settled key now m) k).1
      go none e = unfold check_fence in here
      go (some a) e = elim (Bool-cases (nat_beq a.fencing_revision f)) [
        | inl same ↦
            rw (same, check_fence)
              (h a (rw (live-settled key now m key) e) ((nat_beq_iff a.fencing_revision f).0 same))
        | inr stale ↦ rw (stale, check_fence) here
      ]

  note_leased-Steps :
      ⦃u : Unicode⦄ (key : Key) (owner : String) (run : Option String) (m : Memory)
      → Step now by m (note_leased key owner run now m).1
  unfolding note_leased record_task_status write_task
  note_leased-Steps (task, id) owner run m =
      elim (Result-cases (required_text (some id) "task_id")) [
        | inr (e, p) ↦ rw p (other refl refl)
        | inl (t, p) ↦ rw p (other refl refl)
      ]
  note_leased-Steps (host, id) owner run m = other refl refl
  note_leased-Steps (repo, id) owner run m = other refl refl

  -- after a grant: the lease is stored under the next revision
  pub granted-Steps :
      {m u : Memory} (key : Key) (l : FleetLease)
      → l.fencing_revision ≡ revision key m + 1
      → Allowed now by key m
      → u ≡ record m {
        leases = put key l m.leases;
        revisions = put key (revision key m + 1) m.revisions;
      }
      → Steps now by m u
  granted-Steps key l e a p = one (grant key l e a p)

  -- `_next_revision` has counted, and `_expires_at` returns an expiry or raises
  pub counted-Steps :
      {B : Type 0} (key : Key) (r : Result LeaseError (Option ℕ)) (k : Option ℕ → Action B)
      (m : Memory)
      → ((e : Option ℕ) → Steps now by m (k e (counted key m)).1)
      → Steps now by m ((lift r >>= k) (counted key m)).1
  counted-Steps key (ok e) k m h = h e
  counted-Steps key (err e) k m h = one (count key refl)

  pub rebind-Steps :
      (key : Key) (run : String) (ttl : Option Duration) (a : FleetLease) (m : Memory)
      → Allowed now by key m
      → Steps now by m (rebind key run ttl now a m).1
  unfolding rebind next_revision store_lease
  rebind-Steps key run ttl a m h =
      go (elim a.owner_run_id [ none ↦ false | some r ↦ str_eq r run ]) refl
    where
      go :
          (b : Bool)
          → elim a.owner_run_id [ none ↦ false | some r ↦ str_eq r run ] ≡ b
          → Steps now by m (rebind key run ttl now a m).1
      go true e = rw e here
      go false e = rw e (
          counted-Steps key (rebound_expires_at a.expires_at now ttl) _ m
            (λ x. granted-Steps {m = m} key _ refl h refl))

  pub acquire_at-Steps :
      ⦃u : Unicode⦄ (key : Key) (owner : String) (run : Option String) (ttl : Option Duration)
      (o : Option FleetLease) (m : Memory)
      → live key now m ≡ o
      → Steps now by m (acquire_at key owner run ttl now o m).1
  unfolding acquire_at next_revision store_lease new_lease
  acquire_at-Steps key owner run ttl none m e =
      counted-Steps key (expires_at now ttl) _ m λ expires.
        let l = new_lease key owner run (revision key m + 1) now now expires in
        let t : Memory = record m {
          leases = put key l m.leases;
          revisions = put key (revision key m + 1) m.revisions;
        } in
        rw (resume-state (note_leased key owner l.owner_run_id now t) (λ _. l)) (
          next {t = t} (granted-Steps key l refl (inl e) refl)
            (note_leased-Steps key owner l.owner_run_id t))
  acquire_at-Steps key owner run ttl (some l) m e =
      elim (Bool-cases (str_eq l.owner_host_id owner)) [
        | inl p ↦ rw p (
            lift-Steps (raise_if_owner_run_conflicts l run conflict_error) (λ _. pure l) m
              (λ a q. here))
        | inr p ↦ rw p here
      ]

  visit-Steps :
      (skip : Bool) (key : Key) (rest : Action (List FleetLease)) (m : Memory)
      → ((n : Memory) → Steps now by n (rest n).1)
      → Steps now by m
          ((if skip then rest else do
            lease ← active_lease_for_key key now
            found ← rest
            pure (elim lease [ none ↦ found | some l ↦ l ∷ found ]))
            m).1
  visit-Steps true key rest m ih = ih m
  visit-Steps false key rest m ih =
      rw
        (
          active_lease_for_key-eq key now m,
          resume-state (rest (settled key now m))
              (λ found. elim (live key now m) [ none ↦ found | some l ↦ l ∷ found ]),
        )
        (join (settled-Steps key m) (ih (settled key now m)))

  -- the loop of `list_active_leases` settles one key after the other
  pub collect_active-Steps :
      (keys : List Key) (requested : Option Scope) (m : Memory)
      → Steps now by m (collect_active keys requested now m).1
  unfolding collect_active
  collect_active-Steps [] requested m = here
  collect_active-Steps (key ∷ keys) requested m =
      visit-Steps (elim requested [ none ↦ false | some s ↦ not (scope_beq key.0 s) ]) key
        (collect_active keys requested now) m (λ n. collect_active-Steps keys requested n)
