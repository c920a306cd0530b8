-- ===== src/Fleet/Memory/Fencing.antt =====
-- The fencing guarantees of the in-memory fleet lease store over whole histories of calls
-- (code_index/openclaw_hostd/leases.py).
use Prim.Native.String.{String}
use memory_network.Prelude.{
  ℕ, ◌+◌, ◌≤◌, ◌≡◌, ◌≢◌, refl, sym, ap, ◌∙◌, inl, inr, Option, none, some, List, [], ◌∷◌, arith,
  nat_beq, Bool-cases,
}
use memory_network.Prelude.Equality.{nat_beq_iff, ==_refl}
use memory_network.Prelude.Dict.{get, get-put}
use memory_network.Prelude.Lists.{All}
use memory_network.Prelude.Exec.{Result, ok, err, resume, ◌>>=◌, lift, pure}
use memory_network.Text.{Unicode}
use memory_network.Fleet.Model.{
  LeaseError, Key, key_eq, FleetLease, required_text, lease_key, check_fence, new_lease,
}
use memory_network.Fleet.Calls.{Call, Reply, time_of}
use memory_network.Fleet.Memory.{
  Memory, Action, init, require_current_fence, renew_lease, release_lease, bind_lease_owner_run,
  revoke_lease, overwrite_lease,
}
use memory_network.Fleet.Memory.Run.{perform, perform_all}
use memory_network.Fleet.Memory.Steps.{
  live_of-some, live, revision, settled, active_lease_for_key-eq,
}
use memory_network.Fleet.Memory.Methods.{presented_of, presented, perform-Steps}
use memory_network.Fleet.Memory.Invariant.{
  IsValid, Past, init-IsValid, Steps-IsValid, Steps-Past, Steps-live,
}
use memory_network.Fleet.Memory.Outcomes.{
  Returns, Returns-at, Renewed, Released, Revoked, Overwritten, Holds, granted, renew_lease-Returns,
  release_lease-Returns, revoke_lease-Returns, overwrite_lease-Returns,
}

abbrev Text : Type 0
Text = Option String

abbrev pub after : ⦃u : Unicode⦄ → List Call → Memory → Memory
after cs m = (perform_all cs m).1

abbrev pub Raises : {A : Type 0} → Result LeaseError A × Memory → Type 0
Raises x = (e : LeaseError) × (x.0 ≡ err e)

module _ ⦃u : Unicode⦄ where
  after-IsValid : (cs : List Call) (m : Memory) → IsValid m → IsValid (after cs m)
  unfolding perform_all
  after-IsValid [] m v = v
  after-IsValid (c ∷ cs) m v =
      after-IsValid cs (perform c m).1 (Steps-IsValid (perform-Steps 0 c m) v)

  -- Whatever calls have been made on a new store, returning or raising, the revision counter of
  -- each key is no less than the fencing revision of the key's lease.
  pub history-IsValid : (cs : List Call) → IsValid (after cs init)
  history-IsValid cs = after-IsValid cs init init-IsValid

  after-Past :
      (cs : List Call) (m : Memory) (key : Key) (f : ℕ) → Past key f m → Past key f (after cs m)
  unfolding perform_all
  after-Past [] m key f v = v
  after-Past (c ∷ cs) m key f v =
      after-Past cs (perform c m).1 key f (Steps-Past key f (perform-Steps 0 c m) v)

  -- A lease that is live at `t` is kept unchanged, field by field, by every history of calls that
  -- are made up to `t` and do not present its key with its fencing revision.
  pub lease_kept :
      (t : ℕ) (key : Key) (l : FleetLease) (cs : List Call) (m : Memory)
      → All (λ c. (time_of 0 c ≤ t) × (presented c ≢ some (key, l.fencing_revision))) cs
      → live key t m ≡ some l
      → live key t (after cs m) ≡ some l
  unfolding perform_all
  lease_kept t key l [] m h e = e
  lease_kept t key l (c ∷ cs) m h e =
      lease_kept t key l cs (perform c m).1 h.1
        (Steps-live t key l h.0.0 e h.0.1 (perform-Steps 0 c m))

  Raises-lift :
      {A B : Type 0} (r : Result LeaseError A) (k : A → Action B) (m : Memory)
      → ((a : A) → r ≡ ok a → Raises (k a m))
      → Raises ((lift r >>= k) m)
  Raises-lift (ok a) k m h = h a refl
  Raises-lift (err e) k m h = (e, refl)

  Raises-map :
      {A B : Type 0} (x : Result LeaseError A × Memory) (f : A → B)
      → Raises x
      → Raises (resume x (λ a. pure (f a)))
  Raises-map (ok a, m) f (e, h) = absurd (cc h)
  Raises-map (err e', m) f h = (e', refl)

  -- in a valid store the live lease's fence is no more than its key's counter
  live-fence :
      (key : Key) (now : ℕ) (m : Memory) (a : FleetLease)
      → IsValid m
      → live key now m ≡ some a
      → a.fencing_revision ≤ revision key m
  live-fence key now m a v h = v.counted key a (live_of-some (get key m.leases) now a h)

  module _ (key : Key) (f : ℕ) (m : Memory) (past : Past key f m) where
    Raises-fenced :
        {B : Type 0} (now : ℕ) (k : FleetLease → Action B)
        → Raises ((require_current_fence key f now >>= k) m)
    unfolding require_current_fence
    Raises-fenced now k = rw (active_lease_for_key-eq key now m) (go (live key now m) refl)
      where
        go :
            (o : Option FleetLease)
            → live key now m ≡ o
            → Raises (resume (check_fence o f, settled key now m) k)
        go none e = unfold check_fence in (LeaseError.fencing_error, refl)
        go (some a) e = elim (Bool-cases (nat_beq a.fencing_revision f)) [
          | inl same ↦ absurd (
              omega (
                arith,
                (nat_beq_iff a.fencing_revision f).0 same,
                past.lease a (live_of-some (get key m.leases) now a e),
              ))
          | inr differ ↦ rw (differ, check_fence) (LeaseError.fencing_error, refl)
        ]

    abbrev Presents : Text → Text → ℕ → Type 0
    Presents s r g = presented_of (lease_key s r) g ≡ some (key, f)

    same_fence :
        (s r : Text) (g : ℕ) (key' : Key)
        → Presents s r g
        → lease_key s r ≡ ok key'
        → (key' ≡ key) × (g ≡ f)
    same_fence s r g key' h p = let z = rw p at h in (cc z, cc z)

    -- A call that presents an old fence raises.
    stale-Raises : (c : Call) → presented c ≡ some (key, f) → Raises (perform c m)
    unfolding perform renew_lease release_lease bind_lease_owner_run revoke_lease overwrite_lease
    stale-Raises (Call.renew s r owner run g ttl now) h = Raises-map _ Reply.lease (
        Raises-lift (lease_key s r) _ m λ key' p.
          Raises-lift (required_text owner "owner_host_id") _ m λ host q.
            let (same, eq) = same_fence s r g key' h p in rw (same, eq) (Raises-fenced now _))
    stale-Raises (Call.release s r owner run g now) h = Raises-map _ Reply.lease (
        Raises-lift (lease_key s r) _ m λ key' p.
          Raises-lift (required_text owner "owner_host_id") _ m λ host q.
            let (same, eq) = same_fence s r g key' h p in rw (same, eq) (Raises-fenced now _))
    stale-Raises (Call.bind s r owner run new g ttl now) h = Raises-map _ Reply.lease (
        Raises-lift (lease_key s r) _ m λ key' p.
          Raises-lift (required_text owner "owner_host_id") _ m λ host q.
            Raises-lift (required_text new "new_owner_run_id") _ m λ run' q'.
              let (same, eq) = same_fence s r g key' h p in rw (same, eq) (Raises-fenced now _))
    stale-Raises (Call.revoke s r g now) h = Raises-map _ Reply.lease (
        Raises-lift (lease_key s r) _ m λ key' p.
          let (same, eq) = same_fence s r g key' h p in rw (same, eq) (Raises-fenced now _))
    stale-Raises (Call.overwrite s r owner run g ttl now) h = Raises-map _ Reply.lease (
        Raises-lift (lease_key s r) _ m λ key' p.
          Raises-lift (required_text owner "owner_host_id") _ m λ host q.
            let (same, eq) = same_fence s r g key' h p in rw (same, eq) (Raises-fenced now _))
    stale-Raises _ h = absurd (cc)

  Returns-spent :
      {A : Type 0} (x : Result LeaseError A × Memory) (P : A → Memory → Type 0)
      (Q : Memory → Type 0) (f : A → Reply)
      → Returns x P
      → ((a : A) (m : Memory) → P a m → Q m)
      → Returns (resume x (λ a. pure (f a))) (λ _ m. Q m)
  Returns-spent (ok a, m) P Q f h w = w a m h
  Returns-spent (err e, m) P Q f h w = tt

  -- the calls that use the fence up: all that present one, but `bind_lease_owner_run`
  abbrev pub Spends : Call → Type 0
  Spends (Call.renew s r owner run f ttl now) = Unit
  Spends (Call.release s r owner run f now) = Unit
  Spends (Call.revoke s r f now) = Unit
  Spends (Call.overwrite s r owner run f ttl now) = Unit
  Spends _ = ⊥

  abbrev Spent : Call → Memory → Type 0
  Spent c m' = (key : Key) × (f : ℕ) × (presented c ≡ some (key, f)) × Past key f m'

  fence_of_some : (l x : FleetLease) → some l ≡ some x → x.fencing_revision ≡ l.fencing_revision
  fence_of_some l x h =
      let same : l ≡ x = cc h in ap (λ (y : FleetLease). y.fencing_revision) (sym same)

  granted-Spent :
      (s r : Text) (f now : ℕ) (m m' : Memory) (key : Key) (held l : FleetLease)
      → IsValid m
      → Holds s r f now m key held
      → l.fencing_revision ≡ revision key m + 1
      → m' ≡ granted key l now m
      → (key' : Key) × (g : ℕ) × (presented_of (lease_key s r) f ≡ some (key', g)) × Past key' g m'
  granted-Spent s r f now m m' key held l v h n e = (
    key,
    f,
    rw (h.parsed),
    record {
      counter =
          rw (e, get-put, ==_refl key)
            (omega (arith, h.fence, live-fence key now m held v h.was_live));
      lease = λ x.
          rw (e, get-put, ==_refl key)
            (λ g.
              omega
                (arith, h.fence, live-fence key now m held v h.was_live, n, fence_of_some l x g));
    },
  )

  spend-Returns :
      (c : Call) (m : Memory) → Spends c → IsValid m → Returns (perform c m) (λ _ m'. Spent c m')
  unfolding perform
  spend-Returns (Call.renew s r owner run f ttl now) m x v =
      Returns-spent _ (Renewed s r owner run f ttl now m) _ Reply.lease
        (renew_lease-Returns s r owner run f ttl now m)
        (λ l m' (key, held, h, o, t, x, e, w).
          granted-Spent s r f now m m' key held l v h
            (ap (λ (x : FleetLease). x.fencing_revision) e) w)
  spend-Returns (Call.release s r owner run f now) m x v =
      Returns-spent _ (Released s r owner run f now m) _ Reply.lease
        (release_lease-Returns s r owner run f now m)
        (λ l m' (key, held, h, o, e, w).
          granted-Spent s r f now m m' key held l v h
            (ap (λ (x : FleetLease). x.fencing_revision) e) w)
  spend-Returns (Call.revoke s r f now) m x v =
      Returns-spent _ (Revoked s r f now m) _ Reply.lease (revoke_lease-Returns s r f now m)
        (λ l m' (key, held, h, e, w).
          granted-Spent s r f now m m' key held l v h
            (ap (λ (x : FleetLease). x.fencing_revision) e) w)
  spend-Returns (Call.overwrite s r owner run f ttl now) m x v =
      Returns-spent _ (Overwritten s r owner run f ttl now m) _ Reply.lease
        (overwrite_lease-Returns s r owner run f ttl now m)
        (λ l m' (key, held, h, host, q, t, x, e, w).
          granted-Spent s r f now m m' key held l v h
            (unfold new_lease in ap (λ (x : FleetLease). x.fencing_revision) e) w)
  spend-Returns _ m x v = absurd x

  -- In a store where no lease's fencing revision is beyond its key's counter: once `renew_lease`,
  -- `release_lease`, `revoke_lease` or `overwrite_lease` has returned, then after every further
  -- history of calls every call that presents the same fencing revision for the same key raises.
  pub fence_used_once :
      (c : Call) (m m' : Memory) (reply : Reply) (cs : List Call) (c' : Call)
      → IsValid m
      → Spends c
      → perform c m ≡ (ok reply, m')
      → presented c' ≡ presented c
      → Raises (perform c' (after cs m'))
  fence_used_once c m m' reply cs c' v x e same =
      let (key, f, p, past) =
        Returns-at (perform c m) (λ _ m'. Spent c m') reply m' (spend-Returns c m x v) e in
      stale-Raises key f (after cs m') (after-Past cs m' key f past) c' (same ∙ p)
