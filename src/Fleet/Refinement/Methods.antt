-- ===== src/Fleet/Refinement/Methods.antt =====
-- Each method answers alike in both fleet lease stores (code_index/openclaw_hostd/leases.py).
use Prim.Native.String.{String}
use memory_network.Prelude.{
  ℕ, ◌+◌, ◌≤◌, ◌≡◌, refl, ap, Bool, true, false, inl, inr, Option, none, some, arith, str_eq,
  Bool-cases,
}
use memory_network.Prelude.Exec.{Result, lift, ok, ◌>>=◌, ◌>>◌, pure}
use memory_network.Text.{Unicode, optional_text, is_empty, stripped}
use memory_network.Text.Strip.{optional_text_idem}
use memory_network.Fleet.Model.{
  Duration, Key, key_eq, FleetLease, released, revoked, required_text, lease_key,
  require_lease_owner, LeaseError, expires_at, rebound_expires_at, new_lease,
}
use memory_network.Fleet.Expiry.{InRange, Expiry-expires_at, rebound_expires_at-InRange}
use memory_network.Fleet.Memory
use memory_network.Fleet.Memory.{Memory}
use memory_network.Fleet.Sqlite
use memory_network.Fleet.Sqlite.{Database}
use memory_network.Fleet.Memory.Steps.{revision, settled}
use memory_network.Fleet.Memory.Outcomes.{next_lease}
use memory_network.Fleet.Refinement.Relation.{IsRow, Related, Slot-mono, db_settled}
use memory_network.Fleet.Refinement.Settle.{
  Related-settled_both, Related-settled_left, next_revision-Related, Related-granted,
}
use memory_network.Fleet.Refinement.Rules.{
  Same, Within, Same-transaction, Same-lift, Within-lift, Within-active_alone, Within-fenced,
}

abbrev Text : Type 0
Text = Option String

pub Related-mono :
    (t now : ℕ) (m : Memory) (d : Database) → t ≤ now → Related t m d → Related now m d
Related-mono t now m d le h = record {
  slots = λ j. Slot-mono t now j _ _ _ le (h.slots j);
  tasks = h.tasks;
  normal = h.normal;
  states = h.states;
}

-- The next revision is granted in both stores, under the same number.
Within-grant :
    (now : ℕ) (d₀ : Database) (key : Key) (mk : ℕ → FleetLease) (m : Memory) (d : Database)
    → Related now m d
    → ((n : ℕ) → IsRow key (mk n))
    → ((n : ℕ) → (mk n).fencing_revision ≡ n)
    → Within now d₀
        ((Memory.next_revision key >>= λ n. Memory.store_lease key (mk n) >> pure (mk n)) m)
        ((Sqlite.next_revision key >>= λ n. Sqlite.upsert_lease (mk n) >> pure (mk n)) d)
unfolding Memory.next_revision Memory.store_lease Sqlite.next_revision Sqlite.upsert_lease
Within-grant now d₀ key mk m d h row f =
    let e = next_revision-Related now now key m d h (omega arith) in
    (ap mk e, rw (← e) (Related-granted now key (mk (revision key m + 1)) m d h (row _) (f _)))

-- So it is with an expiry that `_expires_at` returns in between.
Within-grant_until :
    (now : ℕ) (d₀ : Database) (key : Key) (r : Result LeaseError (Option ℕ)) (e : Option ℕ)
    (mk : ℕ → Option ℕ → FleetLease) (m : Memory) (d : Database)
    → r ≡ ok e
    → Related now m d
    → ((n : ℕ) → IsRow key (mk n e))
    → ((n : ℕ) → (mk n e).fencing_revision ≡ n)
    → Within now d₀
        ((Memory.next_revision key >>= λ n.
            lift r >>= λ x. Memory.store_lease key (mk n x) >> pure (mk n x))
          m)
        ((Sqlite.next_revision key >>= λ n.
            lift r >>= λ x. Sqlite.upsert_lease (mk n x) >> pure (mk n x))
          d)
unfolding Memory.next_revision Sqlite.next_revision
Within-grant_until now d₀ key r e mk m d h rel row f =
    rw h (Within-grant now d₀ key (λ n. mk n e) m d rel row f)

pub required_text-optional :
    (v : Text) (name t : String) → required_text v name ≡ ok t → optional_text v ≡ some t
unfolding required_text optional_text
required_text-optional v name t h = elim (Bool-cases (is_empty (stripped v))) [
  | inl e ↦ absurd (let z = rw e at h in cc z)
  | inr e ↦ let z = rw e at h in rw e (cc z)
]

-- A required text is its own normal form.
pub required_text-normal :
    (v : Text) (name t : String) → required_text v name ≡ ok t → optional_text (some t) ≡ some t
required_text-normal v name t h = rw (required_text-optional v name t h) at (optional_text_idem v)

pub new_lease-IsRow :
    ⦃u : Unicode⦄ (key : Key) (owner : String) (run : Text) (n a now : ℕ) (expires : Option ℕ)
    → IsRow key (new_lease key owner run n a now expires)
unfolding new_lease
new_lease-IsRow key owner run n a now expires = (refl, refl, optional_text_idem run)

module _ ⦃u : Unicode⦄ (s r : Text) (now : ℕ) (m : Memory) (d : Database)
    (h : Related now m d) where
  both : (key : Key) → Related now (settled key now m) (db_settled key now d)
  both key = Related-settled_both now now key m d h (omega arith)

  left : (key : Key) → Related now (settled key now m) d
  left key = Related-settled_left now now key m d h (omega arith)

  pub renew-Same :
      (owner run : Text) (f : ℕ) (ttl : Option Duration)
      → InRange now ttl
      → Same now
          (Memory.renew_lease s r owner run f ttl now m)
          (Sqlite.renew_lease s r owner run f ttl now d)
  unfolding Memory.renew_lease Sqlite.renew_lease
  renew-Same owner run f ttl (e, w) = Same-lift now (lease_key s r) _ _ m d h λ key p.
      Same-lift now (required_text owner "owner_host_id") _ _ m d h λ host' q.
        Same-transaction now d _ _ (
          Within-fenced now now key m d h (omega arith) f _ _ λ a row.
            Within-lift now d (require_lease_owner a host' run) _ _ _ _ (left key) λ x o.
              Within-grant_until now d key (expires_at now ttl) e
                (λ n expires. next_lease n a now expires a.status) _ _
                (Expiry-expires_at now ttl e w) (both key) (λ n. row) (λ n. refl))

  pub release-Same :
      (owner run : Text) (f : ℕ)
      → Same now
          (Memory.release_lease s r owner run f now m)
          (Sqlite.release_lease s r owner run f now d)
  unfolding Memory.release_lease Sqlite.release_lease
  release-Same owner run f = Same-lift now (lease_key s r) _ _ m d h λ key p.
      Same-lift now (required_text owner "owner_host_id") _ _ m d h λ host' q.
        Same-transaction now d _ _ (
          Within-fenced now now key m d h (omega arith) f _ _ λ a row.
            Within-lift now d (require_lease_owner a host' run) _ _ _ _ (left key) λ x o.
              Within-grant now d key (λ n. next_lease n a now none released) _ _ (both key)
                (λ n. row) (λ n. refl))

  pub revoke-Same :
      (f : ℕ) → Same now (Memory.revoke_lease s r f now m) (Sqlite.revoke_lease s r f now d)
  unfolding Memory.revoke_lease Sqlite.revoke_lease
  revoke-Same f = Same-lift now (lease_key s r) _ _ m d h λ key p. Same-transaction now d _ _ (
      Within-fenced now now key m d h (omega arith) f _ _ λ a row.
        Within-grant now d key (λ n. next_lease n a now none revoked) _ _ (both key) (λ n. row)
          (λ n. refl))

  pub overwrite-Same :
      (owner run : Text) (f : ℕ) (ttl : Option Duration)
      → InRange now ttl
      → Same now
          (Memory.overwrite_lease s r owner run f ttl now m)
          (Sqlite.overwrite_lease s r owner run f ttl now d)
  unfolding Memory.overwrite_lease Sqlite.overwrite_lease
  overwrite-Same owner run f ttl (e, w) = Same-lift now (lease_key s r) _ _ m d h λ key p.
      Same-lift now (required_text owner "owner_host_id") _ _ m d h λ host' q.
        Same-transaction now d _ _ (
          Within-fenced now now key m d h (omega arith) f _ _ λ a row.
            Within-grant_until now d key (expires_at now ttl) e
              (λ n expires. new_lease key host' run n a.acquired_at now expires) _ _
              (Expiry-expires_at now ttl e w) (both key)
              (λ n. new_lease-IsRow key host' run n a.acquired_at now e)
              (λ n. unfold new_lease in refl))

  rebind-Within :
      (key : Key) (run' : String) (ttl : Option Duration) (a : FleetLease)
      → IsRow key a
      → optional_text (some run') ≡ some run'
      → InRange now ttl
      → Within now d
          (Memory.rebind key run' ttl now a (settled key now m))
          (Sqlite.rebind key run' ttl now a (db_settled key now d))
  unfolding Memory.rebind Sqlite.rebind
  rebind-Within key run' ttl a row n w = go _ refl
    where
      expiry : (e : Option ℕ) × (rebound_expires_at a.expires_at now ttl ≡ ok e)
      expiry = rebound_expires_at-InRange a.expires_at now ttl w

      go :
          (b : Bool)
          → (elim a.owner_run_id [ none ↦ false | some x ↦ str_eq x run' ]) ≡ b
          → Within now d
              (Memory.rebind key run' ttl now a (settled key now m))
              (Sqlite.rebind key run' ttl now a (db_settled key now d))
      go true e = rw e (refl, both key)
      go false e = rw e (
          Within-grant_until now d key (rebound_expires_at a.expires_at now ttl) expiry.0
            (λ k expires. record a {
              owner_run_id = some run';
              fencing_revision = k;
              updated_at = now;
              expires_at = expires;
            })
            _ _ expiry.1 (both key) (λ k. (row.0, row.1, n)) (λ k. refl))

  pub bind-Same :
      (owner run new : Text) (f : ℕ) (ttl : Option Duration)
      → InRange now ttl
      → Same now
          (Memory.bind_lease_owner_run s r owner run new f ttl now m)
          (Sqlite.bind_lease_owner_run s r owner run new f ttl now d)
  unfolding Memory.bind_lease_owner_run Sqlite.bind_lease_owner_run
  bind-Same owner run new f ttl w = Same-lift now (lease_key s r) _ _ m d h λ key p.
      Same-lift now (required_text owner "owner_host_id") _ _ m d h λ host' q.
        Same-lift now (required_text new "new_owner_run_id") _ _ m d h λ run' q'.
          Same-transaction now d _ _ (
            Within-fenced now now key m d h (omega arith) f _ _ λ a row.
              Within-lift now d (require_lease_owner a host' run) _ _ _ _ (left key) λ x o.
                rebind-Within key run' ttl a row
                  (required_text-normal new "new_owner_run_id" run' q') w)

  pub get_active-Same :
      Same now (Memory.get_active_lease s r now m) (Sqlite.get_active_lease s r now d)
  unfolding Memory.get_active_lease Sqlite.get_active_lease
  get_active-Same =
      Same-lift now (lease_key s r) _ _ m d h
        λ key p. Same-transaction now d _ _ (Within-active_alone now now key m d h (omega arith))
