-- ===== src/Fleet/Memory.antt =====
-- `InMemoryFleetLeaseStore` of code_index/openclaw_hostd/leases.py. A method runs under the
-- store's lock, so it is one action on the four dictionaries.
pub mod Run
pub mod Steps
pub mod Trace
pub mod Methods
pub mod Invariant
pub mod Outcomes
pub mod Fencing
pub mod Acquire
pub mod Owner
use Prim.Native.String.{String}
use memory_network.Prelude.{
  ℕ, ◌+◌, Bool, true, false, not, ◌&&◌, Option, none, some, List, [], ◌∷◌, map, ltb, if◌then◌else◌,
  or_else, value_or, str_eq,
}
use memory_network.Prelude.Equality.{◌==◌, string_eq}
use memory_network.Prelude.Dict.{Dict, get, put}
use memory_network.Prelude.Exec.{
  Result, ok, err, Exec, ◌>>=◌, ◌>>◌, pure, raise, lift, modify, bind_result,
}
use memory_network.Text.{Unicode, optional_text}
use memory_network.Fleet.Payload.{Fields}
use memory_network.Fleet.Order.{sort_leases, sort_states}
use memory_network.Fleet.Model.{
  Duration, LeaseError, conflict_error, fencing_error, owner_error, Scope, host, repo, task, Key,
  Status, expired, released, revoked, is_active, FleetLease, FleetTaskRecord, scope_beq, key_eq,
  required_text, expires_at, rebound_expires_at, is_due, raise_if_owner_run_conflicts,
  require_lease_owner, check_fence, terminal_of, lease_scope, lease_key, new_lease,
}

pub record Memory : Type 0 where
  pub leases : Dict Key FleetLease
  pub revisions : Dict Key ℕ
  pub tasks : Dict String FleetTaskRecord
  pub agent_states : Dict String Fields

abbrev pub Action : Type 0 → Type 0
Action A = Exec LeaseError Memory A

abbrev pub init : Memory
init = record { leases = []; revisions = []; tasks = []; agent_states = [] }

-- `self._leases[key] = lease`
unfoldable pub store_lease : Key → FleetLease → Action (Unit {0})
store_lease key lease = modify λ m. record m { leases = put key lease m.leases }

-- `_active_lease_for_key`, once the lease is looked up
unfoldable pub active_of : Key → ℕ → Option FleetLease → Action (Option FleetLease)
unfolding is_due store_lease
active_of key now none m = (ok none, m)
active_of key now (some lease) m =
    if is_active lease.status
    then (if is_due lease.expires_at now
        then (do store_lease key (record lease { status = expired; updated_at = now }); pure none) m
        else (ok (some lease), m))
    else (ok none, m)

unfoldable pub active_lease_for_key : Key → ℕ → Action (Option FleetLease)
unfolding active_of
active_lease_for_key key now m = active_of key now (get key m.leases) m

-- `_next_revision`
unfoldable pub next_revision : Key → Action ℕ
next_revision key m =
    let revision = value_or 0 (get key m.revisions) + 1 in
    (ok revision, record m { revisions = put key revision m.revisions })

-- `_require_current_fence`
unfoldable pub require_current_fence : Key → ℕ → ℕ → Action FleetLease
unfolding active_lease_for_key check_fence
require_current_fence key fencing_revision now = do
  active ← active_lease_for_key key now
  lift (check_fence active fencing_revision)

-- the part that `record_task_status` and `mark_task_reassignable` share: what is not given is
-- taken from the previous record
unfoldable pub write_task :
    String
    → String
    → Option String
    → Option String
    → Option String
    → Bool
    → ℕ
    → Action FleetTaskRecord
unfolding optional_text
write_task task_id status host_id run_id terminal_status reassignable now m =
    let previous = get task_id m.tasks in
    let record' : FleetTaskRecord = record {
      task_id = task_id;
      status = status;
      host_id =
          or_else (optional_text host_id) (elim previous [ none ↦ none | some p ↦ p.host_id ]);
      run_id = or_else (optional_text run_id) (elim previous [ none ↦ none | some p ↦ p.run_id ]);
      terminal_status = terminal_status;
      reassignable = reassignable;
      updated_at = now;
    } in
    (ok record', record m { tasks = put task_id record' m.tasks })

unfoldable pub mark_task_reassignable :
    Option String → Option String → Option String → ℕ → Action FleetTaskRecord
unfolding required_text write_task
mark_task_reassignable task_id host_id run_id now = do
  id ← lift (required_text task_id "task_id")
  write_task id "reassignable" host_id run_id none true now

unfoldable pub get_task_record : Option String → Action (Option FleetTaskRecord)
unfolding required_text
get_task_record task_id = do
  id ← lift (required_text task_id "task_id")
  λ m. (ok (get id m.tasks), m)

unfoldable pub put_agent_state : Option String → Fields → Action (Unit {0})
unfolding required_text
put_agent_state key payload = do
  k ← lift (required_text key "key")
  modify λ m. record m { agent_states = put k payload m.agent_states }

unfoldable pub list_agent_states : Action (List Fields)
unfolding sort_states
list_agent_states m = (ok (map (λ e. e.1) (sort_states m.agent_states)), m)

-- the part of `bind_lease_owner_run` after its checks
unfoldable pub rebind : Key → String → Option Duration → ℕ → FleetLease → Action FleetLease
unfolding next_revision rebound_expires_at store_lease
rebind key new_owner_run_id ttl now active =
    if elim active.owner_run_id [ none ↦ false | some run ↦ str_eq run new_owner_run_id ]
    then pure active
    else (do
      revision ← next_revision key
      expires ← lift (rebound_expires_at active.expires_at now ttl)
      let rebound : FleetLease = record active {
        owner_run_id = some new_owner_run_id;
        fencing_revision = revision;
        updated_at = now;
        expires_at = expires;
      }
      store_lease key rebound
      pure rebound)

module _ ⦃u : Unicode⦄ where
  unfoldable pub record_task_status :
      Option String → Option String → Option String → Option String → ℕ → Action FleetTaskRecord
  unfolding required_text write_task terminal_of
  record_task_status task_id status host_id run_id now = do
    id ← lift (required_text task_id "task_id")
    text ← lift (required_text status "status")
    write_task id (u.lower text) host_id run_id (terminal_of (u.lower text)) false now

  -- `if key[0] == "task": self.record_task_status(…)`
  unfoldable pub note_leased : Key → String → Option String → ℕ → Action (Unit {0})
  unfolding record_task_status
  note_leased (task, id) owner_host_id owner_run_id now = do
    record_task_status (some id) (some "leased") (some owner_host_id) owner_run_id now
    pure tt
  note_leased _ owner_host_id owner_run_id now = pure tt

  -- `acquire_lease`, once it is known whether the key has an active lease
  unfoldable pub acquire_at :
      Key → String → Option String → Option Duration → ℕ → Option FleetLease → Action FleetLease
  unfolding raise_if_owner_run_conflicts next_revision expires_at new_lease store_lease note_leased
  acquire_at key owner_host_id owner_run_id ttl now (some lease) =
      if str_eq lease.owner_host_id owner_host_id
      then (do lift (raise_if_owner_run_conflicts lease owner_run_id conflict_error); pure lease)
      else raise conflict_error
  acquire_at key owner_host_id owner_run_id ttl now none = do
    revision ← next_revision key
    expires ← lift (expires_at now ttl)
    let lease = new_lease key owner_host_id owner_run_id revision now now expires
    store_lease key lease
    note_leased key owner_host_id lease.owner_run_id now
    pure lease

  unfoldable pub acquire_lease :
      Option String
      → Option String
      → Option String
      → Option String
      → Option Duration
      → ℕ
      → Action FleetLease
  unfolding lease_key active_lease_for_key acquire_at
  acquire_lease scope resource_id owner_host_id owner_run_id ttl now = do
    key ← lift (lease_key scope resource_id)
    owner ← lift (required_text owner_host_id "owner_host_id")
    active ← active_lease_for_key key now
    acquire_at key owner owner_run_id ttl now active

  unfoldable pub renew_lease :
      Option String
      → Option String
      → Option String
      → Option String
      → ℕ
      → Option Duration
      → ℕ
      → Action FleetLease
  unfolding lease_key require_current_fence require_lease_owner next_revision expires_at store_lease
  renew_lease scope resource_id owner_host_id owner_run_id fencing_revision ttl now = do
    key ← lift (lease_key scope resource_id)
    owner ← lift (required_text owner_host_id "owner_host_id")
    active ← require_current_fence key fencing_revision now
    lift (require_lease_owner active owner owner_run_id)
    revision ← next_revision key
    expires ← lift (expires_at now ttl)
    let renewed : FleetLease = record active {
      fencing_revision = revision;
      updated_at = now;
      expires_at = expires;
    }
    store_lease key renewed
    pure renewed

  unfoldable pub release_lease :
      Option String → Option String → Option String → Option String → ℕ → ℕ → Action FleetLease
  unfolding lease_key require_current_fence require_lease_owner next_revision store_lease
  release_lease scope resource_id owner_host_id owner_run_id fencing_revision now = do
    key ← lift (lease_key scope resource_id)
    owner ← lift (required_text owner_host_id "owner_host_id")
    active ← require_current_fence key fencing_revision now
    lift (require_lease_owner active owner owner_run_id)
    revision ← next_revision key
    let released' : FleetLease = record active {
      fencing_revision = revision;
      status = released;
      updated_at = now;
      expires_at = none;
    }
    store_lease key released'
    pure released'

  unfoldable pub bind_lease_owner_run :
      Option String
      → Option String
      → Option String
      → Option String
      → Option String
      → ℕ
      → Option Duration
      → ℕ
      → Action FleetLease
  unfolding lease_key require_current_fence require_lease_owner rebind
  bind_lease_owner_run scope resource_id owner_host_id current_run new_run fencing_revision ttl
        now =
      do
        key ← lift (lease_key scope resource_id)
        owner ← lift (required_text owner_host_id "owner_host_id")
        run ← lift (required_text new_run "new_owner_run_id")
        active ← require_current_fence key fencing_revision now
        lift (require_lease_owner active owner current_run)
        rebind key run ttl now active

  unfoldable pub revoke_lease : Option String → Option String → ℕ → ℕ → Action FleetLease
  unfolding lease_key require_current_fence next_revision store_lease
  revoke_lease scope resource_id fencing_revision now = do
    key ← lift (lease_key scope resource_id)
    active ← require_current_fence key fencing_revision now
    revision ← next_revision key
    let revoked' : FleetLease = record active {
      fencing_revision = revision;
      status = revoked;
      updated_at = now;
      expires_at = none;
    }
    store_lease key revoked'
    pure revoked'

  unfoldable pub overwrite_lease :
      Option String
      → Option String
      → Option String
      → Option String
      → ℕ
      → Option Duration
      → ℕ
      → Action FleetLease
  unfolding lease_key require_current_fence next_revision expires_at new_lease store_lease
  overwrite_lease scope resource_id owner_host_id owner_run_id fencing_revision ttl now = do
    key ← lift (lease_key scope resource_id)
    owner ← lift (required_text owner_host_id "owner_host_id")
    active ← require_current_fence key fencing_revision now
    revision ← next_revision key
    expires ← lift (expires_at now ttl)
    let lease = new_lease key owner owner_run_id revision active.acquired_at now expires
    store_lease key lease
    pure lease

  unfoldable pub get_active_lease : Option String → Option String → ℕ → Action (Option FleetLease)
  unfolding lease_key active_lease_for_key
  get_active_lease scope resource_id now = do
    key ← lift (lease_key scope resource_id)
    active_lease_for_key key now

-- the loop of `list_active_leases` over `list(self._leases)`
unfoldable pub collect_active : List Key → Option Scope → ℕ → Action (List FleetLease)
unfolding active_lease_for_key
collect_active [] requested now = pure []
collect_active (key ∷ keys) requested now =
    let rest = collect_active keys requested now in
    if elim requested [ none ↦ false | some s ↦ not (scope_beq key.0 s) ] then rest else (do
      lease ← active_lease_for_key key now
      found ← rest
      pure (elim lease [ none ↦ found | some l ↦ l ∷ found ]))

-- `_lease_scope(scope) if scope is not None else None`
unfoldable pub requested_scope : ⦃u : Unicode⦄ → Option String → Result LeaseError (Option Scope)
unfolding lease_scope
requested_scope none = ok none
requested_scope (some s) = bind_result (lease_scope (some s)) λ scope. ok (some scope)

unfoldable pub list_active_leases : ⦃u : Unicode⦄ → Option String → ℕ → Action (List FleetLease)
unfolding requested_scope collect_active sort_leases
list_active_leases scope now = do
  requested ← lift (requested_scope scope)
  active ← λ m. collect_active (map (λ e. e.0) m.leases) requested now m
  pure (sort_leases active)
