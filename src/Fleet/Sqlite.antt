-- ===== src/Fleet/Sqlite.antt =====
-- `SQLiteFleetLeaseStore` of code_index/openclaw_hostd/leases.py. A table with a primary key is a
-- dictionary by that key; a row holds its columns in the fields of the record that is read from
-- it, instants as instants. A method is one transaction: an exception rolls it back.
pub mod Run
use Prim.Native.String.{String}
use memory_network.Prelude.{
  ℕ, ◌+◌, Bool, true, false, not, ◌&&◌, Option, none, some, List, [], ◌∷◌, map, ltb, if◌then◌else◌,
  or_else, value_or, str_eq,
}
use memory_network.Prelude.Equality.{◌==◌, string_eq}
use memory_network.Prelude.Dict.{Dict, get, put}
use memory_network.Prelude.Exec.{
  Result, ok, err, Exec, ◌>>=◌, ◌>>◌, pure, raise, lift, modify, bind_result, transaction,
}
use memory_network.Text.{Unicode, optional_text}
use memory_network.Fleet.Payload.{Fields}
use memory_network.Fleet.Order.{sort_leases, sort_states}
use memory_network.Fleet.Model.{
  Duration, LeaseError, conflict_error, fencing_error, owner_error, Scope, host, repo, task, Key,
  Status, expired, released, revoked, is_active, FleetLease, FleetTaskRecord, scope_beq, key_eq,
  required_text, expires_at, rebound_expires_at, is_due, raise_if_owner_run_conflicts,
  require_lease_owner, check_fence, terminal_of, lease_scope, lease_key, new_lease,
}

pub record Database : Type 0 where
  pub leases : Dict Key FleetLease
  pub tasks : Dict String FleetTaskRecord
  pub agent_states : Dict String Fields

abbrev pub Action : Type 0 → Type 0
Action A = Exec LeaseError Database A

abbrev pub init : Database
init = record { leases = []; tasks = []; agent_states = [] }

-- `_row_to_lease`, `_row_to_task`
unfoldable pub row_to_lease : FleetLease → FleetLease
unfolding optional_text
row_to_lease row = record row { owner_run_id = optional_text row.owner_run_id }

unfoldable pub row_to_task : FleetTaskRecord → FleetTaskRecord
unfolding optional_text
row_to_task row = record row {
  host_id = optional_text row.host_id;
  run_id = optional_text row.run_id;
  terminal_status = optional_text row.terminal_status;
}

-- `_upsert_lease`: the row's own columns are the primary key
unfoldable pub upsert_lease : FleetLease → Action (Unit {0})
upsert_lease lease =
    modify λ db. record db { leases = put (lease.scope, lease.resource_id) lease db.leases }

-- `UPDATE … SET status = 'expired', updated_at = ? WHERE … AND status = 'active'`, for the row
-- that was read
expire_row : Key → ℕ → FleetLease → Action (Unit {0})
expire_row key now row db =
    if is_active row.status
    then (
      ok tt,
      record db { leases = put key (record row { status = expired; updated_at = now }) db.leases },
    )
    else (ok tt, db)

-- `_active_lease_for_key`, once the row is read
unfoldable pub active_of : Key → ℕ → Option FleetLease → Action (Option FleetLease)
unfolding is_due expire_row row_to_lease
active_of key now none db = (ok none, db)
active_of key now (some row) db =
    if is_active row.status
    then (if is_due row.expires_at now
        then (do expire_row key now row; pure none) db
        else (ok (some (row_to_lease row)), db))
    else (ok none, db)

unfoldable pub active_lease_for_key : Key → ℕ → Action (Option FleetLease)
unfolding active_of
active_lease_for_key key now db = active_of key now (get key db.leases) db

-- `_next_revision`
unfoldable pub next_revision : Key → Action ℕ
next_revision key db =
    (ok (elim (get key db.leases) [ none ↦ 1 | some row ↦ row.fencing_revision + 1 ]), db)

-- `_require_current_fence`
unfoldable pub require_current_fence : Key → ℕ → ℕ → Action FleetLease
unfolding active_lease_for_key check_fence
require_current_fence key fencing_revision now = do
  active ← active_lease_for_key key now
  lift (check_fence active fencing_revision)

-- `_upsert_task_record`
unfoldable pub upsert_task_record :
    String → String → Option String → Option String → ℕ → Bool → Action FleetTaskRecord
unfolding optional_text terminal_of
upsert_task_record task_id status host_id run_id now reassignable db =
    let previous = get task_id db.tasks in
    let record' : FleetTaskRecord = record {
      task_id = task_id;
      status = status;
      host_id =
          or_else (optional_text host_id) (elim previous [ none ↦ none | some p ↦ p.host_id ]);
      run_id = or_else (optional_text run_id) (elim previous [ none ↦ none | some p ↦ p.run_id ]);
      terminal_status = terminal_of status;
      reassignable = reassignable;
      updated_at = now;
    } in
    (ok record', record db { tasks = put task_id record' db.tasks })

unfoldable pub mark_task_reassignable :
    Option String → Option String → Option String → ℕ → Action FleetTaskRecord
unfolding required_text upsert_task_record
mark_task_reassignable task_id host_id run_id now = do
  id ← lift (required_text task_id "task_id")
  transaction (upsert_task_record id "reassignable" host_id run_id now true)

unfoldable pub get_task_record : Option String → Action (Option FleetTaskRecord)
unfolding required_text row_to_task
get_task_record task_id = do
  id ← lift (required_text task_id "task_id")
  λ db. (ok (elim (get id db.tasks) [ none ↦ none | some row ↦ some (row_to_task row) ]), db)

unfoldable pub put_agent_state : Option String → Fields → Action (Unit {0})
unfolding required_text
put_agent_state key payload = do
  k ← lift (required_text key "key")
  transaction (modify λ db. record db { agent_states = put k payload db.agent_states })

unfoldable pub list_agent_states : Action (List Fields)
unfolding sort_states
list_agent_states db = (ok (map (λ e. e.1) (sort_states db.agent_states)), db)

-- the part of `bind_lease_owner_run` after its checks
unfoldable pub rebind : Key → String → Option Duration → ℕ → FleetLease → Action FleetLease
unfolding next_revision rebound_expires_at upsert_lease
rebind key new_owner_run_id ttl now active =
    if elim active.owner_run_id [ none ↦ false | some run ↦ str_eq run new_owner_run_id ]
    then pure active
    else (do
      revision ← next_revision key
      expires ← lift (rebound_expires_at active.expires_at now ttl)
      let rebound : FleetLease = record active {
        owner_run_id = some new_owner_run_id;
        fencing_revision = revision;
        updated_at = now;
        expires_at = expires;
      }
      upsert_lease rebound
      pure rebound)

module _ ⦃u : Unicode⦄ where
  unfoldable pub record_task_status :
      Option String → Option String → Option String → Option String → ℕ → Action FleetTaskRecord
  unfolding required_text upsert_task_record
  record_task_status task_id status host_id run_id now = do
    id ← lift (required_text task_id "task_id")
    text ← lift (required_text status "status")
    transaction (upsert_task_record id (u.lower text) host_id run_id now false)

  -- `if key[0] == "task": self._upsert_task_record(…)`
  unfoldable pub note_leased : Key → String → Option String → ℕ → Action (Unit {0})
  unfolding upsert_task_record
  note_leased (task, id) owner_host_id owner_run_id now = do
    upsert_task_record id "leased" (some owner_host_id) owner_run_id now false
    pure tt
  note_leased _ owner_host_id owner_run_id now = pure tt

  -- `acquire_lease`, once it is known whether the key has an active lease
  unfoldable pub acquire_at :
      Key → String → Option String → Option Duration → ℕ → Option FleetLease → Action FleetLease
  unfolding raise_if_owner_run_conflicts next_revision expires_at new_lease upsert_lease note_leased
  acquire_at key owner_host_id owner_run_id ttl now (some lease) =
      if str_eq lease.owner_host_id owner_host_id
      then (do lift (raise_if_owner_run_conflicts lease owner_run_id conflict_error); pure lease)
      else raise conflict_error
  acquire_at key owner_host_id owner_run_id ttl now none = do
    revision ← next_revision key
    expires ← lift (expires_at now ttl)
    let lease = new_lease key owner_host_id owner_run_id revision now now expires
    upsert_lease lease
    note_leased key owner_host_id lease.owner_run_id now
    pure lease

  unfoldable pub acquire_lease :
      Option String
      → Option String
      → Option String
      → Option String
      → Option Duration
      → ℕ
      → Action FleetLease
  unfolding lease_key active_lease_for_key acquire_at
  acquire_lease scope resource_id owner_host_id owner_run_id ttl now = do
    key ← lift (lease_key scope resource_id)
    owner ← lift (required_text owner_host_id "owner_host_id")
    transaction
        (do active ← active_lease_for_key key now; acquire_at key owner owner_run_id ttl now active)

  unfoldable pub renew_lease :
      Option String
      → Option String
      → Option String
      → Option String
      → ℕ
      → Option Duration
      → ℕ
      → Action FleetLease
  unfolding lease_key require_current_fence require_lease_owner next_revision expires_at
      upsert_lease
  renew_lease scope resource_id owner_host_id owner_run_id fencing_revision ttl now = do
    key ← lift (lease_key scope resource_id)
    owner ← lift (required_text owner_host_id "owner_host_id")
    transaction (do
      active ← require_current_fence key fencing_revision now
      lift (require_lease_owner active owner owner_run_id)
      revision ← next_revision key
      expires ← lift (expires_at now ttl)
      let renewed : FleetLease = record active {
        fencing_revision = revision;
        updated_at = now;
        expires_at = expires;
      }
      upsert_lease renewed
      pure renewed)

  unfoldable pub release_lease :
      Option String → Option String → Option String → Option String → ℕ → ℕ → Action FleetLease
  unfolding lease_key require_current_fence require_lease_owner next_revision upsert_lease
  release_lease scope resource_id owner_host_id owner_run_id fencing_revision now = do
    key ← lift (lease_key scope resource_id)
    owner ← lift (required_text owner_host_id "owner_host_id")
    transaction (do
      active ← require_current_fence key fencing_revision now
      lift (require_lease_owner active owner owner_run_id)
      revision ← next_revision key
      let released' : FleetLease = record active {
        fencing_revision = revision;
        status = released;
        updated_at = now;
        expires_at = none;
      }
      upsert_lease released'
      pure released')

  unfoldable pub bind_lease_owner_run :
      Option String
      → Option String
      → Option String
      → Option String
      → Option String
      → ℕ
      → Option Duration
      → ℕ
      → Action FleetLease
  unfolding lease_key require_current_fence require_lease_owner rebind
  bind_lease_owner_run scope resource_id owner_host_id current_run new_run fencing_revision ttl
        now =
      do
        key ← lift (lease_key scope resource_id)
        owner ← lift (required_text owner_host_id "owner_host_id")
        run ← lift (required_text new_run "new_owner_run_id")
        transaction (do
          active ← require_current_fence key fencing_revision now
          lift (require_lease_owner active owner current_run)
          rebind key run ttl now active)

  unfoldable pub revoke_lease : Option String → Option String → ℕ → ℕ → Action FleetLease
  unfolding lease_key require_current_fence next_revision upsert_lease
  revoke_lease scope resource_id fencing_revision now = do
    key ← lift (lease_key scope resource_id)
    transaction (do
      active ← require_current_fence key fencing_revision now
      revision ← next_revision key
      let revoked' : FleetLease = record active {
        fencing_revision = revision;
        status = revoked;
        updated_at = now;
        expires_at = none;
      }
      upsert_lease revoked'
      pure revoked')

  unfoldable pub overwrite_lease :
      Option String
      → Option String
      → Option String
      → Option String
      → ℕ
      → Option Duration
      → ℕ
      → Action FleetLease
  unfolding lease_key require_current_fence next_revision expires_at new_lease upsert_lease
  overwrite_lease scope resource_id owner_host_id owner_run_id fencing_revision ttl now = do
    key ← lift (lease_key scope resource_id)
    owner ← lift (required_text owner_host_id "owner_host_id")
    transaction (do
      active ← require_current_fence key fencing_revision now
      revision ← next_revision key
      expires ← lift (expires_at now ttl)
      let lease = new_lease key owner owner_run_id revision active.acquired_at now expires
      upsert_lease lease
      pure lease)

  unfoldable pub get_active_lease : Option String → Option String → ℕ → Action (Option FleetLease)
  unfolding lease_key active_lease_for_key
  get_active_lease scope resource_id now = do
    key ← lift (lease_key scope resource_id)
    transaction (active_lease_for_key key now)

-- the loop of `list_active_leases` over the rows that it selected
unfoldable pub collect_active : List FleetLease → Option Scope → ℕ → Action (List FleetLease)
unfolding active_lease_for_key
collect_active [] requested now = pure []
collect_active (row ∷ rows) requested now =
    let rest = collect_active rows requested now in
    if elim requested [ none ↦ false | some s ↦ not (scope_beq row.scope s) ] then rest else (do
      lease ← active_lease_for_key (row.scope, row.resource_id) now
      found ← rest
      pure (elim lease [ none ↦ found | some l ↦ l ∷ found ]))

-- `_lease_scope(scope) if scope is not None else None`
unfoldable pub requested_scope : ⦃u : Unicode⦄ → Option String → Result LeaseError (Option Scope)
unfolding lease_scope
requested_scope none = ok none
requested_scope (some s) = bind_result (lease_scope (some s)) λ scope. ok (some scope)

-- `SELECT * … ORDER BY scope, resource_id`, then the loop
unfoldable pub list_active_leases : ⦃u : Unicode⦄ → Option String → ℕ → Action (List FleetLease)
unfolding requested_scope collect_active sort_leases
list_active_leases scope now = do
  requested ← lift (requested_scope scope)
  transaction (λ db. collect_active (sort_leases (map (λ e. e.1) db.leases)) requested now db)
