-- ===== src/Fleet/Memory/Methods.antt =====
-- Each method of the in-memory fleet lease store (code_index/openclaw_hostd/leases.py) as a
-- sequence of steps, and a whole call.
use Prim.Native.String.{String}
use memory_network.Prelude.{ℕ, refl, inl, inr, Option, none, some}
use memory_network.Prelude.Exec.{Result, ok, err, Result-cases}
use memory_network.Text.{Unicode}
use memory_network.Fleet.Payload.{Fields}
use memory_network.Fleet.Model.{
  Duration, LeaseError, Key, key_eq, required_text, lease_key, require_lease_owner, expires_at,
  new_lease,
}
use memory_network.Fleet.Memory.{
  Memory, store_lease, next_revision, write_task, mark_task_reassignable, get_task_record,
  put_agent_state, list_agent_states, record_task_status, acquire_lease, renew_lease, release_lease,
  bind_lease_owner_run, revoke_lease, overwrite_lease, get_active_lease, requested_scope,
  list_active_leases,
}
use memory_network.Fleet.Order.{sort_leases}
use memory_network.Fleet.Calls.{Call, Reply, time_of}
use memory_network.Fleet.Memory.Run.{perform}
use memory_network.Fleet.Memory.Steps.{
  live, settled, active_lease_for_key-eq, Presented, Steps, here, one, join, other, settled-Steps,
  live-settled,
}
use memory_network.Fleet.Memory.Trace.{
  map-Steps, lift-Steps, fenced-Steps, counted-Steps, granted-Steps, rebind-Steps, acquire_at-Steps,
  collect_active-Steps,
}

abbrev Text : Type 0
Text = Option String

abbrev pub presented_of : Result LeaseError Key → ℕ → Presented
presented_of (ok key) f = some (key, f)
presented_of (err e) f = none

module _ ⦃u : Unicode⦄ (s r : Text) where
  renew-Steps :
      (owner run : Text) (f : ℕ) (ttl : Option Duration) (now : ℕ) (m : Memory)
      → Steps now (presented_of (lease_key s r) f) m (renew_lease s r owner run f ttl now m).1
  unfolding renew_lease next_revision store_lease
  renew-Steps owner run f ttl now m = elim (Result-cases (lease_key s r)) [
    | inr (e, p) ↦ rw p here
    | inl (key, p) ↦ rw p (
        lift-Steps (required_text owner "owner_host_id") _ m (λ host q.
          fenced-Steps key f _ m (λ a la fa. lift-Steps (require_lease_owner a host run) _ _ λ x y.
            counted-Steps key (expires_at now ttl) _ (settled key now m)
              (λ e. granted-Steps {m = settled key now m} key _ refl (inr (a, la, cc)) refl))))
  ]

  acquire-Steps :
      (owner run : Text) (ttl : Option Duration) (now : ℕ) (m : Memory)
      → Steps now none m (acquire_lease s r owner run ttl now m).1
  unfolding acquire_lease
  acquire-Steps owner run ttl now m = lift-Steps (lease_key s r) _ m (λ key p.
      lift-Steps (required_text owner "owner_host_id") _ m (λ host q.
        rw (active_lease_for_key-eq key now m) (
          join (settled-Steps key m) (
            acquire_at-Steps key host run ttl (live key now m) (settled key now m)
              (live-settled key now m key)))))

  release-Steps :
      (owner run : Text) (f now : ℕ) (m : Memory)
      → Steps now (presented_of (lease_key s r) f) m (release_lease s r owner run f now m).1
  unfolding release_lease next_revision store_lease
  release-Steps owner run f now m = elim (Result-cases (lease_key s r)) [
    | inr (e, p) ↦ rw p here
    | inl (key, p) ↦ rw p (
        lift-Steps (required_text owner "owner_host_id") _ m (λ host q.
          fenced-Steps key f _ m (λ a la fa.
            lift-Steps (require_lease_owner a host run) _ _
              (λ x y. granted-Steps key _ refl (inr (a, la, cc)) refl))))
  ]

  bind-Steps :
      (owner run new : Text) (f : ℕ) (ttl : Option Duration) (now : ℕ) (m : Memory)
      → Steps now
          (presented_of (lease_key s r) f)
          m
          (bind_lease_owner_run s r owner run new f ttl now m).1
  unfolding bind_lease_owner_run
  bind-Steps owner run new f ttl now m = elim (Result-cases (lease_key s r)) [
    | inr (e, p) ↦ rw p here
    | inl (key, p) ↦ rw p (
        lift-Steps (required_text owner "owner_host_id") _ m (λ host q.
          lift-Steps (required_text new "new_owner_run_id") _ m (λ run' q'.
            fenced-Steps key f _ m (λ a la fa.
              lift-Steps (require_lease_owner a host run) _ _
                (λ x y. rebind-Steps key run' ttl a _ (inr (a, la, cc)))))))
  ]

  revoke-Steps :
      (f now : ℕ) (m : Memory)
      → Steps now (presented_of (lease_key s r) f) m (revoke_lease s r f now m).1
  unfolding revoke_lease next_revision store_lease
  revoke-Steps f now m = elim (Result-cases (lease_key s r)) [
    | inr (e, p) ↦ rw p here
    | inl (key, p) ↦
        rw p (fenced-Steps key f _ m (λ a la fa. granted-Steps key _ refl (inr (a, la, cc)) refl))
  ]

  overwrite-Steps :
      (owner run : Text) (f : ℕ) (ttl : Option Duration) (now : ℕ) (m : Memory)
      → Steps now (presented_of (lease_key s r) f) m (overwrite_lease s r owner run f ttl now m).1
  unfolding overwrite_lease next_revision store_lease new_lease
  overwrite-Steps owner run f ttl now m = elim (Result-cases (lease_key s r)) [
    | inr (e, p) ↦ rw p here
    | inl (key, p) ↦ rw p (
        lift-Steps (required_text owner "owner_host_id") _ m (λ host q.
          fenced-Steps key f _ m (λ a la fa.
            counted-Steps key (expires_at now ttl) _ (settled key now m)
              (λ e. granted-Steps {m = settled key now m} key _ refl (inr (a, la, cc)) refl))))
  ]

  get_active-Steps : (now : ℕ) (m : Memory) → Steps now none m (get_active_lease s r now m).1
  unfolding get_active_lease
  get_active-Steps now m =
      lift-Steps (lease_key s r) _ m
        (λ key p. rw (active_lease_for_key-eq key now m) (settled-Steps key m))

list_active-Steps :
    ⦃u : Unicode⦄ (s : Text) (now : ℕ) (m : Memory)
    → Steps now none m (list_active_leases s now m).1
unfolding list_active_leases
list_active-Steps s now m =
    lift-Steps (requested_scope s) _ m
      (λ requested p. map-Steps _ sort_leases (collect_active-Steps _ requested m))

-- The methods that touch tasks and agent states leave leases and revisions alone.
module _ {now : ℕ} {by : Presented} where
  record_status-Steps :
      ⦃u : Unicode⦄ (id status host run : Text) (t : ℕ) (m : Memory)
      → Steps now by m (record_task_status id status host run t m).1
  unfolding record_task_status write_task
  record_status-Steps id status host run t m =
      lift-Steps (required_text id "task_id") _ m
        (λ a p. lift-Steps (required_text status "status") _ m (λ b q. one (other refl refl)))

  mark-Steps :
      (id host run : Text) (t : ℕ) (m : Memory)
      → Steps now by m (mark_task_reassignable id host run t m).1
  unfolding mark_task_reassignable write_task
  mark-Steps id host run t m =
      lift-Steps (required_text id "task_id") _ m (λ a p. one (other refl refl))

  task_record-Steps : (id : Text) (m : Memory) → Steps now by m (get_task_record id m).1
  unfolding get_task_record
  task_record-Steps id m = lift-Steps (required_text id "task_id") _ m (λ a p. here)

  put_state-Steps : (k : Text) (p : Fields) (m : Memory) → Steps now by m (put_agent_state k p m).1
  unfolding put_agent_state
  put_state-Steps k p m = lift-Steps (required_text k "key") _ m (λ a q. one (other refl refl))

-- the fencing revision that a call presents, and the key that it presents it for
abbrev pub presented : ⦃u : Unicode⦄ → Call → Presented
presented (Call.renew s r host run f ttl now) = presented_of (lease_key s r) f
presented (Call.release s r host run f now) = presented_of (lease_key s r) f
presented (Call.bind s r host run new f ttl now) = presented_of (lease_key s r) f
presented (Call.revoke s r f now) = presented_of (lease_key s r) f
presented (Call.overwrite s r host run f ttl now) = presented_of (lease_key s r) f
presented _ = none

-- Every call is a sequence of steps at its own time, under the fence that it presents.
pub perform-Steps :
    ⦃u : Unicode⦄ (before : ℕ) (c : Call) (m : Memory)
    → Steps (time_of before c) (presented c) m (perform c m).1
unfolding perform list_agent_states
perform-Steps t (Call.acquire s r host run ttl now) m =
    map-Steps _ Reply.lease (acquire-Steps s r host run ttl now m)
perform-Steps t (Call.renew s r host run f ttl now) m =
    map-Steps _ Reply.lease (renew-Steps s r host run f ttl now m)
perform-Steps t (Call.release s r host run f now) m =
    map-Steps _ Reply.lease (release-Steps s r host run f now m)
perform-Steps t (Call.bind s r host run new f ttl now) m =
    map-Steps _ Reply.lease (bind-Steps s r host run new f ttl now m)
perform-Steps t (Call.revoke s r f now) m = map-Steps _ Reply.lease (revoke-Steps s r f now m)
perform-Steps t (Call.overwrite s r host run f ttl now) m =
    map-Steps _ Reply.lease (overwrite-Steps s r host run f ttl now m)
perform-Steps t (Call.active_lease s r now) m =
    map-Steps _ Reply.maybe_lease (get_active-Steps s r now m)
perform-Steps t (Call.active_leases s now) m = map-Steps _ Reply.leases (list_active-Steps s now m)
perform-Steps t (Call.record_status id status host run now) m =
    map-Steps _ Reply.task_of (record_status-Steps id status host run now m)
perform-Steps t (Call.mark_reassignable id host run now) m =
    map-Steps _ Reply.task_of (mark-Steps id host run now m)
perform-Steps t (Call.task_record id) m = map-Steps _ Reply.maybe_task (task_record-Steps id m)
perform-Steps t (Call.put_state k p) m = map-Steps _ (λ _. Reply.done) (put_state-Steps k p m)
perform-Steps t Call.states m = here
