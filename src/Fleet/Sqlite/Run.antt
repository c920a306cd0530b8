-- ===== src/Fleet/Sqlite/Run.antt =====
-- Histories of calls of SQLiteFleetLeaseStore (code_index/openclaw_hostd/leases.py).
use memory_network.Prelude.{List, [], ◌∷◌}
use memory_network.Prelude.Exec.{Result, ◌>>=◌, ◌>>◌, pure}
use memory_network.Text.{Unicode}
use memory_network.Fleet.Model.{LeaseError}
use memory_network.Fleet.Calls.{Call, Reply}
use memory_network.Fleet.Sqlite.{
  Database, Action, acquire_lease, renew_lease, release_lease, bind_lease_owner_run, revoke_lease,
  overwrite_lease, get_active_lease, list_active_leases, record_task_status, mark_task_reassignable,
  get_task_record, put_agent_state, list_agent_states,
}

-- One call of the store.
unfoldable pub perform : ⦃u : Unicode⦄ → Call → Action Reply
unfolding acquire_lease renew_lease release_lease bind_lease_owner_run revoke_lease overwrite_lease
    get_active_lease list_active_leases record_task_status mark_task_reassignable get_task_record
    put_agent_state list_agent_states
perform (Call.acquire s r owner run ttl now) = do
  l ← acquire_lease s r owner run ttl now
  pure (Reply.lease l)
perform (Call.renew s r owner run f ttl now) = do
  l ← renew_lease s r owner run f ttl now
  pure (Reply.lease l)
perform (Call.release s r owner run f now) = do
  l ← release_lease s r owner run f now
  pure (Reply.lease l)
perform (Call.bind s r owner run new f ttl now) = do
  l ← bind_lease_owner_run s r owner run new f ttl now
  pure (Reply.lease l)
perform (Call.revoke s r f now) = do l ← revoke_lease s r f now; pure (Reply.lease l)
perform (Call.overwrite s r owner run f ttl now) = do
  l ← overwrite_lease s r owner run f ttl now
  pure (Reply.lease l)
perform (Call.active_lease s r now) = do l ← get_active_lease s r now; pure (Reply.maybe_lease l)
perform (Call.active_leases s now) = do ls ← list_active_leases s now; pure (Reply.leases ls)
perform (Call.record_status id status owner run now) = do
  t ← record_task_status id status owner run now
  pure (Reply.task_of t)
perform (Call.mark_reassignable id owner run now) = do
  t ← mark_task_reassignable id owner run now
  pure (Reply.task_of t)
perform (Call.task_record id) = do t ← get_task_record id; pure (Reply.maybe_task t)
perform (Call.put_state key payload) = do put_agent_state key payload; pure Reply.done
perform Call.states = do ps ← list_agent_states; pure (Reply.payloads ps)

-- A history of calls: each is made in the state that the one before left, whether it raised or not.
unfoldable pub perform_all :
    ⦃u : Unicode⦄ → List Call → Database → List (Result LeaseError Reply) × Database
unfolding perform
perform_all [] m = ([], m)
perform_all (c ∷ cs) m =
    let (r, m') = perform c m in let (rs, m'') = perform_all cs m' in (r ∷ rs, m'')
