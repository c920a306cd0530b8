-- ===== src/Fleet/Controller/Stores.antt =====
-- The two stores of code_index/openclaw_hostd/leases.py as the `FleetLeaseStore` that the
-- controller takes.
use memory_network.Text.{Unicode}
use memory_network.Fleet.Memory
use memory_network.Fleet.Memory.{Memory}
use memory_network.Fleet.Sqlite
use memory_network.Fleet.Sqlite.{Database}
use memory_network.Fleet.Controller.{FleetLeaseStore}

abbrev pub memory_store : ⦃u : Unicode⦄ → FleetLeaseStore Memory
memory_store = record {
  list_active_leases = Memory.list_active_leases;
  get_task_record = Memory.get_task_record;
  revoke_lease = Memory.revoke_lease;
  mark_task_reassignable = Memory.mark_task_reassignable;
  release_lease = Memory.release_lease;
  record_task_status = Memory.record_task_status;
  list_agent_states = Memory.list_agent_states;
}

abbrev pub sqlite_store : ⦃u : Unicode⦄ → FleetLeaseStore Database
sqlite_store = record {
  list_active_leases = Sqlite.list_active_leases;
  get_task_record = Sqlite.get_task_record;
  revoke_lease = Sqlite.revoke_lease;
  mark_task_reassignable = Sqlite.mark_task_reassignable;
  release_lease = Sqlite.release_lease;
  record_task_status = Sqlite.record_task_status;
  list_agent_states = Sqlite.list_agent_states;
}
