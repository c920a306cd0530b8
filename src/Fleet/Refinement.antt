-- ===== src/Fleet/Refinement.antt =====
-- The SQLite fleet lease store answers as the in-memory one (code_index/openclaw_hostd/leases.py).
pub mod Relation
pub mod Settle
pub mod Tasks
pub mod Rules
pub mod Methods
pub mod Acquire
pub mod History
pub mod Counters
