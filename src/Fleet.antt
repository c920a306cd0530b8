-- ===== src/Fleet.antt =====
-- code_index/openclaw_hostd/leases.py
pub mod Payload
pub mod Model
pub mod Expiry
pub mod Order
pub mod Calls
pub mod Memory
pub mod Sqlite
pub mod Refinement
pub mod Controller
mod Tests
