-- ===== src/Fleet/Calls.antt =====
-- The calls of the `FleetLeaseStore` protocol (code_index/openclaw_hostd/leases.py) as data, so
-- that a history of a store is a list, with what each call presents and when it is made.
use Prim.Native.String.{String}
use memory_network.Prelude.{ℕ, Option, List}
use memory_network.Fleet.Payload.{Fields}
use memory_network.Fleet.Model.{Duration, FleetLease, FleetTaskRecord}

abbrev Text : Type 0
Text = Option String

-- The last number of each call that has a time is that time.
pub data Call : Type 0 where
  acquire : Text → Text → Text → Text → Option Duration → ℕ → Call
  renew : Text → Text → Text → Text → ℕ → Option Duration → ℕ → Call
  release : Text → Text → Text → Text → ℕ → ℕ → Call
  bind : Text → Text → Text → Text → Text → ℕ → Option Duration → ℕ → Call
  revoke : Text → Text → ℕ → ℕ → Call
  overwrite : Text → Text → Text → Text → ℕ → Option Duration → ℕ → Call
  active_lease : Text → Text → ℕ → Call
  active_leases : Text → ℕ → Call
  record_status : Text → Text → Text → Text → ℕ → Call
  mark_reassignable : Text → Text → Text → ℕ → Call
  task_record : Text → Call
  put_state : Text → Fields → Call
  states : Call

pub data Reply : Type 0 where
  lease : FleetLease → Reply
  maybe_lease : Option FleetLease → Reply
  leases : List FleetLease → Reply
  task_of : FleetTaskRecord → Reply
  maybe_task : Option FleetTaskRecord → Reply
  done : Reply
  payloads : List Fields → Reply

-- the instant of a call that is made after `before`; three calls have none of their own
abbrev pub time_of : ℕ → Call → ℕ
time_of before (acquire s r host run ttl now) = now
time_of before (renew s r host run f ttl now) = now
time_of before (release s r host run f now) = now
time_of before (bind s r host run new f ttl now) = now
time_of before (revoke s r f now) = now
time_of before (overwrite s r host run f ttl now) = now
time_of before (active_lease s r now) = now
time_of before (active_leases s now) = now
time_of before (record_status id status host run now) = now
time_of before (mark_reassignable id host run now) = now
time_of before _ = before
