-- ===== src/Fleet/Controller.antt =====
-- `FleetLeaseController`, `revoke_no_progress_task_leases` and
-- `release_task_lease_on_terminal_status` of code_index/openclaw_hostd/leases.py, over any store.
pub mod Grouping
pub mod Progress
pub mod Stores
mod Tests
use Prim.Native.String.{String}
use memory_network.Prelude.{
  ℕ, ◌+◌, ◌/◌, Char, code, Bool, true, false, ◌&&◌, ◌||◌, Option, none, some, List, [], ◌∷◌, ◌++◌,
  leb, nat_beq, if◌then◌else◌, is_some, or_else, value_or, str_eq,
}
use memory_network.Prelude.Equality.{string_eq}
use memory_network.Prelude.Dict.{Dict, get, put}
use memory_network.Prelude.Exec.{Exec, ◌>>=◌, ◌>>◌, pure, lift}
use memory_network.Prelude.Lists.{contains}
use memory_network.Prelude.Int.{ℤ, pos, negsuc}
use memory_network.Text.{Unicode, is_empty, optional_text}
use memory_network.Fleet.Payload.{Fields, field_of, value_text, state_payload}
use memory_network.Fleet.Model.{
  LeaseError, FleetLease, FleetTaskRecord, terminal_task_statuses, required_text,
}

abbrev Text : Type 0
Text = Option String

-- What the functions below call of `FleetLeaseStore`, for a store with the state `S`.
pub record FleetLeaseStore (S : Type 0) : Type 0 where
  pub list_active_leases : Text → ℕ → Exec LeaseError S (List FleetLease)
  pub get_task_record : Text → Exec LeaseError S (Option FleetTaskRecord)
  pub revoke_lease : Text → Text → ℕ → ℕ → Exec LeaseError S FleetLease
  pub mark_task_reassignable : Text → Text → Text → ℕ → Exec LeaseError S FleetTaskRecord
  pub release_lease : Text → Text → Text → Text → ℕ → ℕ → Exec LeaseError S FleetLease
  pub record_task_status : Text → Text → Text → Text → ℕ → Exec LeaseError S FleetTaskRecord
  pub list_agent_states : Exec LeaseError S (List Fields)

pub record NoProgressRevocation : Type 0 where
  pub task_id : String
  pub host_id : String
  pub run_id : Option String
  pub lease_id : String
  pub fencing_revision : ℕ
  pub last_action_at : ℕ
  pub threshold_seconds : ℕ

pub record NoProgressCheckResult : Type 0 where
  pub revoked : List NoProgressRevocation
  pub task_records : List FleetTaskRecord

-- `_optional_text(state.get(key))`
unfoldable pub state_text : String → Fields → Option String
unfolding field_of value_text optional_text
state_text key state = optional_text (value_text (field_of key state))

-- the loop of `_agent_states_by_task`, from the states grouped so far
unfoldable pub add_agent_states :
    List Fields → Dict String (List Fields) → Dict String (List Fields)
unfolding state_payload state_text
add_agent_states [] result = result
add_agent_states (raw_state ∷ rest) result =
    let state = state_payload raw_state in
    add_agent_states rest (elim (state_text "task_id" state) [
      | none ↦ result
      | some task_id ↦ put task_id (value_or [] (get task_id result) ++ state ∷ []) result
    ])

-- `_agent_states_by_task`
unfoldable pub agent_states_by_task : List Fields → Dict String (List Fields)
unfolding add_agent_states
agent_states_by_task agent_states = add_agent_states agent_states []

unfoldable pub is_text : Option String → String → Bool
is_text none t = false
is_text (some s) t = str_eq s t

-- the loop of `_matching_agent_state`
unfoldable pub state_of_run : List Fields → String → String → Option Fields
unfolding state_text is_text
state_of_run [] host_id run_id = none
state_of_run (state ∷ states) host_id run_id =
    let rest = state_of_run states host_id run_id in
    if is_text (state_text "host_id" state) host_id && is_text (state_text "run_id" state) run_id
    then some state
    else rest

-- `_matching_agent_state(states, lease=lease)`
unfoldable pub matching_agent_state : List Fields → FleetLease → Option Fields
unfolding state_of_run
matching_agent_state states lease = elim lease.owner_run_id [
  | none ↦ none
  | some run_id ↦ state_of_run states lease.owner_host_id run_id
]

-- a final `Z` in place of which `+00:00` is read
unfoldable pub with_offset : String → String
unfolding is_empty
with_offset String.[] = String.[]
with_offset (String.◌∷◌ c s) =
    let rest = with_offset s in
    if nat_beq (code c) b'Z' && is_empty s then "+00:00" else String.◌∷◌ c rest

-- `timestamp - last_action_at >= threshold`
unfoldable pub has_stalled : ℕ → ℕ → ℤ → Bool
has_stalled timestamp last_action_at (pos n) = leb (last_action_at + n) timestamp
has_stalled timestamp last_action_at (negsuc n) = leb last_action_at (timestamp + n + 1)

-- `max(0, int(threshold.total_seconds()))`
unfoldable pub seconds_of : ℤ → ℕ
seconds_of (pos n) = n / 1000000
seconds_of (negsuc n) = 0

-- `task is not None and task.terminal_status is not None`
unfoldable pub has_terminal_record : Option FleetTaskRecord → Bool
has_terminal_record none = false
has_terminal_record (some task) = is_some task.terminal_status

-- `from_iso` is `_utc(datetime.fromisoformat(text))`, `none` where that raises `ValueError`.
module _ ⦃u : Unicode⦄ (from_iso : String → Option ℕ) where
  -- one key of `_state_is_terminal`
  unfoldable pub has_terminal : String → Fields → Bool
  unfolding state_text
  has_terminal key state = elim (state_text key state) [
    | none ↦ false
    | some value ↦ contains (u.lower value) terminal_task_statuses
  ]

  -- `_state_is_terminal(state)`
  unfoldable pub state_is_terminal : Fields → Bool
  unfolding has_terminal
  state_is_terminal state =
      has_terminal "terminal_status" state
      || has_terminal "status" state
      || has_terminal "run_status" state

  -- `_parse_datetime(value)` of an entry of a state
  unfoldable pub parse_datetime : Option String → Option ℕ
  unfolding optional_text with_offset
  parse_datetime value = elim (optional_text value) [
    | none ↦ none
    | some text ↦ from_iso (with_offset text)
  ]

  -- the guards of the loop on the agent's state: the last action, if the run has stalled
  unfoldable pub stalled_at : Dict String (List Fields) → FleetLease → ℕ → ℤ → Option ℕ
  unfolding matching_agent_state state_is_terminal parse_datetime has_stalled field_of value_text
  stalled_at states_by_task lease timestamp threshold =
      elim (matching_agent_state (value_or [] (get lease.resource_id states_by_task)) lease) [
        | none ↦ none
        | some state ↦
            if state_is_terminal state
            then none
            else elim (parse_datetime (value_text (field_of "last_action_at" state))) [
              | none ↦ none
              | some last_action_at ↦
                  if has_stalled timestamp last_action_at threshold
                  then some last_action_at
                  else none
            ]
      ]

  module _ {S : Type 0} (store : FleetLeaseStore S) where
    -- the writes for one stalled lease
    unfoldable pub revoke_stalled : FleetLease → ℕ → ℤ → ℕ → Exec LeaseError S NoProgressRevocation
    unfolding seconds_of
    revoke_stalled lease timestamp threshold last_action_at = do
      store.revoke_lease (some "task") (some lease.resource_id) lease.fencing_revision timestamp
      store.mark_task_reassignable (some lease.resource_id) (some lease.owner_host_id)
          lease.owner_run_id timestamp
      pure (record {
        task_id = lease.resource_id;
        host_id = lease.owner_host_id;
        run_id = lease.owner_run_id;
        lease_id = lease.lease_id;
        fencing_revision = lease.fencing_revision;
        last_action_at = last_action_at;
        threshold_seconds = seconds_of threshold;
      })

    -- the loop of `revoke_no_progress_task_leases`
    unfoldable pub revoke_from :
        Dict String (List Fields)
        → ℕ
        → ℤ
        → List FleetLease
        → Exec LeaseError S (List NoProgressRevocation)
    unfolding stalled_at revoke_stalled has_terminal_record
    revoke_from states_by_task timestamp threshold [] = pure []
    revoke_from states_by_task timestamp threshold (lease ∷ leases) =
        let rest = revoke_from states_by_task timestamp threshold leases in
        (do
          task ← store.get_task_record (some lease.resource_id)
          if has_terminal_record task
              then rest
              else elim (stalled_at states_by_task lease timestamp threshold) [
                | none ↦ rest
                | some last_action_at ↦ (do
                  one ← revoke_stalled lease timestamp threshold last_action_at
                  others ← rest
                  pure (one ∷ others))
              ])

    unfoldable pub revoke_no_progress_task_leases :
        List Fields → ℕ → ℤ → Exec LeaseError S (List NoProgressRevocation)
    unfolding agent_states_by_task revoke_from
    revoke_no_progress_task_leases agent_states timestamp threshold = do
      leases ← store.list_active_leases (some "task") timestamp
      revoke_from (agent_states_by_task agent_states) timestamp threshold leases

    -- the list of `task_records`
    unfoldable pub task_records_of :
        List NoProgressRevocation → Exec LeaseError S (List FleetTaskRecord)
    task_records_of [] = pure []
    task_records_of (item ∷ items) =
        let rest = task_records_of items in
        (do
          found ← store.get_task_record (some item.task_id)
          others ← rest
          pure (elim found [ none ↦ others | some t ↦ t ∷ others ]))

    unfoldable pub run_no_progress_check : ℕ → ℤ → Exec LeaseError S NoProgressCheckResult
    unfolding revoke_no_progress_task_leases task_records_of
    run_no_progress_check now no_progress_threshold = do
      states ← store.list_agent_states
      revoked ← revoke_no_progress_task_leases states now no_progress_threshold
      records ← task_records_of revoked
      pure (record { revoked = revoked; task_records = records })

    unfoldable pub release_task_lease_on_terminal_status :
        Text → Text → ℕ → Text → Text → Text → ℕ → Exec LeaseError S (Option FleetLease)
    unfolding required_text optional_text
    release_task_lease_on_terminal_status task_id owner_host_id fencing_revision terminal_status
          run_id owner_run_id now =
        do
          text ← lift (required_text terminal_status "terminal_status")
          let status = u.lower text
          (if contains status terminal_task_statuses
              then (do
                released ←
                    store.release_lease (some "task") task_id owner_host_id
                      (or_else (optional_text owner_run_id) (optional_text run_id)) fencing_revision
                      now
                store.record_task_status task_id (some status) owner_host_id
                    (or_else (optional_text run_id) (optional_text owner_run_id)) now
                pure (some released))
              else pure none)
