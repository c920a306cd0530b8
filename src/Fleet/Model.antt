-- ===== src/Fleet/Model.antt =====
-- The data of code_index/openclaw_hostd/leases.py and the functions that both stores use.
-- Instants are numbers of microseconds since `datetime.min`; `now` is the instant that `_utc(now)`
-- returns.
use Prim.Native.String.{String, ◌++◌}
use memory_network.Prelude.{
  ℕ, ◌+◌, ◌≡◌, ◌↔◌, Char, code, Bool, true, false, ◌&&◌, Option, none, some, List, [], ◌∷◌, arith,
  leb, nat_beq, if◌then◌else◌, str_eq, eq_iff,
}
use memory_network.Prelude.Equality.{Comparable, string_eq}
use memory_network.Prelude.Exec.{Result, ok, err, bind_result}
use memory_network.Prelude.Lists.{contains}
use memory_network.Prelude.Int.{ℤ, pos, negsuc}
use memory_network.Text.{Unicode, is_empty, strip, stripped, optional_text, decimal}

-- `ValueError` with its message, `OverflowError`, and the three subclasses of `LeaseError`.
pub data LeaseError : Type 0 where
  value_error : String → LeaseError
  overflow_error conflict_error fencing_error owner_error : LeaseError

-- `LEASE_SCOPES`
pub data Scope : Type 0 where
  host repo task : Scope

abbrev pub Key : Type 0
Key = Scope × String

-- The `status` of a lease: the four words that the stores write.
pub data Status : Type 0 where
  active expired released revoked : Status

abbrev pub is_active : Status → Bool
is_active active = true
is_active _ = false

pub record FleetLease : Type 0 where
  pub lease_id : String
  pub scope : Scope
  pub resource_id : String
  pub owner_host_id : String
  pub owner_run_id : Option String
  pub fencing_revision : ℕ
  pub status : Status
  pub acquired_at : ℕ
  pub updated_at : ℕ
  pub expires_at : Option ℕ

pub record FleetTaskRecord : Type 0 where
  pub task_id : String
  pub status : String
  pub host_id : Option String
  pub run_id : Option String
  pub terminal_status : Option String
  pub reassignable : Bool
  pub updated_at : ℕ

abbrev pub terminal_task_statuses : List String
terminal_task_statuses =
    "completed" ∷ "done" ∷ "failed" ∷ "cancelled" ∷ "canceled" ∷ "review" ∷ "needs_review"
    ∷ "needs-review" ∷ []

abbrev pub scope_beq : Scope → Scope → Bool
scope_beq host host = true
scope_beq repo repo = true
scope_beq task task = true
scope_beq _ _ = false

abbrev pub key_beq : Key → Key → Bool
key_beq (s, r) (s', r') = scope_beq s s' && str_eq r r'

pub key_beq_iff : (a b : Key) → (key_beq a b ≡ true) ↔ (a ≡ b)
key_beq_iff (s, r) (s', r') = (λ h. ground (arith, eq_iff r r'), λ h. ground (arith, eq_iff r r'))

instance abbrev pub key_eq : Comparable Key
key_eq = record { same = key_beq; same_iff = key_beq_iff }

-- `_required_text(value, field_name)`
unfoldable pub required_text : Option String → String → Result LeaseError String
unfolding stripped is_empty
required_text value field_name =
    let text = stripped value in
    if is_empty text then err (value_error (field_name ++ " is required")) else ok text

scope_of : String → Result LeaseError Scope
scope_of s =
    if str_eq s "host"
    then ok host
    else if str_eq s "repo"
    then ok repo
    else if str_eq s "task"
    then ok task
    else err (value_error "lease scope must be host, repo, or task")

scope_text : Scope → String
scope_text host = "host"
scope_text repo = "repo"
scope_text task = "task"

-- `ttl_seconds` that is given: `float(ttl_seconds)` as a number of microseconds, or what is none.
pub data Duration : Type 0 where
  span : ℤ → Duration
  infinite not_a_number : Duration

-- `datetime.max`
abbrev pub max_instant : ℕ
max_instant = 315537897599999999

-- `_expires_at(now, ttl_seconds)`
unfoldable pub expires_at : ℕ → Option Duration → Result LeaseError (Option ℕ)
expires_at now none = ok none
expires_at now (some (span (negsuc n))) = ok (some now)
expires_at now (some (span (pos n))) =
    if leb (now + n) max_instant then ok (some (now + n)) else err overflow_error
expires_at now (some infinite) = err overflow_error
expires_at now (some not_a_number) = err (value_error "cannot convert float NaN to integer")

-- `active.expires_at if ttl_seconds is None else _expires_at(timestamp, ttl_seconds)`
unfoldable pub rebound_expires_at : Option ℕ → ℕ → Option Duration → Result LeaseError (Option ℕ)
unfolding expires_at
rebound_expires_at held now none = ok held
rebound_expires_at held now (some ttl) = expires_at now (some ttl)

-- `lease.expires_at is not None and lease.expires_at <= now`
unfoldable pub is_due : Option ℕ → ℕ → Bool
is_due none now = false
is_due (some t) now = leb t now

dash : Char → Bool
dash c = nat_beq (code c) b'-'

-- `_raise_if_owner_run_conflicts`; the caller says which error is raised
unfoldable pub raise_if_owner_run_conflicts :
    FleetLease → Option String → LeaseError → Result LeaseError (Unit {0})
raise_if_owner_run_conflicts lease owner_run_id error = elim (optional_text owner_run_id) [
  | none ↦ ok tt
  | some requested ↦ elim lease.owner_run_id [
    | none ↦ ok tt
    | some held ↦ if str_eq held requested then ok tt else err error
  ]
]

-- `_require_lease_owner`
unfoldable pub require_lease_owner :
    FleetLease → String → Option String → Result LeaseError (Unit {0})
unfolding raise_if_owner_run_conflicts
require_lease_owner lease owner_host_id owner_run_id =
    if str_eq lease.owner_host_id owner_host_id
    then raise_if_owner_run_conflicts lease owner_run_id owner_error
    else err owner_error

-- The comparison of `_require_current_fence`, once the active lease is known.
unfoldable pub check_fence : Option FleetLease → ℕ → Result LeaseError FleetLease
check_fence none fencing_revision = err fencing_error
check_fence (some lease) fencing_revision =
    if nat_beq lease.fencing_revision fencing_revision then ok lease else err fencing_error

-- `status if status in TERMINAL_TASK_STATUSES else None`
unfoldable pub terminal_of : String → Option String
terminal_of status = if contains status terminal_task_statuses then some status else none

module _ ⦃u : Unicode⦄ where
  -- `_lease_scope(value)`
  unfoldable pub lease_scope : Option String → Result LeaseError Scope
  unfolding required_text scope_of
  lease_scope value = bind_result (required_text value "scope") (λ text. scope_of (u.lower text))

  -- `(_lease_scope(scope), _required_text(resource_id, "resource_id"))`
  unfoldable pub lease_key : Option String → Option String → Result LeaseError Key
  unfolding lease_scope
  lease_key scope resource_id =
      bind_result (lease_scope scope)
        λ s. bind_result (required_text resource_id "resource_id") λ r. ok (s, r)

  dashes : String → String
  dashes String.[] = String.[]
  dashes (String.◌∷◌ c s) = (if u.is_alnum c then String.◌∷◌ c String.[] else "-") ++ dashes s

  -- `_lease_id_part(value)`
  unfoldable pub lease_id_part : String → String
  unfolding dashes dash strip is_empty
  lease_id_part value = let part = strip dash (dashes value) in if is_empty part then "x" else part

  -- `f"{key[0]}-{_lease_id_part(key[1])}-{revision}"`
  unfoldable pub lease_id_of : Key → ℕ → String
  unfolding lease_id_part scope_text decimal
  lease_id_of (s, r) revision = scope_text s ++ "-" ++ lease_id_part r ++ "-" ++ decimal revision

  -- the fresh lease of `acquire_lease` and `overwrite_lease`
  unfoldable pub new_lease : Key → String → Option String → ℕ → ℕ → ℕ → Option ℕ → FleetLease
  unfolding lease_id_of optional_text
  new_lease key owner_host_id owner_run_id revision acquired now expires = record {
    lease_id = lease_id_of key revision;
    scope = key.0;
    resource_id = key.1;
    owner_host_id = owner_host_id;
    owner_run_id = optional_text owner_run_id;
    fencing_revision = revision;
    status = active;
    acquired_at = acquired;
    updated_at = now;
    expires_at = expires;
  }
