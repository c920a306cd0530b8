-- ===== src/Claims.antt =====
-- File claims and leases: the tables `agent_file_claims` and `agent_file_claim_events`, with the
-- helpers that code_index/agent_activity.py and code_index/lease_manager.py share. Each function of
-- them runs without another writer in between, at the instant `now` (in milliseconds) of all its
-- `_now_iso()`. The functions of lease_manager.py that write open a transaction (`_atomic`); those
-- of agent_activity.py, `claim_file` among them, open none, and rely on the writer lock or on the
-- `BEGIN IMMEDIATE` of their callers.
pub mod Metadata
pub mod Expiry
pub mod Files
pub mod Upkeep
pub mod Leases
pub mod Writes
pub mod Table
pub mod Exclusion
pub mod Outcomes
pub mod Redaction
pub mod Verified
pub mod Stored
pub mod Creation
mod Tests
use Prim.Native.String.{String, ◌++◌}
use memory_network.Prelude.{
  ℕ, zero, suc, ◌+◌, Char, code, Bool, true, false, not, ◌&&◌, ◌||◌, Option, none, some, List, [],
  ◌∷◌, map, nat_beq, ltb, leb, if◌then◌else◌, str_eq, value_or, is_some,
}
use memory_network.Prelude.Exec.{Exec}
use memory_network.Prelude.Int.{ℤ, pos, negsuc}
use memory_network.Prelude.Lists.{filter, add_last}
use memory_network.Text.{is_space, strip, nonempty, replace}
use memory_network.Claims.Metadata.{Json}
use memory_network.Runs.{Run, run_of}

-- `VALID_CLAIM_MODES`
pub data Mode : Type 0 where
  read edit review test exclusive : Mode

pub data ClaimStatus : Type 0 where
  active released expired : ClaimStatus

pub data Kind : Type 0 where
  claim lease : Kind

pub data EventType : Type 0 where
  created renewed released expired denied : EventType

-- The errors that the functions raise, and SQLite's `IntegrityError` for a second `claim_id`.
pub data ClaimError : Type 0 where
  unknown_run file_path_required unknown_mode unknown_release_status conflict duplicate_claim_id :
      ClaimError
  unknown_claim lease_expired not_active bad_token malformed_fence stale_fence no_active_claim :
      ClaimError
  changed : ClaimError

-- a row of `agent_file_claims`
pub record Claim : Type 0 where
  pub claim_pk : ℕ
  pub claim_id : String
  pub run_pk : ℕ
  pub file_path : String
  pub mode : Mode
  pub status : ClaimStatus
  pub reason : String
  pub fence_token : ℕ
  pub lease_token_hash : Option String
  pub lease_kind : Kind
  pub owner_agent : Option String
  pub heartbeat_interval_ms : Option ℕ
  pub conflict_policy : Option String
  pub last_conflict : Option String
  pub created_at : ℕ
  pub updated_at : ℕ
  pub heartbeat_at : Option ℕ
  pub expires_at : Option ℕ
  pub released_at : Option ℕ
  pub metadata : Json

-- A row of `agent_file_claim_events`.
pub record Event : Type 0 where
  pub claim_pk : ℕ
  pub event_type : EventType
  pub timestamp : ℕ
  pub file_path : String
  pub mode : Mode
  pub fence_token : ℕ
  pub message : String
  pub metadata : Json

pub record Claims : Type 0 where
  pub runs : List Run
  pub rows : List Claim
  pub events : List Event

-- What the functions use of other libraries: SQLite's `LOWER`, `uuid.uuid5(…).hex` in the URL
-- namespace, and the hexadecimal SHA-256 of a token.
pub record Platform : Type 0 where
  pub sql_lower : String → String
  pub uuid5 : String → String
  pub hash_token : String → String

abbrev pub Action : Type 0 → Type 0
Action = Exec ClaimError Claims

abbrev pub is_active : ClaimStatus → Bool
is_active ClaimStatus.active = true
is_active _ = false

abbrev pub is_lease : Kind → Bool
is_lease lease = true
is_lease claim = false

abbrev pub mode_beq : Mode → Mode → Bool
mode_beq read read = true
mode_beq edit edit = true
mode_beq review review = true
mode_beq test test = true
mode_beq exclusive exclusive = true
mode_beq _ _ = false

-- the character `\`
unfoldable pub is_backslash : Char → Bool
is_backslash c = nat_beq (code c) b'\\'

-- `while out.startswith("./"): out = out[2:]`
unfoldable pub drop_dots : String → String
drop_dots String.[] = String.[]
drop_dots (String.◌∷◌ c String.[]) = String.◌∷◌ c String.[]
drop_dots (String.◌∷◌ c (String.◌∷◌ d s)) =
    let rest = drop_dots s in
    if nat_beq (code c) b'.' && nat_beq (code d) b'/' then rest else String.◌∷◌ c (String.◌∷◌ d s)

-- `_normal_path(path)`
unfoldable pub normal_path : Option String → Option String
unfolding nonempty drop_dots strip is_space replace is_backslash
normal_path none = none
normal_path (some path) = nonempty (drop_dots (strip is_space (replace is_backslash "/" path)))

-- `_iso_after(seconds)`, in milliseconds
unfoldable pub iso_after : ℕ → Option ℤ → Option ℕ
iso_after now none = none
iso_after now (some (pos zero)) = none
iso_after now (some (pos (suc n))) = some (now + suc n)
iso_after now (some (negsuc n)) = none

-- `expires_at IS NULL OR expires_at >= ?`
unfoldable pub is_current : Option ℕ → ℕ → Bool
is_current none now = true
is_current (some t) now = leb now t

-- `expires_at IS NOT NULL AND expires_at < ?`
unfoldable pub is_stale : Option ℕ → ℕ → Bool
is_stale none now = false
is_stale (some t) now = ltb t now

-- a word of `VALID_CLAIM_MODES`
unfoldable pub mode_of : String → Option Mode
mode_of s =
    if str_eq s "read"
    then some read
    else if str_eq s "edit"
    then some edit
    else if str_eq s "review"
    then some review
    else if str_eq s "test"
    then some test
    else if str_eq s "exclusive"
    then some exclusive
    else none

-- `EXCLUSIVE_CLAIM_MODES`, which are `WRITE_CLAIM_MODES` too
unfoldable pub is_write_mode : Mode → Bool
is_write_mode edit = true
is_write_mode exclusive = true
is_write_mode _ = false

-- the test in the loop of `_raise_on_claim_conflict`
unfoldable pub modes_conflict : Mode → Mode → Bool
unfolding is_write_mode
modes_conflict mode other =
    mode_beq mode exclusive
    || mode_beq other exclusive
    || (is_write_mode mode && is_write_mode other)

-- the rows of `agent_file_claims` with their runs, where a condition holds, in the table's order
unfoldable pub select_rows : (Run → Claim → Bool) → List Run → List Claim → List (Run × Claim)
unfolding run_of
select_rows where' runs [] = []
select_rows where' runs (row ∷ rows) =
    let rest = select_rows where' runs rows in
    elim (run_of row.run_pk runs) [
      | none ↦ rest
      | some run ↦ if where' run row then (run, row) ∷ rest else rest
    ]

-- `LIMIT 1`
unfoldable pub first_of {ℓ} : {A : Type ℓ} → List A → Option A
first_of [] = none
first_of (x ∷ xs) = some x

-- `_claim_row(conn, claim_id)`
unfoldable pub claim_row : String → Claims → Option (Run × Claim)
unfolding select_rows first_of
claim_row claim_id db =
    first_of (select_rows (λ run row. str_eq row.claim_id claim_id) db.runs db.rows)

-- an `UPDATE` of the rows that satisfy a condition, and its `rowcount`
unfoldable pub update_rows : (Claim → Bool) → (Claim → Claim) → List Claim → List Claim
update_rows where' set [] = []
update_rows where' set (row ∷ rows) =
    (if where' row then set row else row) ∷ update_rows where' set rows

unfoldable pub row_count : (Claim → Bool) → List Claim → ℕ
row_count where' [] = 0
row_count where' (row ∷ rows) =
    let rest = row_count where' rows in if where' row then suc rest else rest
