-- ===== src/Fleet/Payload.antt =====
-- Agent state payloads: JSON objects, of which the leases read a few entries
-- (code_index/openclaw_hostd/leases.py).
use Prim.Native.String.{String}
use memory_network.Prelude.{Option, none, some, str_eq, if◌then◌else◌}

-- `text` holds `str(value or "")` of a text, a number or a truth value; an object holds that text
-- of itself beside its entries.
mutual
  pub data Value : Type 0 where
    null : Value
    text : String → Value
    object : String → Fields → Value

  pub data Fields : Type 0 where
    end : Fields
    field : String → Value → Fields → Fields

-- `state.get(key)`
unfoldable pub field_of : String → Fields → Value
field_of key end = null
field_of key (field k v rest) = if str_eq k key then v else field_of key rest

-- the text of a value, as `_optional_text` takes it
unfoldable pub value_text : Value → Option String
value_text null = none
value_text (text s) = some s
value_text (object s fields) = some s

-- `_state_payload(raw_state)`
unfoldable pub state_payload : Fields → Fields
unfolding field_of
state_payload raw_state = elim (field_of "payload" raw_state) [
  | null ↦ raw_state
  | text s ↦ raw_state
  | object s fields ↦ fields
]
