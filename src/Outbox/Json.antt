-- ===== src/Outbox/Json.antt =====
-- What code_index/openclaw_hostd/outbox.py uses of Python's `json`.
use Prim.Native.String.{String}
use memory_network.Prelude.{ℕ, ◌≡◌, Option, some}
use memory_network.Prelude.Equality.{string_eq}
use memory_network.Prelude.Dict.{Dict, get}

abbrev pub Payload : Type 0 → Type 0
Payload Json = Dict String Json

-- JSON values, and the texts that `json.dumps` writes for objects. `load` is `none` where the text
-- is no object; an object that was written is read back with the same entries, in any order.
pub record JsonCodec : Type 1 where
  pub Json : Type 0
  pub Column : Type 0
  pub number : ℕ → Json
  pub dump : Payload Json → Column
  pub load : Column → Option (Payload Json)
  pub load_dump :
      (p : Payload Json)
      → (q : Payload Json) × (load (dump p) ≡ some q) × ((k : String) → get k q ≡ get k p)
