-- ===== src/Fleet/Order.antt =====
-- The orders in which leases and agent states are listed (code_index/openclaw_hostd/leases.py):
-- by the text of the scope, then of the resource; by key. Texts are compared by code points.
use Prim.Native.Nat.{Ordering}
use Prim.Native.String.{String, compare as compare_texts}
use memory_network.Prelude.{Bool, true, false, List}
use memory_network.Prelude.Dict.{Dict}
use memory_network.Prelude.Sort.{text_before, sort}
use memory_network.Fleet.Payload.{Fields}
use memory_network.Fleet.Model.{Scope, host, repo, task, FleetLease}

-- `"host" < "repo" < "task"`
unfoldable pub compare_scopes : Scope → Scope → Ordering
compare_scopes host host = Ordering.eq
compare_scopes host _ = Ordering.lt
compare_scopes repo host = Ordering.gt
compare_scopes repo repo = Ordering.eq
compare_scopes repo task = Ordering.lt
compare_scopes task task = Ordering.eq
compare_scopes task _ = Ordering.gt

-- does `a` stand strictly before `b`?
unfoldable pub lease_before : FleetLease → FleetLease → Bool
unfolding compare_scopes
lease_before a b = elim (compare_scopes a.scope b.scope) [
  | Ordering.lt ↦ true
  | Ordering.gt ↦ false
  | Ordering.eq ↦ elim (compare_texts a.resource_id b.resource_id) [
    | Ordering.lt ↦ true
    | _ ↦ false
  ]
]

unfoldable pub sort_leases : List FleetLease → List FleetLease
unfolding sort lease_before
sort_leases = sort lease_before

unfoldable pub sort_states : Dict String Fields → Dict String Fields
unfolding sort text_before
sort_states = sort (λ a b. text_before a.0 b.0)
