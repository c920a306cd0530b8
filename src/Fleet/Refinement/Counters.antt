-- ===== src/Fleet/Refinement/Counters.antt =====
-- The revision counters of the in-memory fleet lease store where no call raises between its
-- `_next_revision` and the write of the lease (code_index/openclaw_hostd/leases.py).
use memory_network.Prelude.{ℕ, ◌≡◌, refl, ap, Option, none, some, List, [], ◌∷◌}
use memory_network.Prelude.Dict.{get}
use memory_network.Text.{Unicode}
use memory_network.Fleet.Model.{key_eq, Key, FleetLease}
use memory_network.Fleet.Calls.{Call, time_of}
use memory_network.Fleet.Memory
use memory_network.Fleet.Memory.{Memory}
use memory_network.Fleet.Memory.Run as MemoryRun
use memory_network.Fleet.Memory.Fencing.{after}
use memory_network.Fleet.Sqlite
use memory_network.Fleet.Sqlite.{Database}
use memory_network.Fleet.Sqlite.Run as SqliteRun
use memory_network.Fleet.Refinement.Relation.{Slot, Related, init-Related}
use memory_network.Fleet.Refinement.History.{InOrder, perform-Same}

-- a lease has its fencing revision as the counter of its key, and without one there is no counter
abbrev pub Counted : Option FleetLease → Option ℕ → Type 0
Counted none n = n ≡ none
Counted (some l) n = n ≡ some l.fencing_revision

Slot-Counted :
    (t : ℕ) (key : Key) (o : Option FleetLease) (n : Option ℕ) (row : Option FleetLease)
    → Slot t key o n row
    → Counted o n
Slot-Counted t key none none none s = refl
Slot-Counted t key (some l) (some n) (some r) s = ap some s.0
Slot-Counted t key none none (some r) s = absurd s
Slot-Counted t key none (some n) none s = absurd s
Slot-Counted t key none (some n) (some r) s = absurd s
Slot-Counted t key (some l) none none s = absurd s
Slot-Counted t key (some l) none (some r) s = absurd s
Slot-Counted t key (some l) (some n) none s = absurd s

module _ ⦃u : Unicode⦄ where
  perform_all-Counted :
      (t : ℕ) (cs : List Call) (m : Memory) (d : Database)
      → Related t m d
      → InOrder t cs
      → (key : Key) → Counted (get key (after cs m).leases) (get key (after cs m).revisions)
  unfolding MemoryRun.perform_all
  perform_all-Counted t [] m d h o key = Slot-Counted t key _ _ _ (h.slots key)
  perform_all-Counted t (c ∷ cs) m d h (le, x, w, o) key =
      let (e, h') = perform-Same t c m d h le x w in
      perform_all-Counted (time_of t c) cs (MemoryRun.perform c m).1 (SqliteRun.perform c d).1 h' o
        key

  -- On a new in-memory store, after a history of calls in the order of their times, without
  -- `list_active_leases` and without a duration that ends at no instant of `datetime`, the revision
  -- counter of a key is the fencing revision of its lease, and a key without a lease has no counter.
  pub history-Counted :
      (cs : List Call) (key : Key)
      → InOrder 0 cs
      → Counted (get key (after cs Memory.init).leases) (get key (after cs Memory.init).revisions)
  history-Counted cs key o = perform_all-Counted 0 cs Memory.init Sqlite.init init-Related o key
