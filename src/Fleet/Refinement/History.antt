-- ===== src/Fleet/Refinement/History.antt =====
-- Histories of calls of both fleet lease stores (code_index/openclaw_hostd/leases.py).
use memory_network.Prelude.{ℕ, ◌≤◌, ◌≡◌, refl, ap₂, List, [], ◌∷◌}
use memory_network.Text.{Unicode}
use memory_network.Fleet.Calls.{Call, Reply, time_of}
use memory_network.Fleet.Expiry.{InRange}
use memory_network.Fleet.Memory
use memory_network.Fleet.Memory.{Memory}
use memory_network.Fleet.Memory.Run as MemoryRun
use memory_network.Fleet.Sqlite
use memory_network.Fleet.Sqlite.{Database}
use memory_network.Fleet.Sqlite.Run as SqliteRun
use memory_network.Fleet.Refinement.Relation.{Related, init-Related}
use memory_network.Fleet.Refinement.Rules.{Same, Same-map}
use memory_network.Fleet.Refinement.Methods.{
  Related-mono, renew-Same, release-Same, revoke-Same, overwrite-Same, bind-Same, get_active-Same,
}
use memory_network.Fleet.Refinement.Acquire.{
  acquire-Same, record_status-Same, mark-Same, task_record-Same, put_state-Same, states-Same,
}

-- the calls about one key, one task or the agent states: all but `list_active_leases`
abbrev pub IsPointwise : Call → Type 0
IsPointwise (Call.active_leases s now) = ⊥
IsPointwise _ = Unit

-- the duration that a call gives, if it gives one, ends at an instant of `datetime`
abbrev pub Ends : Call → Type 0
Ends (Call.acquire s r owner run ttl now) = InRange now ttl
Ends (Call.renew s r owner run f ttl now) = InRange now ttl
Ends (Call.bind s r owner run new f ttl now) = InRange now ttl
Ends (Call.overwrite s r owner run f ttl now) = InRange now ttl
Ends _ = Unit

-- each call is made no earlier than the one before
abbrev pub InOrder : ℕ → List Call → Type 0
InOrder t [] = Unit
InOrder t (c ∷ cs) = (t ≤ time_of t c) × IsPointwise c × Ends c × InOrder (time_of t c) cs

module _ ⦃u : Unicode⦄ where
  pub perform-Same :
      (t : ℕ) (c : Call) (m : Memory) (d : Database)
      → Related t m d
      → t ≤ time_of t c
      → IsPointwise c
      → Ends c
      → Same (time_of t c) (MemoryRun.perform c m) (SqliteRun.perform c d)
  unfolding MemoryRun.perform SqliteRun.perform
  perform-Same t (Call.acquire s r owner run ttl now) m d h le x w =
      Same-map now _ _ Reply.lease
        (acquire-Same now m d (Related-mono t now m d le h) s r owner run ttl w)
  perform-Same t (Call.renew s r owner run f ttl now) m d h le x w =
      Same-map now _ _ Reply.lease
        (renew-Same s r now m d (Related-mono t now m d le h) owner run f ttl w)
  perform-Same t (Call.release s r owner run f now) m d h le x w =
      Same-map now _ _ Reply.lease
        (release-Same s r now m d (Related-mono t now m d le h) owner run f)
  perform-Same t (Call.bind s r owner run new f ttl now) m d h le x w =
      Same-map now _ _ Reply.lease
        (bind-Same s r now m d (Related-mono t now m d le h) owner run new f ttl w)
  perform-Same t (Call.revoke s r f now) m d h le x w =
      Same-map now _ _ Reply.lease (revoke-Same s r now m d (Related-mono t now m d le h) f)
  perform-Same t (Call.overwrite s r owner run f ttl now) m d h le x w =
      Same-map now _ _ Reply.lease
        (overwrite-Same s r now m d (Related-mono t now m d le h) owner run f ttl w)
  perform-Same t (Call.active_lease s r now) m d h le x w =
      Same-map now _ _ Reply.maybe_lease (get_active-Same s r now m d (Related-mono t now m d le h))
  perform-Same t (Call.active_leases s now) m d h le x w = absurd x
  perform-Same t (Call.record_status id status owner run now) m d h le x w =
      Same-map now _ _ Reply.task_of
        (record_status-Same now m d (Related-mono t now m d le h) id status owner run now)
  perform-Same t (Call.mark_reassignable id owner run now) m d h le x w =
      Same-map now _ _ Reply.task_of
        (mark-Same now m d (Related-mono t now m d le h) id owner run now)
  perform-Same t (Call.task_record id) m d h le x w =
      Same-map t _ _ Reply.maybe_task (task_record-Same t m d h id)
  perform-Same t (Call.put_state k p) m d h le x w =
      Same-map t _ _ (λ _. Reply.done) (put_state-Same t m d h k p)
  perform-Same t Call.states m d h le x w = Same-map t _ _ Reply.payloads (states-Same t m d h)

  perform_all-Same :
      (t : ℕ) (cs : List Call) (m : Memory) (d : Database)
      → Related t m d
      → InOrder t cs
      → (MemoryRun.perform_all cs m).0 ≡ (SqliteRun.perform_all cs d).0
  unfolding MemoryRun.perform_all SqliteRun.perform_all
  perform_all-Same t [] m d h o = refl
  perform_all-Same t (c ∷ cs) m d h (le, x, w, o) =
      let (e, h') = perform-Same t c m d h le x w in
      ap₂ ◌∷◌ e
        (perform_all-Same (time_of t c) cs (MemoryRun.perform c m).1 (SqliteRun.perform c d).1 h' o)

  -- On new stores, a history of calls in the order of their times, without `list_active_leases` and
  -- without a duration that ends at no instant of `datetime`, gets the same replies and the same
  -- exceptions from the in-memory store and from the SQLite store.
  pub stores_agree :
      (cs : List Call)
      → InOrder 0 cs
      → (MemoryRun.perform_all cs Memory.init).0 ≡ (SqliteRun.perform_all cs Sqlite.init).0
  stores_agree cs o = perform_all-Same 0 cs Memory.init Sqlite.init init-Related o
