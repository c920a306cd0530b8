-- ===== src/Fleet/Refinement/Acquire.antt =====
-- `acquire_lease`, the task methods and the agent states answer alike in both fleet lease stores
-- (code_index/openclaw_hostd/leases.py).
use Prim.Native.String.{String}
use memory_network.Prelude.{
  ℕ, ◌+◌, ◌≡◌, refl, sym, ap, ◌∙◌, true, false, inl, inr, Option, none, some, map, arith, str_eq,
  Bool-cases,
}
use memory_network.Prelude.Dict.{get, put}
use memory_network.Prelude.Equality.{string_eq}
use memory_network.Prelude.Exec.{Result, ok, err, resume, pure, settle, Result-cases}
use memory_network.Text.{Unicode, is_plain}
use memory_network.Text.Strip.{stripped-optional_text}
use memory_network.Fleet.Payload.{Fields}
use memory_network.Fleet.Model.{
  Duration, LeaseError, conflict_error, host, repo, task, Key, key_eq, FleetLease, FleetTaskRecord,
  required_text, lease_key, lease_scope, raise_if_owner_run_conflicts, new_lease, terminal_of,
}
use memory_network.Fleet.Expiry.{InRange, Expiry-expires_at}
use memory_network.Fleet.Memory
use memory_network.Fleet.Memory.{Memory}
use memory_network.Fleet.Sqlite
use memory_network.Fleet.Sqlite.{Database, row_to_task}
use memory_network.Fleet.Order.{sort_states}
use memory_network.Fleet.Memory.Steps.{revision, settled}
use memory_network.Fleet.Refinement.Relation.{Related, db_settled}
use memory_network.Fleet.Refinement.Settle.{
  Related-settled_both, Related-settled_left, next_revision-Related, Related-granted,
}
use memory_network.Fleet.Refinement.Tasks.{SameTask, write_task-Related}
use memory_network.Fleet.Refinement.Rules.{
  Same, Within, Same-transaction, Same-lift, Within-lift, Within-active,
}
use memory_network.Fleet.Refinement.Methods.{required_text-optional, new_lease-IsRow}

abbrev Text : Type 0
Text = Option String

required_text-again :
    (v : Text) (name name' t : String)
    → required_text v name ≡ ok t
    → required_text (some t) name' ≡ ok t
required_text-again v name name' t h =
    let (a, b) = stripped-optional_text v t (required_text-optional v name t h) in
    unfold required_text in rw (a, b)

-- The resource of a key passes `_required_text` unchanged.
resource_of_key :
    ⦃u : Unicode⦄ (s r : Text) (key : Key) (name : String)
    → lease_key s r ≡ ok key
    → required_text (some key.1) name ≡ ok key.1
unfolding lease_key
resource_of_key s r key name h = elim (Result-cases (lease_scope s)) [
  | inr (e, p) ↦ absurd (let z = rw p at h in cc z)
  | inl (sc, p) ↦ elim (Result-cases (required_text r "resource_id")) [
    | inr (e, q) ↦ absurd (let z = rw (p, q) at h in cc z)
    | inl (t, q) ↦
        let z = rw (p, q) at h in
        let w : t ≡ key.1 = cc z in rw (← w) (required_text-again r "resource_id" name t q)
  ]
]

task-done :
    (t : ℕ) (x : Result LeaseError FleetTaskRecord × Memory)
    (y : Result LeaseError FleetTaskRecord × Database)
    → SameTask t x y
    → ((resume x (λ _. pure tt)).0 ≡ ok tt)
      × ((resume y (λ _. pure tt)).0 ≡ ok tt)
      × Related t (resume x (λ _. pure tt)).1 (resume y (λ _. pure tt)).1
task-done t (ok a, m) (ok b, d) (r, p, q, h) = (refl, refl, h)
task-done t (ok a, m) (err b, d) (r, p, q, h) = absurd (cc q)
task-done t (err a, m) y (r, p, q, h) = absurd (cc p)

-- the task record that a new task lease writes
note-Related :
    ⦃u : Unicode⦄ (now : ℕ) (m : Memory) (d : Database) (key : Key) (owner : String) (run : Text)
    → Related now m d
    → required_text (some key.1) "task_id" ≡ ok key.1
    → ((Memory.note_leased key owner run now m).0 ≡ ok tt)
      × ((Sqlite.note_leased key owner run now d).0 ≡ ok tt)
      × Related now
          (Memory.note_leased key owner run now m).1
          (Sqlite.note_leased key owner run now d).1
unfolding Memory.note_leased Sqlite.note_leased Memory.record_task_status
note-Related now m d (host, id) owner run h n = (refl, refl, h)
note-Related now m d (repo, id) owner run h n = (refl, refl, h)
note-Related ⦃u⦄ now m d (task, id) owner run h n =
    rw (n, u.lower_plain "leased" (unfold is_plain in refl))
      (task-done now _ _ (write_task-Related now m d h id "leased" (some owner) run false now))

Within-of-done :
    {A : Type 0} (t : ℕ) (d₀ : Database) (x : Result LeaseError (Unit {0}) × Memory)
    (y : Result LeaseError (Unit {0}) × Database) (a b : A)
    → (x.0 ≡ ok tt) × (y.0 ≡ ok tt) × Related t x.1 y.1
    → a ≡ b
    → Within t d₀ (resume x (λ _. pure a)) (resume y (λ _. pure b))
Within-of-done t d₀ (ok v, m) (ok w, d) a b (p, q, h) e = (e, h)
Within-of-done t d₀ (ok v, m) (err w, d) a b (p, q, h) e = absurd (cc q)
Within-of-done t d₀ (err v, m) y a b (p, q, h) e = absurd (cc p)

-- the branch of `acquire_lease` that finds a live lease
held-Within :
    ⦃u : Unicode⦄ (now : ℕ) (m : Memory) (d : Database)
    → Related now m d
    → (key : Key) (l : FleetLease) (owner : String) (run : Text) (ttl : Option Duration)
    → Within now d
        (Memory.acquire_at key owner run ttl now (some l) (settled key now m))
        (Sqlite.acquire_at key owner run ttl now (some l) (db_settled key now d))
unfolding Memory.acquire_at Sqlite.acquire_at
held-Within now m d h key l owner run ttl = elim (Bool-cases (str_eq l.owner_host_id owner)) [
  | inr e ↦ rw e (refl, Related-settled_left now now key m d h (omega arith))
  | inl e ↦ rw e (
      Within-lift now d (raise_if_owner_run_conflicts l run conflict_error) _ _ _ _
        (Related-settled_left now now key m d h (omega arith))
        (λ x o. (refl, Related-settled_both now now key m d h (omega arith))))
]

module _ ⦃u : Unicode⦄ where
  -- the branch of `acquire_lease` that grants a new lease
  grant_new-Within :
      (now : ℕ) (m : Memory) (d : Database)
      → Related now m d
      → (d₀ : Database) (key : Key) (owner : String) (run : Text) (ttl : Option Duration)
      → required_text (some key.1) "task_id" ≡ ok key.1
      → InRange now ttl
      → Within now d₀
          (Memory.acquire_at key owner run ttl now none m)
          (Sqlite.acquire_at key owner run ttl now none d)
  unfolding Memory.acquire_at Sqlite.acquire_at Memory.next_revision Memory.store_lease
      Sqlite.next_revision Sqlite.upsert_lease
  grant_new-Within now m d h d₀ key owner run ttl n (expires, w) =
      let e = next_revision-Related now now key m d h (omega arith) in
      let l = new_lease key owner run (revision key m + 1) now now expires in
      rw (← e, Expiry-expires_at now ttl expires w)
        (Within-of-done now d₀ _ _ l l
          (note-Related now _ _ key owner l.owner_run_id
            (Related-granted now key l m d h
              (new_lease-IsRow key owner run (revision key m + 1) now now expires)
              (unfold new_lease in refl))
            n)
          refl)

module _ ⦃u : Unicode⦄ (now : ℕ) (m : Memory) (d : Database) (h : Related now m d) where
  pub acquire-Same :
      (s r owner run : Text) (ttl : Option Duration)
      → InRange now ttl
      → Same now
          (Memory.acquire_lease s r owner run ttl now m)
          (Sqlite.acquire_lease s r owner run ttl now d)
  unfolding Memory.acquire_lease Sqlite.acquire_lease
  acquire-Same s r owner run ttl w = Same-lift now (lease_key s r) _ _ m d h λ key p.
      Same-lift now (required_text owner "owner_host_id") _ _ m d h λ host' q.
        Same-transaction now d _ _
          (Within-active now now key m d h (omega arith) _ _ λ o e. at key host' o p)
    where
      at :
          (key : Key) (host' : String) (o : Option FleetLease)
          → lease_key s r ≡ ok key
          → Within now d
              (Memory.acquire_at key host' run ttl now o (settled key now m))
              (Sqlite.acquire_at key host' run ttl now o (db_settled key now d))
      at key host' none p =
          grant_new-Within now (settled key now m) (db_settled key now d)
            (Related-settled_both now now key m d h (omega arith)) d key host' run ttl
            (resource_of_key s r key "task_id" p) w
      at key host' (some l) p = held-Within now m d h key l host' run ttl

  task-Same :
      (x : Result LeaseError FleetTaskRecord × Memory)
      (y : Result LeaseError FleetTaskRecord × Database)
      → SameTask now x y
      → Same now x (settle d y)
  task-Same (ok a, m') (ok b, d') (r, p, q, k) = (p ∙ sym q, k)
  task-Same (ok a, m') (err b, d') (r, p, q, k) = absurd (cc q)
  task-Same (err a, m') y (r, p, q, k) = absurd (cc p)

  pub record_status-Same :
      (id status owner run : Text) (t : ℕ)
      → Same now
          (Memory.record_task_status id status owner run t m)
          (Sqlite.record_task_status id status owner run t d)
  unfolding Memory.record_task_status Sqlite.record_task_status
  record_status-Same id status owner run t =
      Same-lift now (required_text id "task_id") _ _ m d h λ a p.
        Same-lift now (required_text status "status") _ _ m d h
          λ b q. task-Same _ _ (write_task-Related now m d h a (u.lower b) owner run false t)

  pub mark-Same :
      (id owner run : Text) (t : ℕ)
      → Same now
          (Memory.mark_task_reassignable id owner run t m)
          (Sqlite.mark_task_reassignable id owner run t d)
  unfolding Memory.mark_task_reassignable Sqlite.mark_task_reassignable terminal_of
  mark-Same id owner run t =
      Same-lift now (required_text id "task_id") _ _ m d h
        λ a p. task-Same _ _ (write_task-Related now m d h a "reassignable" owner run true t)

  pub task_record-Same :
      (id : Text) → Same now (Memory.get_task_record id m) (Sqlite.get_task_record id d)
  unfolding Memory.get_task_record Sqlite.get_task_record
  task_record-Same id =
      Same-lift now (required_text id "task_id") _ _ m d h
        λ a p. (rw (h.tasks) (found a (get a d.tasks) refl), h)
    where
      found :
          (a : String) (o : Option FleetTaskRecord)
          → get a d.tasks ≡ o
          → ◌≡◌ {A = Result LeaseError (Option FleetTaskRecord)}
              (ok o)
              (ok (elim o [ none ↦ none | some row ↦ some (row_to_task row) ]))
      found a none e = refl
      found a (some r) e = ap (λ x. ok (some x)) (sym (h.normal a r e))

  pub put_state-Same :
      (k : Text) (p : Fields)
      → Same now (Memory.put_agent_state k p m) (Sqlite.put_agent_state k p d)
  unfolding Memory.put_agent_state Sqlite.put_agent_state
  put_state-Same k p = Same-lift now (required_text k "key") _ _ m d h λ a q. (
    refl,
    record { slots = h.slots; tasks = h.tasks; normal = h.normal; states = ap (put a p) h.states },
  )

  pub states-Same : Same now (Memory.list_agent_states m) (Sqlite.list_agent_states d)
  unfolding Memory.list_agent_states Sqlite.list_agent_states
  states-Same = (ap (λ x. ok (map (λ e. e.1) (sort_states x))) h.states, h)
