-- ===== src/Fleet/Refinement/Settle.antt =====
-- `_active_lease_for_key`, `_next_revision` and the writes in both fleet lease stores
-- (code_index/openclaw_hostd/leases.py): they find the same and keep the relation.
use memory_network.Prelude.{
  ℕ, ◌+◌, ◌≤◌, ◌≡◌, refl, sym, ◌&&◌, inl, inr, Option, none, some, arith, if◌then◌else◌, value_or,
  Bool-cases,
}
use memory_network.Prelude.Equality.{◌==◌, ==_true, string_eq}
use memory_network.Prelude.Dict.{get, put, get-put}
use memory_network.Fleet.Model.{Key, key_eq, FleetLease, is_active, is_due}
use memory_network.Fleet.Memory.{Memory}
use memory_network.Fleet.Sqlite.{Database, row_to_lease}
use memory_network.Fleet.Memory.Steps.{live_of, live_of-some, live, revision, settle_of, settled}
use memory_network.Fleet.Refinement.Relation.{
  IsRow, Slot, Related, db_settle_of, db_settled, mark, mark_opt, Slot-mark, Slot-mono,
}

get-settle_of :
    (key j : Key) (now : ℕ) (o : Option FleetLease) (m : Memory)
    → get key m.leases ≡ o
    → get j (settle_of key now o m).leases ≡ (if key == j then mark_opt now o else get j m.leases)
unfolding settle_of mark
get-settle_of key j now none m e = ground (arith, key_eq.same_iff key j)
get-settle_of key j now (some l) m e =
    elim (Bool-cases (is_active l.status && is_due l.expires_at now)) [
      | inl h ↦ rw (h, get-put) refl
      | inr h ↦ rw h (ground (arith, key_eq.same_iff key j))
    ]

get-db_settle_of :
    (key j : Key) (now : ℕ) (o : Option FleetLease) (d : Database)
    → get key d.leases ≡ o
    → get j (db_settle_of key now o d).leases
      ≡ (if key == j then mark_opt now o else get j d.leases)
unfolding db_settle_of mark
get-db_settle_of key j now none d e = ground (arith, key_eq.same_iff key j)
get-db_settle_of key j now (some l) d e =
    elim (Bool-cases (is_active l.status && is_due l.expires_at now)) [
      | inl h ↦ rw (h, get-put) refl
      | inr h ↦ rw h (ground (arith, key_eq.same_iff key j))
    ]

-- Settling touches the leases only.
rest-settle_of :
    (key : Key) (now : ℕ) (o : Option FleetLease) (m : Memory)
    → ((settle_of key now o m).revisions ≡ m.revisions)
      × ((settle_of key now o m).tasks ≡ m.tasks)
      × ((settle_of key now o m).agent_states ≡ m.agent_states)
unfolding settle_of
rest-settle_of key now none m = (refl, refl, refl)
rest-settle_of key now (some l) m = ground arith

rest-db_settle_of :
    (key : Key) (now : ℕ) (o : Option FleetLease) (d : Database)
    → ((db_settle_of key now o d).tasks ≡ d.tasks)
      × ((db_settle_of key now o d).agent_states ≡ d.agent_states)
unfolding db_settle_of
rest-db_settle_of key now none d = (refl, refl)
rest-db_settle_of key now (some l) d = ground arith

module _ (t now : ℕ) (key : Key) (m : Memory) (d : Database) (h : Related t m d)
    (le : t ≤ now) where
  slot : (j : Key) → Slot now j (get j m.leases) (get j m.revisions) (get j d.leases)
  slot j = Slot-mono t now j (get j m.leases) (get j m.revisions) (get j d.leases) le (h.slots j)

  pub live-Related : live key now m ≡ live_of (get key d.leases) now
  live-Related = (Slot-mark now key _ _ _ (slot key)).2

  pub Related-settled_both : Related now (settled key now m) (db_settled key now d)
  Related-settled_both =
      let (r, ts, ss) = rest-settle_of key now (get key m.leases) m in
      let (ts', ss') = rest-db_settle_of key now (get key d.leases) d in
      record {
        slots = λ j.
            rw
              (
                get-settle_of key j now (get key m.leases) m refl,
                get-db_settle_of key j now (get key d.leases) d refl,
                r,
              )
              (at j);
        tasks = rw (ts, ts') h.tasks;
        normal = rw ts' h.normal;
        states = rw (ss, ss') h.states;
      }
    where
      at :
          (j : Key)
          → Slot now j
              (if key == j then mark_opt now (get key m.leases) else get j m.leases)
              (get j m.revisions)
              (if key == j then mark_opt now (get key d.leases) else get j d.leases)
      at j = elim (Bool-cases (key == j)) [
        | inr k ↦ rw k (slot j)
        | inl k ↦ rw (k, ← ==_true key j k) (Slot-mark now key _ _ _ (slot key)).0
      ]

  -- the in-memory store has settled its key, the database was rolled back
  pub Related-settled_left : Related now (settled key now m) d
  Related-settled_left =
      let (r, ts, ss) = rest-settle_of key now (get key m.leases) m in
      record {
        slots = λ j. rw (get-settle_of key j now (get key m.leases) m refl, r) (at j);
        tasks = rw ts h.tasks;
        normal = h.normal;
        states = rw ss h.states;
      }
    where
      at :
          (j : Key)
          → Slot now j
              (if key == j then mark_opt now (get key m.leases) else get j m.leases)
              (get j m.revisions)
              (get j d.leases)
      at j = elim (Bool-cases (key == j)) [
        | inr k ↦ rw k (slot j)
        | inl k ↦ rw (k, ← ==_true key j k) (Slot-mark now key _ _ _ (slot key)).1
      ]

  -- `_next_revision` counts on from the same number in both stores
  pub next_revision-Related :
      revision key m + 1
      ≡ (elim (get key d.leases) [ none ↦ 1 | some row ↦ row.fencing_revision + 1 ])
  next_revision-Related = go (get key m.leases) (get key m.revisions) (get key d.leases) (slot key)
    where
      go :
          (ol : Option FleetLease) (n : Option ℕ) (row : Option FleetLease)
          → Slot now key ol n row
          → value_or 0 n + 1 ≡ (elim row [ none ↦ 1 | some r ↦ r.fencing_revision + 1 ])
      go none none none s = omega arith
      go (some l) (some n) (some r) s = omega (arith, s.0, s.1)
      go none none (some r) s = absurd s
      go none (some n) none s = absurd s
      go none (some n) (some r) s = absurd s
      go (some l) none none s = absurd s
      go (some l) none (some r) s = absurd s
      go (some l) (some n) none s = absurd s

  -- the rows are as they would be read back
  pub live-IsRow : (a : FleetLease) → live_of (get key d.leases) now ≡ some a → IsRow key a
  live-IsRow a e = go (get key m.leases) (get key m.revisions) (get key d.leases) (slot key) e
    where
      go :
          (ol : Option FleetLease) (n : Option ℕ) (row : Option FleetLease)
          → Slot now key ol n row
          → live_of row now ≡ some a
          → IsRow key a
      go (some l) (some n) (some r) s e' =
          let q : r ≡ a = cc (live_of-some (some r) now a e') in rw (← q) s.2
      go none none none s e' = absurd (unfold live_of in cc e')
      go none none (some r) s e' = absurd s
      go none (some n) none s e' = absurd s
      go none (some n) (some r) s e' = absurd s
      go (some l) none none s e' = absurd s
      go (some l) none (some r) s e' = absurd s
      go (some l) (some n) none s e' = absurd s

pub row_to_lease_fixed : (key : Key) (r : FleetLease) → IsRow key r → row_to_lease r ≡ r
unfolding row_to_lease
row_to_lease_fixed key r h = rw h.2

-- Granting a lease under the next revision keeps the relation.
pub Related-granted :
    (t : ℕ) (key : Key) (l : FleetLease) (m : Memory) (d : Database)
    → Related t m d
    → IsRow key l
    → l.fencing_revision ≡ revision key m + 1
    → Related t
        (record m {
          leases = put key l m.leases;
          revisions = put key (revision key m + 1) m.revisions;
        })
        (record d { leases = put (l.scope, l.resource_id) l d.leases })
Related-granted t key l m d h row f = record {
  slots = λ j. rw (k, get-put, get-put, get-put) (at j);
  tasks = h.tasks;
  normal = h.normal;
  states = h.states;
}
  where
    k : (l.scope, l.resource_id) ≡ key
    k i = (row.0 i, row.1 i)

    at :
        (j : Key)
        → Slot t j
            (if key == j then some l else get j m.leases)
            (if key == j then some (revision key m + 1) else get j m.revisions)
            (if key == j then some l else get j d.leases)
    at j = elim (Bool-cases (key == j)) [
      | inr no' ↦ rw no' (h.slots j)
      | inl yes' ↦ rw yes' (sym f, refl, rw (← ==_true key j yes') row, inl refl)
    ]
