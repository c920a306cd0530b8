-- ===== src/Fleet/Refinement/Relation.antt =====
-- When a database and an in-memory store hold the same leases, tasks and agent states, as seen
-- from an instant on. A lease that is over by then may have been marked in one store only.
use Prim.Native.String.{String}
use memory_network.Prelude.{
  ℕ, ◌≤◌, ◌≡◌, refl, ap, true, ◌&&◌, ◌⊎◌, inl, inr, Option, none, some, arith, if◌then◌else◌,
  Bool-cases,
}
use memory_network.Prelude.Equality.{string_eq}
use memory_network.Prelude.Dict.{get, put}
use memory_network.Text.{optional_text}
use memory_network.Fleet.Model.{
  Key, key_eq, FleetLease, FleetTaskRecord, expired, is_active, is_due,
}
use memory_network.Fleet.Memory
use memory_network.Fleet.Memory.{Memory}
use memory_network.Fleet.Sqlite
use memory_network.Fleet.Sqlite.{Database, row_to_lease, row_to_task}
use memory_network.Fleet.Memory.Steps.{live_of}

-- The two stores hold one lease, or leases that are both over.
abbrev pub Agree : ℕ → FleetLease → FleetLease → Type 0
Agree t l r = (l ≡ r) ⊎ ((live_of (some l) t ≡ none) × (live_of (some r) t ≡ none))

abbrev pub IsRow : Key → FleetLease → Type 0
IsRow key r =
    (r.scope ≡ key.0) × (r.resource_id ≡ key.1) × (optional_text r.owner_run_id ≡ r.owner_run_id)

abbrev pub Slot : ℕ → Key → Option FleetLease → Option ℕ → Option FleetLease → Type 0
Slot t key none none none = Unit
Slot t key (some l) (some n) (some r) =
    (n ≡ l.fencing_revision) × (r.fencing_revision ≡ l.fencing_revision) × IsRow key r × Agree t l r
Slot t key _ _ _ = ⊥

pub record Related (t : ℕ) (m : Memory) (d : Database) : Type 0 where
  pub slots : (key : Key) → Slot t key (get key m.leases) (get key m.revisions) (get key d.leases)
  pub tasks : m.tasks ≡ d.tasks
  pub normal : (id : String) (r : FleetTaskRecord) → get id d.tasks ≡ some r → row_to_task r ≡ r
  pub states : m.agent_states ≡ d.agent_states

pub init-Related : Related 0 Memory.init Sqlite.init
unfolding get
init-Related = record {
  slots = λ key. tt;
  tasks = refl;
  normal = λ id r h. absurd (cc);
  states = refl;
}

-- `d` after `_active_lease_for_key`
unfoldable pub db_settle_of : Key → ℕ → Option FleetLease → Database → Database
unfolding is_due
db_settle_of key now none d = d
db_settle_of key now (some l) d =
    if is_active l.status && is_due l.expires_at now
    then record d { leases = put key (record l { status = expired; updated_at = now }) d.leases }
    else d

abbrev pub db_settled : Key → ℕ → Database → Database
db_settled key now d = db_settle_of key now (get key d.leases) d

due_later : (t now : ℕ) (o : Option ℕ) → t ≤ now → is_due o t ≡ true → is_due o now ≡ true
unfolding is_due
due_later t now none h d = d
due_later t now (some e) h d = ground arith

-- What is over stays over.
over_mono :
    (t now : ℕ) (l : FleetLease) → t ≤ now → live_of (some l) t ≡ none → live_of (some l) now ≡ none
unfolding live_of
over_mono t now l h e = ground (arith, due_later t now l.expires_at h)

-- An expired lease is over.
over-expired :
    (now t : ℕ) (l : FleetLease)
    → live_of (some (record l { status = expired; updated_at = t })) now ≡ none
unfolding live_of
over-expired now t l = refl

pub Slot-mono :
    (t now : ℕ) (key : Key) (ol : Option FleetLease) (n : Option ℕ) (row : Option FleetLease)
    → t ≤ now
    → Slot t key ol n row
    → Slot now key ol n row
Slot-mono t now key none none none h s = tt
Slot-mono t now key (some l) (some n) (some r) h s = (
  s.0,
  s.1,
  s.2,
  (elim s.3 [ inl e ↦ inl e | inr (a, b) ↦ inr (over_mono t now l h a, over_mono t now r h b) ]),
)
Slot-mono t now key none none (some r) h s = absurd s
Slot-mono t now key none (some n) none h s = absurd s
Slot-mono t now key none (some n) (some r) h s = absurd s
Slot-mono t now key (some l) none none h s = absurd s
Slot-mono t now key (some l) none (some r) h s = absurd s
Slot-mono t now key (some l) (some n) none h s = absurd s

-- what `_active_lease_for_key` leaves in the slot of its key
unfoldable pub mark : ℕ → FleetLease → FleetLease
mark now l =
    if is_active l.status && is_due l.expires_at now
    then record l { status = expired; updated_at = now }
    else l

abbrev pub mark_opt : ℕ → Option FleetLease → Option FleetLease
mark_opt now none = none
mark_opt now (some l) = some (mark now l)

pub mark-cases :
    (now : ℕ) (l : FleetLease)
    → (mark now l ≡ l)
      ⊎ ((mark now l ≡ record l { status = expired; updated_at = now })
          × (live_of (some l) now ≡ none))
unfolding mark live_of
mark-cases now l = elim (Bool-cases (is_active l.status && is_due l.expires_at now)) [
  | inl e ↦ inr (rw e, ground arith)
  | inr e ↦ inl (rw e)
]

pub fence-mark : (now : ℕ) (l : FleetLease) → (mark now l).fencing_revision ≡ l.fencing_revision
unfolding mark
fence-mark now l = ground arith

mark-IsRow : (now : ℕ) (key : Key) (l : FleetLease) → IsRow key l → IsRow key (mark now l)
mark-IsRow now key l h = elim (mark-cases now l) [ inl e ↦ rw e h | inr (e, o) ↦ rw e h ]

-- marking a lease makes no difference to what is live
live_of-mark : (now : ℕ) (l : FleetLease) → live_of (some (mark now l)) now ≡ live_of (some l) now
live_of-mark now l = elim (mark-cases now l) [
  | inl e ↦ rw e
  | inr (e, o) ↦ rw (e, o) (over-expired now now l)
]

Agree-live :
    (now : ℕ) (l r : FleetLease) → Agree now l r → live_of (some l) now ≡ live_of (some r) now
Agree-live now l r (inl e) = rw e
Agree-live now l r (inr (a, b)) = rw (a, b)

Agree-mark_left : (now : ℕ) (l r : FleetLease) → Agree now l r → Agree now (mark now l) r
Agree-mark_left now l r a = elim (mark-cases now l) [
  | inl e ↦ rw e a
  | inr (e, o) ↦ inr (rw (live_of-mark now l) o, rw (← Agree-live now l r a) o)
]

Agree-mark : (now : ℕ) (l r : FleetLease) → Agree now l r → Agree now (mark now l) (mark now r)
Agree-mark now l r (inl e) = inl (ap (mark now) e)
Agree-mark now l r (inr (a, b)) = inr (rw (live_of-mark now l) a, rw (live_of-mark now r) b)

-- The slot of the key after `_active_lease_for_key` in both stores, and in the in-memory one alone.
pub Slot-mark :
    (now : ℕ) (key : Key) (ol : Option FleetLease) (n : Option ℕ) (row : Option FleetLease)
    → Slot now key ol n row
    → Slot now key (mark_opt now ol) n (mark_opt now row)
      × Slot now key (mark_opt now ol) n row
      × (live_of ol now ≡ live_of row now)
Slot-mark now key none none none s = (tt, tt, refl)
Slot-mark now key (some l) (some n) (some r) (a, b, c, d) = (
  (
    rw (fence-mark now l) a,
    rw (fence-mark now l, fence-mark now r) b,
    mark-IsRow now key r c,
    Agree-mark now l r d,
  ),
  (rw (fence-mark now l) a, rw (fence-mark now l) b, c, Agree-mark_left now l r d),
  Agree-live now l r d,
)
Slot-mark now key none none (some r) s = absurd s
Slot-mark now key none (some n) none s = absurd s
Slot-mark now key none (some n) (some r) s = absurd s
Slot-mark now key (some l) none none s = absurd s
Slot-mark now key (some l) none (some r) s = absurd s
Slot-mark now key (some l) (some n) none s = absurd s
