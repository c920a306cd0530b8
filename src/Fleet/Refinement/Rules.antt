-- ===== src/Fleet/Refinement/Rules.antt =====
-- Rules for a method of the in-memory store and the transaction of the SQLite store
-- (code_index/openclaw_hostd/leases.py): the same answer, and related stores after it, although
-- an exception leaves the in-memory store as it is and rolls the database back.
use memory_network.Prelude.{
  ℕ, ◌≤◌, ◌≡◌, refl, sym, ap, ◌∙◌, inl, inr, Option, none, some, nat_beq, Bool-cases,
}
use memory_network.Prelude.Dict.{get}
use memory_network.Prelude.Exec.{Result, ok, err, resume, ◌>>=◌, lift, pure, settle}
use memory_network.Fleet.Model.{LeaseError, Key, key_eq, FleetLease, is_active, is_due, check_fence}
use memory_network.Fleet.Memory
use memory_network.Fleet.Memory.{Memory}
use memory_network.Fleet.Sqlite
use memory_network.Fleet.Sqlite.{Database, row_to_lease}
use memory_network.Fleet.Memory.Steps.{live_of, live, settled, active_lease_for_key-eq}
use memory_network.Fleet.Refinement.Relation.{IsRow, Related, db_settle_of, db_settled}
use memory_network.Fleet.Refinement.Settle.{
  live-Related, Related-settled_both, Related-settled_left, live-IsRow, row_to_lease_fixed,
}

-- the same answer, and related stores
abbrev pub Same :
    {A : Type 0} → ℕ → Result LeaseError A × Memory → Result LeaseError A × Database → Type 0
Same t x y = (x.0 ≡ y.0) × Related t x.1 y.1

-- the same inside a transaction that began in the database `d`
abbrev pub Within :
    {A : Type 0}
    → ℕ
    → Database
    → Result LeaseError A × Memory
    → Result LeaseError A × Database
    → Type 0
Within t d (ok a, m) (ok b, d') = (a ≡ b) × Related t m d'
Within t d (err e, m) (err e', d') = (e ≡ e') × Related t m d
Within t d _ _ = ⊥

pub Same-transaction :
    {A : Type 0} (t : ℕ) (d : Database) (x : Result LeaseError A × Memory)
    (y : Result LeaseError A × Database)
    → Within t d x y
    → Same t x (settle d y)
Same-transaction t d (ok a, m) (ok b, d') h = (ap ok h.0, h.1)
Same-transaction t d (err e, m) (err e', d') h = (ap err h.0, h.1)
Same-transaction t d (ok a, m) (err e, d') h = absurd h
Same-transaction t d (err e, m) (ok a, d') h = absurd h

pub Same-lift :
    {A B : Type 0} (t : ℕ) (r : Result LeaseError A) (k : A → Memory.Action B)
    (k' : A → Sqlite.Action B) (m : Memory) (d : Database)
    → Related t m d
    → ((a : A) → r ≡ ok a → Same t (k a m) (k' a d))
    → Same t ((lift r >>= k) m) ((lift r >>= k') d)
Same-lift t (ok a) k k' m d h w = w a refl
Same-lift t (err e) k k' m d h w = (refl, h)

pub Within-lift :
    {A B : Type 0} (t : ℕ) (d₀ : Database) (r : Result LeaseError A) (k : A → Memory.Action B)
    (k' : A → Sqlite.Action B) (m : Memory) (d : Database)
    → Related t m d₀
    → ((a : A) → r ≡ ok a → Within t d₀ (k a m) (k' a d))
    → Within t d₀ ((lift r >>= k) m) ((lift r >>= k') d)
Within-lift t d₀ (ok a) k k' m d h w = w a refl
Within-lift t d₀ (err e) k k' m d h w = (refl, h)

pub Same-map :
    {A B : Type 0} (t : ℕ) (x : Result LeaseError A × Memory) (y : Result LeaseError A × Database)
    (f : A → B)
    → Same t x y
    → Same t (resume x (λ a. pure (f a))) (resume y (λ a. pure (f a)))
Same-map t (ok a, m) (ok b, d) f (e, h) = (cc e, h)
Same-map t (err a, m) (err b, d) f (e, h) = (cc e, h)
Same-map t (ok a, m) (err b, d) f (e, h) = absurd (cc e)
Same-map t (err a, m) (ok b, d) f (e, h) = absurd (cc e)

db_active_of-eq :
    (key : Key) (now : ℕ) (o : Option FleetLease) (d : Database)
    → get key d.leases ≡ o
    → Sqlite.active_of key now o d ≡ (
      ok (elim (live_of o now) [ none ↦ none | some r ↦ some (row_to_lease r) ]),
      db_settle_of key now o d,
    )
unfolding Sqlite.active_of live_of db_settle_of
db_active_of-eq key now none d e = refl
db_active_of-eq key now (some l) d e = elim (Bool-cases (is_active l.status)) [
  | inl a ↦ elim (Bool-cases (is_due l.expires_at now)) [ inl b ↦ rw (a, b) | inr b ↦ rw (a, b) ]
  | inr a ↦ rw a
]

-- `_active_lease_for_key` of the SQLite store
db_active_lease_for_key-eq :
    (key : Key) (now : ℕ) (d : Database)
    → Sqlite.active_lease_for_key key now d ≡ (
      ok (elim (live_of (get key d.leases) now) [ none ↦ none | some r ↦ some (row_to_lease r) ]),
      db_settled key now d,
    )
unfolding Sqlite.active_lease_for_key
db_active_lease_for_key-eq key now d = db_active_of-eq key now (get key d.leases) d refl

module _ (t now : ℕ) (key : Key) (m : Memory) (d : Database) (h : Related t m d)
    (le : t ≤ now) where
  IsRow-at : (a : FleetLease) → live key now m ≡ some a → IsRow key a
  IsRow-at a e = live-IsRow t now key m d h le a (sym (live-Related t now key m d h le) ∙ e)

  db_live :
      (elim (live_of (get key d.leases) now) [ none ↦ none | some r ↦ some (row_to_lease r) ])
      ≡ live key now m
  db_live = rw (← live-Related t now key m d h le) (go (live key now m) refl)
    where
      go :
          (o : Option FleetLease)
          → live key now m ≡ o
          → (elim o [ none ↦ none | some r ↦ some (row_to_lease r) ]) ≡ o
      go none e = refl
      go (some a) e = ap some (row_to_lease_fixed key a (IsRow-at a e))

  -- both stores go on with the same live lease
  pub Within-active :
      {B : Type 0} (k : Option FleetLease → Memory.Action B)
      (k' : Option FleetLease → Sqlite.Action B)
      → ((o : Option FleetLease)
          → live key now m ≡ o
          → Within now d (k o (settled key now m)) (k' o (db_settled key now d)))
      → Within now d
          ((Memory.active_lease_for_key key now >>= k) m)
          ((Sqlite.active_lease_for_key key now >>= k') d)
  Within-active k k' w =
      rw (active_lease_for_key-eq key now m, db_active_lease_for_key-eq key now d, db_live)
        (w (live key now m) refl)

  pub Within-fenced :
      {B : Type 0} (f : ℕ) (k : FleetLease → Memory.Action B) (k' : FleetLease → Sqlite.Action B)
      → ((a : FleetLease)
          → IsRow key a
          → Within now d (k a (settled key now m)) (k' a (db_settled key now d)))
      → Within now d
          ((Memory.require_current_fence key f now >>= k) m)
          ((Sqlite.require_current_fence key f now >>= k') d)
  unfolding Memory.require_current_fence Sqlite.require_current_fence
  Within-fenced f k k' w =
      rw (active_lease_for_key-eq key now m, db_active_lease_for_key-eq key now d, db_live)
        (go (live key now m) refl)
    where
      go :
          (o : Option FleetLease)
          → live key now m ≡ o
          → Within now d
              (resume (check_fence o f, settled key now m) k)
              (resume (check_fence o f, db_settled key now d) k')
      go none e = unfold check_fence in (refl, Related-settled_left t now key m d h le)
      go (some a) e = elim (Bool-cases (nat_beq a.fencing_revision f)) [
        | inl same ↦ rw (same, check_fence) (w a (IsRow-at a e))
        | inr differ ↦ rw (differ, check_fence) (refl, Related-settled_left t now key m d h le)
      ]

  pub Within-active_alone :
      Within now d (Memory.active_lease_for_key key now m) (Sqlite.active_lease_for_key key now d)
  Within-active_alone =
      rw (active_lease_for_key-eq key now m, db_active_lease_for_key-eq key now d, db_live)
        (refl, Related-settled_both t now key m d h le)
