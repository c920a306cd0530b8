-- ===== src/Fleet/Refinement/Tasks.antt =====
-- The task records of both fleet lease stores (code_index/openclaw_hostd/leases.py).
use Prim.Native.String.{String}
use memory_network.Prelude.{
  ℕ, ◌≡◌, refl, ap, Bool, true, inl, inr, Option, none, some, List, [], ◌∷◌, arith, or_else,
  Bool-cases, eq_iff, str_eq,
}
use memory_network.Prelude.Equality.{string_eq}
use memory_network.Prelude.Dict.{get, put, get-put}
use memory_network.Prelude.Lists.{All, contains}
use memory_network.Prelude.Exec.{Result, ok}
use memory_network.Text.{optional_text}
use memory_network.Text.Strip.{optional_text_idem}
use memory_network.Fleet.Model.{LeaseError, FleetTaskRecord, terminal_of, terminal_task_statuses}
use memory_network.Fleet.Memory.{Memory, write_task}
use memory_network.Fleet.Sqlite.{Database, row_to_task, upsert_task_record}
use memory_network.Fleet.Refinement.Relation.{Related}

All-contains :
    (P : String → Type 0) (s : String) (ws : List String) → All P ws → contains s ws ≡ true → P s
All-contains P s [] h c = absurd (cc c)
All-contains P s (w ∷ ws) h c = elim (Bool-cases (str_eq s w)) [
  | inl e ↦ rw ((eq_iff s w).0 e) h.0
  | inr e ↦ All-contains P s ws h.1 (rw e at c)
]

-- A terminal status is its own normal form.
word-normal :
    (s : String) → contains s terminal_task_statuses ≡ true → optional_text (some s) ≡ some s
unfolding optional_text
word-normal s e =
    All-contains (λ w. optional_text (some w) ≡ some w) s terminal_task_statuses
      (refl, (refl, (refl, (refl, (refl, (refl, (refl, (refl, tt)))))))) e

terminal_of-normal : (s : String) → optional_text (terminal_of s) ≡ terminal_of s
unfolding terminal_of
terminal_of-normal s = elim (Bool-cases (contains s terminal_task_statuses)) [
  | inl e ↦ rw e (word-normal s e)
  | inr e ↦ rw e (unfold optional_text in refl)
]

row_to_task_fixed :
    (r : FleetTaskRecord)
    → optional_text r.host_id ≡ r.host_id
    → optional_text r.run_id ≡ r.run_id
    → optional_text r.terminal_status ≡ r.terminal_status
    → row_to_task r ≡ r
unfolding row_to_task
row_to_task_fixed r a b c i = record r { host_id = a i; run_id = b i; terminal_status = c i }

or_else-normal :
    (v p : Option String)
    → optional_text p ≡ p
    → optional_text (or_else (optional_text v) p) ≡ or_else (optional_text v) p
or_else-normal v p h = go (optional_text v) refl
  where
    go : (o : Option String) → optional_text v ≡ o → optional_text (or_else o p) ≡ or_else o p
    go none e = h
    go (some s) e = rw (← e) (optional_text_idem v)

abbrev pub SameTask :
    ℕ
    → Result LeaseError FleetTaskRecord × Memory
    → Result LeaseError FleetTaskRecord × Database
    → Type 0
SameTask t x y = (r : FleetTaskRecord) × (x.0 ≡ ok r) × (y.0 ≡ ok r) × Related t x.1 y.1

module _ (t : ℕ) (m : Memory) (d : Database) (h : Related t m d) where
  Related-task :
      (id : String) (r : FleetTaskRecord)
      → row_to_task r ≡ r
      → Related t (record m { tasks = put id r m.tasks }) (record d { tasks = put id r d.tasks })
  Related-task id r n = record {
    slots = h.slots;
    tasks = ap (put id r) h.tasks;
    normal = λ j x. rw get-put (ground (arith, h.normal j x, n));
    states = h.states;
  }

  previous-normal :
      (id : String) (o : Option FleetTaskRecord)
      → get id d.tasks ≡ o
      → (optional_text (elim o [ none ↦ none | some p ↦ p.host_id ])
          ≡ elim o [ none ↦ none | some p ↦ p.host_id ])
        × (optional_text (elim o [ none ↦ none | some p ↦ p.run_id ])
            ≡ elim o [ none ↦ none | some p ↦ p.run_id ])
  unfolding row_to_task
  previous-normal id none e = unfold optional_text in (refl, refl)
  previous-normal id (some p) e =
      let n = h.normal id p e in (ap (λ r. r.host_id) n, ap (λ r. r.run_id) n)

  -- Both stores write the same task record.
  pub write_task-Related :
      (id status : String) (host run : Option String) (reassignable : Bool) (now : ℕ)
      → SameTask t
          (write_task id status host run (terminal_of status) reassignable now m)
          (upsert_task_record id status host run now reassignable d)
  unfolding write_task upsert_task_record
  write_task-Related id status host run reassignable now =
      let (a, b) = previous-normal id (get id d.tasks) refl in
      let q : get id m.tasks ≡ get id d.tasks = ap (get id) h.tasks in
      let x : FleetTaskRecord = record {
        task_id = id;
        status = status;
        host_id =
            or_else (optional_text host)
              (elim (get id d.tasks) [ none ↦ none | some p ↦ p.host_id ]);
        run_id =
            or_else (optional_text run) (elim (get id d.tasks) [ none ↦ none | some p ↦ p.run_id ]);
        terminal_status = terminal_of status;
        reassignable = reassignable;
        updated_at = now;
      } in
      (
        x,
        rw q refl,
        refl,
        rw q (
            Related-task id x (
              row_to_task_fixed x (or_else-normal host _ a) (or_else-normal run _ b)
                (terminal_of-normal status))),
      )
