-- ===== src/Activity/Blocking.antt =====
-- Which runs are blocked, after `_sync_blocked_runs` (code_index/agent_activity.py).
use Prim.Native.String.{String}
use memory_network.Prelude.{
  ℕ, ◌≡◌, ◌≢◌, refl, sym, ap, subst, ◌∙◌, Bool, true, false, not, ◌&&◌, inl, inr, none, List, [],
  ◌∷◌, map, nat_beq, if◌then◌else◌, str_eq, eq_iff, is_some, arith, Bool-cases,
}
use memory_network.Prelude.Equality.{nat_beq_iff}
use memory_network.Prelude.Lists.{Among}
use memory_network.Text.{Unicode, is_plain}
use memory_network.Runs.{Run}
use memory_network.Claims.{Platform}
use memory_network.Activity.{
  Link, Activity, is_open, update_runs, set_status, has_blocker, sql_status, has_completed,
  resolve_link, is_unblocked, sync_blocked_runs,
}

pub update_runs-Among :
    (w : Run → Bool) (set : Run → Run) (runs : List Run) (run : Run)
    → Among run (update_runs w set runs)
    → (old : Run) × Among old runs × (run ≡ (if w old then set old else old))
unfolding update_runs
update_runs-Among w set [] run a = absurd a
update_runs-Among w set (x ∷ xs) run (inl e) = (x, inl refl, e)
update_runs-Among w set (x ∷ xs) run (inr a) =
    let (old, b, e) = update_runs-Among w set xs run a in (old, inr b, e)

Among-update_runs :
    (w : Run → Bool) (set : Run → Run) (runs : List Run) (run : Run)
    → Among run runs
    → w run ≡ true
    → Among (set run) (update_runs w set runs)
unfolding update_runs
Among-update_runs w set [] run a h = absurd a
Among-update_runs w set (x ∷ xs) run (inl e) h =
    let here : w x ≡ true = subst (λ (y : Run). w y ≡ true) e h in
    inl (rw (update_runs, here) (ap set e))
Among-update_runs w set (x ∷ xs) run (inr a) h = inr (Among-update_runs w set xs run a h)

map-Among :
    {A : Type 0} (f : A → A) (xs : List A) (y : A)
    → Among y (map f xs)
    → (x : A) × Among x xs × (y ≡ f x)
map-Among f [] y a = absurd a
map-Among f (x ∷ xs) y (inl e) = (x, inl refl, e)
map-Among f (x ∷ xs) y (inr a) = let (z, b, e) = map-Among f xs y a in (z, inr b, e)

pub has_blocker-Among :
    (pk : ℕ) (links : List Link)
    → has_blocker pk links ≡ true
    → (link : Link) × Among link links × (link.run_pk ≡ pk) × (is_open link.status ≡ true)
unfolding has_blocker
has_blocker-Among pk [] h = absurd (cc h)
has_blocker-Among pk (x ∷ xs) h = elim (Bool-cases (nat_beq x.run_pk pk && is_open x.status)) [
  | inl e ↦ (x, inl refl, (nat_beq_iff x.run_pk pk).0 (ground arith), ground arith)
  | inr e ↦
      let (l, a, own, on) = has_blocker-Among pk xs (rw (has_blocker, e) at h) in
      (l, inr a, own, on)
]

pub differ : (s t : String) → str_eq s t ≡ false → s ≢ t
differ s t h e = absurd (cc (h, (eq_iff s t).1 e))

module _ ⦃u : Unicode⦄ ⦃p : Platform⦄ where
  -- SQLite's `LOWER` leaves a text of small ASCII letters as it is.
  abbrev pub LowersPlain : Type 0
  LowersPlain = (s : String) → is_plain s ≡ true → p.sql_lower s ≡ s

  -- A blocked run that is not archived has a run to wait for.
  abbrev pub Waiting : Activity → Type 0
  Waiting db =
      (run : Run)
      → Among run db.claims.runs
      → sql_status run ≡ "blocked"
      → run.archived_at ≡ none
      → has_blocker run.run_pk db.links ≡ true

  -- A run that another one waits for has not completed.
  abbrev pub Pending : Activity → Type 0
  Pending db =
      (link : Link) (run : Run)
      → Among link db.links
      → is_open link.status ≡ true
      → Among run db.claims.runs
      → run.run_pk ≡ link.blocker_run_pk
      → sql_status run ≢ "completed"

  abbrev pub Settled : Activity → Type 0
  Settled db = Waiting db × Pending db

  -- a status that is written
  pub sql_status-set :
      (s : String) (run : Run) → LowersPlain → is_plain s ≡ true → sql_status (set_status s run) ≡ s
  unfolding sql_status
  sql_status-set s run lowers plain = lowers s plain

  has_completed-Among :
      (pk : ℕ) (runs : List Run) (run : Run)
      → Among run runs
      → run.run_pk ≡ pk
      → sql_status run ≡ "completed"
      → has_completed pk runs ≡ true
  unfolding has_completed
  has_completed-Among pk [] run a e h = absurd a
  has_completed-Among pk (x ∷ xs) run (inl s) e h =
      let same : nat_beq x.run_pk pk ≡ true =
        (nat_beq_iff x.run_pk pk).1 (ap (λ (r : Run). r.run_pk) (sym s) ∙ e) in
      let done : str_eq (sql_status x) "completed" ≡ true =
        (eq_iff (sql_status x) "completed").1 (ap sql_status (sym s) ∙ h) in
      rw (has_completed, same, done) refl
  has_completed-Among pk (x ∷ xs) run (inr a) e h =
      let rest = has_completed-Among pk xs run a e h in ground arith

  still_blocked :
      (links : List Link) (run : Run)
      → is_unblocked links run ≡ false
      → sql_status run ≡ "blocked"
      → run.archived_at ≡ none
      → has_blocker run.run_pk links ≡ true
  unfolding is_unblocked
  still_blocked links run w blocked here =
      let b : str_eq (sql_status run) "blocked" ≡ true =
        (eq_iff (sql_status run) "blocked").1 blocked in
      let w' : (true && not (is_some run.archived_at) && not (has_blocker run.run_pk links))
          ≡ false =
        rw (is_unblocked, b) at w in
      elim (Bool-cases (has_blocker run.run_pk links)) [
        | inl h ↦ h
        | inr h ↦ absurd (cc (rw (here, h) at w'))
      ]

  -- A link that is open after the first update was open, and no run that it waits for has completed.
  resolve_link-open :
      (now : ℕ) (runs : List Run) (link : Link)
      → is_open (resolve_link now runs link).status ≡ true
      → (resolve_link now runs link ≡ link) × (has_completed link.blocker_run_pk runs ≡ false)
  unfolding resolve_link
  resolve_link-open now runs link h =
      elim (Bool-cases (is_open link.status && has_completed link.blocker_run_pk runs)) [
        | inl c ↦ absurd (cc (rw (resolve_link, c) at h))
        | inr c ↦
            let on : is_open link.status ≡ true = rw (resolve_link, c) at h in
            (rw c refl, rw on at c)
      ]

  -- After a synchronisation the runs and their blockers agree, whatever they were before.
  pub sync_blocked_runs-Settled :
      (now : ℕ) (db : Activity) → LowersPlain → Settled (sync_blocked_runs now db)
  unfolding sync_blocked_runs is_plain
  sync_blocked_runs-Settled now db lowers =
      let links = map (resolve_link now db.claims.runs) db.links in
      (
        λ run a blocked here.
            let (old, b, e) =
              update_runs-Among (is_unblocked links) (set_status "queued") db.claims.runs run a in
            elim (Bool-cases (is_unblocked links old)) [
              | inl w ↦
                  let same : run ≡ set_status "queued" old = rw w at e in
                  absurd
                    (differ "queued" "blocked" refl (sym (queued run old lowers same) ∙ blocked))
              | inr w ↦
                  let same : run ≡ old = rw w at e in
                  still_blocked links run
                    (subst (λ (r : Run). is_unblocked links r ≡ false) (sym same) w) blocked here
            ],
        λ link run a on b own done.
            let (l, c, e) = map-Among (resolve_link now db.claims.runs) db.links link a in
            let (kept, open_runs) =
              resolve_link-open now db.claims.runs l
                (subst (λ (k : Link). is_open k.status ≡ true) e on) in
            let (old, d, f) =
              update_runs-Among (is_unblocked links) (set_status "queued") db.claims.runs run b in
            elim (Bool-cases (is_unblocked links old)) [
              | inl w ↦
                  let same : run ≡ set_status "queued" old = rw w at f in
                  differ "queued" "completed" refl (sym (queued run old lowers same) ∙ done)
              | inr w ↦
                  let same : run ≡ old = rw w at f in
                  let for_it : old.run_pk ≡ l.blocker_run_pk =
                    ap (λ (r : Run). r.run_pk) (sym same)
                    ∙ own
                    ∙ ap (λ (k : Link). k.blocker_run_pk) (e ∙ kept) in
                  let completed =
                    has_completed-Among l.blocker_run_pk db.claims.runs old d for_it
                      (ap sql_status (sym same) ∙ done) in
                  absurd (cc (completed, open_runs))
            ],
      )
    where
      queued :
          (run old : Run) → LowersPlain → run ≡ set_status "queued" old → sql_status run ≡ "queued"
      queued run old lowers same = ap sql_status same ∙ sql_status-set "queued" old lowers refl

  -- A synchronisation queues every run that is blocked and not archived and of which each open
  -- link is to a stored run that has completed.
  pub sync_blocked_runs-queued :
      (now : ℕ) (db : Activity) (run : Run)
      → Among run db.claims.runs
      → sql_status run ≡ "blocked"
      → run.archived_at ≡ none
      → ((link : Link)
          → Among link db.links
          → link.run_pk ≡ run.run_pk
          → is_open link.status ≡ true
          → (blocker : Run) × Among blocker db.claims.runs
            × (blocker.run_pk ≡ link.blocker_run_pk)
            × (sql_status blocker ≡ "completed"))
      → Among (set_status "queued" run) (sync_blocked_runs now db).claims.runs
  unfolding sync_blocked_runs is_unblocked resolve_link
  sync_blocked_runs-queued now db run a blocked here done =
      let links = map (resolve_link now db.claims.runs) db.links in
      let free : has_blocker run.run_pk links ≡ false =
        elim (Bool-cases (has_blocker run.run_pk links)) [
          | inr f ↦ f
          | inl t ↦
              let (link, b, own, on) = has_blocker-Among run.run_pk links t in
              let (l, c, e) = map-Among (resolve_link now db.claims.runs) db.links link b in
              let (kept, open_runs) =
                resolve_link-open now db.claims.runs l
                  (subst (λ (k : Link). is_open k.status ≡ true) e on) in
              let same : link ≡ l = e ∙ kept in
              let (blocker, d, key, over) =
                done l c (ap (λ (k : Link). k.run_pk) (sym same) ∙ own)
                  (subst (λ (k : Link). is_open k.status ≡ true) same on) in
              absurd (
                cc (
                  has_completed-Among l.blocker_run_pk db.claims.runs blocker d key over,
                  open_runs,
                ))
        ] in
      let is : str_eq (sql_status run) "blocked" ≡ true =
        (eq_iff (sql_status run) "blocked").1 blocked in
      Among-update_runs (is_unblocked links) (set_status "queued") db.claims.runs run a
        (rw (is_unblocked, is, here, free) refl)
