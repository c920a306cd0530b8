-- ===== src/Activity/Steps.antt =====
-- The operations on runs keep the runs and their blockers in agreement
-- (code_index/agent_activity.py).
use Prim.Native.String.{String}
use memory_network.Prelude.{
  ℕ, ◌≡◌, ◌≢◌, ◌↔◌, refl, sym, ap, subst, ◌∙◌, Bool, true, false, ◌&&◌, ◌||◌, inl, inr, ◌⊎◌, Option,
  none, some, List, [], ◌∷◌, nat_beq, if◌then◌else◌, str_eq, eq_iff, value_or, arith, Bool-cases,
}
use memory_network.Prelude.Equality.{nat_beq_iff, string_eq}
use memory_network.Prelude.Exec.{or_error, or_error-ok, Ends-lift}
use memory_network.Prelude.Lists.{Among}
use memory_network.Text.{Unicode, is_plain, is_empty, nonempty}
use memory_network.Runs.{Run, get_run}
use memory_network.Claims.{Platform}
use memory_network.Claims.Metadata.{Json}
use memory_network.Claims.Expiry.{text_or}
use memory_network.Activity.{
  Link, Activity, unknown_blocker, is_open, update_runs, set_status, has_blocker, upsert_link,
  sql_status, python_status, sync_blocked_runs, new_link, link_all, may_block, block_or_sync,
}
use memory_network.Activity.Blocking.{
  update_runs-Among, LowersPlain, Waiting, Pending, sql_status-set, differ,
  sync_blocked_runs-Settled,
}

get_run-Among :
    (id : String) (runs : List Run) (run : Run) → get_run id runs ≡ some run → Among run runs
unfolding get_run
get_run-Among id [] run e = absurd (cc e)
get_run-Among id (x ∷ xs) run e = elim (Bool-cases (str_eq x.run_id id)) [
  | inl h ↦ inl (sym (cc (rw (get_run, h) at e)))
  | inr h ↦ inr (get_run-Among id xs run (rw (get_run, h) at e))
]

upsert_link-Among :
    (new : Link) (links : List Link) (link : Link)
    → Among link (upsert_link new links)
    → Among link links ⊎ ((link.status ≡ new.status) × (link.blocker_run_pk ≡ new.blocker_run_pk))
unfolding upsert_link
upsert_link-Among new [] link (inl e) =
    inr (ap (λ (k : Link). k.status) e, ap (λ (k : Link). k.blocker_run_pk) e)
upsert_link-Among new [] link (inr a) = absurd a
upsert_link-Among new (x ∷ xs) link a =
    elim (Bool-cases (nat_beq x.run_pk new.run_pk && nat_beq x.blocker_run_pk new.blocker_run_pk)) [
      | inr h ↦ elim (rw (upsert_link, h) at a) [
        | inl e ↦ inl (inl e)
        | inr b ↦ elim (upsert_link-Among new xs link b) [
          | inl c ↦ inl (inr c)
          | inr same ↦ inr same
        ]
      ]
      | inl h ↦
          let to : x.blocker_run_pk ≡ new.blocker_run_pk =
            (nat_beq_iff x.blocker_run_pk new.blocker_run_pk).0 (ground arith) in
          elim (rw (upsert_link, h) at a) [
            | inl e ↦
                inr (ap (λ (k : Link). k.status) e, ap (λ (k : Link). k.blocker_run_pk) e ∙ to)
            | inr b ↦ inl (inr b)
          ]
    ]

keep_or : (a o n r : Bool) → (o ≡ true → n ≡ true) → ((a && o) || r) ≡ true → ((a && n) || r) ≡ true
keep_or false o n r f h = h
keep_or true true n r f h = rw (f refl) refl
keep_or true false true r f h = refl
keep_or true false false r f h = h

-- An upsert takes no blocker away, if it closes no open link.
upsert_link-has_blocker :
    (pk : ℕ) (new : Link) (links : List Link)
    → ((link : Link)
        → Among link links
        → link.blocker_run_pk ≡ new.blocker_run_pk
        → is_open link.status ≡ true
        → is_open new.status ≡ true)
    → has_blocker pk links ≡ true
    → has_blocker pk (upsert_link new links) ≡ true
unfolding upsert_link has_blocker
upsert_link-has_blocker pk new [] keeps h = absurd (cc h)
upsert_link-has_blocker pk new (x ∷ xs) keeps h =
    elim (Bool-cases (nat_beq x.run_pk new.run_pk && nat_beq x.blocker_run_pk new.blocker_run_pk)) [
      | inl k ↦
          let to : x.blocker_run_pk ≡ new.blocker_run_pk =
            (nat_beq_iff x.blocker_run_pk new.blocker_run_pk).0 (ground arith) in
          let still = keeps x (inl refl) to in
          rw (upsert_link, k)
            (keep_or (nat_beq x.run_pk pk) (is_open x.status) (is_open new.status)
              (has_blocker pk xs) still h)
      | inr k ↦
          rw (upsert_link, k)
            (elim (Bool-cases (nat_beq x.run_pk pk && is_open x.status)) [
              | inl here ↦ rw (has_blocker, here) refl
              | inr elsewhere ↦
                  let rest =
                    upsert_link-has_blocker pk new xs (λ l a. keeps l (inr a))
                      (rw (has_blocker, elsewhere) at h) in
                  rw (has_blocker, elsewhere) rest
            ])
    ]

-- A key has one run.
abbrev pub OnePerKey : List Run → Type 0
OnePerKey runs = (a b : Run) → Among a runs → Among b runs → a.run_pk ≡ b.run_pk → a ≡ b

pub update_runs-OnePerKey :
    (w : Run → Bool) (set : Run → Run) (runs : List Run)
    → ((run : Run) → (set run).run_pk ≡ run.run_pk)
    → OnePerKey runs
    → OnePerKey (update_runs w set runs)
update_runs-OnePerKey w set runs keeps one a b in_a in_b same =
    let (x, ha, ea) = update_runs-Among w set runs a in_a in
    let (y, hb, eb) = update_runs-Among w set runs b in_b in
    let f : Run → Run = λ r. if w r then set r else r in
    let key : (r : Run) → (f r).run_pk ≡ r.run_pk =
      λ r. elim (Bool-cases (w r)) [ inl h ↦ rw h (keeps r) | inr h ↦ rw h refl ] in
    let keys : x.run_pk ≡ y.run_pk =
      sym (key x)
      ∙ ap (λ (r : Run). r.run_pk) (sym ea)
      ∙ same
      ∙ ap (λ (r : Run). r.run_pk) eb
      ∙ key y in
    ea ∙ ap f (one x y ha hb keys) ∙ sym eb

module _ ⦃u : Unicode⦄ ⦃p : Platform⦄ where
  -- SQLite's `LOWER` and `str.lower` agree on which texts are the word `completed`.
  abbrev pub SameCompleted : Type 0
  SameCompleted = (s : String) → (p.sql_lower s ≡ "completed") ↔ (u.lower s ≡ "completed")

  abbrev pub Consistent : Activity → Type 0
  Consistent db = OnePerKey db.claims.runs × Waiting db × Pending db

  completed_or :
      (status : Option String)
      → SameCompleted
      → (p.sql_lower (value_or "" status) ≡ "completed")
        ↔ (u.lower (text_or "working" status) ≡ "completed")
  unfolding text_or nonempty is_empty is_plain
  completed_or none same = (
    λ e. absurd (differ "" "completed" refl (sym (u.lower_plain "" refl) ∙ (same "").0 e)),
    λ e. absurd (differ "working" "completed" refl (sym (u.lower_plain "working" refl) ∙ e)),
  )
  completed_or (some String.[]) same = (
    λ e. absurd (differ "" "completed" refl (sym (u.lower_plain "" refl) ∙ (same "").0 e)),
    λ e. absurd (differ "working" "completed" refl (sym (u.lower_plain "working" refl) ∙ e)),
  )
  completed_or (some (String.◌∷◌ c s)) same = same (String.◌∷◌ c s)

  completed_iff :
      (run : Run)
      → SameCompleted
      → (sql_status run ≡ "completed") ↔ (python_status run ≡ "completed")
  unfolding sql_status python_status
  completed_iff run same = completed_or run.status same

  -- A link is stored open only if its blocker has not completed.
  new_link-open :
      (run blocker : Run) (reason : Option String) (metadata : Json) (now : ℕ)
      → SameCompleted
      → (is_open (new_link run blocker reason metadata now).status ≡ true)
        ↔ (sql_status blocker ≢ "completed")
  unfolding new_link
  new_link-open run blocker reason metadata now same =
      elim (Bool-cases (str_eq (python_status blocker) "completed")) [
        | inl d ↦
            let done =
              (completed_iff blocker same).1 ((eq_iff (python_status blocker) "completed").0 d) in
            (λ h. absurd (cc (rw (new_link, d) at h)), λ h. absurd (h done))
        | inr d ↦ (
          λ h done. absurd (
              cc (
                d,
                (eq_iff (python_status blocker) "completed").1
                    ((completed_iff blocker same).0 done),
              )),
          λ h. rw (new_link, d) refl,
        )
      ]

  upsert_link-Consistent :
      (run blocker : Run) (reason : Option String) (metadata : Json) (now : ℕ) (db : Activity)
      → SameCompleted
      → Among blocker db.claims.runs
      → Consistent db
      → Consistent
          (record db { links = upsert_link (new_link run blocker reason metadata now) db.links })
  unfolding new_link
  upsert_link-Consistent run blocker reason metadata now db same b (one, waiting, pending) =
      let new = new_link run blocker reason metadata now in
      (
        one,
        λ r a blocked here.
            upsert_link-has_blocker r.run_pk new db.links
              (λ link i to on.
                (new_link-open run blocker reason metadata now same).1
                  (pending link blocker i on b (sym to)))
              (waiting r a blocked here),
        λ link r a on c own. elim (upsert_link-Among new db.links link a) [
          | inl i ↦ pending link r i on c own
          | inr (status, to) ↦
              let fresh =
                (new_link-open run blocker reason metadata now same).0
                  (subst (λ x. is_open x ≡ true) status on) in
              subst (λ (x : Run). sql_status x ≢ "completed") (one blocker r b c (sym (own ∙ to)))
                fresh
        ],
      )

  pub link_all-Consistent :
      (run : Run) (ids : List String) (reason : Option String) (metadata : Json) (now : ℕ)
      (db : Activity)
      → SameCompleted
      → Consistent db
      → Consistent (link_all run ids reason metadata now db).1
  unfolding link_all
  link_all-Consistent run [] reason metadata now db same h = h
  link_all-Consistent run (id ∷ ids) reason metadata now db same h =
      Ends-lift (or_error unknown_blocker (get_run id db.claims.runs)) _ db Consistent h
        λ blocker e.
          let found =
            get_run-Among id db.claims.runs blocker
              (or_error-ok unknown_blocker (get_run id db.claims.runs) blocker e) in
          link_all-Consistent run ids reason metadata now _ same
            (upsert_link-Consistent run blocker reason metadata now db same found h)

  pub sync_blocked_runs-Consistent :
      (now : ℕ) (db : Activity)
      → LowersPlain
      → OnePerKey db.claims.runs
      → Consistent (sync_blocked_runs now db)
  unfolding sync_blocked_runs
  sync_blocked_runs-Consistent now db lowers one =
      let (waiting, pending) = sync_blocked_runs-Settled now db lowers in
      (
        update_runs-OnePerKey _ (set_status "queued") db.claims.runs (λ r. refl) one,
        waiting,
        pending,
      )

  -- A run is marked as blocked where it has a blocker.
  pub block_or_sync-Consistent :
      (pk now : ℕ) (db : Activity)
      → LowersPlain
      → Consistent db
      → Consistent (block_or_sync pk now db)
  unfolding block_or_sync may_block is_plain
  block_or_sync-Consistent pk now db lowers (one, waiting, pending) =
      elim (Bool-cases (has_blocker pk db.links)) [
        | inr none_left ↦ rw none_left (sync_blocked_runs-Consistent now db lowers one)
        | inl waits ↦ rw waits (
          update_runs-OnePerKey (may_block pk) (set_status "blocked") db.claims.runs (λ r. refl)
              one,
          λ r a blocked here.
              let (old, b, e) =
                update_runs-Among (may_block pk) (set_status "blocked") db.claims.runs r a in
              elim (Bool-cases (may_block pk old)) [
                | inl w ↦
                    let was : r ≡ set_status "blocked" old = rw w at e in
                    let key : r.run_pk ≡ pk =
                      ap (λ (x : Run). x.run_pk) was
                      ∙ (nat_beq_iff old.run_pk pk).0 (ground arith) in
                    rw key waits
                | inr w ↦
                    let was : r ≡ old = rw w at e in
                    subst
                      (λ (x : Run).
                        sql_status x ≡ "blocked"
                        → x.archived_at ≡ none
                        → has_blocker x.run_pk db.links ≡ true)
                      (sym was) (waiting old b) blocked here
              ],
          λ link r a on c own done.
              let (old, b, e) =
                update_runs-Among (may_block pk) (set_status "blocked") db.claims.runs r c in
              elim (Bool-cases (may_block pk old)) [
                | inl w ↦
                    let was : r ≡ set_status "blocked" old = rw w at e in
                    differ "blocked" "completed" refl
                      (sym (ap sql_status was ∙ sql_status-set "blocked" old lowers refl) ∙ done)
                | inr w ↦
                    let was : r ≡ old = rw w at e in
                    pending link old a on b (ap (λ (x : Run). x.run_pk) (sym was) ∙ own)
                      (ap sql_status (sym was) ∙ done)
              ],
        )
      ]
