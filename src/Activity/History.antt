-- ===== src/Activity/History.antt =====
-- Histories of the runs and their blockers: `add_run_blockers`, `end_run` and `archive_run` of
-- code_index/agent_activity.py in any order, without the other writers of a run's status.
use Prim.Native.String.{String}
use memory_network.Prelude.{
  ℕ, ◌≡◌, ◌≢◌, refl, sym, ap, subst, ◌∙◌, Bool, true, inl, inr, Option, none, some, List, [], ◌∷◌,
  str_eq, eq_iff, value_or, Bool-cases,
}
use memory_network.Prelude.Equality.{string_eq}
use memory_network.Prelude.Exec.{Result, ok, err, or_error, Ends-bind, Ends-lift}
use memory_network.Prelude.Lists.{Among, contains}
use memory_network.Text.{Unicode}
use memory_network.Runs.{Run, get_run}
use memory_network.Claims.{Claims, ClaimError, Platform}
use memory_network.Claims.Metadata.{Json}
use memory_network.Claims.Expiry.{text_or}
use memory_network.Claims.Upkeep.{release_claims}
use memory_network.Claims.Stored.{release_claims-runs}
use memory_network.Activity.{
  Link, Activity, unknown_run, on_claims_result, is_open, update_runs, set_status, has_blocker,
  sql_status, python_status, link_all, store_blockers, block_on, add_run_blockers, finish_run,
  end_run, archive_run, terminal_statuses, add_texts,
}
use memory_network.Activity.Blocking.{has_blocker-Among, update_runs-Among, LowersPlain, Waiting}
use memory_network.Activity.Steps.{
  OnePerKey, SameCompleted, Consistent, link_all-Consistent, block_or_sync-Consistent,
  sync_blocked_runs-Consistent, update_runs-OnePerKey,
}

module _ ⦃u : Unicode⦄ ⦃p : Platform⦄ where
  store_blockers-Consistent :
      (run : Run) (ids : List String) (reason : Option String) (metadata : Json) (now : ℕ)
      (db : Activity)
      → LowersPlain
      → SameCompleted
      → Consistent db
      → Consistent (store_blockers run ids reason metadata now db).1
  unfolding store_blockers
  store_blockers-Consistent run ids reason metadata now db lowers same h =
      Ends-bind (link_all run ids reason metadata now db) _ Consistent
        (link_all-Consistent run ids reason metadata now db same h)
        λ v s e k. block_or_sync-Consistent run.run_pk now s lowers k

  block_on-Consistent :
      (run : Run) (ids : List String) (reason : Option String) (metadata : Json) (now : ℕ)
      (db : Activity)
      → LowersPlain
      → SameCompleted
      → Consistent db
      → Consistent (block_on run ids reason metadata now db).1
  unfolding block_on
  block_on-Consistent run [] reason metadata now db lowers same h = h
  block_on-Consistent run (id ∷ ids) reason metadata now db lowers same h =
      elim (Bool-cases (contains run.run_id (id ∷ ids))) [
        | inl e ↦ rw e h
        | inr e ↦
            rw e (store_blockers-Consistent run (id ∷ ids) reason metadata now db lowers same h)
      ]

  add_run_blockers-Consistent :
      (run_id : String) (blocked_by : List String) (reason : Option String) (metadata : Json)
      (now : ℕ) (db : Activity)
      → LowersPlain
      → SameCompleted
      → Consistent db
      → Consistent (add_run_blockers run_id blocked_by reason metadata now db).1
  unfolding add_run_blockers
  add_run_blockers-Consistent run_id blocked_by reason metadata now db lowers same h =
      Ends-lift (or_error unknown_run (get_run run_id db.claims.runs)) _ db Consistent h λ run e.
        elim (Bool-cases (contains (python_status run) terminal_statuses)) [
          | inl t ↦ rw t h
          | inr t ↦ rw t (
              block_on-Consistent run (add_texts [] blocked_by) reason metadata now db lowers same
                h)
        ]

  -- What the claims are does not matter.
  on_claims-Consistent :
      {A : Type 0} (db : Activity) (x : Result ClaimError A × Claims)
      → x.1.runs ≡ db.claims.runs
      → Consistent db
      → Consistent (on_claims_result db x).1
  on_claims-Consistent db (ok a, claims) e (one, waiting, pending) =
      (rw e one, rw e waiting, rw e pending)
  on_claims-Consistent db (err b, claims) e (one, waiting, pending) =
      (rw e one, rw e waiting, rw e pending)

  finish_run-Consistent :
      (run_id status : String) (now : ℕ) (db : Activity)
      → LowersPlain
      → SameCompleted
      → p.sql_lower status ≢ "blocked"
      → Consistent db
      → Consistent (finish_run run_id status now db)
  unfolding finish_run sql_status
  finish_run-Consistent run_id status now db lowers same not_blocked (one, waiting, pending) =
      let w : Run → Bool = λ run. str_eq run.run_id run_id in
      let one' = update_runs-OnePerKey w (set_status status) db.claims.runs (λ r. refl) one in
      elim (Bool-cases (str_eq (u.lower status) "completed")) [
        | inl c ↦
            let ended : Activity = record db {
              claims = record db.claims { runs = update_runs w (set_status status) db.claims.runs };
            } in
            rw c (sync_blocked_runs-Consistent now ended lowers one')
        | inr c ↦ rw c (
          one',
          λ r a blocked here.
              let (old, b, e) = update_runs-Among w (set_status status) db.claims.runs r a in
              elim (Bool-cases (w old)) [
                | inl hit ↦
                    let was : r ≡ set_status status old = rw hit at e in
                    absurd (not_blocked (ap sql_status (sym was) ∙ blocked))
                | inr miss ↦
                    let was : r ≡ old = rw miss at e in
                    subst
                      (λ (x : Run).
                        sql_status x ≡ "blocked"
                        → x.archived_at ≡ none
                        → has_blocker x.run_pk db.links ≡ true)
                      (sym was) (waiting old b) blocked here
              ],
          λ link r a on i own done.
              let (old, b, e) = update_runs-Among w (set_status status) db.claims.runs r i in
              elim (Bool-cases (w old)) [
                | inl hit ↦
                    let was : r ≡ set_status status old = rw hit at e in
                    let lowered = (same status).0 (ap sql_status (sym was) ∙ done) in
                    absurd (cc (c, (eq_iff (u.lower status) "completed").1 lowered))
                | inr miss ↦
                    let was : r ≡ old = rw miss at e in
                    pending link old a on b (ap (λ (x : Run). x.run_pk) (sym was) ∙ own)
                      (ap sql_status (sym was) ∙ done)
              ],
        )
      ]

  end_run-Consistent :
      (run_id : String) (status : Option String) (now : ℕ) (db : Activity)
      → LowersPlain
      → SameCompleted
      → p.sql_lower (text_or "completed" status) ≢ "blocked"
      → Consistent db
      → Consistent (end_run run_id status now db).1
  unfolding end_run
  end_run-Consistent run_id status now db lowers same not_blocked h =
      Ends-lift (or_error unknown_run (get_run run_id db.claims.runs)) _ db Consistent h λ run e.
        let released = release_claims run_id none none (some "released") now db.claims in
        Ends-bind (on_claims_result db released) _ Consistent
          (on_claims-Consistent db released
            (release_claims-runs db.claims.runs run_id none none (some "released") now db.claims
              refl)
            h)
          λ v s f k.
            finish_run-Consistent run_id (text_or "completed" status) now s lowers same not_blocked
              k

  archive_run-Consistent :
      (run_id : String) (archived_at : Option ℕ) (now : ℕ) (db : Activity)
      → Consistent db
      → Consistent (archive_run run_id archived_at now db).1
  unfolding archive_run sql_status
  archive_run-Consistent run_id archived_at now db h =
      Ends-lift (or_error unknown_run (get_run run_id db.claims.runs)) _ db Consistent h λ run e.
        let released = release_claims run_id none none (some "released") now db.claims in
        Ends-bind (on_claims_result db released) _ Consistent
          (on_claims-Consistent db released
            (release_claims-runs db.claims.runs run_id none none (some "released") now db.claims
              refl)
            h)
          λ v s f (one, waiting, pending).
            let w : Run → Bool = λ r. str_eq r.run_id run_id in
            let set : Run → Run = λ r. record r { archived_at = some (value_or now archived_at) } in
            (
              update_runs-OnePerKey w set s.claims.runs (λ r. refl) one,
              λ r a blocked here.
                  let (old, b, x) = update_runs-Among w set s.claims.runs r a in
                  elim (Bool-cases (w old)) [
                    | inl hit ↦
                        let was : r ≡ set old = rw hit at x in
                        let gone : r.archived_at ≡ some (value_or now archived_at) =
                          ap (λ (q : Run). q.archived_at) was in
                        absurd (cc (gone, here))
                    | inr miss ↦
                        let was : r ≡ old = rw miss at x in
                        subst
                          (λ (q : Run).
                            sql_status q ≡ "blocked"
                            → q.archived_at ≡ none
                            → has_blocker q.run_pk s.links ≡ true)
                          (sym was) (waiting old b) blocked here
                  ],
              λ link r a on i own done.
                  let (old, b, x) = update_runs-Among w set s.claims.runs r i in
                  elim (Bool-cases (w old)) [
                    | inl hit ↦
                        let was : r ≡ set old = rw hit at x in
                        pending link old a on b (ap (λ (q : Run). q.run_pk) (sym was) ∙ own)
                          (ap sql_status (sym was) ∙ done)
                    | inr miss ↦
                        let was : r ≡ old = rw miss at x in
                        pending link old a on b (ap (λ (q : Run). q.run_pk) (sym was) ∙ own)
                          (ap sql_status (sym was) ∙ done)
                  ],
            )

  -- the tables after operations in any order, from one in which no run is blocked
  pub data Reached : Activity → Type 0 where
    started :
        (claims : Claims)
        → OnePerKey claims.runs
        → Waiting (record { claims = claims; links = [] })
        → Reached (record { claims = claims; links = [] })
    blocks :
        {db : Activity}
        → Reached db
        → (run_id : String) (blocked_by : List String) (reason : Option String) (metadata : Json)
          (now : ℕ)
        → Reached (add_run_blockers run_id blocked_by reason metadata now db).1
    ends :
        {db : Activity}
        → Reached db
        → (run_id : String) (status : Option String) (now : ℕ)
        → p.sql_lower (text_or "completed" status) ≢ "blocked"
        → Reached (end_run run_id status now db).1
    archives :
        {db : Activity}
        → Reached db
        → (run_id : String) (archived_at : Option ℕ) (now : ℕ)
        → Reached (archive_run run_id archived_at now db).1

  Reached-Consistent : {db : Activity} → LowersPlain → SameCompleted → Reached db → Consistent db
  Reached-Consistent lowers same (started claims one waiting) =
      (one, waiting, λ link run a. absurd a)
  Reached-Consistent lowers same (blocks {db = db} h run_id blocked_by reason metadata now) =
      add_run_blockers-Consistent run_id blocked_by reason metadata now db lowers same
        (Reached-Consistent lowers same h)
  Reached-Consistent lowers same (ends {db = db} h run_id status now not_blocked) =
      end_run-Consistent run_id status now db lowers same not_blocked
        (Reached-Consistent lowers same h)
  Reached-Consistent lowers same (archives {db = db} h run_id archived_at now) =
      archive_run-Consistent run_id archived_at now db (Reached-Consistent lowers same h)

  -- In every history of `add_run_blockers`, `end_run` and `archive_run` alone, from tables in which
  -- a key has one run, no run waits and none is blocked that is not archived: a run that is blocked
  -- and not archived has an open link, of which no stored run has completed. No run is ended with the
  -- status `blocked`; `LOWER` leaves texts of small ASCII letters as they are and agrees with
  -- `str.lower` on the word `completed`. The other writers of a run's status, `start_run` and
  -- `record_event`, are no part of these histories.
  pub Reached-has_blocker :
      {db : Activity}
      → LowersPlain
      → SameCompleted
      → Reached db
      → (run : Run) → Among run db.claims.runs
      → sql_status run ≡ "blocked"
      → run.archived_at ≡ none
      → (link : Link) × Among link db.links
        × (link.run_pk ≡ run.run_pk)
        × (is_open link.status ≡ true)
        × ((blocker : Run)
            → Among blocker db.claims.runs
            → blocker.run_pk ≡ link.blocker_run_pk
            → sql_status blocker ≢ "completed")
  Reached-has_blocker {db = db} lowers same h run a blocked here =
      let (one, waiting, pending) = Reached-Consistent lowers same h in
      let (link, b, own, on) = has_blocker-Among run.run_pk db.links (waiting run a blocked here) in
      (link, b, own, on, λ blocker c for_it. pending link blocker b on c for_it)
