-- ===== src/Activity/Tests.antt =====
-- Runs of the runs and their blockers (code_index/agent_activity.py), and the theorems there.
use Prim.Native.String.{String, ◌++◌}
use memory_network.Prelude.{
  ◌≡◌, ◌≢◌, refl, sym, ◌∙◌, ap, true, inl, inr, Option, none, some, List, [], ◌∷◌, arith,
}
use memory_network.Prelude.Lists.{Among}
use memory_network.Text.{is_plain}
use memory_network.Text.Ascii.{ascii, ascii_lower, ascii_lower_plain}
use memory_network.Runs.{Run}
use memory_network.Claims.{Claims, Platform}
use memory_network.Claims.Expiry.{no_metadata}
use memory_network.Activity.{
  Link, Activity, set_status, is_open, has_blocker, sql_status, add_run_blockers, end_run,
  sync_blocked_runs,
}
use memory_network.Activity.Blocking.{differ, LowersPlain, sync_blocked_runs-queued}
use memory_network.Activity.Steps.{SameCompleted, OnePerKey}
use memory_network.Activity.History.{started, blocks, Reached-has_blocker}

instance abbrev platform : Platform
platform = record { sql_lower = ascii_lower; uuid5 = λ s. s; hash_token = λ s. "#" ++ s }

abbrev run_1 : Run
run_1 = record {
  run_pk = 1;
  run_id = "r1";
  agent_name = none;
  status = some "working";
  archived_at = none;
}

abbrev run_2 : Run
run_2 = record {
  run_pk = 2;
  run_id = "r2";
  agent_name = none;
  status = some "working";
  archived_at = none;
}

abbrev claims : Claims
claims = record { runs = run_1 ∷ run_2 ∷ []; rows = []; events = [] }

abbrev empty : Activity
empty = record { claims = claims; links = [] }

-- the first run waits for the second one
abbrev waiting : Activity
waiting = (add_run_blockers "r1" (" r2 " ∷ []) none no_metadata 10 empty).1

abbrev unblocked : Activity
unblocked = (end_run "r2" none 20 waiting).1

-- the same before the synchronisation
abbrev stale : Activity
stale = record waiting {
  claims = record waiting.claims {
    runs = set_status "blocked" run_1 ∷ set_status "completed" run_2 ∷ [];
  };
}

program : Unit {0}
unfolding add_run_blockers end_run sync_blocked_runs sql_status ascii_lower is_plain
program = tt

statuses : List Run → List (Option String)
statuses [] = []
statuses (run ∷ runs) = run.status ∷ statuses runs

blocked_run : statuses waiting.claims.runs ≡ some "blocked" ∷ some "working" ∷ []
unfolding program statuses
blocked_run = refl

queued_run : statuses unblocked.claims.runs ≡ some "queued" ∷ some "completed" ∷ []
unfolding program statuses
queued_run = refl

lowers : LowersPlain
lowers s h = ascii_lower_plain s h

same_word : SameCompleted
same_word s = (λ e. e, λ e. e)

one_per_key : OnePerKey claims.runs
one_per_key a b (inl e) (inl f) k = cc (e, f)
one_per_key a b (inl e) (inr (inl f)) k =
    let p : a.run_pk ≡ 1 = ap (λ (r : Run). r.run_pk) e in
    let q : b.run_pk ≡ 2 = ap (λ (r : Run). r.run_pk) f in absurd (omega arith)
one_per_key a b (inr (inl e)) (inl f) k =
    let p : a.run_pk ≡ 2 = ap (λ (r : Run). r.run_pk) e in
    let q : b.run_pk ≡ 1 = ap (λ (r : Run). r.run_pk) f in absurd (omega arith)
one_per_key a b (inr (inl e)) (inr (inl f)) k = cc (e, f)
one_per_key a b (inr (inr n)) i k = absurd n
one_per_key a b i (inr (inr n)) k = absurd n

none_blocked :
    (run : Run)
    → Among run claims.runs
    → sql_status run ≡ "blocked"
    → run.archived_at ≡ none
    → has_blocker run.run_pk [] ≡ true
unfolding program
none_blocked run (inl e) blocked here =
    absurd (differ "working" "blocked" refl (ap sql_status (sym e) ∙ blocked))
none_blocked run (inr (inl e)) blocked here =
    absurd (differ "working" "blocked" refl (ap sql_status (sym e) ∙ blocked))
none_blocked run (inr (inr n)) blocked here = absurd n

Reached-has_blocker_example :
    (link : Link) × Among link waiting.links
    × (link.run_pk ≡ 1)
    × (is_open link.status ≡ true)
    × ((blocker : Run)
        → Among blocker waiting.claims.runs
        → blocker.run_pk ≡ link.blocker_run_pk
        → sql_status blocker ≢ "completed")
unfolding program
Reached-has_blocker_example =
    Reached-has_blocker lowers same_word
      (blocks (started claims one_per_key none_blocked) "r1" (" r2 " ∷ []) none no_metadata 10)
      (set_status "blocked" run_1) (inl refl) refl refl

all_completed :
    (link : Link)
    → Among link stale.links
    → link.run_pk ≡ 1
    → is_open link.status ≡ true
    → (blocker : Run) × Among blocker stale.claims.runs
      × (blocker.run_pk ≡ link.blocker_run_pk)
      × (sql_status blocker ≡ "completed")
unfolding program
all_completed link (inl e) own on = (
  set_status "completed" run_2,
  inr (inl refl),
  ap (λ (l : Link). l.blocker_run_pk) (sym e),
  refl,
)
all_completed link (inr n) own on = absurd n

sync_blocked_runs-queued_example :
    Among
      (set_status "queued" (set_status "blocked" run_1))
      (sync_blocked_runs 20 stale).claims.runs
unfolding program
sync_blocked_runs-queued_example =
    sync_blocked_runs-queued 20 stale (set_status "blocked" run_1) (inl refl) refl refl
      all_completed
