-- ===== src/Claims/Tests.antt =====
-- Runs of the claim table (code_index/agent_activity.py, code_index/lease_manager.py), and the
-- theorems at these runs.
use Prim.Native.String.{String, ◌++◌}
use memory_network.Prelude.{
  ℕ, zero, suc, arith, ◌≡◌, ◌<◌, ◌≢◌, ◌↔◌, refl, true, false, none, some, List, [], ◌∷◌, inl, inr,
  if◌then◌else◌,
}
use memory_network.Prelude.Exec.{Result, ok, err}
use memory_network.Prelude.Int.{ℤ, pos}
use memory_network.Text.Ascii.{ascii, ascii_lower}
use memory_network.Runs.{Run, get_run, run_of, is_going}
use memory_network.Claims.{
  Claim, ClaimError, normal_path, Kind, Claims, Mode, ClaimStatus, Platform, conflict,
  modes_conflict, is_current,
}
use memory_network.Claims.Metadata.{
  Json, object, entry, text, no_entries, array, item, no_items, redact_public_metadata,
}
use memory_network.Claims.Expiry.{ClaimView, no_metadata, expire_stale_leases, public_claim}
use memory_network.Claims.Files.{claim_file, next_fence_token}
use memory_network.Claims.Upkeep.{heartbeat_claim}
use memory_network.Claims.Leases.{create_lease, renew_lease, release_lease, token_matches}
use memory_network.Claims.Writes.{WriteCheck, verify_write_claim, verified}
use memory_network.Claims.Exclusion.Fences.{next_fence_token-fresh}
use memory_network.Claims.Exclusion.History.{
  Reached, Reached-fence_token, started, later, claims, Reached-modes_conflict,
}
use memory_network.Claims.{claim_row, is_lease}
use memory_network.Claims.Creation.{create_lease-token_matches}
use memory_network.Claims.Outcomes.{
  Holds, SameLease, Replaced, Refused, renewed, closed, renew_lease-Holds, release_lease-Holds,
  wrong_token-Refused,
}
use memory_network.Claims.Redaction.{
  Clean, redact_public_metadata-Clean, redact_public_metadata-fixed,
}
use memory_network.Claims.Verified.{MayWrite, NoOtherWriter, verify_write_claim-NoOtherWriter}

instance abbrev platform : Platform
platform = record { sql_lower = λ s. s; uuid5 = λ s. s; hash_token = λ s. "#" ++ s }

abbrev run_1 : Run
run_1 = record { run_pk = 1; run_id = "r1"; agent_name = none; status = none; archived_at = none }

abbrev run_2 : Run
run_2 = record {
  run_pk = 2;
  run_id = "r2";
  agent_name = none;
  status = some "working";
  archived_at = none;
}

abbrev empty : Claims
empty = record { runs = run_1 ∷ run_2 ∷ []; rows = []; events = [] }

-- the first run leases a file for editing, until 100
abbrev leased : Claims
leased =
    (create_lease "r1" (some "./a.py") none none (some (pos 100)) no_metadata "secret" 0 empty).1

-- both runs read the file
abbrev reading : Claims
reading = (claim_file "r1" (some "a.py") (some "read") none none no_metadata true 0 empty).1

abbrev shared : Claims
shared = (claim_file "r2" (some "a.py") (some "review") none none no_metadata true 5 reading).1

program : Unit {0}
unfolding create_lease claim_file renew_lease release_lease heartbeat_claim verify_write_claim
    ascii_lower run_of is_going modes_conflict is_current
program = tt

second_conflicts :
    (claim_file "r2" (some "a.py") none none none no_metadata true 50 leased).0 ≡ err conflict
unfolding program
second_conflicts = refl

modes : List Claim → List (ℕ × Mode × ClaimStatus)
modes [] = []
modes (row ∷ rows) = (row.run_pk, row.mode, row.status) ∷ modes rows

shared_rows :
    modes shared.rows
    ≡ (1, Mode.read, ClaimStatus.active) ∷ (2, Mode.review, ClaimStatus.active) ∷ []
unfolding program modes
shared_rows = refl

-- A claim of the first run has expired, and the second run has the file; the first run's heartbeat
-- brings its claim back, and both of them may write.
abbrev expired_claim : Claims
expired_claim = (claim_file "r1" (some "a.py") none none (some (pos 10)) no_metadata true 0 empty).1

abbrev taken : Claims
taken =
    (claim_file "r2" (some "a.py") none none (some (pos 100)) no_metadata true 20 expired_claim).1

abbrev both : Claims
both = (heartbeat_claim "r1" (some "a.py") none (some (pos 100)) 30 taken).1

in_force : ℕ → List Claim → List (ℕ × Mode)
in_force now [] = []
in_force now (row ∷ rows) =
    let rest = in_force now rows in
    if is_current row.expires_at now then (row.run_pk, row.mode) ∷ rest else rest

one_writer : in_force 25 taken.rows ≡ (2, Mode.edit) ∷ []
unfolding program in_force
one_writer = refl

two_writers : in_force 40 both.rows ≡ (1, Mode.edit) ∷ (2, Mode.edit) ∷ []
unfolding program in_force
two_writers = refl

abbrev blank : Claim
blank = record {
  claim_pk = 0;
  claim_id = "";
  run_pk = 0;
  file_path = "";
  mode = Mode.read;
  status = ClaimStatus.expired;
  reason = "";
  fence_token = 0;
  lease_token_hash = none;
  lease_kind = Kind.claim;
  owner_agent = none;
  heartbeat_interval_ms = none;
  conflict_policy = none;
  last_conflict = none;
  created_at = 0;
  updated_at = 0;
  heartbeat_at = none;
  expires_at = none;
  released_at = none;
  metadata = no_metadata;
}

abbrev row_at : ℕ → List Claim → Claim
row_at n [] = blank
row_at zero (row ∷ rows) = row
row_at (suc n) (row ∷ rows) = row_at n rows

abbrev view_of : {E : Type 0} → Result E ClaimView → ClaimView
view_of (ok view) = view
view_of (err e) = public_claim (run_1, blank)

apart : ◌≢◌ {A = ℕ} 1 2
apart e = omega arith

Reached-modes_conflict_example :
    modes_conflict (row_at 0 shared.rows).mode (row_at 1 shared.rows).mode ≡ false
unfolding program
Reached-modes_conflict_example =
    Reached-modes_conflict
      (claims
        (later {t' = 5}
          (claims (started (run_1 ∷ run_2 ∷ [])) "r1" (some "a.py") (some "read") none none
            no_metadata true)
          (omega arith))
        "r2" (some "a.py") (some "review") none none no_metadata true)
      (row_at 0 shared.rows) (row_at 1 shared.rows) (inl refl) (inr (inl refl))
      (run_1, refl, refl, refl, refl) (run_2, refl, refl, refl, refl) apart refl

shared-Reached : Reached 5 shared
unfolding program
shared-Reached =
    claims
      (later {t' = 5}
        (claims (started (run_1 ∷ run_2 ∷ [])) "r1" (some "a.py") (some "read") none none
          no_metadata true)
        (omega arith))
      "r2" (some "a.py") (some "review") none none no_metadata true

Reached-fence_token_example : (row_at 1 shared.rows).claim_pk ≡ (row_at 1 shared.rows).claim_pk
unfolding program
Reached-fence_token_example =
    Reached-fence_token shared-Reached (row_at 1 shared.rows) (row_at 1 shared.rows)
      (inr (inl refl)) (inr (inl refl)) refl refl

next_fence_token-fresh_example :
    (row_at 1 shared.rows).fence_token < next_fence_token "a.py" shared.rows
unfolding program
next_fence_token-fresh_example =
    next_fence_token-fresh "a.py" shared.rows (row_at 1 shared.rows) (inr (inl refl)) refl

abbrev renewal : Result ClaimError ClaimView × Claims
renewal = renew_lease "r1:a.py:edit" "secret" (some (pos 1)) (some (pos 100)) 60 leased

abbrev release : Result ClaimError ClaimView × Claims
release = release_lease "r1:a.py:edit" "secret" "released" 60 leased

renew_lease-Holds_example :
    (row : Claim) × (t : Claims) × (expire_stale_leases (some "r1:a.py:edit") 60 leased
      ≡ (ok [], t))
    × Holds "r1:a.py:edit" "secret" row t
    × (some (pos 1) ≡ some (pos row.fence_token))
    × Replaced
        (λ r. SameLease row r × (r.fence_token ≡ row.fence_token))
        (renewed 60 (some (pos 100)))
        t.rows
        renewal.1.rows
unfolding program
renew_lease-Holds_example =
    renew_lease-Holds "r1:a.py:edit" "secret" (some (pos 1)) (some (pos 100)) 60 leased renewal.1
      (view_of renewal.0) refl

release_lease-Holds_example :
    (row : Claim) × (t : Claims) × (expire_stale_leases (some "r1:a.py:edit") 60 leased
      ≡ (ok [], t))
    × Holds "r1:a.py:edit" "secret" row t
    × Replaced (SameLease row) (closed "released" 60) t.rows release.1.rows
unfolding program
release_lease-Holds_example =
    release_lease-Holds "r1:a.py:edit" "secret" "released" 60 leased release.1 (view_of release.0)
      refl

wrong_token-Refused_example :
    Refused (renew_lease "r1:a.py:edit" "guess" (some (pos 1)) none 60 leased) leased
    × Refused (release_lease "r1:a.py:edit" "guess" "released" 60 leased) leased
unfolding program
wrong_token-Refused_example =
    wrong_token-Refused "r1:a.py:edit" "guess" "released" (some (pos 1)) none 60 leased leased []
      refl (λ run row e. let same : row_at 0 leased.rows ≡ row = cc e in rw (← same) refl)

-- an API key in a list
abbrev noted : Json
noted = object (
    entry "steps" (array (item (object (entry "api_key" (text "k") no_entries)) no_items))
      no_entries)

redact_public_metadata-Clean_example : Clean (redact_public_metadata noted)
redact_public_metadata-Clean_example = redact_public_metadata-Clean noted

redact_public_metadata-fixed_example : (redact_public_metadata noted ≡ noted) ↔ Clean noted
redact_public_metadata-fixed_example = redact_public_metadata-fixed noted

redacted_note :
    redact_public_metadata noted
    ≡ object (entry "steps" (array (item (object no_entries) no_items)) no_entries)
unfolding redact_public_metadata ascii_lower
redacted_note = refl

abbrev check : WriteCheck
check = verify_write_claim "r1" (some "a.py") (some (pos 1)) 60 leased

abbrev checked_view : WriteCheck → ClaimView
checked_view (verified view) = view
checked_view _ = public_claim (run_1, blank)

verify_write_claim-NoOtherWriter_example :
    (run : Run) × (path : String) × (presented : ℤ) × (row : Claim) × (get_run "r1" leased.runs
      ≡ some run)
    × (normal_path (some "a.py") ≡ some path)
    × (some (pos 1) ≡ some presented)
    × NoOtherWriter run path 60 leased
    × MayWrite run path presented 60 row leased
    × (owner : Run) × (run_of row.run_pk leased.runs ≡ some owner)
    × (checked_view check ≡ public_claim (owner, row))
unfolding program
verify_write_claim-NoOtherWriter_example =
    verify_write_claim-NoOtherWriter "r1" (some "a.py") (some (pos 1)) 60 leased
      (checked_view check) refl

abbrev creation : Result ClaimError (ClaimView × String) × Claims
creation = create_lease "r1" (some "./a.py") none none (some (pos 100)) no_metadata "secret" 0 empty

abbrev created_view : Result ClaimError (ClaimView × String) → ClaimView
created_view (ok (view, token)) = view
created_view (err e) = public_claim (run_1, blank)

create_lease-token_matches_example :
    (run : Run) × (row : Claim) × (claim_row row.claim_id leased ≡ some (run, row))
    × (created_view creation.0 ≡ public_claim (run, row))
    × (token_matches row "secret" ≡ true)
    × (is_lease row.lease_kind ≡ true)
unfolding program
create_lease-token_matches_example =
    create_lease-token_matches "r1" (some "./a.py") none none (some (pos 100)) no_metadata "secret"
      "secret" 0 empty leased (created_view creation.0) refl
