-- ===== src/Claims/Writes.antt =====
-- `verify_write_claim` of code_index/agent_activity.py.
use Prim.Native.String.{String}
use memory_network.Prelude.{
  ℕ, Bool, false, not, ◌&&◌, Option, none, some, List, [], ◌∷◌, nat_beq, str_eq, map,
}
use memory_network.Prelude.Int.{ℤ, pos, negsuc}
use memory_network.Prelude.Lists.{filter}
use memory_network.Prelude.Sort.{sort}
use memory_network.Text.{Unicode}
use memory_network.Runs.{Run, get_run, is_going}
use memory_network.Claims.{
  Claim, Claims, Platform, is_active, normal_path, is_current, is_write_mode, select_rows, first_of,
}
use memory_network.Claims.Expiry.{ClaimView, public_claim}
use memory_network.Claims.Upkeep.{newest_first}

-- What `_claim_check` reports; a stale fence comes with the current claims, none if the fence that
-- was presented is no number.
pub data WriteCheck : Type 0 where
  missing_claim : WriteCheck
  stale_fence : List ClaimView → WriteCheck
  conflicting_claim expired_claim verified : ClaimView → WriteCheck

unfoldable pub has_fence : ℤ → Claim → Bool
has_fence (pos n) row = nat_beq row.fence_token n
has_fence (negsuc n) row = false

module _ ⦃u : Unicode⦄ ⦃p : Platform⦄ where
  unfoldable pub is_foreign_write : ℕ → String → ℕ → Run → Claim → Bool
  unfolding is_write_mode is_current is_going
  is_foreign_write run_pk path now run row =
      str_eq row.file_path path
      && not (nat_beq row.run_pk run_pk)
      && is_active row.status
      && is_write_mode row.mode
      && is_current row.expires_at now
      && is_going p.sql_lower run

  unfoldable pub is_own_write : ℕ → String → Claim → Bool
  unfolding is_write_mode
  is_own_write run_pk path row =
      str_eq row.file_path path
      && nat_beq row.run_pk run_pk
      && is_active row.status
      && is_write_mode row.mode

  -- the end of `verify_write_claim`, with the claims of the run that are current
  unfoldable pub check_current : ℤ → List (Run × Claim) → WriteCheck
  unfolding has_fence first_of public_claim
  check_current fence current =
      elim (first_of (filter (λ (joined : Run × Claim). has_fence fence joined.1) current)) [
        | some joined ↦ verified (public_claim joined)
        | none ↦ stale_fence (map public_claim current)
      ]

  -- `verify_write_claim` from `own_rows` on
  unfoldable pub check_own : ℤ → ℕ → List (Run × Claim) → WriteCheck
  unfolding check_current is_current first_of public_claim
  check_own fence now [] = missing_claim
  check_own fence now (oldest ∷ own) =
      elim (filter (λ (joined : Run × Claim). is_current joined.1.expires_at now) (oldest ∷ own)) [
        | [] ↦ expired_claim (public_claim oldest)
        | joined ∷ current ↦ check_current fence (joined ∷ current)
      ]

  -- `verify_write_claim(conn, …)`; the fence is `none` where `int` raises
  unfoldable pub verify_write_claim : String → Option String → Option ℤ → ℕ → Claims → WriteCheck
  unfolding normal_path get_run is_foreign_write is_own_write check_own select_rows sort
      newest_first first_of public_claim
  verify_write_claim run_id file_path fence_token now db = elim (normal_path file_path) [
    | none ↦ missing_claim
    | some path ↦ elim fence_token [
      | none ↦ stale_fence []
      | some fence ↦ elim (get_run run_id db.runs) [
        | none ↦ missing_claim
        | some run ↦
            elim (first_of (
              sort newest_first
                (select_rows (is_foreign_write run.run_pk path now) db.runs db.rows))) [
                  | some joined ↦ conflicting_claim (public_claim joined)
                  | none ↦ check_own fence now (
                      sort newest_first
                        (select_rows (λ r row. is_own_write run.run_pk path row) db.runs db.rows))
                ]
      ]
    ]
  ]
