-- ===== src/Claims/Exclusion/Claiming.antt =====
-- A claim is stored after the check for conflicts only: `claim_file`, `claim_files` and
-- `release_claims` of code_index/agent_activity.py, `create_lease` of code_index/lease_manager.py.
use Prim.Native.String.{String}
use memory_network.Prelude.{
  ℕ, ◌≡◌, ◌≢◌, refl, sym, ap, ◌∙◌, Bool, true, false, not, inl, inr, Option, none, some, List, [],
  ◌∷◌, ◌&&◌, arith, Bool-cases, subst, nat_beq, str_eq, is_some, eq_iff,
}
use memory_network.Prelude.Exec.{ok, or_error, Ends-bind, Ends-lift, Ends-settle}
use memory_network.Prelude.Int.{ℤ}
use memory_network.Prelude.Lists.{Among}
use memory_network.Text.{Unicode}
use memory_network.Runs.{get_run, Run, is_going}
use memory_network.Claims.{
  Mode, Claim, Claims, unknown_run, file_path_required, unknown_mode, normal_path, first_of,
  Platform, is_active, is_lease, is_current, update_rows, claim_row, select_rows, modes_conflict,
}
use memory_network.Claims.Metadata.{Json}
use memory_network.Claims.Table.{Among-select_rows}
use memory_network.Claims.Expiry.{record_claim_event, expire_stale_leases}
use memory_network.Claims.Files.{
  claim_mode, has_key, upsert, is_held_by_other, any_conflict, raise_on_claim_conflict, new_claim,
  answer_claim, store_claim, claim_file, claim_files,
}
use memory_network.Claims.Leases.{create_lease, answer_lease, make_lease}
use memory_network.Claims.Exclusion.{Sound}
use memory_network.Claims.Exclusion.Fences.{next_fence_token-fresh}
use memory_network.Claims.Exclusion.Growth.{Clear, upsert-Sound, next_pk-fresh}
use memory_network.Claims.Exclusion.Updates.{Tame, update_rows-Sound}
use memory_network.Claims.Exclusion.Steps.{expire_stale_leases-Sound}

module _ ⦃u : Unicode⦄ ⦃p : Platform⦄ where
  any_conflict-false :
      (mode : Mode) (rows : List (Run × Claim)) (run : Run) (row : Claim)
      → any_conflict mode rows ≡ false
      → Among (run, row) rows
      → modes_conflict mode row.mode ≡ false
  unfolding any_conflict
  any_conflict-false mode [] run row h a = absurd a
  any_conflict-false mode ((q, c) ∷ rows) run row h (inl e) =
      let same : row ≡ c = ap (λ (j : Run × Claim). j.1) e in rw same (ground arith)
  any_conflict-false mode ((q, c) ∷ rows) run row h (inr a) =
      any_conflict-false mode rows run row (ground arith) a

  -- The check leaves the table as it is, and returns only where the table is clear.
  raise_on_claim_conflict-Clear :
      (run_pk : ℕ) (path : String) (mode : Mode) (now : ℕ) (new : Claim) (db s : Claims)
      (v : Unit {0})
      → new.run_pk ≡ run_pk
      → new.file_path ≡ path
      → new.mode ≡ mode
      → raise_on_claim_conflict run_pk path mode now db ≡ (ok v, s)
      → Clear now new db × (s ≡ db)
  unfolding raise_on_claim_conflict
  raise_on_claim_conflict-Clear run_pk path mode now new db s v ep ef em e =
      let w = is_held_by_other run_pk path now in
      elim (Bool-cases (any_conflict mode (select_rows w db.runs db.rows))) [
        | inl hit ↦ absurd (cc (rw (raise_on_claim_conflict, hit) at e))
        | inr miss ↦ (
          λ row a (run, r, going, on, current) other same.
              let chosen : w run row ≡ true =
                held row run (λ x. other (x ∙ sym ep)) (same ∙ ef) on current going in
              let agree =
                any_conflict-false mode _ run row miss
                  (Among-select_rows w db.runs db.rows row run a r chosen) in
              rw em agree,
          cc (rw (raise_on_claim_conflict, miss) at e),
        )
      ]
    where
      held :
          (row : Claim) (run : Run)
          → row.run_pk ≢ run_pk
          → row.file_path ≡ path
          → is_active row.status ≡ true
          → is_current row.expires_at now ≡ true
          → is_going p.sql_lower run ≡ true
          → is_held_by_other run_pk path now run row ≡ true
      held row run other same on current going =
          let ne : nat_beq row.run_pk run_pk ≡ false = ground arith in
          rw (is_held_by_other, (eq_iff row.file_path path).1 same, on, ne, current, going) refl

  raise_on_claim_conflict-Sound :
      (run_pk : ℕ) (path : String) (mode : Mode) (now : ℕ) (db : Claims)
      → Sound p.sql_lower now db
      → Sound p.sql_lower now (raise_on_claim_conflict run_pk path mode now db).1
  unfolding raise_on_claim_conflict
  raise_on_claim_conflict-Sound run_pk path mode now db h =
      elim (Bool-cases
        (any_conflict mode (select_rows (is_held_by_other run_pk path now) db.runs db.rows))) [
          | inl e ↦ rw e h
          | inr e ↦ rw e h
        ]

  store_claim-Sound :
      (run : Run) (path : String) (mode : Mode) (reason : Option String) (ttl : Option ℤ)
      (metadata : Json) (record_event : Bool) (now : ℕ) (db : Claims)
      → Clear now (new_claim run path mode reason ttl metadata now db.rows) db
      → Sound p.sql_lower now db
      → Sound p.sql_lower now (store_claim run path mode reason ttl metadata record_event now db).1
  unfolding store_claim answer_claim new_claim record_claim_event
  store_claim-Sound run path mode reason ttl metadata record_event now db clear h =
      let new = new_claim run path mode reason ttl metadata now db.rows in
      Ends-bind (upsert new db) _ (Sound p.sql_lower now)
        (upsert-Sound now new db (next_pk-fresh db.rows) (next_fence_token-fresh path db.rows) clear
          h)
        λ v s e k.
          read_back s k
            (first_of (select_rows (λ r row. has_key run.run_pk path mode row) s.runs s.rows))
    where
      read_back :
          (s : Claims)
          → Sound p.sql_lower now s
          → (found : Option (Run × Claim))
          → Sound p.sql_lower now (answer_claim metadata record_event now found s).1
      read_back s k none = k
      read_back s k (some (owner, row)) =
          elim (Bool-cases
            (record_event && not (is_lease row.lease_kind && is_some row.lease_token_hash))) [
              | inl e ↦ rw (answer_claim, e) k
              | inr e ↦ rw (answer_claim, e) k
            ]

  pub claim_file-Sound :
      (run_id : String) (path mode reason : Option String) (ttl : Option ℤ) (metadata : Json)
      (record_event : Bool) (now : ℕ) (db : Claims)
      → Sound p.sql_lower now db
      → Sound p.sql_lower now
          (claim_file run_id path mode reason ttl metadata record_event now db).1
  unfolding claim_file new_claim
  claim_file-Sound run_id path mode reason ttl metadata record_event now db h =
      let P = Sound p.sql_lower now in
      Ends-lift (or_error unknown_run (get_run run_id db.runs)) _ db P h λ run e.
        Ends-lift (or_error file_path_required (normal_path path)) _ db P h λ at e'.
          Ends-bind (expire_stale_leases none now db) _ P
            (expire_stale_leases-Sound p.sql_lower now now none db h)
            λ v s f k. Ends-lift (or_error unknown_mode (claim_mode mode)) _ s P k λ word g.
              Ends-bind (raise_on_claim_conflict run.run_pk at word now s) _ P
                (raise_on_claim_conflict-Sound run.run_pk at word now s k)
                λ w t x l.
                  let (clear, same) =
                    raise_on_claim_conflict-Clear run.run_pk at word now
                      (new_claim run at word reason ttl metadata now t.rows) s t w refl refl refl
                      x in
                  store_claim-Sound run at word reason ttl metadata record_event now t
                    (subst (Clear now (new_claim run at word reason ttl metadata now t.rows))
                      (sym same) clear)
                    l

  pub claim_files-Sound :
      (run_id : String) (paths : List String) (mode reason : Option String) (ttl : Option ℤ)
      (metadata : Json) (now : ℕ) (db : Claims)
      → Sound p.sql_lower now db
      → Sound p.sql_lower now (claim_files run_id paths mode reason ttl metadata now db).1
  unfolding claim_files
  claim_files-Sound run_id [] mode reason ttl metadata now db h = h
  claim_files-Sound run_id (path ∷ paths) mode reason ttl metadata now db h =
      let P = Sound p.sql_lower now in
      elim (Bool-cases (is_some (normal_path (some path)))) [
        | inr e ↦ rw e (claim_files-Sound run_id paths mode reason ttl metadata now db h)
        | inl e ↦ rw e (
            Ends-bind (claim_file run_id (some path) mode reason ttl metadata true now db) _ P
              (claim_file-Sound run_id (some path) mode reason ttl metadata true now db h)
              λ one s x k.
                Ends-bind (claim_files run_id paths mode reason ttl metadata now s) _ P
                  (claim_files-Sound run_id paths mode reason ttl metadata now s k)
                  λ others t y l. l)
      ]

  -- The secret of a lease is written into the rows that are there.
  make_lease-Tame :
      (now : ℕ) (db : Claims) (w : Claim → Bool) (token agent : String)
      → Tame p.sql_lower now db w (make_lease token agent)
  unfolding make_lease
  make_lease-Tame now db w token agent r = (refl, refl, refl, refl, refl, λ i h l. l)

  answer_lease-Sound :
      (metadata : Json) (token : String) (now : ℕ) (found : Option (Run × Claim)) (db : Claims)
      → Sound p.sql_lower now db
      → Sound p.sql_lower now (answer_lease metadata token now found db).1
  unfolding answer_lease record_claim_event
  answer_lease-Sound metadata token now none db h = h
  answer_lease-Sound metadata token now (some (run, row)) db h = h

  pub create_lease-Sound :
      (run_id : String) (path mode reason : Option String) (ttl : Option ℤ) (metadata : Json)
      (token : String) (now : ℕ) (db : Claims)
      → Sound p.sql_lower now db
      → Sound p.sql_lower now (create_lease run_id path mode reason ttl metadata token now db).1
  unfolding create_lease record_claim_event
  create_lease-Sound run_id path mode reason ttl metadata token now db h =
      let P = Sound p.sql_lower now in
      Ends-settle db _ P h (
        Ends-bind (claim_file run_id path mode reason ttl metadata false now db) _ P
          (claim_file-Sound run_id path mode reason ttl metadata false now db h)
          λ view s e k.
            let t : Claims = record s {
              rows =
                  update_rows (λ row. str_eq row.claim_id view.claim_id)
                    (make_lease token view.agent_name) s.rows;
            } in
            let made : P t =
              update_rows-Sound p.sql_lower now (λ row. str_eq row.claim_id view.claim_id)
                (make_lease token view.agent_name) s (make_lease-Tame now s _ token view.agent_name)
                k in
            answer_lease-Sound metadata token now (claim_row view.claim_id t) t made)
