-- ===== src/Claims/Creation.antt =====
-- What `create_lease` of code_index/lease_manager.py stores for the token that it returns.
use Prim.Native.String.{String}
use memory_network.Prelude.{
  ℕ, ◌≡◌, refl, sym, ap, subst, ◌∙◌, Bool, true, false, inl, inr, Option, none, some, str_eq,
  eq_iff, Bool-cases,
}
use memory_network.Prelude.Exec.{Result, ok, err, resume-ok, settle}
use memory_network.Prelude.Int.{ℤ}
use memory_network.Text.{Unicode}
use memory_network.Runs.{Run}
use memory_network.Claims.{Claim, Claims, ClaimError, Platform, is_lease, claim_row, update_rows}
use memory_network.Claims.Metadata.{Json}
use memory_network.Claims.Expiry.{ClaimView, public_claim, record_claim_event}
use memory_network.Claims.Files.{claim_file}
use memory_network.Claims.Leases.{token_matches, make_lease, answer_lease, create_lease}
use memory_network.Claims.Table.{update_rows-Among}
use memory_network.Claims.Exclusion.Renewal.{claim_row-some}

settle-ok :
    {E S A : Type 0} (s : S) (x : Result E A × S) (a : A) (t : S)
    → settle s x ≡ (ok a, t)
    → x ≡ (ok a, t)
settle-ok s (ok b, u) a t e = e
settle-ok s (err b, u) a t e = absurd (cc e)

module _ ⦃u : Unicode⦄ ⦃p : Platform⦄ where
  -- the row under an id after the secret has been written
  made-Holds :
      (claim_id token agent : String) (db : Claims) (run : Run) (row : Claim)
      → claim_row claim_id (record db {
        rows = update_rows (λ r. str_eq r.claim_id claim_id) (make_lease token agent) db.rows;
      })
        ≡ some (run, row)
      → (token_matches row token ≡ true) × (is_lease row.lease_kind ≡ true)
  unfolding make_lease token_matches
  made-Holds claim_id token agent db run row e =
      let w : Claim → Bool = λ r. str_eq r.claim_id claim_id in
      let after : Claims = record db { rows = update_rows w (make_lease token agent) db.rows } in
      let (a, r, own) = claim_row-some claim_id after run row e in
      let (old, b, f) = update_rows-Among w (make_lease token agent) db.rows row a in
      elim (Bool-cases (w old)) [
        | inl h ↦
            let was : row ≡ make_lease token agent old = rw h at f in
            subst (λ (x : Claim). (token_matches x token ≡ true) × (is_lease x.lease_kind ≡ true))
              (sym was) ((eq_iff (p.hash_token token) (p.hash_token token)).1 refl, refl)
        | inr h ↦
            let was : row ≡ old = rw h at f in
            let hit : w old ≡ true =
              (eq_iff old.claim_id claim_id).1 (ap (λ (x : Claim). x.claim_id) (sym was) ∙ own) in
            absurd (cc (h, hit))
      ]

  -- When a lease is created, the claim that is returned is that of a row that its id finds, a
  -- lease with the hash of the token that is returned.
  pub create_lease-token_matches :
      (run_id : String) (path mode reason : Option String) (ttl : Option ℤ) (metadata : Json)
      (token given : String) (now : ℕ) (db s : Claims) (view : ClaimView)
      → create_lease run_id path mode reason ttl metadata token now db ≡ (ok (view, given), s)
      → (run : Run) × (row : Claim) × (claim_row row.claim_id s ≡ some (run, row))
        × (view ≡ public_claim (run, row))
        × (token_matches row given ≡ true)
        × (is_lease row.lease_kind ≡ true)
  unfolding create_lease answer_lease record_claim_event claim_row
  create_lease-token_matches run_id path mode reason ttl metadata token given now db s view e =
      let (one, t, x, y) =
        resume-ok (claim_file run_id path mode reason ttl metadata false now db) _ (view, given) s
          (settle-ok db _ (view, given) s e) in
      let after : Claims = record t {
        rows =
            update_rows (λ r. str_eq r.claim_id one.claim_id) (make_lease token one.agent_name)
              t.rows;
      } in
      answered one.claim_id one.agent_name t (claim_row one.claim_id after) refl y
    where
      answered :
          (id agent : String) (t : Claims) (found : Option (Run × Claim))
          → claim_row id (record t {
            rows = update_rows (λ r. str_eq r.claim_id id) (make_lease token agent) t.rows;
          })
            ≡ found
          → answer_lease metadata token now found (record t {
            rows = update_rows (λ r. str_eq r.claim_id id) (make_lease token agent) t.rows;
          })
            ≡ (ok (view, given), s)
          → (run : Run) × (row : Claim) × (claim_row row.claim_id s ≡ some (run, row))
            × (view ≡ public_claim (run, row))
            × (token_matches row given ≡ true)
            × (is_lease row.lease_kind ≡ true)
      answered id agent t none f y = absurd (cc y)
      answered id agent t (some (run, row)) f y =
          let after : Claims = record t {
            rows = update_rows (λ r. str_eq r.claim_id id) (make_lease token agent) t.rows;
          } in
          let (a, r, own) = claim_row-some id after run row f in
          let (hit, lease) = made-Holds id token agent t run row f in
          let value = ap (λ (x : Result ClaimError (ClaimView × String) × Claims). x.0) y in
          let pair : (public_claim (run, row), token) ≡ (view, given) = cc value in
          let same : token ≡ given = ap (λ (x : ClaimView × String). x.1) pair in
          let here : claim_row row.claim_id after ≡ some (run, row) =
            subst (λ i. claim_row i after ≡ some (run, row)) (sym own) f in
          (
            run,
            row,
            subst (λ (d : Claims). claim_row row.claim_id d ≡ some (run, row))
                (ap (λ (x : Result ClaimError (ClaimView × String) × Claims). x.1) y) here,
            sym (ap (λ (x : ClaimView × String). x.0) pair),
            subst (λ (g : String). token_matches row g ≡ true) same hit,
            lease,
          )
