-- ===== src/Claims/Exclusion/History.antt =====
-- Histories of the claim table: the operations of code_index/agent_activity.py and
-- code_index/lease_manager.py in any order, each at an instant not before the last one.
use Prim.Native.String.{String}
use memory_network.Prelude.{
  ℕ, ◌≤◌, ◌≡◌, ◌≢◌, refl, Bool, true, false, Option, none, some, List, [], arith,
}
use memory_network.Prelude.Int.{ℤ}
use memory_network.Prelude.Lists.{Among}
use memory_network.Text.{Unicode}
use memory_network.Runs.{Run, run_of, get_run, is_going}
use memory_network.Claims.{
  Claim, Claims, Platform, is_active, is_current, normal_path, modes_conflict,
}
use memory_network.Claims.Metadata.{Json}
use memory_network.Claims.Expiry.{expire_stale_leases}
use memory_network.Claims.Files.{claim_file, claim_files}
use memory_network.Claims.Upkeep.{heartbeat_claim, release_claims}
use memory_network.Claims.Leases.{create_lease, renew_lease, release_lease}
use memory_network.Claims.Exclusion.{Live, Sound}
use memory_network.Claims.Exclusion.Steps.{expire_stale_leases-Sound, release_lease-Sound}
use memory_network.Claims.Exclusion.Renewal.{renew_lease-Sound}
use memory_network.Claims.Exclusion.Claiming.{
  claim_file-Sound, claim_files-Sound, create_lease-Sound,
}
use memory_network.Claims.Exclusion.Releases.{release_claims-Sound, heartbeat_claim-Sound}

module _ ⦃u : Unicode⦄ ⦃p : Platform⦄ where
  -- A run that goes on with claims in the table went on before.
  abbrev pub NoneRevived : Claims → List Run → Type 0
  NoneRevived db runs =
      (row : Claim)
      → Among row db.rows
      → (run : Run) → run_of row.run_pk runs ≡ some run
      → is_going p.sql_lower run ≡ true
      → (old : Run) × (run_of row.run_pk db.runs ≡ some old) × (is_going p.sql_lower old ≡ true)

  -- The claims that a heartbeat is for have not expired.
  abbrev pub InTime : ℕ → String → Option String → Claims → Type 0
  InTime now run_id path db =
      (run : Run) (row : Claim)
      → get_run run_id db.runs ≡ some run
      → Among row db.rows
      → row.run_pk ≡ run.run_pk
      → normal_path path ≡ some row.file_path
      → is_active row.status ≡ true
      → is_current row.expires_at now ≡ true

  -- the tables at an instant, after operations in any order
  pub data Reached : ℕ → Claims → Type 0 where
    started : (runs : List Run) → Reached 0 (record { runs = runs; rows = []; events = [] })
    later : {t t' : ℕ} {db : Claims} → Reached t db → t ≤ t' → Reached t' db
    runs_change :
        {t : ℕ} {db : Claims}
        → Reached t db
        → (runs : List Run) → NoneRevived db runs
        → Reached t (record db { runs = runs })
    claims :
        {t : ℕ} {db : Claims}
        → Reached t db
        → (run_id : String) (path mode reason : Option String) (ttl : Option ℤ) (metadata : Json)
          (record_event : Bool)
        → Reached t (claim_file run_id path mode reason ttl metadata record_event t db).1
    claims_many :
        {t : ℕ} {db : Claims}
        → Reached t db
        → (run_id : String) (paths : List String) (mode reason : Option String) (ttl : Option ℤ)
          (metadata : Json)
        → Reached t (claim_files run_id paths mode reason ttl metadata t db).1
    leases :
        {t : ℕ} {db : Claims}
        → Reached t db
        → (run_id : String) (path mode reason : Option String) (ttl : Option ℤ) (metadata : Json)
          (token : String)
        → Reached t (create_lease run_id path mode reason ttl metadata token t db).1
    renews :
        {t : ℕ} {db : Claims}
        → Reached t db
        → (claim_id token : String) (fence ttl : Option ℤ)
        → Reached t (renew_lease claim_id token fence ttl t db).1
    beats :
        {t : ℕ} {db : Claims}
        → Reached t db
        → (run_id : String) (path mode : Option String) (ttl : Option ℤ) → InTime t run_id path db
        → Reached t (heartbeat_claim run_id path mode ttl t db).1
    releases :
        {t : ℕ} {db : Claims}
        → Reached t db
        → (claim_id token status : String) → Reached t (release_lease claim_id token status t db).1
    releases_many :
        {t : ℕ} {db : Claims}
        → Reached t db
        → (run_id : String) (path mode status : Option String)
        → Reached t (release_claims run_id path mode status t db).1
    expires :
        {t : ℕ} {db : Claims}
        → Reached t db
        → (claim_id : Option String) → Reached t (expire_stale_leases claim_id t db).1

  still_current :
      (e : Option ℕ) (t t' : ℕ) → t ≤ t' → is_current e t' ≡ true → is_current e t ≡ true
  unfolding is_current
  still_current none t t' le h = refl
  still_current (some x) t t' le h = ground arith

  later-Sound : (t t' : ℕ) (db : Claims) → t ≤ t' → Sound p.sql_lower t db → Sound p.sql_lower t' db
  later-Sound t t' db le (ex, d, f) = (
    λ a b ha hb (q, f, g, on, c) (q', f', g', on', c').
        ex a b ha hb (q, f, g, on, still_current a.expires_at t t' le c)
          (q', f', g', on', still_current b.expires_at t t' le c'),
    d,
    f,
  )

  runs_change-Sound :
      (t : ℕ) (db : Claims) (runs : List Run)
      → NoneRevived db runs
      → Sound p.sql_lower t db
      → Sound p.sql_lower t (record db { runs = runs })
  runs_change-Sound t db runs none_new (ex, d, f) = (
    λ a b ha hb (q, f, g, on, c) (q', f', g', on', c').
        let (o, fo, go) = none_new a ha q f g in
        let (o', fo', go') = none_new b hb q' f' g' in
        ex a b ha hb (o, fo, go, on, c) (o', fo', go', on', c'),
    d,
    f,
  )

  Reached-Sound : {t : ℕ} {db : Claims} → Reached t db → Sound p.sql_lower t db
  Reached-Sound (started runs) =
      (λ a b ha. absurd ha, tt, (λ a b ha. absurd ha, λ a b ha. absurd ha))
  Reached-Sound (later {t = t} {t' = t'} {db = db} h le) = later-Sound t t' db le (Reached-Sound h)
  Reached-Sound (runs_change {t = t} {db = db} h runs k) =
      runs_change-Sound t db runs k (Reached-Sound h)
  Reached-Sound (claims h run_id path mode reason ttl metadata record_event) =
      claim_file-Sound run_id path mode reason ttl metadata record_event _ _ (Reached-Sound h)
  Reached-Sound (claims_many h run_id paths mode reason ttl metadata) =
      claim_files-Sound run_id paths mode reason ttl metadata _ _ (Reached-Sound h)
  Reached-Sound (leases h run_id path mode reason ttl metadata token) =
      create_lease-Sound run_id path mode reason ttl metadata token _ _ (Reached-Sound h)
  Reached-Sound (renews h claim_id token fence ttl) =
      renew_lease-Sound claim_id token fence ttl _ _ (Reached-Sound h)
  Reached-Sound (beats h run_id path mode ttl k) =
      heartbeat_claim-Sound p.sql_lower run_id path mode ttl _ _ k (Reached-Sound h)
  Reached-Sound (releases h claim_id token status) =
      release_lease-Sound p.sql_lower _ _ claim_id token status _ (Reached-Sound h)
  Reached-Sound (releases_many h run_id path mode status) =
      release_claims-Sound p.sql_lower run_id path mode status _ _ (Reached-Sound h)
  Reached-Sound (expires h claim_id) =
      expire_stale_leases-Sound p.sql_lower _ _ claim_id _ (Reached-Sound h)

  -- In every history of the table, two rows in force that different runs hold on one path have
  -- modes that do not conflict. A row is in force while it is active, its expiry has not passed
  -- and its run goes on. Heartbeats are for claims that have not expired, and no run that has
  -- stopped goes on with claims in the table.
  pub Reached-modes_conflict :
      {t : ℕ} {db : Claims}
      → Reached t db
      → (a b : Claim) → Among a db.rows
      → Among b db.rows
      → Live p.sql_lower t db.runs a
      → Live p.sql_lower t db.runs b
      → a.run_pk ≢ b.run_pk
      → a.file_path ≡ b.file_path
      → modes_conflict a.mode b.mode ≡ false
  Reached-modes_conflict h = (Reached-Sound h).0

  -- In every history of the table, two rows of one path with one fence token are the same row, also if
  -- they have been released or have expired.
  pub Reached-fence_token :
      {t : ℕ} {db : Claims}
      → Reached t db
      → (a b : Claim) → Among a db.rows
      → Among b db.rows
      → a.file_path ≡ b.file_path
      → a.fence_token ≡ b.fence_token
      → a.claim_pk ≡ b.claim_pk
  Reached-fence_token h = (Reached-Sound h).2.0
