-- ===== src/Claims/Exclusion.antt =====
-- Which rows of the claim table count, and what may be true of two of them
-- (code_index/agent_activity.py, code_index/lease_manager.py).
pub mod Fences
pub mod Updates
pub mod Steps
pub mod Stale
pub mod Renewal
pub mod Growth
pub mod Claiming
pub mod Releases
pub mod History
use memory_network.Prelude.{
  ℕ, ◌≡◌, ◌≢◌, refl, sym, ap, ap₂, ◌∙◌, Bool, true, false, inl, inr, ◌⊎◌, Option, some, List, [],
  ◌∷◌, ◌||◌, ◌&&◌, arith, Bool-cases, if◌then◌else◌, String,
}
use memory_network.Prelude.Lists.{Among, All}
use memory_network.Runs.{Run, run_of, is_going}
use memory_network.Claims.{
  Mode, read, edit, review, test, exclusive, Claim, Claims, is_active, is_current, is_write_mode,
  mode_beq, modes_conflict,
}

-- A row that is in force at an instant: active, not expired, of a run that has not stopped.
abbrev pub Live : (String → String) → ℕ → List Run → Claim → Type 0
Live lower now runs row =
    (run : Run) × (run_of row.run_pk runs ≡ some run)
    × (is_going lower run ≡ true)
    × (is_active row.status ≡ true)
    × (is_current row.expires_at now ≡ true)

-- Two rows in force that different runs hold on one path have modes that agree.
abbrev pub Exclusive : (String → String) → ℕ → Claims → Type 0
Exclusive lower now db =
    (a b : Claim)
    → Among a db.rows
    → Among b db.rows
    → Live lower now db.runs a
    → Live lower now db.runs b
    → a.run_pk ≢ b.run_pk
    → a.file_path ≡ b.file_path
    → modes_conflict a.mode b.mode ≡ false

-- No two rows have one primary key.
abbrev pub Distinct : List Claim → Type 0
Distinct [] = Unit
Distinct (row ∷ rows) = All (λ (r : Claim). r.claim_pk ≢ row.claim_pk) rows × Distinct rows

-- A fence token is that of one row of a path, and a run has one row for a path and a mode.
abbrev pub Fenced : List Claim → Type 0
Fenced rows =
    ((a b : Claim)
      → Among a rows
      → Among b rows
      → a.file_path ≡ b.file_path
      → a.fence_token ≡ b.fence_token
      → a.claim_pk ≡ b.claim_pk)
    × ((a b : Claim)
        → Among a rows
        → Among b rows
        → a.run_pk ≡ b.run_pk
        → a.file_path ≡ b.file_path
        → a.mode ≡ b.mode
        → a.claim_pk ≡ b.claim_pk)

abbrev pub Sound : (String → String) → ℕ → Claims → Type 0
Sound lower now db = Exclusive lower now db × Distinct db.rows × Fenced db.rows

swap : (a b c d : Bool) → (a || b || (c && d)) ≡ (b || a || (d && c))
swap true true c d = refl
swap true false c d = refl
swap false true c d = refl
swap false false true true = refl
swap false false true false = refl
swap false false false true = refl
swap false false false false = refl

pub modes_conflict_comm : (m n : Mode) → modes_conflict m n ≡ modes_conflict n m
unfolding modes_conflict
modes_conflict_comm m n =
    swap (mode_beq m exclusive) (mode_beq n exclusive) (is_write_mode m) (is_write_mode n)
