-- ===== src/Processes/Rows.antt =====
-- The rows of the process registry (code_index/run_lifecycle.py): looking one up and updating them.
use Prim.Native.String.{String}
use memory_network.Prelude.{
  ℕ, ◌≡◌, ◌≢◌, refl, sym, ap, ◌∙◌, true, false, inl, inr, ◌&&◌, Option, none, some, List, [], ◌∷◌,
  map, arith, Bool-cases, Option-cases, str_eq, eq_iff,
}
use memory_network.Prelude.Lists.{add_last}
use memory_network.Prelude.Int.{ℤ}
use memory_network.Processes.{
  ProcessStatus, is_terminal, is_started, Row, terminal_status, find_process, beat_row, finish_row,
}

module _ {D : Type 0} where
  abbrev pub option_row : (Row D → Row D) → Option (Row D) → Option (Row D)
  option_row f none = none
  option_row f (some row) = some (f row)

  pub find-map :
      (f : Row D → Row D) (p : String) (rows : List (Row D))
      → ((row : Row D) → (f row).process_id ≡ row.process_id)
      → find_process p (map f rows) ≡ option_row f (find_process p rows)
  unfolding find_process
  find-map f p [] same = refl
  find-map f p (row ∷ rows) same = elim (Bool-cases (str_eq row.process_id p)) [
    | inl e ↦ let e' : str_eq (f row).process_id p ≡ true = rw (same row) e in rw (e, e') refl
    | inr e ↦
        let e' : str_eq (f row).process_id p ≡ false = rw (same row) e in
        rw (e, e') (find-map f p rows same)
  ]

  pub find-add_last :
      (p : String) (new row : Row D) (rows : List (Row D))
      → find_process p rows ≡ some row
      → find_process p (add_last new rows) ≡ some row
  unfolding find_process
  find-add_last p new row [] h = absurd (cc h)
  find-add_last p new row (x ∷ xs) h = elim (Bool-cases (str_eq x.process_id p)) [
    | inl e ↦ rw e (rw e at h)
    | inr e ↦ rw e (find-add_last p new row xs (rw e at h))
  ]

  pub beat_row-process_id :
      (q : String) (now : ℕ) (row : Row D) → (beat_row q now row).process_id ≡ row.process_id
  unfolding beat_row
  beat_row-process_id q now row = ground arith

  pub finish_row-process_id :
      (q : String) (status : ProcessStatus) (code : Option ℤ) (now : ℕ) (row : Row D)
      → (finish_row q status code now row).process_id ≡ row.process_id
  unfolding finish_row
  finish_row-process_id q status code now row = ground arith

  pub beat_row-run_pk :
      (q : String) (now : ℕ) (row : Row D) → (beat_row q now row).run_pk ≡ row.run_pk
  unfolding beat_row
  beat_row-run_pk q now row = ground arith

  pub beat_row-over :
      (q : String) (now : ℕ) (row : Row D)
      → is_terminal row.status ≡ true
      → is_terminal (beat_row q now row).status ≡ true
  unfolding beat_row
  beat_row-over q now row h = elim (Bool-cases (str_eq row.process_id q && is_started row.status)) [
    | inl e ↦ rw e h
    | inr e ↦ rw e h
  ]

  pub finish_row-run_pk :
      (q : String) (status : ProcessStatus) (code : Option ℤ) (now : ℕ) (row : Row D)
      → (finish_row q status code now row).run_pk ≡ row.run_pk
  unfolding finish_row
  finish_row-run_pk q status code now row = ground arith

  pub finish_row-over :
      (q : String) (status : ProcessStatus) (code : Option ℤ) (now : ℕ) (row : Row D)
      → is_terminal status ≡ true
      → is_terminal row.status ≡ true
      → is_terminal (finish_row q status code now row).status ≡ true
  unfolding finish_row
  finish_row-over q status code now row new h = elim (Bool-cases (str_eq row.process_id q)) [
    | inl e ↦ rw e new
    | inr e ↦ rw e h
  ]

  pub finish_row-own :
      (s : ProcessStatus) (code : Option ℤ) (now : ℕ) (row : Row D)
      → finish_row row.process_id s code now row
        ≡ record row { status = s; ended_at = some now; heartbeat_at = some now; exit_code = code }
  unfolding finish_row
  finish_row-own s code now row =
      let e : str_eq row.process_id row.process_id ≡ true =
        (eq_iff row.process_id row.process_id).1 refl in
      rw e refl

  pub finish_row-other :
      (q p : String) (s : ProcessStatus) (code : Option ℤ) (now : ℕ) (row : Row D)
      → row.process_id ≡ q
      → q ≢ p
      → finish_row p s code now row ≡ row
  unfolding finish_row
  finish_row-other q p s code now row e ne = elim (Bool-cases (str_eq row.process_id p)) [
    | inl same ↦ absurd (ne (sym e ∙ (eq_iff row.process_id p).0 same))
    | inr differ ↦ rw differ refl
  ]

  pub find-process_id :
      (p : String) (row : Row D) (rows : List (Row D))
      → find_process p rows ≡ some row
      → row.process_id ≡ p
  unfolding find_process
  find-process_id p row [] h = absurd (cc h)
  find-process_id p row (x ∷ xs) h = elim (Bool-cases (str_eq x.process_id p)) [
    | inl e ↦
        let z = rw e at h in
        let same : x ≡ row = (cc z) in rw (← same) ((eq_iff x.process_id p).0 e)
    | inr e ↦ find-process_id p row xs (rw e at h)
  ]

  pub find-finished :
      (q p : String) (s : ProcessStatus) (code : Option ℤ) (now : ℕ) (rows : List (Row D))
      → q ≢ p
      → find_process q (map (finish_row p s code now) rows) ≡ find_process q rows
  find-finished q p s code now rows ne =
      find-map (finish_row p s code now) q rows (finish_row-process_id p s code now)
      ∙ elim (Option-cases (find_process q rows)) [
        | inl e ↦ rw e refl
        | inr (row, e) ↦
            rw e (ap some (finish_row-other q p s code now row (find-process_id q row rows e) ne))
      ]

pub terminal_status-over :
    (s : String) (status : ProcessStatus)
    → terminal_status s ≡ some status
    → is_terminal status ≡ true
unfolding terminal_status
terminal_status-over s status h = ground arith
