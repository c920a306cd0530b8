-- ===== src/Processes/Status.antt =====
-- The life of one process in the registry (code_index/run_lifecycle.py).
use Prim.Native.String.{String}
use memory_network.Prelude.{
  ℕ, ◌≡◌, ◌≢◌, refl, ap, ◌∙◌, true, inl, inr, Option, some, List, [], ◌∷◌, map, Bool-cases,
  Option-cases, is_some,
}
use memory_network.Prelude.Exec.{ok}
use memory_network.Prelude.Int.{ℤ}
use memory_network.Text.{Unicode, stripped}
use memory_network.Runs.{Run, get_run, run_of}
use memory_network.Processes.{
  ProcessStatus, is_terminal, Row, Registry, terminal_status, underscores, find_process,
  get_process, register_process, beat_row, heartbeat_process, finish_row, finish_process,
}
use memory_network.Processes.Rows.{
  beat_row-over, beat_row-process_id, beat_row-run_pk, find-add_last, find-finished, find-map,
  find-process_id, finish_row-over, finish_row-own, finish_row-process_id, finish_row-run_pk,
  terminal_status-over,
}

-- the calls that write to the registry
pub data Call (D : Type 0) : Type 0 where
  register : String → String → Option String → Option ℤ → Option String → D → String → ℕ → Call D
  heartbeat : String → ℕ → Call D
  finish : String → Option String → Option ℤ → ℕ → Call D

module _ {D : Type 0} where
  -- The process `p` is one of run `run_pk` and is over.
  abbrev pub Ended : String → ℕ → Registry D → Type 0
  Ended p run_pk registry =
      (row : Row D) × (find_process p registry.processes ≡ some row)
      × (row.run_pk ≡ run_pk)
      × (is_terminal row.status ≡ true)

  Ended-map :
      (f : Row D → Row D) (p : String) (run_pk : ℕ) (registry : Registry D)
      → ((row : Row D) → (f row).process_id ≡ row.process_id)
      → ((row : Row D) → (f row).run_pk ≡ row.run_pk)
      → ((row : Row D) → is_terminal row.status ≡ true → is_terminal (f row).status ≡ true)
      → Ended p run_pk registry
      → Ended p run_pk (record registry { processes = map f registry.processes })
  Ended-map f p run_pk registry same run over (row, e, k, t) =
      (f row, find-map f p registry.processes same ∙ rw e refl, run row ∙ k, over row t)

module _ ⦃u : Unicode⦄ {D : Type 0} where
  -- the registry after a call, whether it returns or raises
  unfoldable pub perform : Call D → Registry D → Registry D
  unfolding register_process heartbeat_process finish_process
  perform (register run_id transport provider pid label metadata process_id now) registry =
      (register_process run_id transport provider pid label metadata process_id now registry).1
  perform (heartbeat process_id now) registry = (heartbeat_process process_id now registry).1
  perform (finish process_id status exit_code now) registry =
      (finish_process process_id status exit_code now registry).1

  unfoldable pub perform_all : List (Call D) → Registry D → Registry D
  unfolding perform
  perform_all [] registry = registry
  perform_all (call ∷ calls) registry = perform_all calls (perform call registry)

  register-Ended :
      (run_id transport : String) (provider : Option String) (pid : Option ℤ)
      (label : Option String) (metadata : D) (id : String) (now : ℕ) (p : String) (run_pk : ℕ)
      (registry : Registry D)
      → Ended p run_pk registry
      → Ended p run_pk
          (register_process run_id transport provider pid label metadata id now registry).1
  unfolding register_process
  register-Ended run_id transport provider pid label metadata id now p run_pk registry
        (row, e, k, t) =
      elim (Option-cases (get_run run_id registry.runs)) [
        | inl g ↦ rw (register_process, g) (row, e, k, t)
        | inr (run, g) ↦ elim (Bool-cases (is_some (find_process id registry.processes))) [
          | inl d ↦ rw (register_process, g, d) (row, e, k, t)
          | inr d ↦
              rw (register_process, g, d) (row, find-add_last p _ row registry.processes e, k, t)
        ]
      ]

  finish-Ended :
      (id : String) (status : Option String) (code : Option ℤ) (now : ℕ) (p : String) (run_pk : ℕ)
      (registry : Registry D)
      → Ended p run_pk registry
      → Ended p run_pk (finish_process id status code now registry).1
  unfolding finish_process
  finish-Ended id status code now p run_pk registry h =
      elim (Option-cases (terminal_status (underscores (u.lower (stripped status))))) [
        | inl n ↦ rw (finish_process, n) h
        | inr (s, n) ↦
            rw (finish_process, n)
              (Ended-map (finish_row id s code now) p run_pk registry
                (finish_row-process_id id s code now) (finish_row-run_pk id s code now)
                (λ row.
                  finish_row-over id s code now row
                    (terminal_status-over (underscores (u.lower (stripped status))) s n))
                h)
      ]

  perform-Ended :
      (call : Call D) (p : String) (run_pk : ℕ) (registry : Registry D)
      → Ended p run_pk registry
      → Ended p run_pk (perform call registry)
  unfolding perform heartbeat_process
  perform-Ended (register run_id transport provider pid label metadata id now) p run_pk registry h =
      register-Ended run_id transport provider pid label metadata id now p run_pk registry h
  perform-Ended (heartbeat id now) p run_pk registry h =
      Ended-map (beat_row id now) p run_pk registry (beat_row-process_id id now)
        (beat_row-run_pk id now) (beat_row-over id now) h
  perform-Ended (finish id status code now) p run_pk registry h =
      finish-Ended id status code now p run_pk registry h

  -- A process whose status is terminal keeps its run and has a terminal status after every further
  -- history of `register_process`, `heartbeat_process` and `finish_process`, raising or not: it never
  -- counts as started again.
  pub perform_all-Ended :
      (calls : List (Call D)) (p : String) (run_pk : ℕ) (registry : Registry D)
      → Ended p run_pk registry
      → Ended p run_pk (perform_all calls registry)
  unfolding perform_all
  perform_all-Ended [] p run_pk registry h = h
  perform_all-Ended (call ∷ calls) p run_pk registry h =
      perform_all-Ended calls p run_pk (perform call registry)
        (perform-Ended call p run_pk registry h)

  -- `finish_process` of a registered process of a stored run, with a text that normalizes to a
  -- terminal status, returns the process with that status, the exit code and the time as its end and
  -- last heartbeat, whatever its status was, and leaves every other process as it is.
  pub finish_process-status :
      (p : String) (status : Option String) (s : ProcessStatus) (code : Option ℤ) (now : ℕ)
      (registry : Registry D) (row : Row D) (run : Run)
      → terminal_status (underscores (u.lower (stripped status))) ≡ some s
      → find_process p registry.processes ≡ some row
      → run_of row.run_pk registry.runs ≡ some run
      → ((finish_process p status code now registry).0
          ≡ ok (
            run,
            record row {
              status = s;
              ended_at = some now;
              heartbeat_at = some now;
              exit_code = code;
            },
          ))
        × ((q : String)
            → q ≢ p
            → find_process q (finish_process p status code now registry).1.processes
              ≡ find_process q registry.processes)
  unfolding finish_process get_process
  finish_process-status p status s code now registry row run n e r =
      let id : row.process_id ≡ p = find-process_id p row registry.processes e in
      let own : finish_row p s code now row ≡ record row {
        status = s;
        ended_at = some now;
        heartbeat_at = some now;
        exit_code = code;
      } =
        rw (← id) (finish_row-own s code now row) in
      let found : find_process p (map (finish_row p s code now) registry.processes)
          ≡ some (record row {
            status = s;
            ended_at = some now;
            heartbeat_at = some now;
            exit_code = code;
          }) =
        find-map (finish_row p s code now) p registry.processes (finish_row-process_id p s code now)
        ∙ rw e (ap some own) in
      (
        rw (finish_process, n, get_process, found, r) refl,
        λ q ne. rw (finish_process, n) (find-finished q p s code now registry.processes ne),
      )
