-- ===== src/Locking/Tests.antt =====
-- Runs of the writer lock (code_index/locking.py), and the theorems at these runs.
use memory_network.Prelude.{
  ℕ, ◌≡◌, refl, true, false, none, some, List, [], ◌∷◌, value_or, arith, inl, inr, nat_beq,
  Bool-cases,
}
use memory_network.Locking.{
  running, waiting, nested, World, fresh, Move, call, enter, exit, kill, try_lock, move,
}
use memory_network.Locking.History.{
  Reached, started, moved, Reached-one_writer, Reached-released, Reached-reentrant,
}

abbrev world : World
world = record { holder = none; processes = λ p. fresh }

-- the moves that can be made, one after the other
abbrev run : List (ℕ × ℕ × Move) → World → World
run [] w = w
run ((pid, tid, m) ∷ moves) w = run moves (value_or w (move true pid tid m w))

abbrev enter_1 : List (ℕ × ℕ × Move)
enter_1 = (1, 7, call) ∷ (1, 7, enter) ∷ (1, 7, try_lock false) ∷ []

abbrev inside_1 : World
inside_1 = run enter_1 world

program : Unit {0}
unfolding move
program = tt

-- Process 2 waits in vain, process 1 enters once more and leaves twice, and process 2 gets the lock.
abbrev moves : List (ℕ × ℕ × Move)
moves =
    (2, 3, call)
    ∷ (2, 3, enter)
    ∷ (2, 3, try_lock false)
    ∷ (1, 7, call)
    ∷ (1, 7, enter)
    ∷ (1, 7, exit)
    ∷ (2, 3, try_lock false)
    ∷ (1, 7, exit)
    ∷ (2, 3, try_lock false)
    ∷ []

first_holder : inside_1.holder ≡ some 1
unfolding program
first_holder = refl

handed_over : (run moves inside_1).holder ≡ some 2
unfolding program
handed_over = refl

-- A thread of the process that has the lock waits for the thread that is inside, however long.
other_thread :
    (((run ((1, 8, call) ∷ (1, 8, enter) ∷ (1, 8, try_lock true) ∷ []) inside_1).processes
        1).threads
      8).phase
    ≡ waiting
unfolding program
other_thread = refl

-- A process that ends gives the lock back.
dead_holder : (run ((1, 7, kill) ∷ []) inside_1).holder ≡ none
unfolding program
dead_holder = refl

inside_1-Reached : Reached true inside_1
unfolding program
inside_1-Reached =
    moved
      (moved (moved started 1 7 call (run ((1, 7, call) ∷ []) world) refl) 1 7 enter
        (run ((1, 7, call) ∷ (1, 7, enter) ∷ []) world) refl)
      1 7 (try_lock false) inside_1 refl

Reached-one_writer_example : (◌≡◌ {A = ℕ} 1 1) × (◌≡◌ {A = ℕ} 7 7)
unfolding program
Reached-one_writer_example = Reached-one_writer inside_1-Reached 1 7 1 7 (omega arith) (omega arith)

-- the process that was inside has ended
abbrev ended : World
ended = run ((1, 7, kill) ∷ []) inside_1

ended-Reached : Reached true ended
unfolding program
ended-Reached = moved inside_1-Reached 1 7 kill ended refl

all_out : (p t : ℕ) → ((ended.processes p).threads t).frames ≡ []
unfolding program
all_out p t = elim (Bool-cases (nat_beq p 1)) [ inl e ↦ rw e refl | inr e ↦ rw e refl ]

Reached-released_example : ended.holder ≡ none
unfolding program
Reached-released_example = Reached-released ended-Reached all_out

Reached-reentrant_example :
    (asked : World) × (deeper : World) × (move true 1 7 call inside_1 ≡ some asked)
    × (move true 1 7 enter asked ≡ some deeper)
    × (deeper.holder ≡ inside_1.holder)
    × (((deeper.processes 1).threads 7).phase ≡ running)
    × (((deeper.processes 1).threads 7).frames ≡ nested ∷ ((inside_1.processes 1).threads 7).frames)
unfolding program
Reached-reentrant_example = Reached-reentrant inside_1-Reached 1 7 (omega arith) refl
