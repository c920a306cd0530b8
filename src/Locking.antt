-- ===== src/Locking.antt =====
-- The writer lock of code_index/locking.py, for one lock path: `writer_lock` as the moves of the
-- threads of any number of processes.
pub mod Exclusion
pub mod Moves
pub mod History
mod Tests
use memory_network.Prelude.{
  ℕ, zero, suc, ◌+◌, Bool, true, false, ◌&&◌, Option, none, some, List, [], ◌∷◌, nat_beq,
  if◌then◌else◌, ltb,
}

-- Where a thread stands: outside of the function or in the body of its `with`, in
-- `local_lock.acquire()`, or in the loop that polls the lock of the system.
pub data Phase : Type 0 where
  running waiting polling : Phase

-- A `with` that a thread is in: it took the lock of the system, or it found it held.
pub data Frame : Type 0 where
  outermost nested : Frame

pub record Thread : Type 0 where
  pub phase : Phase
  pub frames : List Frame

-- A process: the owner and the count of the `RLock`, `_HELD_COUNT` (0 if there is no entry), and
-- its threads.
pub record Process : Type 0 where
  pub owner : Option ℕ
  pub depth : ℕ
  pub held : ℕ
  pub threads : ℕ → Thread

-- The process that has the lock of the system, and all processes.
pub record World : Type 0 where
  pub holder : Option ℕ
  pub processes : ℕ → Process

-- A function with another value at one place.
abbrev pub put {ℓ} : {A : Type ℓ} → ℕ → A → (ℕ → A) → ℕ → A
put k v f x = if nat_beq x k then v else f x

abbrev pub idle : Thread
idle = record { phase = running; frames = [] }

abbrev pub fresh : Process
fresh = record { owner = none; depth = 0; held = 0; threads = λ t. idle }

abbrev pub pred : ℕ → ℕ
pred zero = zero
pred (suc n) = n

-- Whether a thread may take the `RLock`.
unfoldable pub may_take : ℕ → Process → Bool
may_take tid proc = elim proc.owner [ none ↦ true | some t ↦ nat_beq t tid ]

-- `local_lock.release()`, with the thread as it goes on
unfoldable pub release : ℕ → Thread → Process → Process
release tid next proc = record {
  owner = if nat_beq (pred proc.depth) 0 then none else proc.owner;
  depth = pred proc.depth;
  held = proc.held;
  threads = put tid next proc.threads;
}

-- `local_lock.acquire()` and the test of `_HELD_COUNT`; nothing while another thread has the lock
unfoldable pub acquire : ℕ → Process → Option Process
unfolding may_take
acquire tid proc =
    let frames = (proc.threads tid).frames in
    if may_take tid proc
    then some (
        if ltb 0 proc.held
        then record {
          owner = some tid;
          depth = suc proc.depth;
          held = suc proc.held;
          threads = put tid (record { phase = running; frames = nested ∷ frames }) proc.threads;
        }
        else record {
          owner = some tid;
          depth = suc proc.depth;
          held = proc.held;
          threads = put tid (record { phase = polling; frames = frames }) proc.threads;
        })
    else none

-- Whether the system grants the lock: `fcntl.lockf` (`posix`) also to the process that has it,
-- `msvcrt.locking` only if no one has it.
unfoldable pub grants : Bool → ℕ → Option ℕ → Bool
grants posix pid none = true
grants posix pid (some q) = posix && nat_beq q pid

-- one round of the loop; `late` tells whether the deadline has passed
unfoldable pub poll : Bool → ℕ → ℕ → Bool → Option ℕ → Process → Option ℕ × Process
unfolding grants release
poll posix pid tid late holder proc =
    let frames = (proc.threads tid).frames in
    if grants posix pid holder
    then (
      some pid,
      record proc {
        held = 1;
        threads = put tid (record { phase = running; frames = outermost ∷ frames }) proc.threads;
      },
    )
    else if late
    then (holder, release tid (record { phase = running; frames = frames }) proc)
    else (holder, proc)

-- The end of a `with`, by an exception too: the count goes down, or its entry is removed and the
-- lock of the system is given back.
unfoldable pub leave : ℕ → Frame → List Frame → Option ℕ → Process → Option ℕ × Process
unfolding release
leave tid nested frames holder proc = (
  holder,
  release tid (record { phase = running; frames = frames }) (record proc { held = pred proc.held }),
)
leave tid outermost frames holder proc =
    (none, release tid (record { phase = running; frames = frames }) (record proc { held = 0 }))

-- what a thread does next; a process may also end at any time
pub data Move : Type 0 where
  call enter exit kill : Move
  try_lock : Bool → Move

-- the move of a thread in its process, if it can be made
unfoldable pub local_move : Bool → ℕ → ℕ → Move → Option ℕ → Process → Option (Option ℕ × Process)
unfolding acquire poll leave
local_move posix pid tid move holder proc = elim move [
  | call ↦ elim (proc.threads tid).phase [
    | running ↦ some (
      holder,
      record proc {
        threads =
            put tid (record { phase = waiting; frames = (proc.threads tid).frames }) proc.threads;
      },
    )
    | _ ↦ none
  ]
  | enter ↦ elim (proc.threads tid).phase [
    | waiting ↦ elim (acquire tid proc) [ none ↦ none | some next ↦ some (holder, next) ]
    | _ ↦ none
  ]
  | try_lock late ↦ elim (proc.threads tid).phase [
    | polling ↦ some (poll posix pid tid late holder proc)
    | _ ↦ none
  ]
  | exit ↦ elim (proc.threads tid).phase [
    | running ↦ elim (proc.threads tid).frames [
      | [] ↦ none
      | frame ∷ frames ↦ some (leave tid frame frames holder proc)
    ]
    | _ ↦ none
  ]
  | kill ↦
      some (elim holder [ none ↦ none | some q ↦ if nat_beq q pid then none else some q ], fresh)
]

-- the move of a thread in the world
unfoldable pub move : Bool → ℕ → ℕ → Move → World → Option World
unfolding local_move
move posix pid tid m world = elim (local_move posix pid tid m world.holder (world.processes pid)) [
  | none ↦ none
  | some (holder, proc) ↦
      some (record { holder = holder; processes = put pid proc world.processes })
]
