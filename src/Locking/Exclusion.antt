-- ===== src/Locking/Exclusion.antt =====
-- Only one thread at a time is in the body of `writer_lock` (code_index/locking.py).
pub mod Counts
use memory_network.Prelude.{
  ℕ, zero, suc, ◌+◌, ◌<◌, ◌≤◌, ◌≡◌, ◌≢◌, refl, sym, ap, subst, ◌∙◌, Bool, true, false, ◌&&◌, inl,
  inr, Option, none, some, List, [], ◌∷◌, nat_beq, if◌then◌else◌, ltb, arith, Bool-cases,
  Option-cases, ◌⊎◌,
}
use memory_network.Prelude.Equality.{nat_beq_iff}
use memory_network.Prelude.Lists.{length}
use memory_network.Locking.{
  Phase, running, waiting, polling, Frame, outermost, nested, Thread, Process, World, put, idle,
  fresh, pred, may_take, release, acquire, grants, poll, leave, Move, call, enter, exit, kill,
  try_lock, local_move, move,
}

-- The first `with` of a thread took the lock of the system, the others found it held.
abbrev pub Shape : List Frame → Type 0
Shape [] = Unit
Shape (outermost ∷ frames) = frames ≡ []
Shape (nested ∷ frames) = (0 < length frames) × Shape frames

abbrev pub rounds : Phase → ℕ
rounds polling = 1
rounds _ = 0

-- how many releases of the `RLock` a thread owes
abbrev pub owed : Thread → ℕ
owed thread = rounds thread.phase + length thread.frames

-- The counts of a process are those of the thread that owns its `RLock`.
abbrev pub Counts : Process → Thread → Type 0
Counts proc thread =
    (proc.depth ≡ owed thread)
    × (proc.held ≡ length thread.frames)
    × (0 < proc.depth)
    × Shape thread.frames
    × (thread.phase ≡ polling → thread.frames ≡ [])

abbrev pub Fits : ℕ → Option ℕ → Process → Type 0
Fits pid holder proc =
    ((t : ℕ) → 0 < owed (proc.threads t) → proc.owner ≡ some t)
    × ((t : ℕ) → proc.owner ≡ some t → Counts proc (proc.threads t))
    × (proc.owner ≡ none → (proc.held ≡ 0) × (proc.depth ≡ 0))
    × (0 < proc.held → holder ≡ some pid)
    × (holder ≡ some pid → 0 < proc.held)

pub fresh-Fits : (pid : ℕ) (holder : Option ℕ) → holder ≢ some pid → Fits pid holder fresh
fresh-Fits pid holder free = (
  λ t h. absurd (omega arith),
  λ t h. absurd (cc h),
  λ h. (refl, refl),
  λ h. absurd (omega arith),
  λ h. absurd (free h),
)

pub put-eq : {A : Type 0} (k : ℕ) (v : A) (f : ℕ → A) → put k v f k ≡ v
put-eq k v f = rw ((nat_beq_iff k k).1 refl) refl

-- what holds of the new value and of the others holds everywhere
pub put-every :
    {A : Type 0} (Q : ℕ → A → Type 0) (k : ℕ) (v : A) (f : ℕ → A)
    → Q k v
    → ((x : ℕ) → x ≢ k → Q x (f x))
    → (x : ℕ) → Q x (put k v f x)
put-every Q k v f here there x = elim (Bool-cases (nat_beq x k)) [
  | inl e ↦ rw e (subst (λ y. Q y v) (sym ((nat_beq_iff x k).0 e)) here)
  | inr e ↦ rw e (there x (λ same. absurd (cc (e, (nat_beq_iff x k).1 same))))
]

-- The call of the function changes no count.
pub call-Fits :
    (pid tid : ℕ) (holder : Option ℕ) (proc : Process)
    → Fits pid holder proc
    → (proc.threads tid).phase ≡ running
    → Fits pid holder (record proc {
      threads =
          put tid (record { phase = waiting; frames = (proc.threads tid).frames }) proc.threads;
    })
call-Fits pid tid holder proc (busy, own, free, up, down) at =
    let next : Thread = record { phase = waiting; frames = (proc.threads tid).frames } in
    let same : owed next ≡ owed (proc.threads tid) = rw at refl in
    (
      put-every (λ t thread. 0 < owed thread → proc.owner ≡ some t) tid next proc.threads
          (λ h. busy tid (rw (← same) h)) (λ t ne. busy t),
      put-every (λ t thread. proc.owner ≡ some t → Counts proc thread) tid next proc.threads
          (λ o.
            let (d, h, pos, shape, p) = own tid o in
            (d ∙ sym same, h, pos, shape, λ x. absurd (cc x)))
          (λ t ne. own t),
      free,
      up,
      down,
    )

-- The other threads are outside, if the `RLock` is free or the thread's own.
pub others_idle :
    (pid tid : ℕ) (holder : Option ℕ) (proc : Process)
    → Fits pid holder proc
    → (proc.owner ≡ none) ⊎ (proc.owner ≡ some tid)
    → (t : ℕ) → t ≢ tid
    → owed (proc.threads t) ≡ 0
others_idle pid tid holder proc (busy, own, free, up, down) mine t ne =
    elim (Bool-cases (nat_beq (owed (proc.threads t)) 0)) [
      | inl e ↦ (nat_beq_iff (owed (proc.threads t)) 0).0 e
      | inr e ↦
          let owns : proc.owner ≡ some t = busy t (ground arith) in
          elim mine [ inl o ↦ absurd (cc (o, owns)) | inr o ↦ absurd (ne (cc (o, owns))) ]
    ]

-- A process in which one thread owns the `RLock` and the others are outside.
pub own-Fits :
    (pid tid : ℕ) (holder : Option ℕ) (proc : Process) (thread : Thread) (threads : ℕ → Thread)
    → proc.owner ≡ some tid
    → proc.threads ≡ put tid thread threads
    → Counts proc thread
    → ((t : ℕ) → t ≢ tid → owed (threads t) ≡ 0)
    → (0 < proc.held → holder ≡ some pid)
    → (holder ≡ some pid → 0 < proc.held)
    → Fits pid holder proc
own-Fits pid tid holder proc thread threads o e counts others up down = (
  rw e (
      put-every (λ t th. 0 < owed th → proc.owner ≡ some t) tid thread threads (λ h. o)
        (λ t ne h. let z = others t ne in absurd (ground arith))),
  rw e (
      put-every (λ t th. proc.owner ≡ some t → Counts proc th) tid thread threads (λ h. counts)
        (λ t ne h. absurd (ne (cc (o, h))))),
  λ n. absurd (cc (o, n)),
  up,
  down,
)

-- A process in which all threads are outside.
pub free-Fits :
    (pid tid : ℕ) (holder : Option ℕ) (proc : Process) (thread : Thread) (threads : ℕ → Thread)
    → proc.owner ≡ none
    → proc.threads ≡ put tid thread threads
    → owed thread ≡ 0
    → ((t : ℕ) → t ≢ tid → owed (threads t) ≡ 0)
    → proc.held ≡ 0
    → proc.depth ≡ 0
    → holder ≢ some pid
    → Fits pid holder proc
free-Fits pid tid holder proc thread threads o e here others h d away = (
  rw e (
      put-every (λ t th. 0 < owed th → proc.owner ≡ some t) tid thread threads
        (λ p. absurd (ground arith)) (λ t ne p. let z = others t ne in absurd (ground arith))),
  λ t p. absurd (cc (o, p)),
  λ n. (h, d),
  λ p. absurd (ground arith),
  λ p. absurd (away p),
)
