-- ===== src/Locking/Exclusion/Counts.antt =====
-- Each move of a thread into and out of the lock keeps the counts of its process
-- (code_index/locking.py).
use memory_network.Prelude.{
  ℕ, suc, ◌+◌, ◌<◌, ◌≡◌, ◌≢◌, refl, sym, ap, subst, ◌∙◌, Bool, true, false, inl, inr, Option, none,
  some, List, [], ◌∷◌, nat_beq, ltb, arith, Bool-cases, Option-cases, ◌⊎◌,
}
use memory_network.Prelude.Equality.{nat_beq_iff}
use memory_network.Prelude.Lists.{length}
use memory_network.Locking.{
  running, waiting, polling, Frame, outermost, nested, Thread, Process, put, pred, may_take,
  release, acquire, grants, poll, leave,
}
use memory_network.Locking.Exclusion.{Shape, owed, Fits, others_idle, own-Fits, free-Fits}

length-nil : (frames : List Frame) → length frames ≡ 0 → frames ≡ []
length-nil [] e = refl
length-nil (f ∷ frames) e = absurd (ground arith)

taker :
    (tid : ℕ) (proc : Process)
    → may_take tid proc ≡ true
    → (proc.owner ≡ none) ⊎ (proc.owner ≡ some tid)
unfolding may_take
taker tid proc h = elim (Option-cases proc.owner) [
  | inl n ↦ inl n
  | inr (t, o) ↦ inr (o ∙ ap some ((nat_beq_iff t tid).0 (rw (may_take, o) at h)))
]

-- A thread that comes to a lock that is not held is in no `with`, and the lock is its own for the first time.
first_taker :
    (pid tid : ℕ) (holder : Option ℕ) (proc : Process)
    → Fits pid holder proc
    → (proc.owner ≡ none) ⊎ (proc.owner ≡ some tid)
    → (proc.threads tid).phase ≡ waiting
    → proc.held ≡ 0
    → ((proc.threads tid).frames ≡ []) × (proc.depth ≡ 0)
first_taker pid tid holder proc (busy, own, free, up, down) (inl n) at h =
    elim (Bool-cases (nat_beq (length (proc.threads tid).frames) 0)) [
      | inl e ↦ (length-nil (proc.threads tid).frames (ground arith), (free n).1)
      | inr e ↦ absurd (cc (n, busy tid (rw at (ground arith))))
    ]
first_taker pid tid holder proc (busy, own, free, up, down) (inr o) at h =
    let (d, l, pos, shape, p) = own tid o in
    let none_in : length (proc.threads tid).frames ≡ 0 = sym l ∙ h in
    let no_depth : proc.depth ≡ 0 + length (proc.threads tid).frames = rw at at d in
    absurd (ground arith)

pub acquire-Fits :
    (pid tid : ℕ) (holder : Option ℕ) (proc next : Process)
    → Fits pid holder proc
    → (proc.threads tid).phase ≡ waiting
    → acquire tid proc ≡ some next
    → Fits pid holder next
unfolding acquire
acquire-Fits pid tid holder proc next fits at e = elim (Bool-cases (may_take tid proc)) [
  | inr busy ↦ absurd (cc (rw (acquire, busy) at e))
  | inl taken ↦
      let mine = taker tid proc taken in
      let others = others_idle pid tid holder proc fits mine in
      let (busy, own, free, up, down) = fits in
      elim (Bool-cases (ltb 0 proc.held)) [
        | inl held ↦
            let thread : Thread = record {
              phase = running;
              frames = nested ∷ (proc.threads tid).frames;
            } in
            let entered : Process = record {
              owner = some tid;
              depth = suc proc.depth;
              held = suc proc.held;
              threads = put tid thread proc.threads;
            } in
            let same : entered ≡ next = cc (rw (acquire, taken, held) at e) in
            let some_held : 0 < proc.held = ground arith in
            let mine' : proc.owner ≡ some tid = elim mine [
              | inl n ↦ let zero_held = (free n).0 in absurd (ground arith)
              | inr o ↦ o
            ] in
            let (d, l, pos, shape, p) = own tid mine' in
            let depth : proc.depth ≡ 0 + length (proc.threads tid).frames = rw at at d in
            subst (Fits pid holder) same (
              own-Fits pid tid holder entered thread proc.threads refl refl
                (
                  ground arith,
                  ap suc l,
                  ground arith,
                  (rw l at some_held, shape),
                  λ q. absurd (cc q),
                )
                others (λ q. up some_held) (λ q. ground arith))
        | inr unheld ↦
            let thread : Thread = record { phase = polling; frames = (proc.threads tid).frames } in
            let entered : Process = record {
              owner = some tid;
              depth = suc proc.depth;
              held = proc.held;
              threads = put tid thread proc.threads;
            } in
            let same : entered ≡ next = cc (rw (acquire, taken, unheld) at e) in
            let none_held : proc.held ≡ 0 = ground arith in
            let (out, d) = first_taker pid tid holder proc fits mine at none_held in
            let none_in : length (proc.threads tid).frames ≡ 0 = ap length out in
            subst (Fits pid holder) same (
              own-Fits pid tid holder entered thread proc.threads refl refl
                (ground arith, none_held ∙ sym none_in, ground arith, rw out tt, λ q. out) others up
                down)
      ]
]

-- The lock of the system is granted only if no other process has it.
pub grants-other :
    (posix : Bool) (pid : ℕ) (holder : Option ℕ)
    → grants posix pid holder ≡ true
    → (holder ≡ none) ⊎ (holder ≡ some pid)
unfolding grants
grants-other posix pid none h = inl refl
grants-other posix pid (some q) h = inr (ap some ((nat_beq_iff q pid).0 (ground arith)))

-- The thread gives back what it took of the `RLock`.
release-Fits :
    (pid tid : ℕ) (holder : Option ℕ) (proc : Process) (frames : List Frame)
    → proc.owner ≡ some tid
    → proc.depth ≡ suc (length frames)
    → proc.held ≡ length frames
    → Shape frames
    → ((t : ℕ) → t ≢ tid → owed (proc.threads t) ≡ 0)
    → (0 < proc.held → holder ≡ some pid)
    → (holder ≡ some pid → 0 < proc.held)
    → Fits pid holder (release tid (record { phase = running; frames = frames }) proc)
unfolding release
release-Fits pid tid holder proc [] o d l shape others up down =
    let last : pred proc.depth ≡ 0 = rw d refl in
    free-Fits pid tid holder _ (record { phase = running; frames = [] }) proc.threads (rw last refl)
      refl refl others l last (λ e. let z = down e in absurd (ground arith))
release-Fits pid tid holder proc (f ∷ frames) o d l shape others up down =
    let more : pred proc.depth ≡ length (f ∷ frames) = rw d refl in
    let nonzero : nat_beq (suc (length frames)) 0 ≡ false = ground arith in
    own-Fits pid tid holder _ (record { phase = running; frames = f ∷ frames }) proc.threads
      (rw (more, nonzero) o) refl (ground arith, l, ground arith, shape, λ q. absurd (cc q)) others
      up down

pub poll-Fits :
    (posix : Bool) (pid tid : ℕ) (late : Bool) (holder : Option ℕ) (proc : Process)
    → Fits pid holder proc
    → (proc.threads tid).phase ≡ polling
    → Fits pid (poll posix pid tid late holder proc).0 (poll posix pid tid late holder proc).1
unfolding poll
poll-Fits posix pid tid late holder proc fits at =
    let (busy, own, free, up, down) = fits in
    let mine : proc.owner ≡ some tid = busy tid (rw at (ground arith)) in
    let others = others_idle pid tid holder proc fits (inr mine) in
    let (d, l, pos, shape, p) = own tid mine in
    let out = p at in
    let none_in : length (proc.threads tid).frames ≡ 0 = ap length out in
    let depth : proc.depth ≡ 1 + length (proc.threads tid).frames = rw at at d in
    elim (Bool-cases (grants posix pid holder)) [
      | inl granted ↦ rw granted (
          own-Fits pid tid (some pid) _
            (record { phase = running; frames = outermost ∷ (proc.threads tid).frames })
            proc.threads mine refl
            (ground arith, ap suc (sym none_in), pos, out, λ q. absurd (cc q)) others (λ q. refl)
            (λ q. ground arith))
      | inr refused ↦ elim (Bool-cases late) [
        | inr early ↦ rw (refused, early) fits
        | inl passed ↦
            rw (refused, passed)
              (release-Fits pid tid holder proc (proc.threads tid).frames mine (ground arith) l
                shape others up down)
      ]
    ]

-- A thread that leaves a `with` owns the `RLock` and has counted it.
pub leaver :
    (pid tid : ℕ) (frame : Frame) (frames : List Frame) (holder : Option ℕ) (proc : Process)
    → Fits pid holder proc
    → (proc.threads tid).phase ≡ running
    → (proc.threads tid).frames ≡ frame ∷ frames
    → (proc.owner ≡ some tid)
      × (proc.depth ≡ suc (length frames))
      × (proc.held ≡ suc (length frames))
      × Shape (frame ∷ frames)
      × ((t : ℕ) → t ≢ tid → owed (proc.threads t) ≡ 0)
leaver pid tid frame frames holder proc fits at in_it =
    let (busy, own, free, up, down) = fits in
    let mine : proc.owner ≡ some tid = busy tid (rw (at, in_it) (ground arith)) in
    let (d, l, pos, shape, p) = own tid mine in
    let depth : proc.depth ≡ 0 + suc (length frames) = rw (at, in_it) at d in
    (
      mine,
      ground arith,
      rw in_it at l,
      rw in_it at shape,
      others_idle pid tid holder proc fits (inr mine),
    )

pub leave-Fits :
    (pid tid : ℕ) (frame : Frame) (frames : List Frame) (holder : Option ℕ) (proc : Process)
    → Fits pid holder proc
    → (proc.threads tid).phase ≡ running
    → (proc.threads tid).frames ≡ frame ∷ frames
    → Fits pid (leave tid frame frames holder proc).0 (leave tid frame frames holder proc).1
unfolding leave
leave-Fits pid tid nested frames holder proc fits at in_it =
    let (mine, d, l, shape, others) = leaver pid tid nested frames holder proc fits at in_it in
    let (busy, own, free, up, down) = fits in
    let fewer : pred proc.held ≡ length frames = rw l refl in
    let still = shape.0 in
    release-Fits pid tid holder (record proc { held = pred proc.held }) frames mine d fewer shape.1
      others (λ q. up (rw l (ground arith))) (λ q. rw fewer still)
leave-Fits pid tid outermost frames holder proc fits at in_it =
    let (mine, d, l, shape, others) = leaver pid tid outermost frames holder proc fits at in_it in
    release-Fits pid tid none (record proc { held = 0 }) frames mine d (rw shape refl) (rw shape tt)
      others (λ q. absurd (ground arith)) (λ q. absurd (cc q))
