-- ===== src/Locking/Moves.antt =====
-- The moves of a thread keep the counts of its process (code_index/locking.py).
use memory_network.Prelude.{
  ℕ, ◌≡◌, ◌≢◌, refl, ap, Bool, inl, inr, Option, none, some, List, [], ◌∷◌, nat_beq, if◌then◌else◌,
  arith, Bool-cases, Option-cases, ◌⊎◌,
}
use memory_network.Prelude.Equality.{nat_beq_iff}
use memory_network.Locking.{
  Phase, running, waiting, polling, Frame, outermost, nested, Process, acquire, grants, poll, leave,
  Move, call, enter, exit, kill, try_lock, local_move,
}
use memory_network.Locking.Exclusion.Counts.{
  acquire-Fits, poll-Fits, leave-Fits, leaver, grants-other,
}
use memory_network.Locking.Exclusion.{Fits, fresh-Fits, call-Fits}

-- what holds after a move that can be made
abbrev pub After : (Option ℕ → Process → Type 0) → Option (Option ℕ × Process) → Type 0
After P none = Unit
After P (some (holder, proc)) = P holder proc

phase-cases : (phase : Phase) → (phase ≡ running) ⊎ ((phase ≡ waiting) ⊎ (phase ≡ polling))
phase-cases running = inl refl
phase-cases waiting = inr (inl refl)
phase-cases polling = inr (inr refl)

frames-cases :
    (frames : List Frame)
    → (frames ≡ []) ⊎ ((f : Frame) × (rest : List Frame) × (frames ≡ f ∷ rest))
frames-cases [] = inl refl
frames-cases (f ∷ rest) = inr (f, rest, refl)

-- A process that ends gives back the lock of the system.
killed-free :
    (pid : ℕ) (holder : Option ℕ)
    → elim holder [ none ↦ none | some q ↦ if nat_beq q pid then none else some q ] ≢ some pid
killed-free pid none e = absurd (cc e)
killed-free pid (some q) e = elim (Bool-cases (nat_beq q pid)) [
  | inl same ↦ absurd (cc (rw same at e))
  | inr apart ↦
      let z : some q ≡ some pid = rw apart at e in
      let y : q ≡ pid = cc z in absurd (cc (apart, (nat_beq_iff q pid).1 y))
]

-- Nothing changes for the other processes: the holder stays, or it was and is nobody or this process.
abbrev pub Kept : ℕ → Option ℕ → Option ℕ → Type 0
Kept pid holder next =
    (next ≡ holder)
    ⊎ (((holder ≡ none) ⊎ (holder ≡ some pid)) × ((next ≡ none) ⊎ (next ≡ some pid)))

poll-Kept :
    (posix : Bool) (pid tid : ℕ) (late : Bool) (holder : Option ℕ) (proc : Process)
    → Kept pid holder (poll posix pid tid late holder proc).0
unfolding poll
poll-Kept posix pid tid late holder proc = elim (Bool-cases (grants posix pid holder)) [
  | inl granted ↦ rw granted (inr (grants-other posix pid holder granted, inr refl))
  | inr refused ↦ elim (Bool-cases late) [
    | inr early ↦ rw (refused, early) (inl refl)
    | inl passed ↦ rw (refused, passed) (inl refl)
  ]
]

leave-Kept :
    (pid tid : ℕ) (frame : Frame) (frames : List Frame) (holder : Option ℕ) (proc : Process)
    → Fits pid holder proc
    → (proc.threads tid).phase ≡ running
    → (proc.threads tid).frames ≡ frame ∷ frames
    → Kept pid holder (leave tid frame frames holder proc).0
unfolding leave
leave-Kept pid tid nested frames holder proc fits at in_it = inl refl
leave-Kept pid tid outermost frames holder proc fits at in_it =
    let (mine, d, l, shape, others) = leaver pid tid outermost frames holder proc fits at in_it in
    let (busy, own, free, up, down) = fits in inr (inr (up (rw l (ground arith))), inl refl)

killed-Kept :
    (pid : ℕ) (holder : Option ℕ)
    → Kept pid holder
        (elim holder [ none ↦ none | some q ↦ if nat_beq q pid then none else some q ])
killed-Kept pid none = inl refl
killed-Kept pid (some q) = elim (Bool-cases (nat_beq q pid)) [
  | inl same ↦ rw same (inr (inr (ap some ((nat_beq_iff q pid).0 same)), inl refl))
  | inr apart ↦ rw apart (inl refl)
]

-- A move keeps the counts of its process and changes nothing for the others.
pub local_move-Fits :
    (posix : Bool) (pid tid : ℕ) (m : Move) (holder : Option ℕ) (proc : Process)
    → Fits pid holder proc
    → After
        (λ next p. Fits pid next p × Kept pid holder next)
        (local_move posix pid tid m holder proc)
unfolding local_move
local_move-Fits posix pid tid call holder proc fits = elim (phase-cases (proc.threads tid).phase) [
  | inl e ↦ rw (After, e) (call-Fits pid tid holder proc fits e, inl refl)
  | inr (inl e) ↦ rw (After, e) tt
  | inr (inr e) ↦ rw (After, e) tt
]
local_move-Fits posix pid tid enter holder proc fits = elim (phase-cases (proc.threads tid).phase) [
  | inl e ↦ rw (After, e) tt
  | inr (inl e) ↦ elim (Option-cases (acquire tid proc)) [
    | inl n ↦ rw (After, e, n) tt
    | inr (next, n) ↦ rw (After, e, n) (acquire-Fits pid tid holder proc next fits e n, inl refl)
  ]
  | inr (inr e) ↦ rw (After, e) tt
]
local_move-Fits posix pid tid (try_lock late) holder proc fits =
    elim (phase-cases (proc.threads tid).phase) [
      | inl e ↦ rw (After, e) tt
      | inr (inl e) ↦ rw (After, e) tt
      | inr (inr e) ↦
          rw (After, e)
            (
              poll-Fits posix pid tid late holder proc fits e,
              poll-Kept posix pid tid late holder proc,
            )
    ]
local_move-Fits posix pid tid exit holder proc fits = elim (phase-cases (proc.threads tid).phase) [
  | inl e ↦ elim (frames-cases (proc.threads tid).frames) [
    | inl n ↦ rw (After, e, n) tt
    | inr (f, rest, n) ↦
        rw (After, e, n)
          (
            leave-Fits pid tid f rest holder proc fits e n,
            leave-Kept pid tid f rest holder proc fits e n,
          )
  ]
  | inr (inl e) ↦ rw (After, e) tt
  | inr (inr e) ↦ rw (After, e) tt
]
local_move-Fits posix pid tid kill holder proc fits =
    (fresh-Fits pid _ (killed-free pid holder), killed-Kept pid holder)
