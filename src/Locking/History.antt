-- ===== src/Locking/History.antt =====
-- The histories of the writer lock (code_index/locking.py): the threads of all processes move in any
-- order, and a process may end at any time.
use memory_network.Prelude.{
  ℕ, suc, ◌<◌, ◌≡◌, ◌≢◌, refl, sym, ap, subst, Bool, true, inl, inr, Option, none, some, [], ◌∷◌,
  nat_beq, ltb, arith, Option-cases, ◌⊎◌,
}
use memory_network.Prelude.Equality.{nat_beq_iff}
use memory_network.Prelude.Lists.{length}
use memory_network.Locking.{
  running, waiting, nested, Process, World, put, fresh, may_take, acquire, Move, call, enter,
  local_move, move,
}
use memory_network.Locking.Exclusion.{Fits, fresh-Fits, put-every, put-eq}
use memory_network.Locking.Moves.{After, Kept, local_move-Fits}

-- the worlds that the moves lead to, on POSIX systems or on Windows
pub data Reached (posix : Bool) : World → Type 0 where
  started : Reached posix (record { holder = none; processes = λ p. fresh })
  moved :
      {w : World}
      → Reached posix w
      → (pid tid : ℕ) (m : Move) (w' : World) → move posix pid tid m w ≡ some w'
      → Reached posix w'

-- The counts of all processes are right.
abbrev AllFit : World → Type 0
AllFit w = (p : ℕ) → Fits p w.holder (w.processes p)

-- What another process has, it keeps.
Kept-Fits :
    (pid p : ℕ) (holder next : Option ℕ) (proc : Process)
    → p ≢ pid
    → Kept pid holder next
    → Fits p holder proc
    → Fits p next proc
Kept-Fits pid p holder next proc ne (inl e) fits = rw e fits
Kept-Fits pid p holder next proc ne (inr (was, is)) (busy, own, free, up, down) =
    (busy, own, free, λ h. absurd (elsewhere holder was (up h)), λ h. absurd (elsewhere next is h))
  where
    elsewhere : (o : Option ℕ) → (o ≡ none) ⊎ (o ≡ some pid) → o ≢ some p
    elsewhere o (inl e) h = absurd (cc (e, h))
    elsewhere o (inr e) h = ne (cc (e, h))

move-AllFit :
    (posix : Bool) (pid tid : ℕ) (m : Move) (w w' : World)
    → AllFit w
    → move posix pid tid m w ≡ some w'
    → AllFit w'
unfolding move
move-AllFit posix pid tid m w w' fits e =
    elim (Option-cases (local_move posix pid tid m w.holder (w.processes pid))) [
      | inl n ↦ absurd (cc (rw (move, n) at e))
      | inr ((next, proc), n) ↦
          let done : After (λ h q. Fits pid h q × Kept pid w.holder h) (some (next, proc)) =
            subst (After (λ h q. Fits pid h q × Kept pid w.holder h)) n
              (local_move-Fits posix pid tid m w.holder (w.processes pid) (fits pid)) in
          let after : World = record { holder = next; processes = put pid proc w.processes } in
          let same : after ≡ w' = cc (rw (move, n) at e) in
          subst AllFit same (
            put-every (λ p q. Fits p next q) pid proc w.processes done.0
              (λ p ne. Kept-Fits pid p w.holder next (w.processes p) ne done.1 (fits p)))
    ]

Reached-AllFit : {posix : Bool} {w : World} → Reached posix w → AllFit w
Reached-AllFit started p = fresh-Fits p none (λ e. absurd (cc e))
Reached-AllFit {posix = posix} (moved {w = w} h pid tid m w' e) p =
    move-AllFit posix pid tid m w w' (Reached-AllFit h) e p

-- A thread in a `with` has its process's `RLock`, and its process has the lock of the system.
inside :
    (w : World) (p t : ℕ)
    → AllFit w
    → 0 < length ((w.processes p).threads t).frames
    → ((w.processes p).owner ≡ some t) × (w.holder ≡ some p)
inside w p t fits h =
    let (busy, own, free, up, down) = fits p in
    let mine = busy t (ground arith) in
    let (d, l, pos, shape, out) = own t mine in (mine, up (ground arith))

-- In every history, on POSIX systems and on Windows, two threads that are inside of the writer
-- lock at one time are the same thread of the same process.
pub Reached-one_writer :
    {posix : Bool} {w : World}
    → Reached posix w
    → (p t q s : ℕ) → 0 < length ((w.processes p).threads t).frames
    → 0 < length ((w.processes q).threads s).frames
    → (p ≡ q) × (t ≡ s)
Reached-one_writer {w = w} h p t q s in_p in_q =
    let fits = Reached-AllFit h in
    let (own_p, hold_p) = inside w p t fits in_p in
    let (own_q, hold_q) = inside w q s fits in_q in
    let same : p ≡ q = cc (hold_p, hold_q) in
    let own_p' : (w.processes q).owner ≡ some t =
      subst (λ x. (w.processes x).owner ≡ some t) same own_p in
    (same, cc (own_p', own_q))

-- In every history, when no thread is inside then no process has the lock of the system.
pub Reached-released :
    {posix : Bool} {w : World}
    → Reached posix w
    → ((p t : ℕ) → ((w.processes p).threads t).frames ≡ [])
    → w.holder ≡ none
Reached-released {w = w} h empty = elim (Option-cases w.holder) [
  | inl n ↦ n
  | inr (p, e) ↦
      let (busy, own, free, up, down) = Reached-AllFit h p in
      let held = down e in
      elim (Option-cases (w.processes p).owner) [
        | inl n ↦ let unheld = (free n).0 in absurd (ground arith)
        | inr (t, o) ↦
            let (d, l, pos, shape, out) = own t o in
            let zero_in : length ((w.processes p).threads t).frames ≡ 0 = ap length (empty p t) in
            absurd (ground arith)
      ]
]

move-eq :
    (posix : Bool) (pid tid : ℕ) (m : Move) (w : World) (holder : Option ℕ) (proc : Process)
    → local_move posix pid tid m w.holder (w.processes pid) ≡ some (holder, proc)
    → move posix pid tid m w
      ≡ some (record { holder = holder; processes = put pid proc w.processes })
unfolding move
move-eq posix pid tid m w holder proc e = rw (move, e) refl

-- In every history, a thread that is inside and in the body of its `with` gets in with its next
-- move after it has called `writer_lock` once more: it is one level deeper, and the lock of the
-- system stays where it is.
pub Reached-reentrant :
    {posix : Bool} {w : World}
    → Reached posix w
    → (p t : ℕ) → 0 < length ((w.processes p).threads t).frames
    → ((w.processes p).threads t).phase ≡ running
    → (asked : World) × (deeper : World) × (move posix p t call w ≡ some asked)
      × (move posix p t enter asked ≡ some deeper)
      × (deeper.holder ≡ w.holder)
      × (((deeper.processes p).threads t).phase ≡ running)
      × (((deeper.processes p).threads t).frames ≡ nested ∷ ((w.processes p).threads t).frames)
unfolding local_move
Reached-reentrant {posix = posix} {w = w} h p t in_p at =
    let proc = w.processes p in
    let (mine, hold) = inside w p t (Reached-AllFit h) in_p in
    let (busy, own, free, up, down) = Reached-AllFit h p in
    let (d, l, pos, shape, out) = own t mine in
    let held : ltb 0 proc.held ≡ true = ground arith in
    let called : Process = record proc {
      threads = put t (record { phase = waiting; frames = (proc.threads t).frames }) proc.threads;
    } in
    let asked : World = record w { processes = put p called w.processes } in
    let entered : Process = record {
      owner = some t;
      depth = suc proc.depth;
      held = suc proc.held;
      threads =
          put t (record { phase = running; frames = nested ∷ (proc.threads t).frames })
            called.threads;
    } in
    let deeper : World = record { holder = w.holder; processes = put p entered asked.processes } in
    let here : (k : ℕ) → nat_beq k k ≡ true = λ k. (nat_beq_iff k k).1 refl in
    let calls : local_move posix p t call w.holder proc ≡ some (w.holder, called) =
      rw (local_move, at) refl in
    let taken : may_take t called ≡ true = rw (may_take, mine, here t) refl in
    let gets_in : acquire t called ≡ some entered = rw (acquire, taken, held, here t) refl in
    let enters : local_move posix p t enter w.holder called ≡ some (w.holder, entered) =
      rw (local_move, here t, gets_in) refl in
    (
      asked,
      deeper,
      move-eq posix p t call w w.holder called calls,
      move-eq posix p t enter asked w.holder entered (
          subst (λ q. local_move posix p t enter w.holder q ≡ some (w.holder, entered))
            (sym (put-eq p called w.processes)) enters),
      refl,
      rw (here p, here t) refl,
      rw (here p, here t) refl,
    )
