-- ===== src/Claims/Exclusion/Fences.antt =====
-- The fence tokens of the claim table: `_next_fence_token` and the upsert of `claim_file`
-- (code_index/agent_activity.py).
use Prim.Native.String.{String}
use memory_network.Prelude.{
  ◌<◌, ◌≡◌, ◌≢◌, refl, sym, ap, subst, ◌∙◌, Bool, true, false, inl, inr, ◌⊎◌, List, [], ◌∷◌, arith,
  Bool-cases, str_eq, eq_iff, is_some,
}
use memory_network.Prelude.Equality.{nat_beq_iff}
use memory_network.Prelude.Lists.{Among, add_last}
use memory_network.Claims.{Mode, read, edit, review, test, exclusive, Claim, mode_beq, update_rows}
use memory_network.Claims.Table.{update_rows-Among, add_last-Among}
use memory_network.Claims.Files.{
  max_fence, next_fence_token, has_key, find_row, keeps_lease, refresh_row,
}
use memory_network.Claims.Exclusion.{Fenced}

mode_beq-eq : (m n : Mode) → mode_beq m n ≡ true → m ≡ n
mode_beq-eq read read h = refl
mode_beq-eq edit edit h = refl
mode_beq-eq review review h = refl
mode_beq-eq test test h = refl
mode_beq-eq exclusive exclusive h = refl
mode_beq-eq m n h = absurd (cc h)

abbrev pub SameKey : Claim → Claim → Type 0
SameKey r s = (r.run_pk ≡ s.run_pk) × (r.file_path ≡ s.file_path) × (r.mode ≡ s.mode)

-- `has_key` is true of the rows with the key.
pub has_key-SameKey :
    (new row : Claim) → has_key new.run_pk new.file_path new.mode row ≡ true → SameKey row new
unfolding has_key
has_key-SameKey new row h = (
  (nat_beq_iff row.run_pk new.run_pk).0 (ground arith),
  (eq_iff row.file_path new.file_path).0 (ground arith),
  mode_beq-eq row.mode new.mode (ground arith),
)

-- An update that writes no key and no fence.
abbrev pub Steady : (Claim → Claim) → Type 0
Steady set =
    (r : Claim)
    → ((set r).claim_pk ≡ r.claim_pk)
      × ((set r).run_pk ≡ r.run_pk)
      × ((set r).file_path ≡ r.file_path)
      × ((set r).mode ≡ r.mode)
      × ((set r).fence_token ≡ r.fence_token)

abbrev SameRow : Claim → Claim → Type 0
SameRow r s =
    (r.claim_pk ≡ s.claim_pk)
    × (r.run_pk ≡ s.run_pk)
    × (r.file_path ≡ s.file_path)
    × (r.mode ≡ s.mode)
    × (r.fence_token ≡ s.fence_token)

update_rows-SameRow :
    (w : Claim → Bool) (set : Claim → Claim) (rows : List Claim) (r : Claim)
    → Steady set
    → Among r (update_rows w set rows)
    → (old : Claim) × Among old rows × SameRow r old
update_rows-SameRow w set rows r t a =
    let (old, b, e) = update_rows-Among w set rows r a in
    (
      old,
      b,
      subst (λ x. SameRow x old) (sym e)
          (elim (Bool-cases (w old)) [
            | inl h ↦ rw h (t old)
            | inr h ↦ rw h (refl, refl, refl, refl, refl)
          ]),
    )

pub update_rows-Fenced :
    (w : Claim → Bool) (set : Claim → Claim) (rows : List Claim)
    → Steady set
    → Fenced rows
    → Fenced (update_rows w set rows)
update_rows-Fenced w set rows t (fences, keys) = (
  λ a b in_a in_b path fence.
      let (x, ha, (ia, ra, pa, ma, fa)) = update_rows-SameRow w set rows a t in_a in
      let (y, hb, (ib, rb, pb, mb, fb)) = update_rows-SameRow w set rows b t in_b in
      ia ∙ fences x y ha hb (sym pa ∙ path ∙ pb) (sym fa ∙ fence ∙ fb) ∙ sym ib,
  λ a b in_a in_b run path mode.
      let (x, ha, (ia, ra, pa, ma, fa)) = update_rows-SameRow w set rows a t in_a in
      let (y, hb, (ib, rb, pb, mb, fb)) = update_rows-SameRow w set rows b t in_b in
      ia ∙ keys x y ha hb (sym ra ∙ run ∙ rb) (sym pa ∙ path ∙ pb) (sym ma ∙ mode ∙ mb) ∙ sym ib,
)

-- The next fence token of a path is greater than those of all its rows.
pub next_fence_token-fresh :
    (path : String) (rows : List Claim) (r : Claim)
    → Among r rows
    → r.file_path ≡ path
    → r.fence_token < next_fence_token path rows
unfolding next_fence_token max_fence
next_fence_token-fresh path [] r a e = absurd a
next_fence_token-fresh path (x ∷ xs) r (inl s) e =
    let here : str_eq x.file_path path ≡ true =
      (eq_iff x.file_path path).1 (ap (λ (c : Claim). c.file_path) (sym s) ∙ e) in
    let same : r.fence_token ≡ x.fence_token = ap (λ (c : Claim). c.fence_token) s in ground arith
next_fence_token-fresh path (x ∷ xs) r (inr a) e =
    let rest = next_fence_token-fresh path xs r a e in ground arith

-- What is newer than all rows of its path: the row that an upsert brings.
abbrev pub Newest : Claim → List Claim → Type 0
Newest new rows =
    (r : Claim) → Among r rows → r.file_path ≡ new.file_path → r.fence_token < new.fence_token

mode_beq_refl : (m : Mode) → mode_beq m m ≡ true
mode_beq_refl read = refl
mode_beq_refl edit = refl
mode_beq_refl review = refl
mode_beq_refl test = refl
mode_beq_refl exclusive = refl

find_row-false :
    (w : Claim → Bool) (rows : List Claim) (r : Claim)
    → is_some (find_row w rows) ≡ false
    → Among r rows
    → w r ≡ false
unfolding find_row
find_row-false w [] r h a = absurd a
find_row-false w (x ∷ xs) r h a = elim (Bool-cases (w x)) [
  | inl e ↦ absurd (cc (rw (find_row, e) at h))
  | inr e ↦ elim a [
    | inl s ↦ subst (λ y. w y ≡ false) (sym s) e
    | inr b ↦ find_row-false w xs r (rw (find_row, e) at h) b
  ]
]

-- A row that is added has a key of its own and the newest fence.
pub add_last-Fenced :
    (new : Claim) (rows : List Claim)
    → is_some (find_row (has_key new.run_pk new.file_path new.mode) rows) ≡ false
    → Newest new rows
    → Fenced rows
    → Fenced (add_last new rows)
unfolding has_key
add_last-Fenced new rows fresh newest (fences, keys) = (
  λ a b in_a in_b path fence. elim (add_last-Among new a rows in_a) [
    | inl ha ↦ elim (add_last-Among new b rows in_b) [
      | inl hb ↦ fences a b ha hb path fence
      | inr eb ↦
          let less = newest a ha (path ∙ ap (λ (r : Claim). r.file_path) eb) in
          let same : a.fence_token ≡ new.fence_token =
            fence ∙ ap (λ (r : Claim). r.fence_token) eb in
          absurd (omega arith)
    ]
    | inr ea ↦ elim (add_last-Among new b rows in_b) [
      | inl hb ↦
          let less = newest b hb (sym path ∙ ap (λ (r : Claim). r.file_path) ea) in
          let same : b.fence_token ≡ new.fence_token =
            sym fence ∙ ap (λ (r : Claim). r.fence_token) ea in
          absurd (omega arith)
      | inr eb ↦ ap (λ (r : Claim). r.claim_pk) (ea ∙ sym eb)
    ]
  ],
  λ a b in_a in_b run path mode. elim (add_last-Among new a rows in_a) [
    | inl ha ↦ elim (add_last-Among new b rows in_b) [
      | inl hb ↦ keys a b ha hb run path mode
      | inr eb ↦ absurd (
          apart a ha (run ∙ ap (λ (r : Claim). r.run_pk) eb)
            (path ∙ ap (λ (r : Claim). r.file_path) eb) (mode ∙ ap (λ (r : Claim). r.mode) eb))
    ]
    | inr ea ↦ elim (add_last-Among new b rows in_b) [
      | inl hb ↦ absurd (
          apart b hb (sym run ∙ ap (λ (r : Claim). r.run_pk) ea)
            (sym path ∙ ap (λ (r : Claim). r.file_path) ea)
            (sym mode ∙ ap (λ (r : Claim). r.mode) ea))
      | inr eb ↦ ap (λ (r : Claim). r.claim_pk) (ea ∙ sym eb)
    ]
  ],
)
  where
    apart :
        (r : Claim)
        → Among r rows
        → r.run_pk ≡ new.run_pk
        → r.file_path ≡ new.file_path
        → r.mode ≢ new.mode
    apart r a run path mode =
        let other = find_row-false (has_key new.run_pk new.file_path new.mode) rows r fresh a in
        let p = (nat_beq_iff r.run_pk new.run_pk).1 run in
        let q = (eq_iff r.file_path new.file_path).1 path in
        let m : mode_beq r.mode new.mode ≡ true =
          subst (λ x. mode_beq r.mode x ≡ true) mode (mode_beq_refl r.mode) in
        absurd (cc (rw (has_key, p, q, m) at other))

-- What a row of the table was before an upsert has refreshed one: it keeps its fence, or it has the
-- key and the fence of the new row.
abbrev Refreshed : Claim → Claim → Claim → Type 0
Refreshed new r old =
    (r.claim_pk ≡ old.claim_pk)
    × SameKey r old
    × ((r.fence_token ≡ old.fence_token) ⊎ ((r.fence_token ≡ new.fence_token) × SameKey old new))

refresh_row-Refreshed :
    (new old : Claim)
    → has_key new.run_pk new.file_path new.mode old ≡ true
    → Refreshed new (refresh_row new old) old
unfolding refresh_row
refresh_row-Refreshed new old h = elim (Bool-cases (keeps_lease new.updated_at old)) [
  | inl k ↦ rw (refresh_row, k) (refl, (refl, refl, refl), inl refl)
  | inr k ↦ rw (refresh_row, k) (refl, (refl, refl, refl), inr (refl, has_key-SameKey new old h))
]

update_rows-Refreshed :
    (new : Claim) (rows : List Claim) (r : Claim)
    → Among r (update_rows (has_key new.run_pk new.file_path new.mode) (refresh_row new) rows)
    → (old : Claim) × Among old rows × Refreshed new r old
update_rows-Refreshed new rows r a =
    let same = has_key new.run_pk new.file_path new.mode in
    let (old, b, e) = update_rows-Among same (refresh_row new) rows r a in
    (
      old,
      b,
      subst (λ x. Refreshed new x old) (sym e)
          (elim (Bool-cases (same old)) [
            | inl h ↦ rw h (refresh_row-Refreshed new old h)
            | inr h ↦ rw h (refl, (refl, refl, refl), inl refl)
          ]),
    )

pub refreshed-Fenced :
    (new : Claim) (rows : List Claim)
    → Newest new rows
    → Fenced rows
    → Fenced (update_rows (has_key new.run_pk new.file_path new.mode) (refresh_row new) rows)
refreshed-Fenced new rows newest (fences, keys) = (
  λ a b in_a in_b path fence.
      let (x, ha, (ia, (ra, pa, ma), fa)) = update_rows-Refreshed new rows a in_a in
      let (y, hb, (ib, (rb, pb, mb), fb)) = update_rows-Refreshed new rows b in_b in
      let at : x.file_path ≡ y.file_path = sym pa ∙ path ∙ pb in
      elim fa [
        | inl ka ↦ elim fb [
          | inl kb ↦ ia ∙ fences x y ha hb at (sym ka ∙ fence ∙ kb) ∙ sym ib
          | inr (nb, (rn, pn, mn)) ↦
              let less = newest x ha (at ∙ pn) in
              let same : x.fence_token ≡ new.fence_token = sym ka ∙ fence ∙ nb in
              absurd (omega arith)
        ]
        | inr (na, (rm, pm, mm)) ↦ elim fb [
          | inl kb ↦
              let less = newest y hb (sym at ∙ pm) in
              let same : y.fence_token ≡ new.fence_token = sym kb ∙ sym fence ∙ na in
              absurd (omega arith)
          | inr (nb, (rn, pn, mn)) ↦ ia ∙ keys x y ha hb (rm ∙ sym rn) at (mm ∙ sym mn) ∙ sym ib
        ]
      ],
  λ a b in_a in_b run path mode.
      let (x, ha, (ia, (ra, pa, ma), fa)) = update_rows-Refreshed new rows a in_a in
      let (y, hb, (ib, (rb, pb, mb), fb)) = update_rows-Refreshed new rows b in_b in
      ia ∙ keys x y ha hb (sym ra ∙ run ∙ rb) (sym pa ∙ path ∙ pb) (sym ma ∙ mode ∙ mb) ∙ sym ib,
)
