-- ===== src/Outbox/Drain.antt =====
-- `drain` of the outbox (code_index/openclaw_hostd/outbox.py): what it publishes, what it counts
-- and what it leaves pending.
use Prim.Native.String.{String}
use memory_network.Prelude.{
  ℕ, suc, ◌+◌, ◌≡◌, refl, ap, ◌⊎◌, inl, inr, Option, none, some, List, [], ◌∷◌, ◌++◌, map, arith,
}
use memory_network.Prelude.Exec.{Result, ok, err, Exec}
use memory_network.Prelude.Lists.{length, filter}
use memory_network.Prelude.Int.{ℤ}
use memory_network.Outbox.{
  Row, EventOutbox, OutboxDrainResult, OutboxError, is_pending, mark_row, limited, events,
  mark_published, pending_events, drain_from, drain,
}
use memory_network.Outbox.Json.{JsonCodec, Payload}
use memory_network.Outbox.Order.{Increasing, mark-first, mark-Increasing}
use memory_network.Outbox.Events.{
  Event, past_limit, limited-past_limit, event-sequence, events-cons, events-limited,
}

pub publish_cases :
    {N : Type 0} (x : Result String (Unit {0}) × N)
    → ((text : String) × (c : N) × (x ≡ (err text, c))) ⊎ ((c : N) × (x ≡ (ok tt, c)))
publish_cases (ok _, c) = inr (c, refl)
publish_cases (err text, c) = inl (text, c, refl)

module _ ⦃j : JsonCodec⦄ where
  -- The pending events of an outbox, once the first of them is marked.
  pub marked-first :
      (now : String) (rows : List (Row j.Column)) (e : Event) (es : List Event)
      → Increasing 0 rows
      → events (filter is_pending rows) ≡ ok (e ∷ es)
      → events (filter is_pending (map (mark_row e.sequence now) rows)) ≡ ok es
  unfolding events
  marked-first now rows e es h p = go (filter is_pending rows) refl p
    where
      go :
          (pending : List (Row j.Column))
          → filter is_pending rows ≡ pending
          → events pending ≡ ok (e ∷ es)
          → events (filter is_pending (map (mark_row e.sequence now) rows)) ≡ ok es
      go [] q p = absurd (cc p)
      go (r ∷ rs) q p =
          let (e', es', s, t, t') = events-cons r rs (e ∷ es) p in
          let head : e ≡ e' = (cc s) in
          let tail : es ≡ es' = (cc s) in
          rw (head, event-sequence r e' t, mark-first 0 now rows r rs h q, tail) t'

  module _ {N : Type 0} (publish : String → Payload j.Json → Exec String N (Unit {0}))
      (clock : ℕ → String) where
    -- The client took the events one after the other, without an exception.
    abbrev pub Delivered : List Event → N → N → Type 0
    Delivered [] c c' = c ≡ c'
    Delivered (e ∷ es) c c' =
        (d : N) × (publish e.subject e.payload c ≡ (ok tt, d)) × Delivered es d c'

    -- all of `xs` were published, and `ys` are left
    abbrev pub Complete :
        Result OutboxError (OutboxDrainResult × N) × EventOutbox j.Column
        → List Event
        → List Event
        → ℕ
        → N
        → Type 0
    Complete out xs ys count c =
        (c' : N) × (box' : EventOutbox j.Column) × (out ≡ (
          ok (
            record { published_count = count + length xs; failed_sequence = none; error = none },
            c',
          ),
          box',
        ))
        × Delivered xs c c'
        × (events (filter is_pending box'.rows) ≡ ok ys)

    -- the events before `e` were published, the client raised at `e`, and the others are left
    abbrev pub Stopped :
        Result OutboxError (OutboxDrainResult × N) × EventOutbox j.Column
        → List Event
        → List Event
        → ℕ
        → N
        → Type 0
    Stopped out xs ys count c =
        (before : List Event) × (e : Event) × (later : List Event) × (text : String) × (d : N)
        × (c' : N) × (box' : EventOutbox j.Column) × (xs ≡ before ++ e ∷ later)
        × (out ≡ (
          ok (
            record {
              published_count = count + length before;
              failed_sequence = some e.sequence;
              error = some text;
            },
            c',
          ),
          box',
        ))
        × Delivered before c d
        × (publish e.subject e.payload d ≡ (err text, c'))
        × (events (filter is_pending box'.rows) ≡ ok (e ∷ later ++ ys))

    pub drain_from-published :
        (e : Event) (xs : List Event) (count : ℕ) (c d : N) (box : EventOutbox j.Column)
        → publish e.subject e.payload c ≡ (ok tt, d)
        → drain_from publish clock (e ∷ xs) count c box
          ≡ drain_from publish clock xs
              (count + 1)
              d
              (record box { rows = map (mark_row e.sequence (clock e.sequence)) box.rows })
    unfolding drain_from mark_published
    drain_from-published e xs count c d box q =
        let r : (publish e.subject e.payload c).0 ≡ ok tt = ap (λ x. x.0) q in
        let s : (publish e.subject e.payload c).1 ≡ d = ap (λ x. x.1) q in
        rw (drain_from, r, s) refl

    pub drain_from-raised :
        (e : Event) (xs : List Event) (count : ℕ) (c c' : N) (box : EventOutbox j.Column)
        (text : String)
        → publish e.subject e.payload c ≡ (err text, c')
        → drain_from publish clock (e ∷ xs) count c box ≡ (
          ok (
            record {
              published_count = count + 0;
              failed_sequence = some e.sequence;
              error = some text;
            },
            c',
          ),
          box,
        )
    unfolding drain_from
    drain_from-raised e xs count c c' box text q =
        let n : count + 0 ≡ count = omega arith in
        let r : (publish e.subject e.payload c).0 ≡ err text = ap (λ x. x.0) q in
        let s : (publish e.subject e.payload c).1 ≡ c' = ap (λ x. x.1) q in
        rw (drain_from, r, s, n) refl

    drain_from-cases :
        (xs ys : List Event) (count : ℕ) (c : N) (box : EventOutbox j.Column)
        → Increasing 0 box.rows
        → events (filter is_pending box.rows) ≡ ok (xs ++ ys)
        → Complete (drain_from publish clock xs count c box) xs ys count c
          ⊎ Stopped (drain_from publish clock xs count c box) xs ys count c
    unfolding drain_from
    drain_from-cases [] ys count c box h p =
        let n : count + 0 ≡ count = omega arith in inl (c, box, rw n refl, refl, p)
    drain_from-cases (e ∷ xs) ys count c box h p =
        let now = clock e.sequence in
        elim (publish_cases (publish e.subject e.payload c)) [
          | inl (text, c', q) ↦ inr (
            [],
            e,
            xs,
            text,
            c,
            c',
            box,
            refl,
            drain_from-raised e xs count c c' box text q,
            refl,
            q,
            p,
          )
          | inr (d, q) ↦
              elim (drain_from-cases xs ys (count + 1) d
                (record box { rows = map (mark_row e.sequence now) box.rows })
                (mark-Increasing e.sequence 0 now box.rows h)
                (marked-first now box.rows e (xs ++ ys) h p)) [
                  | inl (c', box', s, del, left) ↦
                      let n : count + suc (length xs) ≡ count + 1 + length xs = omega arith in
                      inl (
                        c',
                        box',
                        rw (drain_from-published e xs count c d box q, n) s,
                        (d, q, del),
                        left,
                      )
                  | inr (before, f, later, text, g, c', box', split, s, del, raised, left) ↦
                      let n : count + suc (length before) ≡ count + 1 + length before =
                        omega arith in
                      inr (
                        e ∷ before,
                        f,
                        later,
                        text,
                        g,
                        c',
                        box',
                        ap (◌∷◌ e) split,
                        rw (drain_from-published e xs count c d box q, n) s,
                        (d, q, del),
                        raised,
                        left,
                      )
                ]
        ]

    drain-drain_from :
        (limit : Option ℤ) (c : N) (box : EventOutbox j.Column) (es : List Event)
        → events (filter is_pending box.rows) ≡ ok es
        → drain publish clock limit c box ≡ drain_from publish clock (limited limit es) 0 c box
    unfolding drain pending_events
    drain-drain_from limit c box es p =
        rw (events-limited limit (filter is_pending box.rows) es p) refl

    -- `drain` of an outbox whose rows are in order and whose pending events can all be read: either
    -- the client took all pending events up to the limit, in order, and the events past the limit are
    -- what is still pending; or the client raised at an event, the events before it were taken in
    -- order and counted, and that event and all later ones are still pending.
    pub drain-cases :
        (limit : Option ℤ) (c : N) (box : EventOutbox j.Column) (es : List Event)
        → Increasing 0 box.rows
        → pending_events none box ≡ (ok es, box)
        → Complete (drain publish clock limit c box) (limited limit es) (past_limit limit es) 0 c
          ⊎ Stopped (drain publish clock limit c box) (limited limit es) (past_limit limit es) 0 c
    unfolding pending_events limited
    drain-cases limit c box es h p =
        let p' : events (filter is_pending box.rows) ≡ ok es = (cc p) in
        let whole : limited limit es ++ past_limit limit es ≡ es = limited-past_limit limit es in
        rw (drain-drain_from limit c box es p')
          (drain_from-cases (limited limit es) (past_limit limit es) 0 c box h (rw whole p'))
