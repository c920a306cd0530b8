-- ===== src/Outbox/History.antt =====
-- Histories of calls of an outbox (code_index/openclaw_hostd/outbox.py) and of the client that
-- `drain` publishes to.
use Prim.Native.String.{String}
use memory_network.Prelude.{
  ℕ, ◌+◌, ◌≡◌, refl, inl, inr, Option, none, List, [], ◌∷◌, map, Bool-cases, arith,
}
use memory_network.Prelude.Exec.{Result, ok, err, Exec, Result-cases}
use memory_network.Prelude.Lists.{filter}
use memory_network.Prelude.Int.{ℤ}
use memory_network.Outbox.{
  Row, EventOutbox, OutboxDrainResult, OutboxError, init, is_pending, mark_row, required_text,
  event, event_of, events, limited, enqueue, pending_events, mark_published, drain_from, drain,
}
use memory_network.Prelude.Dict.{put}
use memory_network.Prelude.Equality.{string_eq}
use memory_network.Outbox.Json.{JsonCodec, Payload}
use memory_network.Outbox.Order.{mark-Increasing}
use memory_network.Outbox.Events.{Event}
use memory_network.Outbox.Drain.{publish_cases, drain_from-published, drain_from-raised}
use memory_network.Outbox.Enqueue.{IsValid, Readable, mark-Bounded, enqueue-eq, enlarged-IsValid}

module _ ⦃j : JsonCodec⦄ where
  pub data Call : Type 0 where
    send : Option String → Payload j.Json → String → Call
    mark : ℕ → String → Call
    publish_pending : (ℕ → String) → Option ℤ → Call

  mark_row-payload_json :
      (s : ℕ) (now : String) (r : Row j.Column) → (mark_row s now r).payload_json ≡ r.payload_json
  unfolding mark_row
  mark_row-payload_json s now r = ground arith

  mark-Readable :
      (s : ℕ) (now : String) (rows : List (Row j.Column))
      → Readable rows
      → Readable (map (mark_row s now) rows)
  unfolding mark_row
  mark-Readable s now [] h = tt
  mark-Readable s now (r ∷ rs) (h, hs) =
      (rw (mark_row-payload_json s now r) h, mark-Readable s now rs hs)

  marked-IsValid :
      (s : ℕ) (now : String) (box : EventOutbox j.Column)
      → IsValid box
      → IsValid (record box { rows = map (mark_row s now) box.rows })
  marked-IsValid s now box v = record {
    order = mark-Increasing s 0 now box.rows v.order;
    bounded = mark-Bounded s box.last_sequence now box.rows v.bounded;
    readable = mark-Readable s now box.rows v.readable;
  }

  enqueue-IsValid :
      (subject : Option String) (payload : Payload j.Json) (now : String)
      (box : EventOutbox j.Column)
      → IsValid box
      → IsValid (enqueue subject payload now box).1
  unfolding enqueue
  enqueue-IsValid subject payload now box v = elim (Result-cases (required_text subject)) [
    | inl (text, named) ↦ rw (enqueue-eq subject text now payload box v named) (
        let (q, e, same) =
          j.load_dump (put "event_sequence" (j.number (box.last_sequence + 1)) payload) in
        enlarged-IsValid subject text now payload box v named q e)
    | inr (x, p) ↦ rw (p) v
  ]

  filter-Readable : (rows : List (Row j.Column)) → Readable rows → Readable (filter is_pending rows)
  filter-Readable [] h = tt
  filter-Readable (r ∷ rs) (h, hs) = elim (Bool-cases (is_pending r)) [
    | inl p ↦ rw p (h, filter-Readable rs hs)
    | inr p ↦ rw p (filter-Readable rs hs)
  ]

  Readable-events :
      (rows : List (Row j.Column)) → Readable rows → (es : List Event) × (events rows ≡ ok es)
  unfolding events event
  Readable-events [] h = ([], refl)
  Readable-events (r ∷ rs) ((p, e), hs) =
      let (es, q) = Readable-events rs hs in (event_of r p ∷ es, rw (event, e, q) refl)

  -- every event that waits in a valid outbox can be read
  pub pending_events-total :
      (box : EventOutbox j.Column)
      → IsValid box
      → (es : List Event) × (pending_events none box ≡ (ok es, box))
  unfolding pending_events limited
  pending_events-total box v =
      let (es, q) =
        Readable-events (filter is_pending box.rows) (filter-Readable box.rows v.readable) in
      (es, rw q refl)

  module _ {N : Type 0} (publish : String → Payload j.Json → Exec String N (Unit {0})) where
    drain_from-IsValid :
        (clock : ℕ → String) (es : List Event) (count : ℕ) (c : N) (box : EventOutbox j.Column)
        → IsValid box
        → IsValid (drain_from publish clock es count c box).1
    unfolding drain_from
    drain_from-IsValid clock [] count c box v = v
    drain_from-IsValid clock (e ∷ es) count c box v =
        elim (publish_cases (publish e.subject e.payload c)) [
          | inl (text, c', q) ↦ rw (drain_from-raised publish clock e es count c c' box text q) v
          | inr (d, q) ↦ rw (drain_from-published publish clock e es count c d box q) (
              drain_from-IsValid clock es (count + 1) d
                (record box { rows = map (mark_row e.sequence (clock e.sequence)) box.rows })
                (marked-IsValid e.sequence (clock e.sequence) box v))
        ]

    drain-IsValid :
        (clock : ℕ → String) (limit : Option ℤ) (c : N) (box : EventOutbox j.Column)
        → IsValid box
        → IsValid (drain publish clock limit c box).1
    unfolding drain pending_events
    drain-IsValid clock limit c box v =
        elim (Result-cases (events (limited limit (filter is_pending box.rows)))) [
          | inl (es, p) ↦ rw p (drain_from-IsValid clock es 0 c box v)
          | inr (x, p) ↦ rw p v
        ]

    -- the client after a call of `drain`
    abbrev client_after : N → Result OutboxError (OutboxDrainResult × N) → N
    client_after c (ok (d, c')) = c'
    client_after c (err x) = c

    unfoldable pub perform : Call → EventOutbox j.Column × N → EventOutbox j.Column × N
    unfolding enqueue mark_published drain
    perform (Call.send subject payload now) (box, c) = ((enqueue subject payload now box).1, c)
    perform (Call.mark sequence now) (box, c) = ((mark_published sequence now box).1, c)
    perform (Call.publish_pending clock limit) (box, c) =
        let out = drain publish clock limit c box in (out.1, client_after c out.0)

    unfoldable pub perform_all : List Call → EventOutbox j.Column × N → EventOutbox j.Column × N
    unfolding perform
    perform_all [] s = s
    perform_all (call ∷ calls) s = perform_all calls (perform call s)

    perform-IsValid :
        (call : Call) (s : EventOutbox j.Column × N) → IsValid s.0 → IsValid (perform call s).0
    unfolding perform mark_published
    perform-IsValid (Call.send subject payload now) (box, c) v =
        enqueue-IsValid subject payload now box v
    perform-IsValid (Call.mark sequence now) (box, c) v = marked-IsValid sequence now box v
    perform-IsValid (Call.publish_pending clock limit) (box, c) v =
        drain-IsValid clock limit c box v

    perform_all-IsValid :
        (calls : List Call) (s : EventOutbox j.Column × N)
        → IsValid s.0
        → IsValid (perform_all calls s).0
    unfolding perform_all
    perform_all-IsValid [] s v = v
    perform_all-IsValid (call ∷ calls) s v =
        perform_all-IsValid calls (perform call s) (perform-IsValid call s v)

    -- After every history of `enqueue`, `mark_published` and `drain` on a new outbox, whatever the
    -- client did: the rows are in the strict order of their sequence numbers, none is past the
    -- counter, and `pending_events` returns.
    pub perform_all-pending_events :
        (calls : List Call) (c : N)
        → IsValid (perform_all calls (init, c)).0
          × ((es : List Event) × (pending_events none (perform_all calls (init, c)).0
                ≡ (ok es, (perform_all calls (init, c)).0)))
    perform_all-pending_events calls c =
        let v =
          perform_all-IsValid calls (init, c)
            (record { order = tt; bounded = tt; readable = tt }) in
        (v, pending_events-total (perform_all calls (init, c)).0 v)
