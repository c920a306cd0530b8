-- ===== src/Outbox/Enqueue.antt =====
-- `enqueue` of the outbox (code_index/openclaw_hostd/outbox.py) and the invariant of its table.
use Prim.Native.String.{String}
use memory_network.Prelude.{
  ℕ, ◌+◌, ◌≤◌, ◌<◌, ◌≡◌, refl, ap, ap₂, ◌∙◌, true, Option, none, some, List, [], ◌∷◌, ◌++◌, map,
  arith, if◌then◌else◌,
}
use memory_network.Prelude.Equality.{◌==◌, string_eq}
use memory_network.Prelude.Dict.{get, put, get-put}
use memory_network.Prelude.Exec.{ok}
use memory_network.Prelude.Lists.{All, filter}
use memory_network.Outbox.{
  Row, EventOutbox, is_pending, mark_row, find_row, required_text, event_of, event, events,
  set_payload, limited, insert_row, get_event, enqueue, pending_events,
}
use memory_network.Outbox.Json.{JsonCodec, Payload}
use memory_network.Outbox.Events.{Event, events-append}
use memory_network.Outbox.Order.{Increasing, mark_row-sequence}

abbrev pub Bounded : {C : Type 0} → ℕ → List (Row C) → Type 0
Bounded n = All λ r. r.event_sequence ≤ n

module _ {C : Type 0} where
  Increasing-append :
      (low n : ℕ) (rows : List (Row C)) (r : Row C)
      → low ≤ n
      → n < r.event_sequence
      → Increasing low rows
      → Bounded n rows
      → Increasing low (rows ++ r ∷ [])
  Increasing-append low n [] r le lt h b = (omega arith, tt)
  Increasing-append low n (x ∷ xs) r le lt (h, hs) (b, bs) =
      (h, Increasing-append x.event_sequence n xs r b lt hs bs)

  Bounded-append :
      (n m : ℕ) (rows : List (Row C)) (r : Row C)
      → n ≤ m
      → r.event_sequence ≤ m
      → Bounded n rows
      → Bounded m (rows ++ r ∷ [])
  Bounded-append n m [] r le lr b = (lr, tt)
  Bounded-append n m (x ∷ xs) r le lr (b, bs) = (omega arith, Bounded-append n m xs r le lr bs)

  find_row-append :
      (n : ℕ) (rows : List (Row C)) (r : Row C)
      → n < r.event_sequence
      → Bounded n rows
      → find_row r.event_sequence (rows ++ r ∷ []) ≡ some r
  unfolding find_row
  find_row-append n [] r lt b = ground arith
  find_row-append n (x ∷ xs) r lt (b, bs) = let rest = find_row-append n xs r lt bs in ground arith

  filter-append :
      (rows : List (Row C)) (r : Row C)
      → is_pending r ≡ true
      → filter is_pending (rows ++ r ∷ []) ≡ filter is_pending rows ++ r ∷ []
  filter-append [] r p = rw p refl
  filter-append (x ∷ xs) r p = rw (filter-append xs r p) (ground arith)

  pub mark-Bounded :
      (s n : ℕ) (now : String) (rows : List (Row C))
      → Bounded n rows
      → Bounded n (map (mark_row s now) rows)
  mark-Bounded s n now [] b = tt
  mark-Bounded s n now (r ∷ rs) (b, bs) =
      (rw (mark_row-sequence s now r) b, mark-Bounded s n now rs bs)

module _ ⦃j : JsonCodec⦄ where
  abbrev pub Readable : List (Row j.Column) → Type 0
  Readable = All λ r. (p : Payload j.Json) × (j.load r.payload_json ≡ some p)

  -- The keys increase along the rows, none is past the counter, and every payload can be read.
  pub record IsValid (box : EventOutbox j.Column) : Type 0 where
    pub order : Increasing 0 box.rows
    pub bounded : Bounded box.last_sequence box.rows
    pub readable : Readable box.rows

  set_payload-append :
      (n : ℕ) (body : Payload j.Json) (rows : List (Row j.Column)) (r : Row j.Column)
      → n < r.event_sequence
      → Bounded n rows
      → map (set_payload r.event_sequence body) (rows ++ r ∷ [])
        ≡ rows ++ record r { payload_json = j.dump body } ∷ []
  unfolding set_payload
  set_payload-append n body [] r lt b = ground arith
  set_payload-append n body (x ∷ xs) r lt (b, bs) =
      ap₂ ◌∷◌ (ground arith) (set_payload-append n body xs r lt bs)

  Readable-append :
      (rows : List (Row j.Column)) (r : Row j.Column) (p : Payload j.Json)
      → j.load r.payload_json ≡ some p
      → Readable rows
      → Readable (rows ++ r ∷ [])
  Readable-append [] r p e h = ((p, e), tt)
  Readable-append (x ∷ xs) r p e (h, hs) = (h, Readable-append xs r p e hs)

  module _ (subject : Option String) (text now : String) (payload : Payload j.Json)
      (box : EventOutbox j.Column) (v : IsValid box) (named : required_text subject ≡ ok text) where
    -- the row that is stored, and what is read back from it
    abbrev body : Payload j.Json
    body = put "event_sequence" (j.number (box.last_sequence + 1)) payload

    abbrev stored : Row j.Column
    stored = record {
      event_sequence = box.last_sequence + 1;
      subject = text;
      payload_json = j.dump body;
      created_at = now;
      published_at = none;
    }

    abbrev enlarged : EventOutbox j.Column
    enlarged = record { rows = box.rows ++ stored ∷ []; last_sequence = box.last_sequence + 1 }

    pub enqueue-eq : enqueue subject payload now box ≡ (event stored, enlarged)
    unfolding enqueue insert_row get_event
    enqueue-eq =
        let set =
          set_payload-append box.last_sequence body box.rows
            (record stored { payload_json = j.dump payload }) (omega arith) v.bounded in
        let found = find_row-append box.last_sequence box.rows stored (omega arith) v.bounded in
        rw (named, insert_row, set, get_event, found)
          (ap (λ rows. (event stored, record enlarged { rows = rows })) set)

    pub enlarged-IsValid : (q : Payload j.Json) → j.load (j.dump body) ≡ some q → IsValid enlarged
    enlarged-IsValid q e = record {
      order =
          Increasing-append 0 box.last_sequence box.rows stored (omega arith) (omega arith) v.order
            v.bounded;
      bounded =
          Bounded-append box.last_sequence (box.last_sequence + 1) box.rows stored (omega arith)
            (omega arith) v.bounded;
      readable = Readable-append box.rows stored q e v.readable;
    }

    enlarged-pending :
        (q : Payload j.Json) (es : List Event)
        → j.load (j.dump body) ≡ some q
        → pending_events none box ≡ (ok es, box)
        → pending_events none enlarged ≡ (ok (es ++ event_of stored q ∷ []), enlarged)
    unfolding pending_events limited is_pending
    enlarged-pending q es e p =
        let p' : events (filter is_pending box.rows) ≡ ok es = (cc p) in
        rw
          (
            filter-append box.rows stored refl,
            events-append (filter is_pending box.rows) stored q es e p',
          )
          refl

    get_event-enlarged :
        (q : Payload j.Json)
        → j.load (j.dump body) ≡ some q
        → get_event (box.last_sequence + 1) enlarged ≡ (ok (event_of stored q), enlarged)
    unfolding get_event event
    get_event-enlarged q e =
        rw
          (
            get_event,
            find_row-append box.last_sequence box.rows stored (omega arith) v.bounded,
            event,
            e,
          )
          refl

  -- `enqueue` of a nonblank subject into a valid outbox returns the event under the next sequence
  -- number, unpublished, with the payload as it was given but for its entry `event_sequence`, which
  -- is that number; the outbox stays valid, the event comes last among the pending ones, and
  -- `get_event` of the number returns it.
  pub enqueue-pending_events :
      (subject : Option String) (text now : String) (payload : Payload j.Json)
      (box : EventOutbox j.Column) (es : List Event)
      → IsValid box
      → required_text subject ≡ ok text
      → pending_events none box ≡ (ok es, box)
      → (e : Event) × (box' : EventOutbox j.Column) × (enqueue subject payload now box
          ≡ (ok e, box'))
        × IsValid box'
        × (e.sequence ≡ box.last_sequence + 1)
        × (e.subject ≡ text)
        × (e.published_at ≡ none)
        × ((k : String)
            → get k e.payload
              ≡ (if "event_sequence" == k then some (j.number e.sequence) else get k payload))
        × (pending_events none box' ≡ (ok (es ++ e ∷ []), box'))
        × (get_event e.sequence box' ≡ (ok e, box'))
  unfolding event
  enqueue-pending_events subject text now payload box es v named p =
      let (q, e, same) =
        j.load_dump (put "event_sequence" (j.number (box.last_sequence + 1)) payload) in
      let row = stored subject text now payload box v named in
      (
        event_of row q,
        enlarged subject text now payload box v named,
        rw (enqueue-eq subject text now payload box v named, event, e) refl,
        enlarged-IsValid subject text now payload box v named q e,
        refl,
        refl,
        refl,
        λ k. same k ∙ get-put "event_sequence" k (j.number (box.last_sequence + 1)) payload,
        enlarged-pending subject text now payload box v named q es e p,
        get_event-enlarged subject text now payload box v named q e,
      )
