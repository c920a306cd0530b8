-- ===== src/Outbox.antt =====
-- `EventOutbox` (code_index/openclaw_hostd/outbox.py), a table of events that wait to be published.
-- `get_event`, `pending_events`, `mark_published` and the transaction of `enqueue` are atomic, as the
-- lock makes them.
-- `drain` holds the lock in its calls of the last two only, and is modelled as it runs by itself: no
-- other call of the outbox comes in between. `now` is the text that `_now()` returns.
pub mod Json
pub mod Order
pub mod Events
pub mod Drain
pub mod Enqueue
pub mod History
mod Tests
use Prim.Native.String.{String}
use memory_network.Prelude.{
  ℕ, ◌+◌, Bool, true, false, Option, none, some, List, [], ◌∷◌, ◌++◌, map, nat_beq, or_else,
  is_some, not, if◌then◌else◌,
}
use memory_network.Prelude.Equality.{string_eq}
use memory_network.Prelude.Dict.{put}
use memory_network.Prelude.Exec.{
  Result, ok, err, bind_result, Exec, ◌>>=◌, ◌>>◌, pure, lift, modify, transaction,
}
use memory_network.Prelude.Lists.{take, filter}
use memory_network.Prelude.Int.{ℤ, pos, negsuc}
use memory_network.Text.{is_empty, stripped}
use memory_network.Outbox.Json.{JsonCodec, Payload}

-- `KeyError` of `get_event`, and `ValueError` of a blank text or of a payload that is no object.
pub data OutboxError : Type 0 where
  key_error : ℕ → OutboxError
  value_error payload_error : OutboxError

pub record OutboxEvent (P : Type 0) : Type 0 where
  pub sequence : ℕ
  pub subject : String
  pub payload : P
  pub created_at : String
  pub published_at : Option String

pub record OutboxDrainResult : Type 0 where
  pub published_count : ℕ
  pub failed_sequence : Option ℕ
  pub error : Option String

-- a row of `openclaw_event_outbox`
pub record Row (C : Type 0) : Type 0 where
  pub event_sequence : ℕ
  pub subject : String
  pub payload_json : C
  pub created_at : String
  pub published_at : Option String

-- The rows in the order of the primary key, and the largest key ever given, which AUTOINCREMENT
-- keeps.
pub record EventOutbox (C : Type 0) : Type 0 where
  pub rows : List (Row C)
  pub last_sequence : ℕ

-- the table as `apply_schema` creates it
abbrev pub init : {C : Type 0} → EventOutbox C
init = record { rows = []; last_sequence = 0 }

-- `_required_text(value, field_name)`
unfoldable pub required_text : Option String → Result OutboxError String
unfolding stripped is_empty
required_text value =
    let text = stripped value in if is_empty text then err value_error else ok text

-- `SET published_at = COALESCE(published_at, ?) WHERE event_sequence = ?`, on one row
unfoldable pub mark_row : {C : Type 0} → ℕ → String → Row C → Row C
mark_row sequence now row =
    if nat_beq row.event_sequence sequence
    then record row { published_at = or_else row.published_at (some now) }
    else row

-- `WHERE published_at IS NULL`
unfoldable pub is_pending : {C : Type 0} → Row C → Bool
is_pending row = not (is_some row.published_at)

unfoldable pub find_row : {C : Type 0} → ℕ → List (Row C) → Option (Row C)
find_row sequence [] = none
find_row sequence (row ∷ rows) =
    if nat_beq row.event_sequence sequence then some row else find_row sequence rows

-- `LIMIT max(0, int(limit))`, if a limit is given
unfoldable pub limited {ℓ} : {A : Type ℓ} → Option ℤ → List A → List A
limited none xs = xs
limited (some (pos n)) xs = take n xs
limited (some (negsuc n)) xs = []

module _ ⦃j : JsonCodec⦄ where
  abbrev pub Action : Type 0 → Type 0
  Action = Exec OutboxError (EventOutbox j.Column)

  abbrev pub event_of : Row j.Column → Payload j.Json → OutboxEvent (Payload j.Json)
  event_of row payload = record {
    sequence = row.event_sequence;
    subject = row.subject;
    payload = payload;
    created_at = row.created_at;
    published_at = row.published_at;
  }

  -- `_event(row)`
  unfoldable pub event : Row j.Column → Result OutboxError (OutboxEvent (Payload j.Json))
  event row = elim (j.load row.payload_json) [
    | none ↦ err payload_error
    | some payload ↦ ok (event_of row payload)
  ]

  -- `[_event(row) for row in …]`
  unfoldable pub events :
      List (Row j.Column) → Result OutboxError (List (OutboxEvent (Payload j.Json)))
  unfolding event
  events [] = ok []
  events (row ∷ rows) = bind_result (event row) λ e. bind_result (events rows) λ es. ok (e ∷ es)

  unfoldable pub get_event : ℕ → Action (OutboxEvent (Payload j.Json))
  unfolding find_row event
  get_event sequence box = elim (find_row sequence box.rows) [
    | none ↦ (err (key_error sequence), box)
    | some row ↦ (event row, box)
  ]

  -- the `INSERT` of `enqueue`, which returns `cursor.lastrowid`
  unfoldable pub insert_row : String → Payload j.Json → String → Action ℕ
  insert_row subject body now box =
      let sequence = box.last_sequence + 1 in
      let row : Row j.Column = record {
        event_sequence = sequence;
        subject = subject;
        payload_json = j.dump body;
        created_at = now;
        published_at = none;
      } in
      (ok sequence, record { rows = box.rows ++ (row ∷ []); last_sequence = sequence })

  -- `UPDATE … SET payload_json = ? WHERE event_sequence = ?`, on one row
  unfoldable pub set_payload : ℕ → Payload j.Json → Row j.Column → Row j.Column
  set_payload sequence body row =
      if nat_beq row.event_sequence sequence then record row { payload_json = j.dump body } else row

  unfoldable pub enqueue :
      Option String → Payload j.Json → String → Action (OutboxEvent (Payload j.Json))
  unfolding required_text insert_row set_payload get_event
  enqueue subject payload now = do
    text ← lift (required_text subject)
    sequence ← transaction (do
      sequence ← insert_row text payload now
      let body = put "event_sequence" (j.number sequence) payload
      modify (λ box. record box { rows = map (set_payload sequence body) box.rows })
      pure sequence)
    get_event sequence

  unfoldable pub pending_events : Option ℤ → Action (List (OutboxEvent (Payload j.Json)))
  unfolding is_pending limited events
  pending_events limit box = (events (limited limit (filter is_pending box.rows)), box)

  unfoldable pub mark_published : ℕ → String → Action (Unit {0})
  unfolding mark_row
  mark_published sequence now =
      modify λ box. record box { rows = map (mark_row sequence now) box.rows }

  -- The NATS client that `drain` is given has a state of its own; `publish` may raise, with a text.
  module _ {N : Type 0} (publish : String → Payload j.Json → Exec String N (Unit {0}))
      (clock : ℕ → String) where
    -- the loop of `drain`; `clock` tells when each event is marked
    unfoldable pub drain_from :
        List (OutboxEvent (Payload j.Json)) → ℕ → N → Action (OutboxDrainResult × N)
    unfolding mark_published
    drain_from [] count client =
        pure (record { published_count = count; failed_sequence = none; error = none }, client)
    drain_from (e ∷ es) count client =
        let (result, client') = publish e.subject e.payload client in
        elim result [
          | err text ↦ pure (
            record {
              published_count = count;
              failed_sequence = some e.sequence;
              error = some text;
            },
            client',
          )
          | ok _ ↦ (do
            mark_published e.sequence (clock e.sequence)
            drain_from es (count + 1) client')
        ]

    unfoldable pub drain : Option ℤ → N → Action (OutboxDrainResult × N)
    unfolding pending_events drain_from
    drain limit client = do found ← pending_events limit; drain_from found 0 client
