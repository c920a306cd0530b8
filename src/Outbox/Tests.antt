-- ===== src/Outbox/Tests.antt =====
-- Runs of the outbox (code_index/openclaw_hostd/outbox.py), with a client that fails at a subject,
-- and the theorems at these runs.
use Prim.Native.String.{String}
use memory_network.Prelude.{
  ℕ, ◌+◌, ◌≡◌, refl, ◌⊎◌, none, some, List, [], ◌∷◌, if◌then◌else◌, str_eq, arith,
}
use memory_network.Prelude.Equality.{◌==◌, string_eq}
use memory_network.Prelude.Dict.{get}
use memory_network.Prelude.Exec.{ok, err, Exec}
use memory_network.Outbox.{
  EventOutbox, OutboxEvent, init, required_text, enqueue, pending_events, drain, get_event, limited,
}
use memory_network.Outbox.Json.{JsonCodec, Payload}
use memory_network.Outbox.Events.{past_limit}
use memory_network.Outbox.Drain.{Complete, Stopped, drain-cases}
use memory_network.Outbox.Enqueue.{IsValid, enqueue-pending_events}
use memory_network.Outbox.History.{Call, perform_all, perform_all-pending_events}

-- numbers for JSON values, in a column that holds the object itself
instance abbrev numbers : JsonCodec
numbers = record {
  Json = ℕ;
  Column = Payload ℕ;
  number = λ n. n;
  dump = λ p. p;
  load = λ p. some p;
  load_dump = λ p. (p, refl, λ k. refl);
}

-- The client keeps the subjects it took, the last one first; it raises at `down`.
publish : String → Payload ℕ → Exec String (List String) (Unit {0})
publish subject payload taken =
    if str_eq subject "down" then (err "no route", taken) else (ok tt, subject ∷ taken)

abbrev clock : ℕ → String
clock n = "noon"

abbrev calls : List Call
calls =
    Call.send (some " up ") (("a", 7) ∷ []) "dawn"
    ∷ Call.send (some " ") [] "dawn"
    ∷ Call.send (some "down") [] "dawn"
    ∷ Call.send (some "up") [] "dawn"
    ∷ Call.publish_pending clock none
    ∷ []

drain_run : (perform_all publish calls (init, [])).1 ≡ "up" ∷ []
unfolding perform_all publish
drain_run = refl

-- Three events, of which the first is published.
abbrev box : EventOutbox (Payload ℕ)
box = record {
  rows =
      record {
        event_sequence = 1;
        subject = "up";
        payload_json = [];
        created_at = "dawn";
        published_at = some "noon";
      }
      ∷ record {
        event_sequence = 2;
        subject = "down";
        payload_json = [];
        created_at = "dawn";
        published_at = none;
      }
      ∷ [];
  last_sequence = 2;
}

abbrev waiting : OutboxEvent (Payload ℕ)
waiting = record {
  sequence = 2;
  subject = "down";
  payload = [];
  created_at = "dawn";
  published_at = none;
}

box-IsValid : IsValid box
box-IsValid = record {
  order = (omega arith, (omega arith, tt));
  bounded = (omega arith, (omega arith, tt));
  readable = (([], refl), (([], refl), tt));
}

-- what the runs unfold
program : Unit {0}
unfolding publish drain pending_events limited past_limit required_text enqueue get_event
program = tt

drain-cases_example :
    Complete publish clock (drain publish clock none [] box) (waiting ∷ []) [] 0 []
    ⊎ Stopped publish clock (drain publish clock none [] box) (waiting ∷ []) [] 0 []
unfolding program
drain-cases_example = drain-cases publish clock none [] box (waiting ∷ []) box-IsValid.order refl

enqueue-pending_events_example :
    (e : OutboxEvent (Payload ℕ)) × (box' : EventOutbox (Payload ℕ)) × (enqueue
        (some " up ")
        (("a", 7) ∷ [])
        "dawn"
        box
      ≡ (ok e, box'))
    × IsValid box'
    × (e.sequence ≡ box.last_sequence + 1)
    × (e.subject ≡ "up")
    × (e.published_at ≡ none)
    × ((k : String)
        → get k e.payload
          ≡ (if "event_sequence" == k then some e.sequence else get k (("a", 7) ∷ [])))
    × (pending_events none box' ≡ (ok (waiting ∷ e ∷ []), box'))
    × (get_event e.sequence box' ≡ (ok e, box'))
unfolding program
enqueue-pending_events_example =
    enqueue-pending_events (some " up ") "up" "dawn" (("a", 7) ∷ []) box (waiting ∷ []) box-IsValid
      refl refl

perform_all-pending_events_example :
    IsValid (perform_all publish calls (init, [])).0
    × ((es : List (OutboxEvent (Payload ℕ))) × (pending_events none
            (perform_all publish calls (init, [])).0
          ≡ (ok es, (perform_all publish calls (init, [])).0)))
perform_all-pending_events_example = perform_all-pending_events publish calls []
