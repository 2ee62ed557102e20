-- ===== src/Indexer/Tests.antt =====
-- The processors on small inputs.
use pubky_nexus.Base.{
  filter, ◌↔◌, Step, Bool, List, ap, string_eq, Result-cases, ◌⊎◌, inl, inr, ℕ, String, true, false,
  none, some, [], ◌∷◌, ◌++◌, ok, err, ◌≡◌, refl, arith, ◌≤◌, leb, ◌+◌, if◌then◌else◌,
}
use pubky_nexus.Base.HashMap
use pubky_nexus.Errors.{
  GraphError, EventProcessorError, should_not_retry_now, should_enqueue_related_event,
  is_missing_dependency,
}
use pubky_nexus.Homeserver.Tests.{Cursors, index}
use pubky_nexus.Indexer.Primary.{HsEventProcessor, split, process_event_lines}
use pubky_nexus.Indexer.Primary.Split.{is_event_line, last_cursor, split_lem}
use pubky_nexus.Indexer.Primary.Mapping.{
  Row, should_process_event, ask_all, should_process_event_once,
}
use pubky_nexus.Indexer.Primary.Lines.{KeepsCursor, stored_cursor}
use pubky_nexus.Indexer.Primary.Commit.{IsCommitted, process_event_lines-IsCommitted}
use pubky_nexus.Event.{
  parse_event, parsed, skipped, unrecognized_uri, EventType, Specs, Event, ResourceClass,
  HsStreamEvent,
}
use pubky_nexus.Indexer.Processor.{Scheduler, Processor, process_event_line, handle_event}
use pubky_nexus.Indexer.Processor.Laws.{IsAccounted, handle_event-IsAccounted}
use pubky_nexus.Indexer.UserEvents.{Signals, process_user_events}
use pubky_nexus.Indexer.UserEvents.Progress.{process_user_events-rejects, IsRising, floor_after}

-- Every URI is a canonical post address.
abbrev posts : Specs
posts = record {
  ExtendedParsedUri = String;
  try_from = λ uri. ok uri;
  try_to_uri_str = λ uri. ok uri;
  resource = λ uri. some ResourceClass.other;
  user_id = λ uri. "alice";
}

-- The world counts the handled events and the queued ones.
abbrev counter : Scheduler posts (ℕ × ℕ)
counter = record {
  queue_missing_dep = λ event id w. (ok tt, (w.0, w.1 + 1));
  queue_transient = λ event id w. (ok tt, (w.0, w.1 + 1));
}

abbrev indexer : Processor posts (ℕ × ℕ)
indexer = record {
  handle = λ event w.
      if leb 2 w.0
      then (err (EventProcessorError.missing_dependency []), w)
      else (ok tt, (w.0 + 1, w.1));
  retry_scheduler = some counter;
  homeserver_id = some "hs";
  should_process_event = λ event w. (ok true, w);
}

abbrev post : Event posts
post = record { uri = "a"; event_type = EventType.put; parsed_uri = "a"; event_line = "PUT a" }

handle_event-IsAccounted_example : IsAccounted indexer post (2, 0) (2, 1)
unfolding handle_event should_not_retry_now should_enqueue_related_event is_missing_dependency
handle_event-IsAccounted_example = handle_event-IsAccounted indexer post (2, 0) (2, 1) refl

abbrev put_at : ℕ → HsStreamEvent
put_at cursor = record { event_type = EventType.put; owner = "alice"; uri = "a"; cursor = cursor }

-- No shutdown, and a clock that stands still.
abbrev quiet : Signals (ℕ × ℕ)
quiet = record { now = λ w. (0, w); is_shutdown = λ w. (false, w) }

process_user_events-rejects_example :
    (pre : List HsStreamEvent) × (e : HsStreamEvent) × (post : List HsStreamEvent) × (put_at 4
        ∷ put_at 4
        ∷ []
      ≡ pre ++ (e ∷ post))
    × IsRising 3 pre
    × (e.cursor ≤ floor_after 3 pre)
    × (process_user_events indexer quiet "hs" "alice" 9 3 (put_at 4 ∷ put_at 4 ∷ []) (0, 0) ≡ (
      (
        none,
        err (
            EventProcessorError.event_cursor_out_of_order "hs" "alice" e.cursor
              (floor_after 3 pre)),
      ),
      (0, 0),
    ))
process_user_events-rejects_example =
    process_user_events-rejects indexer quiet "hs" "alice" 9 3 (put_at 4 ∷ put_at 4 ∷ []) (0, 0)
      refl (λ h. omega (arith, h.1.0))

-- The homeserver "hs" was polled from cursor 3, and every event is handled.
abbrev ready_processor : Processor posts Cursors
ready_processor = record {
  handle = λ event w. (ok tt, w);
  retry_scheduler = none;
  homeserver_id = some "hs";
  should_process_event = λ event w. (ok true, w);
}

abbrev primary : HsEventProcessor posts Cursors
primary = record {
  processor = ready_processor;
  index = index;
  homeserver = record { id = "hs"; cursor = 3 };
  is_shutdown = λ w. (false, w);
  poll_events = λ w. (ok [], w);
  text = record { redis = λ e. ""; graph = λ e. ""; hs = λ e. "" };
}

process_event_line_still :
    (line : String) (w : Cursors) → (process_event_line ready_processor line w).1 ≡ w
unfolding process_event_line handle_event
process_event_line_still line w = elim (Result-cases (parse_event posts line)) [
  | inr (e, q) ↦ rw (process_event_line, q) refl
  | inl (parsed event, q) ↦ rw (process_event_line, q) refl
  | inl (skipped, q) ↦ rw (process_event_line, q) refl
  | inl (unrecognized_uri a b c, q) ↦ rw (process_event_line, q) refl
]

primary-KeepsCursor : KeepsCursor primary
primary-KeepsCursor =
    ((λ line v. ap (HashMap.get "hs") (process_event_line_still line v)), λ v. refl)

abbrev batch : List String
batch = "PUT a" ∷ "cursor: 8" ∷ []

abbrev before : Cursors
before = ("hs", 3) ∷ []

process_event_lines-IsCommitted_example :
    (stored_cursor primary (process_event_lines primary batch before).1
      ≡ stored_cursor primary before)
    ⊎ IsCommitted primary (split batch) before (process_event_lines primary batch before).1
process_event_lines-IsCommitted_example =
    process_event_lines-IsCommitted primary batch before primary-KeepsCursor

abbrev bound_here : Row
bound_here = some ("hs", false)

-- Alice is bound to "hs" and not stale; the world counts the reads of the graph.
abbrev row_of : String → Step ℕ GraphError Row
row_of user_id v = (ok bound_here, v + 1)

should_process_event_once_example :
    let s1 = (should_process_event primary.text "hs" row_of post ([], 0)).1 in
    let s2 = ask_all primary.text "hs" row_of (post ∷ []) s1 in
    (b : Bool) × ((should_process_event primary.text "hs" row_of post ([], 0)).0 ≡ ok b)
    × (should_process_event primary.text "hs" row_of post s2 ≡ (ok b, s2))
    × ((b ≡ true) ↔ ((bound_here ≡ none) ⊎ (bound_here ≡ some ("hs", false))))
unfolding HashMap.get
should_process_event_once_example =
    should_process_event_once primary.text "hs" row_of post post (post ∷ []) ([], 0) bound_here 1
      refl refl refl

split_lem_example :
    ((split ("cursor: 4" ∷ "PUT a" ∷ "cursor: 8" ∷ [])).event_lines
      ≡ filter is_event_line ("cursor: 4" ∷ "PUT a" ∷ "cursor: 8" ∷ []))
    × ((split ("cursor: 4" ∷ "PUT a" ∷ "cursor: 8" ∷ [])).cursor
        ≡ last_cursor ("cursor: 4" ∷ "PUT a" ∷ "cursor: 8" ∷ []))
split_lem_example = split_lem ("cursor: 4" ∷ "PUT a" ∷ "cursor: 8" ∷ [])
