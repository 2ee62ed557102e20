-- ===== src/Retry/Tests.antt =====
-- The retry queue on small inputs.
use pubky_nexus.Base.{
  ℕ, String, true, false, none, some, [], ◌∷◌, ok, err, ◌≡◌, refl, arith, min, ◌*◌, ◌^◌,
}
use pubky_nexus.Base.HashMap
use pubky_nexus.Base.Sort.{sort_by}
use pubky_nexus.Base.Word.{add_64, mul_64}
use pubky_nexus.Errors.{
  EventProcessorError, should_enqueue_related_event, should_not_retry_now, is_missing_dependency,
}
use pubky_nexus.Event.{
  EventType, Specs, Event, ResourceClass, parse_event, parse_event_parts, event_line_of, parsed,
}
use pubky_nexus.Event.Laws.{parse_event_parts-parsed, parse_event_again}
use pubky_nexus.Retry.Backoff.{calculate_backoff, calculate_backoff-doubling}
use pubky_nexus.Retry.Config.{EventRetryConfig}
use pubky_nexus.Retry.Entry.{IndexKey, RetryEvent, Now, new, fresh_nonce}
use pubky_nexus.Retry.Scheduler.{InitialBackoff, from_config, enqueue}
use pubky_nexus.Retry.Scheduler.Laws.{settle-enqueue}
use pubky_nexus.Retry.InMemory
use pubky_nexus.Retry.InMemory.{Map}
use pubky_nexus.Retry.Store.{RetryStore}
use pubky_nexus.Retry.InMemory.Laws.{entry, in_memory}
use pubky_nexus.Retry.Processor.{
  Env, completed, run_internal, process_retry_event, settle, rescheduled, process_batch,
  max_retries_for,
}
use pubky_nexus.Retry.Processor.Safety.{process_retry_event-Keeps, handled}
use pubky_nexus.Retry.Processor.Bounds.{process_retry_event-IsBounded, IsBounded}
use pubky_nexus.Retry.Processor.Outcome.{
  settle-IsFinished, settle-IsDeferred, backoff_of, done, again,
}

-- Every URI is a canonical post address.
abbrev posts : Specs
posts = record {
  ExtendedParsedUri = String;
  try_from = λ uri. ok uri;
  try_to_uri_str = λ uri. ok uri;
  resource = λ uri. some ResourceClass.other;
  user_id = λ uri. "alice";
}

abbrev key_of : String → IndexKey
key_of uri = uri

abbrev old : RetryEvent
old = record {
  retry_count = 1;
  event_type = EventType.put;
  event_uri = "a b";
  next_retry_at = 5;
  origin_homeserver_id = "hs";
  nonce = 7;
}

abbrev newer : RetryEvent
newer = record old { retry_count = 0; event_type = EventType.del; nonce = 8 }

abbrev config : EventRetryConfig
config = record {
  max_retries = 3;
  max_dependency_retries = 2;
  initial_backoff_secs = 10;
  max_backoff_secs = 100;
  initial_missing_dep_backoff_secs = 20;
  max_missing_dep_backoff_secs = 200;
}

abbrev queue : Map
queue = ("a b", old) ∷ []

abbrev missing : EventProcessorError
missing = EventProcessorError.missing_dependency []

-- A live task enqueues a newer event while the retry is handled, and the clock stands at 1000.
abbrev busy : Env posts Map
busy = record {
  X = ℕ;
  handle = λ event w. (ok tt, (("a b", newer) ∷ [], w.1));
  timestamp_millis = λ x. (1000, x);
  is_shutdown = λ x. (false, x);
}

-- The handler fails for want of a dependency, and nothing else happens.
abbrev failing : Env posts Map
failing = record busy { handle = λ event w. (err missing, w) }

calculate_backoff-doubling_example : calculate_backoff 3 10 100 ≡ min (10 * 2 ^ 3) 100
calculate_backoff-doubling_example = calculate_backoff-doubling 3 10 100 (omega arith) (omega arith)

abbrev store : RetryStore key_of
store = in_memory key_of

queue-IsBounded : IsBounded store 3 queue
unfolding HashMap.get
queue-IsBounded j e h = ground arith

process_retry_event-Keeps_example :
    entry "a b" (process_retry_event store busy config "a b" old (queue, 0)).1.0 ≡ some newer
unfolding handled parse_event parse_event_parts event_line_of HashMap.get
process_retry_event-Keeps_example =
    process_retry_event-Keeps store busy config "a b" old (queue, 0) "a b" newer refl (omega arith)

process_retry_event-IsBounded_example :
    IsBounded store 3 (process_retry_event store failing config "a b" old (queue, 0)).1.0
process_retry_event-IsBounded_example =
    process_retry_event-IsBounded store failing config 3 (omega arith) (omega arith) "a b" old
      (queue, 0) (λ event. queue-IsBounded) (omega arith) queue-IsBounded

settle-IsFinished_example :
    ((settle store busy config "a b" old (ok tt) (queue, 0)).0 ≡ ok tt)
    × (entry "a b" (settle store busy config "a b" old (ok tt) (queue, 0)).1.0 ≡ none)
unfolding InMemory.remove_if HashMap.get
settle-IsFinished_example =
    settle-IsFinished store busy config "a b" old (queue, 0) (ok tt) true (done tt) refl refl

abbrev later : RetryEvent
later = rescheduled store failing config 1000 old missing true

settle-IsDeferred_example :
    ((settle store failing config "a b" old (err missing) (queue, 0)).0 ≡ ok tt)
    × (entry "a b" (settle store failing config "a b" old (err missing) (queue, 0)).1.0
        ≡ some later)
    × (later.nonce ≡ 7)
    × (later.event_uri ≡ "a b")
    × (later.event_type ≡ EventType.put)
    × (later.retry_count ≡ 2)
    × (later.next_retry_at ≡ add_64 1000 (mul_64 (backoff_of store failing config missing 1) 1000))
unfolding InMemory.put_if HashMap.get rescheduled should_enqueue_related_event should_not_retry_now
    max_retries_for is_missing_dependency
settle-IsDeferred_example =
    settle-IsDeferred store failing config "a b" old (queue, 0) missing true true
      (again refl refl (omega arith)) refl refl refl

-- The failed entry goes back, due 40 seconds later: 20 doubled once for the one retry so far.
run_defers :
    run_internal store failing config 2 (queue, 0)
    ≡ some (ok completed, (("a b", record old { retry_count = 2; next_retry_at = 41000 }) ∷ [], 0))
unfolding run_internal InMemory.fetch_ready sort_by HashMap.iter HashMap.insert HashMap.get
    process_batch process_retry_event parse_event parse_event_parts event_line_of InMemory.put_if
    should_enqueue_related_event should_not_retry_now max_retries_for is_missing_dependency
    calculate_backoff
run_defers = refl

abbrev post : Event posts
post = record { uri = "a b"; event_type = EventType.put; parsed_uri = "a b"; event_line = "" }

parse_event_parts-parsed_example :
    (posts.try_from "a b" ≡ ok "a b")
    × (posts.try_to_uri_str "a b" ≡ ok "a b")
    × (post.uri ≡ "a b")
    × (post.event_type ≡ EventType.put)
    × (post.event_line ≡ "")
unfolding parse_event_parts
parse_event_parts-parsed_example = parse_event_parts-parsed posts EventType.put "a b" "" post refl

parse_event_again_example :
    parse_event posts (event_line_of EventType.put "a b")
    ≡ ok (parsed (record post { event_line = event_line_of EventType.put "a b" }))
unfolding parse_event_parts
parse_event_again_example = parse_event_again posts EventType.put "a b" "" post refl

abbrev backoffs : InitialBackoff
backoffs = from_config config

abbrev noon : Now
noon = record { timestamp_millis = 1000; timestamp_nanos_opt = some 1000000000 }

-- A retry of the old entry succeeded, while its event was enqueued again.
settle-enqueue_example :
    let queued = enqueue store backoffs noon noon post 20000 "hs" queue in
    let fresh = new noon post 21000 "hs" in
    (fresh.retry_count ≡ 0)
    × (fresh.next_retry_at ≡ 21000)
    × (store.entry "a b" queued.1 ≡ some fresh)
    × (store.entry "a b" (settle store busy config "a b" old (ok tt) (queued.1, 0)).1.0
        ≡ some fresh)
unfolding enqueue fresh_nonce new InMemory.put
settle-enqueue_example =
    settle-enqueue store busy config backoffs noon noon post 20000 "hs" queue 0 "a b" old (ok tt)
      refl (λ h. omega (arith, h))
