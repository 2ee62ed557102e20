-- ===== src/Retry/Entry.antt =====
-- `RetryEvent` and its keys: nexus-watcher/src/events/retry/event.rs, and
-- `InitialBackoff` of nexus-watcher/src/events/retry/scheduler.rs.
use pubky_nexus.Base.{ℕ, String, Bool, false, Option, none, some, nat_beq}
use pubky_nexus.Event.{EventType, Specs, Event}

-- `IndexKey`: made by `for_uri` from a URI, or read back from the store.
abbrev pub IndexKey : Type 0
IndexKey = String

-- `RetryEvent`
pub record RetryEvent : Type 0 where
  pub retry_count : ℕ  -- u32
  pub event_type : EventType
  pub event_uri : String
  pub next_retry_at : ℕ  -- i64
  pub origin_homeserver_id : String
  pub nonce : ℕ  -- i64

-- What the current time gives: milliseconds, and nanoseconds where they fit an `i64`.
pub record Now : Type 0 where
  pub timestamp_millis : ℕ
  pub timestamp_nanos_opt : Option ℕ

-- `RetryEvent::fresh_nonce`
unfoldable pub fresh_nonce : Now → ℕ
fresh_nonce now = elim now.timestamp_nanos_opt [ none ↦ now.timestamp_millis | some n ↦ n ]

-- `RetryEvent::new`, with the time at which the nonce is made.
unfoldable pub new : {specs : Specs} → Now → Event specs → ℕ → String → RetryEvent
unfolding fresh_nonce
new now event next_retry_at origin_homeserver_id = record {
  retry_count = 0;
  event_type = event.event_type;
  event_uri = event.uri;
  next_retry_at = next_retry_at;
  origin_homeserver_id = origin_homeserver_id;
  nonce = fresh_nonce now;
}

-- Whether an entry is stored and its nonce is the expected one.
abbrev pub has_nonce : ℕ → Option RetryEvent → Bool
has_nonce n none = false
has_nonce n (some stored) = nat_beq stored.nonce n
