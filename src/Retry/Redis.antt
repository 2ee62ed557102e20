-- ===== src/Retry/Redis.antt =====
-- The Redis layout of the retry queue: the `RetryEvent` methods and Lua scripts of
-- nexus-watcher/src/events/retry/event.rs, and `RedisRetryStore` of
-- nexus-watcher/src/events/retry/store.rs. An entry is a JSON document and a member of a sorted set
-- whose score is its time; times stay below 2 ^ 53, where a score is exact.
use mathlib.Core.Option
use pubky_nexus.Base.{
  ℕ, String, Bool, true, false, Option, none, some, List, [], ◌∷◌, Result, ok, err, Step, map_err,
  if◌then◌else◌, ◌==◌, string_eq, append, ◌>>=◌, pure, raise, is_empty, map, ◌≡◌, ◌⊎◌, All, length,
  ◌&&◌,
}
use pubky_nexus.Base.Word.{leb_i64}
use pubky_nexus.Errors.{RedisError, EventProcessorError, Messages, from_redis}
use pubky_nexus.Retry.Nonce.{match_nonce}
use pubky_nexus.Retry.Entry.{IndexKey, RetryEvent}
pub mod Layout
pub mod Sound
pub mod Acts
pub mod Resolving
pub mod Ready
pub mod Refines
pub mod Store
mod Tests

-- `serde_json` on a `RetryEvent`, and on the reply for the path `$` of a document, as a `Vec`; what
-- the reply to `JSON.GET key $.nonce` is for a document; and how an `i64` is printed.
pub record Json : Type 0 where
  pub to_string : RetryEvent → Result String RedisError
  pub from_str : String → Result RetryEvent RedisError
  pub from_reply : String → Result (List RetryEvent) RedisError
  pub nonce_reply : String → String
  pub print_i64 : ℕ → String

-- The commands that the scripts and transactions are made of, on the documents and on the scores of
-- sorted sets.
pub record Commands (W : Type 0) : Type 0 where
  pub document : String → W → Option String
  pub score : String → String → W → Option ℕ
  pub json_set : String → String → W → W
  pub json_del : String → W → W
  pub zadd : String → ℕ → String → W → W
  pub zrem : String → String → W → W

-- A connection: a script or transaction is one step, which the server does as a whole or not at
-- all, and so is a reading of many documents or of a range of a sorted set.
pub record Connection (W : Type 0) (commands : Commands W) : Type 1 where
  pub atomic : {A : Type 0} → (W → A × W) → Step W RedisError A
  pub range_by_score : String → ℕ → Option ℕ → Step W RedisError (List (String × ℕ))

-- `RETRY_MANAGER_PREFIX`
abbrev pub retry_manager_prefix : String
retry_manager_prefix = "RetryManagerV2"

-- `state_json_key`
unfoldable pub state_json_key : IndexKey → String
state_json_key index_key = append "RetryManagerV2:state:" index_key

-- `events_sorted_set_key`
abbrev pub events_sorted_set_key : String
events_sorted_set_key = "RetryManagerV2:events"

-- `string.match(..) or '0'`
abbrev pub nonce_or_zero : Option String → String
nonce_or_zero none = "0"
nonce_or_zero (some nonce) = nonce

-- `NONCE_GUARD_LUA` on what is stored: a reply without one number counts as 0.
unfoldable pub nonce_matches : Json → String → Option String → Bool
unfolding match_nonce
nonce_matches json expected none = false
nonce_matches json expected (some stored) =
    nonce_or_zero (match_nonce (json.nonce_reply stored)) == expected

-- `value.into_iter().next()`
abbrev pub first : List RetryEvent → Option RetryEvent
first [] = none
first (event ∷ events) = some event

module _ {W : Type 0} (json : Json) (commands : Commands W) where
  open commands use {document, json_set, json_del, zadd, zrem}

  -- `NONCE_GUARD_LUA`
  unfoldable pub nonce_guard : String → String → W → Bool
  unfolding nonce_matches
  nonce_guard key expected w = nonce_matches json expected (document key w)

  -- `REMOVE_IF_NONCE_SCRIPT`
  unfoldable pub remove_if_nonce_script : String → String → String → String → W → Bool × W
  unfolding nonce_guard
  remove_if_nonce_script key set expected member w =
      if nonce_guard key expected w then (true, zrem set member (json_del key w)) else (false, w)

  -- `PUT_IF_NONCE_SCRIPT`
  unfoldable pub put_if_nonce_script : String → String → String → String → ℕ → String → W → Bool × W
  unfolding nonce_guard
  put_if_nonce_script key set expected payload score member w =
      if nonce_guard key expected w
      then (true, zadd set score member (json_set key payload w))
      else (false, w)

  -- One round of `REMOVE_STALE_SCRIPT`.
  unfoldable pub remove_stale_one : String → String → String → W → W
  remove_stale_one set key member w = elim (document key w) [
    | none ↦ zrem set member w
    | some _ ↦ w
  ]

  -- `REMOVE_STALE_SCRIPT`, for the members with their state keys.
  unfoldable pub remove_stale_script : String → List (String × String) → W → W
  unfolding remove_stale_one
  remove_stale_script set [] w = w
  remove_stale_script set ((key, member) ∷ rest) w =
      remove_stale_script set rest (remove_stale_one set key member w)

  module _ (connection : Connection W commands) where
    open connection use {atomic, range_by_score}

    -- A payload that does not serialize fails before anything is sent.
    unfoldable pub with_payload :
        {A : Type 0} → RetryEvent → (String → Step W RedisError A) → Step W RedisError A
    with_payload event send w = elim (json.to_string event) [
      | err e ↦ (err e, w)
      | ok payload ↦ send payload w
    ]

    -- `put_to_index`
    unfoldable pub put_to_index : RetryEvent → IndexKey → Step W RedisError (Unit {0})
    unfolding with_payload
    put_to_index self index_key = with_payload self (λ payload. atomic (λ w. (
      tt,
      zadd events_sorted_set_key self.next_retry_at index_key
          (json_set (state_json_key index_key) payload w),
    )))

    -- `remove_from_index_if_nonce`
    unfoldable pub remove_from_index_if_nonce : IndexKey → ℕ → Step W RedisError Bool
    unfolding remove_if_nonce_script
    remove_from_index_if_nonce index_key expected_nonce = atomic (
        remove_if_nonce_script (state_json_key index_key) events_sorted_set_key
          (json.print_i64 expected_nonce) index_key)

    -- `put_to_index_if_nonce`
    unfoldable pub put_to_index_if_nonce : RetryEvent → IndexKey → ℕ → Step W RedisError Bool
    unfolding with_payload put_if_nonce_script
    put_to_index_if_nonce self index_key expected_nonce = with_payload self (λ payload. atomic (
        put_if_nonce_script (state_json_key index_key) events_sorted_set_key
          (json.print_i64 expected_nonce) payload self.next_retry_at index_key))

    -- `deserialize_values`
    unfoldable pub deserialize_values :
        List (Option String) → Result (List (Option RetryEvent)) RedisError
    deserialize_values [] = ok []
    deserialize_values (none ∷ values) = elim (deserialize_values values) [
      | ok rest ↦ ok (none ∷ rest)
      | err e ↦ err e
    ]
    deserialize_values (some value ∷ values) = elim (json.from_reply value) [
      | err e ↦ err e
      | ok events ↦ elim (deserialize_values values) [
        | ok rest ↦ ok (first events ∷ rest)
        | err e ↦ err e
      ]
    ]

    -- `get_from_index`
    unfoldable pub get_from_index : IndexKey → Step W RedisError (Option RetryEvent)
    get_from_index index_key =
        atomic (λ w. (document (state_json_key index_key) w, w)) >>= λ value w. elim value [
          | none ↦ (ok none, w)
          | some stored ↦ elim (json.from_reply stored) [
            | ok events ↦ (ok (first events), w)
            | err e ↦ (err e, w)
          ]
        ]

    -- `get_multiple_from_index`
    unfoldable pub get_multiple_from_index :
        List IndexKey → Step W RedisError (List (Option RetryEvent))
    unfolding deserialize_values
    get_multiple_from_index index_keys w =
        if is_empty index_keys
        then (ok [], w)
        else (atomic (λ w. (map (λ key. document (state_json_key key) w) index_keys, w))
              >>= λ values w. (deserialize_values values, w))
            w

    -- `remove_from_index`: two round trips.
    unfoldable pub remove_from_index : IndexKey → Step W RedisError (Unit {0})
    remove_from_index index_key =
        atomic (λ w. (tt, zrem events_sorted_set_key index_key w)) >>= λ _.
        atomic (λ w. (tt, json_del (state_json_key index_key) w))

    -- `remove_stale_index_entries`
    unfoldable pub remove_stale_index_entries : List IndexKey → Step W RedisError (Unit {0})
    unfolding remove_stale_script
    remove_stale_index_entries index_keys w =
        if is_empty index_keys
        then (ok tt, w)
        else atomic
            (λ w. (
              tt,
              remove_stale_script events_sorted_set_key
                  (map (λ key. (state_json_key key, key)) index_keys) w,
            ))
            w

    -- `RetryEvent::fetch_ready`: without a limit, the default of the range applies.
    unfoldable pub ready_keys :
        Messages → ℕ → Option ℕ → Step W EventProcessorError (List (IndexKey × ℕ))
    ready_keys text now limit w =
        let (pairs, w') = range_by_score events_sorted_set_key now limit w in
        (
          map_err
              (λ e.
                EventProcessorError.generic
                  (append "Failed to fetch retry events: " (text.redis e)))
              pairs,
          w',
        )

    -- `?` on a Redis call.
    unfoldable pub lifted :
        {A : Type 0} → Messages → Step W RedisError A → Step W EventProcessorError A
    lifted text step w = (map_err (from_redis text) (step w).0, (step w).1)

    -- The loop of `fetch_ready`: the entries that were found, and the keys of the others.
    unfoldable pub resolve :
        List (IndexKey × ℕ)
        → List (Option RetryEvent)
        → List (IndexKey × RetryEvent) × List IndexKey
    resolve [] maybe_events = ([], [])
    resolve (pair ∷ pairs) [] = ([], [])
    resolve ((key, score) ∷ pairs) (none ∷ maybe_events) =
        let (events, stale) = resolve pairs maybe_events in (events, key ∷ stale)
    resolve ((key, score) ∷ pairs) (some event ∷ maybe_events) =
        let (events, stale) = resolve pairs maybe_events in ((key, event) ∷ events, stale)

    module _ (text : Messages) (for_uri : String → IndexKey) where
      -- The methods of `RedisRetryStore`.
      unfoldable pub put : RetryEvent → Step W EventProcessorError (Unit {0})
      unfolding put_to_index lifted
      put event = lifted text (put_to_index event (for_uri event.event_uri))

      unfoldable pub put_if : RetryEvent → ℕ → Step W EventProcessorError Bool
      unfolding put_to_index_if_nonce lifted
      put_if event expected_nonce =
          lifted text (put_to_index_if_nonce event (for_uri event.event_uri) expected_nonce)

      unfoldable pub remove_if : IndexKey → ℕ → Step W EventProcessorError Bool
      unfolding remove_from_index_if_nonce lifted
      remove_if index_key expected_nonce =
          lifted text (remove_from_index_if_nonce index_key expected_nonce)

      unfoldable pub get : IndexKey → Step W EventProcessorError (Option RetryEvent)
      unfolding get_from_index lifted
      get index_key = lifted text (get_from_index index_key)

      unfoldable pub remove : IndexKey → Step W EventProcessorError (Unit {0})
      unfolding remove_from_index lifted
      remove index_key = lifted text (remove_from_index index_key)

      unfoldable pub cleaned :
          List (IndexKey × RetryEvent) × List IndexKey
          → Step W EventProcessorError (List (IndexKey × RetryEvent))
      unfolding remove_stale_index_entries lifted
      cleaned (events, stale) =
          if is_empty stale
          then pure events
          else lifted text (remove_stale_index_entries stale) >>= λ _. pure events

      unfoldable pub fetch_ready :
          ℕ → Option ℕ → Step W EventProcessorError (List (IndexKey × RetryEvent))
      unfolding ready_keys get_multiple_from_index resolve cleaned lifted
      fetch_ready now limit = ready_keys text now limit >>= λ pairs.
          lifted text (get_multiple_from_index (map (λ p. p.0) pairs)) >>= λ maybe_events.
          cleaned (resolve pairs maybe_events)
