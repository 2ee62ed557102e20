-- ===== src/Errors.antt =====
-- The error types of the crates and how one becomes another: nexus-common/src/db/kv/error.rs,
-- nexus-common/src/db/graph/error.rs, nexus-common/src/models/error.rs,
-- nexus-common/src/db/connectors/pubky.rs, nexus-watcher/src/homeserver/error.rs and
-- nexus-watcher/src/errors.rs. An error of another crate (`DynError`, `neo4rs::Error`, `pkarr`,
-- `url`) is kept as the text it displays.
use pubky_nexus.Base.{
  ℕ, ◌≤◌, ◌<◌, String, Bool, true, false, List, ltb, leb, nat_beq, if◌then◌else◌, ◌&&◌, Result, ok,
  err,
}
pub mod Laws
mod Tests

-- `RedisError`
pub data RedisError : Type 0 where
  connection_not_initialized : RedisError
  connection_pool_error io_error command_failed : String → RedisError
  serialization_failed deserialization_failed invalid_input : String → RedisError

-- `GraphError`
pub data GraphError : Type 0 where
  connection_not_initialized query_timeout : GraphError
  query_failed query_build_error serialization_failed : String → GraphError
  deserialization_failed uri_parse_error invalid_resource_type : String → GraphError
  keyset_scan_stalled : String → String → GraphError
  generic : String → GraphError

-- `ModelError`
pub data ModelError : Type 0 where
  graph_operation_failed : GraphError → ModelError
  kv_operation_failed : RedisError → ModelError
  hs_blacklisted : String → ModelError
  generic : String → ModelError

-- `PubkyClientError`
pub data PubkyClientError : Type 0 where
  not_initialized : PubkyClientError
  not_found404 too_many_requests429 server_error5xx : String → PubkyClientError
  request_failed pkarr_failed authentication_failed : String → PubkyClientError
  build_failed parse_failed : String → PubkyClientError

-- `HsOp`
pub data HsOp : Type 0 where
  poll_events user_events get_resource get_blob : HsOp

-- `HsErrorKind`
pub data HsErrorKind : Type 0 where
  not_found rate_limited : String → HsErrorKind
  server_error rejected : ℕ → String → HsErrorKind
  timeout : HsErrorKind
  transport : String → HsErrorKind
  too_large : ℕ → ℕ → HsErrorKind
  sdk malformed : String → HsErrorKind

-- `HsError`
pub record HsError : Type 0 where
  pub hs : String
  pub op : HsOp
  pub kind : HsErrorKind

-- `EventProcessorError`
pub data EventProcessorError : Type 0 where
  graph_query_failed : Bool → String → EventProcessorError
  missing_dependency : List String → EventProcessorError
  index_operation_failed : Bool → String → EventProcessorError
  skip_indexing : EventProcessorError
  invalid_event_line : String → EventProcessorError
  user_id_mismatch : String → String → String → EventProcessorError
  event_cursor_out_of_order : String → String → ℕ → ℕ → EventProcessorError
  spec_validation data_anomaly unsupported_target : String → EventProcessorError
  fetch_size_exceeded : ℕ → ℕ → EventProcessorError
  pubky_client_error : PubkyClientError → EventProcessorError
  hs_events_stream_rate_limit_exhausted : EventProcessorError
  hs_events_stream_transport_failed : String → EventProcessorError
  hs_events_stream_server_error : String → EventProcessorError
  hs_blacklisted : String → EventProcessorError
  homeserver : HsError → EventProcessorError
  internal_error static_save_failed generic : String → EventProcessorError

-- The texts that `Display` gives for the errors that are converted.
pub record Messages : Type 0 where
  pub redis : RedisError → String
  pub graph : GraphError → String
  pub hs : HsError → String

-- `RedisError::should_not_retry_now`
unfoldable pub redis_should_not_retry_now : RedisError → Bool
redis_should_not_retry_now RedisError.connection_not_initialized = true
redis_should_not_retry_now (RedisError.connection_pool_error _) = true
redis_should_not_retry_now (RedisError.io_error _) = true
redis_should_not_retry_now _ = false

-- `GraphError::should_not_retry_now`
unfoldable pub graph_should_not_retry_now : GraphError → Bool
graph_should_not_retry_now GraphError.connection_not_initialized = true
graph_should_not_retry_now (GraphError.query_failed _) = true
graph_should_not_retry_now _ = false

-- `ensure_cursor_not_backwards`
unfoldable pub ensure_cursor_not_backwards : ℕ → ℕ → Result (Unit {0}) RedisError
ensure_cursor_not_backwards new_cursor stored_cursor =
    if ltb new_cursor stored_cursor
    then err (RedisError.invalid_input "Cursor cannot move backwards")
    else ok tt

-- `HsErrorKind::from_status`; `is_server_error` holds of the codes from 500 to 599.
unfoldable pub from_status : ℕ → String → HsErrorKind
from_status status body =
    if nat_beq status 404
    then HsErrorKind.not_found body
    else if nat_beq status 429
    then HsErrorKind.rate_limited body
    else if leb 500 status && ltb status 600
    then HsErrorKind.server_error status body
    else HsErrorKind.rejected status body

-- `error.op == HsOp::UserEvents`
unfoldable pub is_on_stream : HsOp → Bool
is_on_stream HsOp.user_events = true
is_on_stream _ = false

-- The `match` of `From<HsError> for EventProcessorError`, given `on_stream` and `message`.
unfoldable pub convert_hs : Bool → String → HsError → HsErrorKind → EventProcessorError
convert_hs on_stream message error (HsErrorKind.too_large got max) =
    EventProcessorError.fetch_size_exceeded got max
convert_hs on_stream message error (HsErrorKind.rate_limited _) =
    if on_stream
    then EventProcessorError.hs_events_stream_rate_limit_exhausted
    else EventProcessorError.pubky_client_error (PubkyClientError.too_many_requests429 message)
convert_hs on_stream message error (HsErrorKind.server_error _ _) =
    if on_stream
    then EventProcessorError.hs_events_stream_server_error message
    else EventProcessorError.pubky_client_error (PubkyClientError.server_error5xx message)
convert_hs on_stream message error (HsErrorKind.transport _) =
    if on_stream
    then EventProcessorError.hs_events_stream_transport_failed message
    else EventProcessorError.pubky_client_error (PubkyClientError.request_failed message)
convert_hs on_stream message error HsErrorKind.timeout =
    if on_stream
    then EventProcessorError.hs_events_stream_transport_failed message
    else EventProcessorError.pubky_client_error (PubkyClientError.request_failed message)
convert_hs on_stream message error (HsErrorKind.not_found _) =
    EventProcessorError.pubky_client_error (PubkyClientError.not_found404 message)
convert_hs on_stream message error (HsErrorKind.rejected _ _) =
    EventProcessorError.pubky_client_error (PubkyClientError.request_failed message)
convert_hs on_stream message error (HsErrorKind.sdk _) =
    EventProcessorError.pubky_client_error (PubkyClientError.request_failed message)
convert_hs on_stream message error (HsErrorKind.malformed _) = EventProcessorError.homeserver error

-- `From<HsError> for EventProcessorError`
unfoldable pub from_hs : Messages → HsError → EventProcessorError
unfolding convert_hs is_on_stream
from_hs text error = convert_hs (is_on_stream error.op) (text.hs error) error error.kind

-- `From<RedisError> for EventProcessorError`
unfoldable pub from_redis : Messages → RedisError → EventProcessorError
unfolding redis_should_not_retry_now
from_redis text e =
    EventProcessorError.index_operation_failed (redis_should_not_retry_now e) (text.redis e)

-- `From<GraphError> for EventProcessorError`
unfoldable pub from_graph : Messages → GraphError → EventProcessorError
unfolding graph_should_not_retry_now
from_graph text (GraphError.keyset_scan_stalled context detail) =
    EventProcessorError.data_anomaly (text.graph (GraphError.keyset_scan_stalled context detail))
from_graph text e =
    EventProcessorError.graph_query_failed (graph_should_not_retry_now e) (text.graph e)

-- `From<ModelError> for EventProcessorError`
unfoldable pub from_model : Messages → ModelError → EventProcessorError
unfolding from_graph redis_should_not_retry_now
from_model text (ModelError.graph_operation_failed source) = from_graph text source
from_model text (ModelError.kv_operation_failed source) =
    EventProcessorError.index_operation_failed (redis_should_not_retry_now source)
      (text.redis source)
from_model text (ModelError.hs_blacklisted hs_id) = EventProcessorError.hs_blacklisted hs_id
from_model text (ModelError.generic message) = EventProcessorError.generic message

-- `EventProcessorError::should_not_retry_now`
unfoldable pub should_not_retry_now : EventProcessorError → Bool
should_not_retry_now (EventProcessorError.graph_query_failed b _) = b
should_not_retry_now (EventProcessorError.index_operation_failed b _) = b
should_not_retry_now EventProcessorError.hs_events_stream_rate_limit_exhausted = true
should_not_retry_now (EventProcessorError.hs_events_stream_transport_failed _) = true
should_not_retry_now (EventProcessorError.hs_events_stream_server_error _) = true
should_not_retry_now (EventProcessorError.event_cursor_out_of_order _ _ _ _) = true
should_not_retry_now _ = false

is_not_found_client : PubkyClientError → Bool
is_not_found_client (PubkyClientError.not_found404 _) = true
is_not_found_client _ = false

-- `EventProcessorError::is_not_found`
unfoldable pub is_not_found : EventProcessorError → Bool
unfolding is_not_found_client
is_not_found (EventProcessorError.pubky_client_error e) = is_not_found_client e
is_not_found _ = false

-- `EventProcessorError::is_missing_dependency`
unfoldable pub is_missing_dependency : EventProcessorError → Bool
is_missing_dependency (EventProcessorError.missing_dependency _) = true
is_missing_dependency _ = false

-- The inner `match` of `RetryScheduler::should_enqueue_related_event`.
should_enqueue_client : PubkyClientError → Bool
should_enqueue_client PubkyClientError.not_initialized = true
should_enqueue_client (PubkyClientError.too_many_requests429 _) = true
should_enqueue_client (PubkyClientError.server_error5xx _) = true
should_enqueue_client (PubkyClientError.request_failed _) = true
should_enqueue_client (PubkyClientError.pkarr_failed _) = true
should_enqueue_client (PubkyClientError.not_found404 _) = false
should_enqueue_client (PubkyClientError.authentication_failed _) = false
should_enqueue_client (PubkyClientError.build_failed _) = false
should_enqueue_client (PubkyClientError.parse_failed _) = false

-- `RetryScheduler::should_enqueue_related_event`
unfoldable pub should_enqueue_related_event : EventProcessorError → Bool
unfolding should_enqueue_client
should_enqueue_related_event (EventProcessorError.pubky_client_error e) = should_enqueue_client e
should_enqueue_related_event (EventProcessorError.invalid_event_line _) = false
should_enqueue_related_event EventProcessorError.skip_indexing = false
should_enqueue_related_event (EventProcessorError.spec_validation _) = false
should_enqueue_related_event (EventProcessorError.unsupported_target _) = false
should_enqueue_related_event (EventProcessorError.hs_blacklisted _) = false
should_enqueue_related_event (EventProcessorError.homeserver _) = false
should_enqueue_related_event EventProcessorError.hs_events_stream_rate_limit_exhausted = false
should_enqueue_related_event (EventProcessorError.fetch_size_exceeded _ _) = false
should_enqueue_related_event (EventProcessorError.data_anomaly _) = false
should_enqueue_related_event (EventProcessorError.user_id_mismatch _ _ _) = false
should_enqueue_related_event (EventProcessorError.event_cursor_out_of_order _ _ _ _) = false
should_enqueue_related_event _ = true
