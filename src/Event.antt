-- ===== src/Event.antt =====
-- Events and their text form: nexus-watcher/src/events/event.rs, with `HsStreamEvent` of
-- nexus-watcher/src/homeserver/client.rs. What the crate pubky-app-specs decides about a URI is
-- the parameter `Specs`.
use Prim.Native.Char.{Char, code}
use pubky_nexus.Base.{
  ℕ, String, Bool, true, false, Option, none, some, Result, ok, err, ◌==◌, string_eq, nat_beq,
  if◌then◌else◌, append,
}
use pubky_nexus.Errors.{EventProcessorError}
pub mod Laws

-- `EventType`
pub data EventType : Type 0 where
  put del : EventType

-- `Display for EventType`
unfoldable pub event_type_str : EventType → String
event_type_str EventType.put = "PUT"
event_type_str EventType.del = "DEL"

-- What the code asks of the resource of a parsed pubky.app URI.
pub data ResourceClass : Type 0 where
  unknown : ResourceClass
  last_read feed blob : ResourceClass
  other : ResourceClass

-- `ExtendedParsedUri` of pubky-app-specs: parsing, printing, the resource of a pubky.app URI
-- (none for a universal tag) and the owner.
pub record Specs : Type 1 where
  pub ExtendedParsedUri : Type 0
  pub try_from : String → Result ExtendedParsedUri String
  pub try_to_uri_str : ExtendedParsedUri → Result String String
  pub resource : ExtendedParsedUri → Option ResourceClass
  pub user_id : ExtendedParsedUri → String

-- `line.split_once(c)`
unfoldable pub split_once : ℕ → String → Option (String × String)
split_once c String.[] = none
split_once c (String.◌∷◌ d s) =
    if nat_beq (code d) c
    then some ("", s)
    else elim (split_once c s) [ none ↦ none | some p ↦ some (String.◌∷◌ d p.0, p.1) ]

-- The `match` on `kind` of `Event::parse_event`.
unfoldable pub parse_kind : String → Result EventType EventProcessorError
parse_kind kind =
    if kind == "PUT"
    then ok EventType.put
    else if kind == "DEL"
    then ok EventType.del
    else err (EventProcessorError.invalid_event_line (append "Unknown event type: " kind))

-- `format!("{event_type} {uri}")`
unfoldable pub event_line_of : EventType → String → String
unfolding event_type_str
event_line_of event_type uri = append (event_type_str event_type) (append " " uri)

module _ (specs : Specs) where
  open specs use {ExtendedParsedUri, try_from, try_to_uri_str, resource}

  -- `Event`
  pub record Event : Type 0 where
    pub uri : String
    pub event_type : EventType
    pub parsed_uri : ExtendedParsedUri
    pub event_line : String

  -- `ParseResult`
  pub data ParseResult : Type 0 where
    parsed : Event → ParseResult
    skipped : ParseResult
    unrecognized_uri : EventType → String → String → ParseResult

  -- The test `canonical == uri` that ends `Event::parse_event_parts`.
  check_canonical :
      EventType → String → String → ExtendedParsedUri → Result String String → ParseResult
  check_canonical event_type uri event_line parsed_uri (ok canonical) =
      if canonical == uri
      then parsed (record {
        uri = uri;
        event_type = event_type;
        parsed_uri = parsed_uri;
        event_line = event_line;
      })
      else unrecognized_uri event_type uri "non-canonical path"
  check_canonical event_type uri event_line parsed_uri (err _) =
      unrecognized_uri event_type uri "non-canonical path"

  -- The `match` on the resource of a pubky.app URI, and what follows it.
  check_resource :
      EventType
      → String
      → String
      → ExtendedParsedUri
      → Option ResourceClass
      → Result ParseResult EventProcessorError
  unfolding check_canonical
  check_resource event_type uri event_line parsed_uri (some ResourceClass.unknown) =
      err (EventProcessorError.invalid_event_line (append "Unknown resource in URI: " uri))
  check_resource event_type uri event_line parsed_uri (some ResourceClass.last_read) = ok skipped
  check_resource event_type uri event_line parsed_uri (some ResourceClass.feed) = ok skipped
  check_resource event_type uri event_line parsed_uri (some ResourceClass.blob) = ok skipped
  check_resource event_type uri event_line parsed_uri _ =
      ok (check_canonical event_type uri event_line parsed_uri (try_to_uri_str parsed_uri))

  -- `Event::parse_event_parts`
  unfoldable pub parse_event_parts :
      EventType → String → String → Result ParseResult EventProcessorError
  unfolding check_resource
  parse_event_parts event_type uri event_line = elim (try_from uri) [
    | err e ↦ ok (unrecognized_uri event_type uri e)
    | ok parsed_uri ↦ check_resource event_type uri event_line parsed_uri (resource parsed_uri)
  ]

  -- `Event::parse_event`
  unfoldable pub parse_event : String → Result ParseResult EventProcessorError
  unfolding split_once parse_kind
  parse_event line = elim (split_once b' ' line) [
    | none ↦ err (EventProcessorError.invalid_event_line (append "Malformed event line, " line))
    | some p ↦ elim (parse_kind p.0) [
      | err e ↦ err e
      | ok event_type ↦ parse_event_parts event_type p.1 line
    ]
  ]

-- `HsStreamEvent`
pub record HsStreamEvent : Type 0 where
  pub event_type : EventType
  pub cursor : ℕ
  pub owner : String
  pub uri : String

module _ (specs : Specs) where
  -- The `match` of `Event::from_stream_event`.
  known_event : ParseResult specs → Option (Event specs)
  known_event (parsed event) = some event
  known_event skipped = none
  known_event (unrecognized_uri _ _ _) = none

  -- `Event::from_stream_event`
  unfoldable pub from_stream_event :
      HsStreamEvent → Result (Option (Event specs)) EventProcessorError
  unfolding known_event event_line_of
  from_stream_event stream_event =
      elim (parse_event_parts specs stream_event.event_type stream_event.uri
        (event_line_of stream_event.event_type stream_event.uri)) [
          | err e ↦ err e
          | ok r ↦ ok (known_event r)
        ]
