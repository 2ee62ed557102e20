-- ===== src/Event/Laws.antt =====
-- Reading an event line back, and which events are accepted.
use pubky_nexus.Base.{
  String, some, Result, ok, err, arith, ◌≡◌, refl, string_eq, Result-cases, inl, inr, ◌∙◌,
}
use mathlib.Core.Path.{ap₂}
use pubky_nexus.Event.{
  EventType, Specs, Event, parsed, split_once, parse_kind, event_type_str, event_line_of,
  parse_event_parts, parse_event, check_resource, check_canonical,
}

split_once-event_line_of :
    (t : EventType) (uri : String)
    → split_once b' ' (event_line_of t uri) ≡ some (event_type_str t, uri)
unfolding split_once event_line_of
split_once-event_line_of EventType.put uri = refl
split_once-event_line_of EventType.del uri = refl

parse_kind-event_type_str : (t : EventType) → parse_kind (event_type_str t) ≡ ok t
unfolding parse_kind event_type_str
parse_kind-event_type_str EventType.put = refl
parse_kind-event_type_str EventType.del = refl

module _ (specs : Specs) where
  -- An event line that the code prints, "PUT uri" or "DEL uri", is read back as its type and its
  -- URI, whatever spaces the URI holds.
  pub parse_event-event_line_of :
      (t : EventType) (uri : String)
      → parse_event specs (event_line_of t uri)
        ≡ parse_event_parts specs t uri (event_line_of t uri)
  unfolding parse_event
  parse_event-event_line_of t uri =
      rw (parse_event, split_once-event_line_of t uri, parse_kind-event_type_str t)

  check_canonical-parsed :
      (t : EventType) (uri line : String) (u : specs.ExtendedParsedUri) (c : Result String String)
      (event : Event specs)
      → check_canonical specs t uri line u c ≡ parsed event
      → (c ≡ ok uri)
        × (event ≡ record { uri = uri; event_type = t; parsed_uri = u; event_line = line })
  unfolding check_canonical
  check_canonical-parsed t uri line u (ok canonical) event h =
      (ground (arith, string_eq.same_iff canonical uri), ground arith)
  check_canonical-parsed t uri line u (err e) event h = cc

  -- An event is accepted only with the URI that the specs print for what the URI parses to, so no
  -- alias of a resource's address reaches a handler; the event keeps its type, URI and line.
  pub parse_event_parts-parsed :
      (t : EventType) (uri line : String) (event : Event specs)
      → parse_event_parts specs t uri line ≡ ok (parsed event)
      → (specs.try_from uri ≡ ok event.parsed_uri)
        × (specs.try_to_uri_str event.parsed_uri ≡ ok uri)
        × (event.uri ≡ uri)
        × (event.event_type ≡ t)
        × (event.event_line ≡ line)
  unfolding parse_event_parts check_resource
  parse_event_parts-parsed t uri line event h = elim (Result-cases (specs.try_from uri)) [
    | inr (e, q) ↦ ground arith
    | inl (u, q) ↦
        let r = check_canonical-parsed t uri line u (specs.try_to_uri_str u) event (ground arith) in
        (ground arith, ground arith, ground arith, ground arith, ground arith)
  ]

  -- The line is only carried along.
  parse_event_parts-line :
      (t : EventType) (uri line line' : String) (event : Event specs)
      → parse_event_parts specs t uri line ≡ ok (parsed event)
      → parse_event_parts specs t uri line' ≡ ok (parsed (record event { event_line = line' }))
  unfolding parse_event_parts check_resource check_canonical
  parse_event_parts-line t uri line line' event h =
      ground (arith, parse_event_parts-parsed t uri line event h, string_eq.same_iff uri uri)

  -- What a retry makes of a queued event: the line printed for an event that was accepted once is
  -- accepted again, as an event of the same type, URI and target.
  pub parse_event_again :
      (t : EventType) (uri line : String) (event : Event specs)
      → parse_event_parts specs t uri line ≡ ok (parsed event)
      → parse_event specs (event_line_of event.event_type event.uri)
        ≡ ok (parsed (record event { event_line = event_line_of event.event_type event.uri }))
  parse_event_again t uri line event h =
      let r = parse_event_parts-parsed t uri line event h in
      parse_event-event_line_of event.event_type event.uri
      ∙ parse_event_parts-line event.event_type event.uri line
          (event_line_of event.event_type event.uri) event
          (ap₂ (λ u v. parse_event_parts specs u v line) r.3 r.2 ∙ h)
