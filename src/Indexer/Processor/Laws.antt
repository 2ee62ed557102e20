-- ===== src/Indexer/Processor/Laws.antt =====
-- What `handle_event` does with an event, whatever its check and its handler answer.
use pubky_nexus.Base.{
  String, Bool, true, false, Option, none, some, Result, ok, err, if◌then◌else◌, ◌≡◌, refl, arith,
  ◌⊎◌, inl, inr, Bool-cases, ap, sym, ◌∙◌,
}
use pubky_nexus.Errors.{
  EventProcessorError, should_enqueue_related_event, should_not_retry_now, is_missing_dependency,
}
use pubky_nexus.Event.{Specs, Event}
use pubky_nexus.Indexer.Processor.{
  Scheduler, Processor, queue, handle_error, after_handler, after_check, handle_event,
}

module _ {specs : Specs} {W : Type 0} (self : Processor specs W) (event : Event specs) where
  -- The failure of an event is settled, from the world `w` to the world `w'`.
  pub data IsSettled (e : EventProcessorError) (w w' : W) : Type 0 where
    -- The failure will recur: nothing is done.
    dropped : should_enqueue_related_event e ≡ false → w' ≡ w → IsSettled e w w'
    -- A missing dependency is queued with its own initial backoff, any other failure with the
    -- transient one.
    queued :
        (s : Scheduler specs W) (id : String)
        → self.retry_scheduler ≡ some s
        → self.homeserver_id ≡ some id
        → (if is_missing_dependency e
            then s.queue_missing_dep event id w
            else s.queue_transient event id w)
          ≡ (ok tt, w')
        → IsSettled e w w'
    -- The processor has no queue, or no homeserver to name.
    unqueued :
        (self.retry_scheduler ≡ none) ⊎ (self.homeserver_id ≡ none) → w' ≡ w → IsSettled e w w'

  -- How an event that does not stop the batch was dealt with, from the world `w` to the world `w'`.
  pub data IsAccounted (w w' : W) : Type 0 where
    not_ours : self.should_process_event event w ≡ (ok false, w') → IsAccounted w w'
    unchecked :
        (e : EventProcessorError) (v : W)
        → self.should_process_event event w ≡ (err e, v)
        → should_not_retry_now e ≡ false
        → IsSettled e v w'
        → IsAccounted w w'
    handled :
        (v : W)
        → self.should_process_event event w ≡ (ok true, v)
        → self.handle event v ≡ (ok tt, w')
        → IsAccounted w w'
    failed :
        (e : EventProcessorError) (u v : W)
        → self.should_process_event event w ≡ (ok true, u)
        → self.handle event u ≡ (err e, v)
        → should_not_retry_now e ≡ false
        → IsSettled e v w'
        → IsAccounted w w'

  queue-IsSettled :
      (e : EventProcessorError) (rs : Option (Scheduler specs W)) (hs : Option String) (w w' : W)
      → self.retry_scheduler ≡ rs
      → self.homeserver_id ≡ hs
      → queue self event e rs hs w ≡ (ok tt, w')
      → IsSettled e w w'
  unfolding queue
  queue-IsSettled e none hs w w' p q h = unqueued (inl p) (ap (λ t. t.1) (sym h))
  queue-IsSettled e (some s) none w w' p q h = unqueued (inr q) (ap (λ t. t.1) (sym h))
  queue-IsSettled e (some s) (some id) w w' p q h = queued s id p q (ground arith)

  handle_error-IsSettled :
      (e : EventProcessorError) (w w' : W)
      → handle_error self event e w ≡ (ok tt, w')
      → (should_not_retry_now e ≡ false) × IsSettled e w w'
  unfolding handle_error
  handle_error-IsSettled e w w' h = elim (Bool-cases (should_not_retry_now e)) [
    | inl stop ↦ absurd (ground arith)
    | inr go ↦ elim (Bool-cases (should_enqueue_related_event e)) [
      | inr no_use ↦ (go, dropped no_use (ground arith))
      | inl worth ↦ (
        go,
        queue-IsSettled e self.retry_scheduler self.homeserver_id w w' refl refl (ground arith),
      )
    ]
  ]

  after_handler-IsAccounted :
      (r : Result (Unit {0}) EventProcessorError) (w u v w' : W)
      → self.should_process_event event w ≡ (ok true, u)
      → self.handle event u ≡ (r, v)
      → after_handler self event (r, v) ≡ (ok tt, w')
      → IsAccounted w w'
  unfolding after_handler
  after_handler-IsAccounted (ok x) w u v w' p q h = handled u p (q ∙ h)
  after_handler-IsAccounted (err e) w u v w' p q h =
      let (go, settled) = handle_error-IsSettled e v w' h in failed e u v p q go settled

  after_check-IsAccounted :
      (r : Result Bool EventProcessorError) (w u w' : W)
      → self.should_process_event event w ≡ (r, u)
      → after_check self event (r, u) ≡ (ok tt, w')
      → IsAccounted w w'
  unfolding after_check
  after_check-IsAccounted (ok true) w u w' p h =
      after_handler-IsAccounted (self.handle event u).0 w u (self.handle event u).1 w' p refl h
  after_check-IsAccounted (ok false) w u w' p h =
      not_ours (p ∙ ap (λ t. (ok false, t)) (ap (λ t. t.1) h))
  after_check-IsAccounted (err e) w u w' p h =
      let (go, settled) = handle_error-IsSettled e u w' h in unchecked e u p go settled

  -- No event is lost silently: when `handle_event` returns `Ok`, the processor's own test answered
  -- that the event is not to be processed here, or the event was handled, or it failed in a way
  -- that does not stop the batch and was then queued for a retry or, being hopeless or without a
  -- queue to go to, dropped.
  pub handle_event-IsAccounted :
      (w w' : W) → handle_event self event w ≡ (ok tt, w') → IsAccounted w w'
  unfolding handle_event
  handle_event-IsAccounted w w' h =
      after_check-IsAccounted (self.should_process_event event w).0 w
        (self.should_process_event event w).1 w' refl h
