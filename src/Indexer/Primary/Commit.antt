-- ===== src/Indexer/Primary/Commit.antt =====
-- When the primary homeserver's cursor moves.
use pubky_nexus.Base.{
  ℕ, String, Bool, true, false, Option, none, some, List, Result, ok, err, ◌≡◌, ◌⊎◌, inl, inr, ◌<◌,
  refl, arith, ◌∙◌, ap, sym, leb, nat_beq, Bool-cases, Option-cases, and_then, subst,
}
use pubky_nexus.Errors.{EventProcessorError, RedisError, ModelError}
use pubky_nexus.Event.{Specs}
use pubky_nexus.Homeserver.{Homeserver, put_to_index, try_from_cursor, parse_u64}
use pubky_nexus.Homeserver.Cursor.{AtLeast, put_to_index_moves, try_from_cursor-Parsed, Parsed}
use pubky_nexus.Indexer.Primary.Lines.{
  AllProcessed, process_lines-AllProcessed, process_lines_keeps, stored_cursor, KeepsCursor,
}
use pubky_nexus.Indexer.Primary.{
  EventBatch, split, has_events, HsEventProcessor, accept, judge, resolve_batch_cursor,
  process_lines, commit, process_resolved, process_event_lines,
}

module _ {specs : Specs} {W : Type 0} (self : HsEventProcessor specs W) where
  -- What an accepted cursor is: beyond the requested one if the batch has events, else equal to it.
  abbrev pub Advances : Bool → ℕ → Type 0
  Advances true c = self.homeserver.cursor < c
  Advances false c = c ≡ self.homeserver.cursor

  judge-Advances :
      (b : Bool) (r : Result Homeserver ModelError) (h : Homeserver)
      → judge self b r ≡ ok (some h)
      → (r ≡ ok h) × Advances b h.cursor
  unfolding judge accept
  judge-Advances true (ok h') h e = elim (Bool-cases (leb h'.cursor self.homeserver.cursor)) [
    | inl q ↦ absurd (ground arith)
    | inr q ↦
        let same : h' ≡ h = ground arith in
        (ap ok same, subst (λ x. self.homeserver.cursor < x.cursor) same (ground arith))
  ]
  judge-Advances false (ok h') h e = elim (Bool-cases (nat_beq h'.cursor self.homeserver.cursor)) [
    | inl q ↦
        let same : h' ≡ h = ground arith in
        (ap ok same, subst (λ x. x.cursor ≡ self.homeserver.cursor) same (ground arith))
    | inr q ↦ absurd (ground arith)
  ]
  judge-Advances b (err (ModelError.kv_operation_failed (RedisError.invalid_input _))) h e =
      absurd (ground arith)
  judge-Advances b (err (ModelError.kv_operation_failed x)) h e = absurd (ground arith)
  judge-Advances b (err x) h e = absurd (ground arith)

  -- The batch's cursor was accepted, all its lines were processed, and then it was stored.
  abbrev pub IsCommitted : EventBatch → W → W → Type 0
  IsCommitted batch w w' =
      (raw : String) × (c : ℕ) × (v : W) × (v' : W) × (batch.cursor ≡ some raw)
      × (parse_u64 raw ≡ some c)
      × Advances (has_events batch) c
      × AtLeast (stored_cursor self w) (some c)
      × AllProcessed self batch.event_lines v v'
      × (stored_cursor self w' ≡ some c)

  then_commit :
      (h : Homeserver) (lines : List String) (v v' : W) (r : Result Bool EventProcessorError)
      → h.id ≡ self.homeserver.id
      → process_lines self lines v ≡ (r, v')
      → let w' = (and_then (r, v') (commit self (some h))).1 in
        (stored_cursor self w' ≡ stored_cursor self v')
        ⊎ (AllProcessed self lines v v' × (stored_cursor self w' ≡ some h.cursor))
  unfolding commit
  then_commit h lines v v' (err e) i p = inl refl
  then_commit h lines v v' (ok true) i p = inl refl
  then_commit h lines v v' (ok false) i p =
      let all = process_lines-AllProcessed self lines v v' p in
      let u = (put_to_index self.index h v').1 in
      elim (put_to_index_moves self.index h v') [
        | inl same ↦ inl (subst (λ x. self.index.cursor_of x u ≡ self.index.cursor_of x v') i same)
        | inr moved ↦ inr (all, subst (λ x. self.index.cursor_of x u ≡ some h.cursor) i moved)
      ]

  resolving_keeps :
      (raw : String) (w : W) (r : Result Homeserver ModelError) (v : W)
      → try_from_cursor self.index self.homeserver.id raw w ≡ (r, v)
      → stored_cursor self v ≡ stored_cursor self w
  resolving_keeps raw w r v p =
      subst (λ x. stored_cursor self x.1 ≡ stored_cursor self w) p
        ((try_from_cursor-Parsed self.index self.homeserver.id raw w).1 self.homeserver.id)

  accepted :
      (raw : String) (w : W) (r : Result Homeserver ModelError) (v : W) (h : Homeserver)
      → try_from_cursor self.index self.homeserver.id raw w ≡ (r, v)
      → r ≡ ok h
      → Parsed self.index self.homeserver.id raw w (ok h)
  accepted raw w r v h p q =
      subst (Parsed self.index self.homeserver.id raw w) (ap (λ x. x.0) p ∙ q)
        (try_from_cursor-Parsed self.index self.homeserver.id raw w).0

  -- What a resolved cursor leads to.
  resolved-IsCommitted :
      (batch : EventBatch) (raw : String) (w v : W) (r : Result Homeserver ModelError)
      (o : Result (Option Homeserver) EventProcessorError)
      → KeepsCursor self
      → batch.cursor ≡ some raw
      → try_from_cursor self.index self.homeserver.id raw w ≡ (r, v)
      → judge self (has_events batch) r ≡ o
      → let w' = (and_then (o, v) (process_resolved self batch)).1 in
        (stored_cursor self w' ≡ stored_cursor self w) ⊎ IsCommitted batch w w'
  unfolding process_resolved
  resolved-IsCommitted batch raw w v r (err e) k b p j = inl (resolving_keeps raw w r v p)
  resolved-IsCommitted batch raw w v r (ok none) k b p j = inl (resolving_keeps raw w r v p)
  resolved-IsCommitted batch raw w v r (ok (some h)) k b p j =
      let still = resolving_keeps raw w r v p in
      let (is_h, advances) = judge-Advances (has_events batch) r h j in
      let (id, parsed, at_least) = accepted raw w r v h p is_h in
      let lines = batch.event_lines in
      let (result, v') = process_lines self lines v in
      elim (then_commit h lines v v' result id refl) [
        | inl same ↦ inl (same ∙ process_lines_keeps self lines v k ∙ still)
        | inr moved ↦ inr (raw, h.cursor, v, v', b, parsed, advances, at_least, moved.0, moved.1)
      ]

  with_cursor :
      (lines : List String) (w : W) (raw : String)
      → (split lines).cursor ≡ some raw
      → process_event_lines self lines w
        ≡ and_then
            (resolve_batch_cursor self raw (has_events (split lines)) w)
            (process_resolved self (split lines))
  unfolding process_event_lines
  with_cursor lines w raw b = rw (process_event_lines, b) refl

  no_commit : (p : Result Bool EventProcessorError × W) → (and_then p (commit self none)).1 ≡ p.1
  unfolding commit
  no_commit (err e, v) = refl
  no_commit (ok true, v) = refl
  no_commit (ok false, v) = refl

  without_cursor :
      (lines : List String) (w : W)
      → (split lines).cursor ≡ none
      → KeepsCursor self
      → stored_cursor self (process_event_lines self lines w).1 ≡ stored_cursor self w
  unfolding process_event_lines
  without_cursor lines w b k = elim (Bool-cases (has_events (split lines))) [
    | inl e ↦ rw (process_event_lines, b, e) refl
    | inr e ↦
        let all = (split lines).event_lines in
        rw (process_event_lines, b, e)
          (ap (stored_cursor self) (no_commit (process_lines self all w))
            ∙ process_lines_keeps self all w k)
  ]

  -- The stored cursor of the homeserver moves only when a whole batch is done. Whatever the
  -- homeserver sends and wherever the run stops or fails, after the batch the stored cursor is the
  -- one before it, unless the batch closed with a numeric cursor that is not behind the stored one
  -- and is beyond the requested one (equal to it, for a batch without events), every event line
  -- was then processed without an error, and that cursor is the one stored. It is assumed that
  -- nothing else writes this homeserver's cursor meanwhile.
  pub process_event_lines-IsCommitted :
      (lines : List String) (w : W)
      → KeepsCursor self
      → let w' = (process_event_lines self lines w).1 in
        (stored_cursor self w' ≡ stored_cursor self w) ⊎ IsCommitted (split lines) w w'
  unfolding resolve_batch_cursor judge
  process_event_lines-IsCommitted lines w k = elim (Option-cases (split lines).cursor) [
    | inr (raw, b) ↦
        let (r, v) = try_from_cursor self.index self.homeserver.id raw w in
        subst
          (λ p. (stored_cursor self p.1 ≡ stored_cursor self w) ⊎ IsCommitted (split lines) w p.1)
          (sym (with_cursor lines w raw b))
          (resolved-IsCommitted (split lines) raw w v r (judge self (has_events (split lines)) r) k
            b refl refl)
    | inl b ↦ inl (without_cursor lines w b k)
  ]
