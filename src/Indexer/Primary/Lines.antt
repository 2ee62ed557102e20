-- ===== src/Indexer/Primary/Lines.antt =====
-- The event lines of a batch of the primary homeserver, one after another.
use pubky_nexus.Base.{
  ℕ, String, false, Option, List, [], ◌∷◌, ok, ◌≡◌, inl, inr, refl, arith, ◌∙◌, ap, Bool-cases,
  Result-cases, subst,
}
use pubky_nexus.Event.{Specs}
use pubky_nexus.Indexer.Processor.{process_event_line}
use pubky_nexus.Indexer.Primary.{HsEventProcessor, process_lines}

module _ {specs : Specs} {W : Type 0} (self : HsEventProcessor specs W) where
  -- Every line was processed without an error, in order, and no shutdown was seen.
  pub data AllProcessed : List String → W → W → Type 0 where
    done : {w : W} → AllProcessed [] w w
    next :
        {line : String} {lines : List String} {u w v : W}
        → (self.is_shutdown u).0 ≡ false
        → process_event_line self.processor line (self.is_shutdown u).1 ≡ (ok tt, v)
        → AllProcessed lines v w
        → AllProcessed (line ∷ lines) u w

  pub process_lines-AllProcessed :
      (lines : List String) (u w : W)
      → process_lines self lines u ≡ (ok false, w)
      → AllProcessed lines u w
  unfolding process_lines
  process_lines-AllProcessed [] u w h = subst (AllProcessed [] u) (ap (λ p. p.1) h) done
  process_lines-AllProcessed (line ∷ lines) u w h = elim (Bool-cases (self.is_shutdown u).0) [
    | inl stop ↦ absurd (ground arith)
    | inr on ↦
        let v = (self.is_shutdown u).1 in
        elim (Result-cases (process_event_line self.processor line v).0) [
          | inr (e, q) ↦ absurd (ground arith)
          | inl (x, q) ↦
              let v' = (process_event_line self.processor line v).1 in
              next on (ap (λ r. (r, v')) q) (process_lines-AllProcessed lines v' w (ground arith))
        ]
  ]

  abbrev pub stored_cursor : W → Option ℕ
  stored_cursor = self.index.cursor_of self.homeserver.id

  -- Processing a line and reading the shutdown flag leave the stored cursor alone: no one else
  -- writes it.
  abbrev pub KeepsCursor : Type 0
  KeepsCursor =
      ((line : String) (v : W)
        → stored_cursor (process_event_line self.processor line v).1 ≡ stored_cursor v)
      × ((v : W) → stored_cursor (self.is_shutdown v).1 ≡ stored_cursor v)

  pub process_lines_keeps :
      (lines : List String) (u : W)
      → KeepsCursor
      → stored_cursor (process_lines self lines u).1 ≡ stored_cursor u
  unfolding process_lines
  process_lines_keeps [] u k = refl
  process_lines_keeps (line ∷ lines) u k =
      let v = (self.is_shutdown u).1 in
      let r = process_event_line self.processor line v in
      elim (Bool-cases (self.is_shutdown u).0) [
        | inl stop ↦ rw stop (k.1 u)
        | inr on ↦ elim (Result-cases r.0) [
          | inr (e, q) ↦ rw (on, q) (k.0 line v ∙ k.1 u)
          | inl (x, q) ↦ rw (on, q) (process_lines_keeps lines r.1 k ∙ k.0 line v ∙ k.1 u)
        ]
      ]

  pub AllProcessed-process_lines :
      (lines : List String) (u w : W)
      → AllProcessed lines u w
      → process_lines self lines u ≡ (ok false, w)
  unfolding process_lines
  AllProcessed-process_lines _ _ _ done = refl
  AllProcessed-process_lines _ _ _ (next on q all) =
      rw (on, q) (AllProcessed-process_lines _ _ _ all)
