-- ===== src/Retry/Redis/Acts.antt =====
-- What each call of the Redis retry store does to the documents and scores.
use pubky_nexus.Base.{
  ℕ, String, Bool, true, false, none, some, Result, ok, err, Step, map_err, if◌then◌else◌,
  string_eq, ◌≡◌, ◌⊎◌, inl, inr, refl, arith, ap, ◌∙◌, sym, Bool-cases, Result-cases,
}
use pubky_nexus.Errors.{RedisError, Messages, from_redis}
use pubky_nexus.Retry.Entry.{IndexKey, RetryEvent}
use pubky_nexus.Retry.Redis.{
  Json, Commands, Connection, state_json_key, events_sorted_set_key, nonce_guard, with_payload,
  put_to_index, remove_from_index_if_nonce, put_to_index_if_nonce, remove_if_nonce_script,
  put_if_nonce_script, lifted, put, put_if, remove_if,
}
use pubky_nexus.Retry.Redis.Layout.{CommandLaws, ConnectionLaws}
use pubky_nexus.Retry.Redis.Sound.{Sets, written-Sets, removed-Sets}

module _ {W : Type 0} (json : Json) (commands : Commands W) (connection : Connection W commands)
    (laws : CommandLaws commands) (answers : ConnectionLaws connection) (text : Messages) where
  open connection use {atomic}

  -- A script that acts if its test holds, and answers the test.
  abbrev tested : (g : Bool) → W → W → Bool × W
  tested g acted w = if g then (true, acted) else (false, w)

  tested-acts :
      (g : Bool) (f : W → Bool × W) (acted w : W)
      → f w ≡ tested g acted w
      → ((atomic f w).1 ≡ w) ⊎ ((g ≡ true) × ((atomic f w).1 ≡ acted))
  tested-acts g f acted w h = elim (answers.atomic_acts f w) [
    | inl same ↦ inl same
    | inr done ↦ elim (Bool-cases g) [
      | inl q ↦ inr (q, done ∙ ap (λ p. p.1) (h ∙ ap (λ b. tested b acted w) q))
      | inr q ↦ inl (done ∙ ap (λ p. p.1) (h ∙ ap (λ b. tested b acted w) q))
    ]
  ]

  tested-ok :
      (g : Bool) (f : W → Bool × W) (acted w : W) (b : Bool)
      → f w ≡ tested g acted w
      → (atomic f w).0 ≡ ok b
      → (b ≡ g) × (((g ≡ true) × ((atomic f w).1 ≡ acted)) ⊎ ((g ≡ false) × ((atomic f w).1 ≡ w)))
  tested-ok g f acted w b h r =
      let (answer, done) = answers.atomic_ok f w b r in
      elim (Bool-cases g) [
        | inl q ↦
            let e = h ∙ ap (λ c. tested c acted w) q in
            (answer ∙ ap (λ p. p.0) e ∙ sym q, inl (q, done ∙ ap (λ p. p.1) e))
        | inr q ↦
            let e = h ∙ ap (λ c. tested c acted w) q in
            (answer ∙ ap (λ p. p.0) e ∙ sym q, inr (q, done ∙ ap (λ p. p.1) e))
      ]

  with_payload-cases :
      {A : Type 0} (event : RetryEvent) (send : String → Step W RedisError A) (w : W)
      → let p = with_payload json commands connection event send w in
        ((e : RedisError) × (p ≡ (err e, w)))
        ⊎ ((t : String) × (json.to_string event ≡ ok t) × (p ≡ send t w))
  unfolding with_payload
  with_payload-cases event send w = elim (Result-cases (json.to_string event)) [
    | inr (e, q) ↦ inl (e, rw (with_payload, q) refl)
    | inl (t, q) ↦ inr (t, q, rw (with_payload, q) refl)
  ]

  lifted-ok :
      {A : Type 0} (r : Result A RedisError) (a : A) → map_err (from_redis text) r ≡ ok a → r ≡ ok a
  lifted-ok (ok x) a h = cc
  lifted-ok (err e) a h = absurd (ground arith)

  abbrev pub guard : IndexKey → ℕ → W → Bool
  guard k n w = nonce_guard json commands (state_json_key k) (json.print_i64 n) w

  module _ (for_uri : String → IndexKey) where
    pub remove_if-acts :
        (k : IndexKey) (n : ℕ) (w : W)
        → let w' = (remove_if json commands connection text for_uri k n w).1 in
          (w' ≡ w) ⊎ ((guard k n w ≡ true) × Sets json commands k none none w w')
    unfolding remove_if lifted remove_from_index_if_nonce remove_if_nonce_script
    remove_if-acts k n w = elim (tested-acts (guard k n w) _ _ w refl) [
      | inl same ↦ inl same
      | inr (q, done) ↦ inr (q, rw done (removed-Sets json commands laws k w))
    ]

    pub remove_if-ok :
        (k : IndexKey) (n : ℕ) (w : W) (b : Bool)
        → (remove_if json commands connection text for_uri k n w).0 ≡ ok b
        → let w' = (remove_if json commands connection text for_uri k n w).1 in
          (b ≡ guard k n w)
          × (((guard k n w ≡ true) × Sets json commands k none none w w')
              ⊎ ((guard k n w ≡ false) × (w' ≡ w)))
    unfolding remove_if lifted remove_from_index_if_nonce remove_if_nonce_script
    remove_if-ok k n w b h =
        let (answer, done) = tested-ok (guard k n w) _ _ w b refl (lifted-ok _ b h) in
        (
          answer,
          elim done [
            | inl (q, e) ↦ inl (q, rw e (removed-Sets json commands laws k w))
            | inr same ↦ inr same
          ],
        )

    -- A write of an event, serialized.
    abbrev pub Writes : RetryEvent → W → W → Type 0
    Writes event w w' =
        (t : String) × (json.to_string event ≡ ok t)
        × Sets json commands (for_uri event.event_uri) (some t) (some event.next_retry_at) w w'

    written :
        (event : RetryEvent) (t : String) (w : W)
        → let k = for_uri event.event_uri in
          Sets json commands k (some t) (some event.next_retry_at) w (
            commands.zadd events_sorted_set_key event.next_retry_at k
              (commands.json_set (state_json_key k) t w))
    written event t w =
        written-Sets json commands laws (for_uri event.event_uri) t event.next_retry_at w

    put_sent : RetryEvent → String → Step W RedisError (Unit {0})
    put_sent event t =
        let k = for_uri event.event_uri in
        atomic (λ w. (
          tt,
          commands.zadd events_sorted_set_key event.next_retry_at k
              (commands.json_set (state_json_key k) t w),
        ))

    put_if_sent : RetryEvent → ℕ → String → Step W RedisError Bool
    put_if_sent event n t =
        let k = for_uri event.event_uri in
        atomic (
          put_if_nonce_script json commands (state_json_key k) events_sorted_set_key
            (json.print_i64 n) t event.next_retry_at k)

    pub put-acts :
        (event : RetryEvent) (w : W)
        → let w' = (put json commands connection text for_uri event w).1 in
          (w' ≡ w) ⊎ Writes event w w'
    unfolding put lifted put_to_index put_sent
    put-acts event w = elim (with_payload-cases event (put_sent event) w) [
      | inl (e, q) ↦ inl (ap (λ p. p.1) q)
      | inr (t, q, sent) ↦ elim (answers.atomic_acts _ w) [
        | inl same ↦ inl (ap (λ p. p.1) sent ∙ same)
        | inr done ↦ inr (t, q, rw (ap (λ p. p.1) sent ∙ done) (written event t w))
      ]
    ]

    pub put-ok :
        (event : RetryEvent) (w : W)
        → (put json commands connection text for_uri event w).0 ≡ ok tt
        → Writes event w (put json commands connection text for_uri event w).1
    unfolding put lifted put_to_index put_sent
    put-ok event w h = elim (with_payload-cases event (put_sent event) w) [
      | inl (e, q) ↦ let r = lifted-ok _ tt h in absurd (ground (arith, ap (λ p. p.0) q))
      | inr (t, q, sent) ↦
          let r = sym (ap (λ p. p.0) sent) ∙ lifted-ok _ tt h in
          let (_, done) = answers.atomic_ok _ w tt r in
          (t, q, rw (ap (λ p. p.1) sent ∙ done) (written event t w))
    ]

    pub put_if-acts :
        (event : RetryEvent) (n : ℕ) (w : W)
        → let w' = (put_if json commands connection text for_uri event n w).1 in
          (w' ≡ w) ⊎ ((guard (for_uri event.event_uri) n w ≡ true) × Writes event w w')
    unfolding put_if lifted put_to_index_if_nonce put_if_nonce_script put_if_sent
    put_if-acts event n w = elim (with_payload-cases event (put_if_sent event n) w) [
      | inl (e, q) ↦ inl (ap (λ p. p.1) q)
      | inr (t, q, sent) ↦ elim (tested-acts (guard (for_uri event.event_uri) n w) _ _ w refl) [
        | inl same ↦ inl (ap (λ p. p.1) sent ∙ same)
        | inr (g, done) ↦ inr (g, (t, q, rw (ap (λ p. p.1) sent ∙ done) (written event t w)))
      ]
    ]

    pub put_if-ok :
        (event : RetryEvent) (n : ℕ) (w : W) (b : Bool)
        → (put_if json commands connection text for_uri event n w).0 ≡ ok b
        → let w' = (put_if json commands connection text for_uri event n w).1 in
          let g = guard (for_uri event.event_uri) n w in
          (b ≡ g) × (((g ≡ true) × Writes event w w') ⊎ ((g ≡ false) × (w' ≡ w)))
    unfolding put_if lifted put_to_index_if_nonce put_if_nonce_script put_if_sent
    put_if-ok event n w b h = elim (with_payload-cases event (put_if_sent event n) w) [
      | inl (e, q) ↦ let r = lifted-ok _ b h in absurd (ground (arith, ap (λ p. p.0) q))
      | inr (t, q, sent) ↦
          let r = sym (ap (λ p. p.0) sent) ∙ lifted-ok _ b h in
          let (answer, done) = tested-ok (guard (for_uri event.event_uri) n w) _ _ w b refl r in
          (
            answer,
            elim done [
              | inl (g, e) ↦ inl (g, (t, q, rw (ap (λ p. p.1) sent ∙ e) (written event t w)))
              | inr (g, e) ↦ inr (g, ap (λ p. p.1) sent ∙ e)
            ],
          )
    ]
