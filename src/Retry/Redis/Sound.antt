-- ===== src/Retry/Redis/Sound.antt =====
-- Every write of the retry queue keeps its layout in Redis, and what it does to the entries.
use pubky_nexus.Base.{
  nat_beq, ◌≡◌, ℕ, String, Option, none, some, List, [], ◌∷◌, Result, ok, err, if◌then◌else◌, ◌==◌,
  string_eq, inl, inr, refl, arith, ap, sym, ◌∙◌, Bool-cases, Option-cases, ◌⊎◌,
}
use pubky_nexus.Errors.{RedisError}
use pubky_nexus.Retry.Nonce.{match_nonce, match_nonce_one, match_nonce_blank}
use pubky_nexus.Retry.Entry.{IndexKey, RetryEvent, has_nonce}
use pubky_nexus.Retry.Redis.{
  Json, Commands, state_json_key, events_sorted_set_key, nonce_or_zero, nonce_matches, nonce_guard,
  remove_stale_one, remove_stale_script,
}
use pubky_nexus.Retry.Redis.Layout.{JsonLaws, CommandLaws, state_json_key_same}

module _ (json : Json) where
  -- What a document reads as.
  abbrev pub event_of : Result RetryEvent RedisError → Option RetryEvent
  event_of (ok event) = some event
  event_of (err e) = none

  abbrev pub entry_in : Option String → Option RetryEvent
  entry_in none = none
  entry_in (some t) = event_of (json.from_str t)

  -- A document that reads as an event, with that event's time as its score if it has one.
  abbrev pub Fits : Option String → Option ℕ → Type 0
  Fits none n = Unit
  Fits (some t) n =
      (event : RetryEvent) × (json.from_str t ≡ ok event)
      × ((time : ℕ) → n ≡ some time → time ≡ event.next_retry_at)

  Fits-unscored : (o : Option String) (n : Option ℕ) → Fits o n → Fits o none
  Fits-unscored none n h = tt
  Fits-unscored (some t) n (event, e, h) = (event, e, λ time q. absurd (ground arith))

module _ {W : Type 0} (json : Json) (commands : Commands W) where
  open commands use {document, score, json_set, json_del, zadd, zrem}

  -- The document and the score of an entry.
  abbrev pub document_at : IndexKey → W → Option String
  document_at k w = document (state_json_key k) w

  abbrev pub score_at : IndexKey → W → Option ℕ
  score_at k w = score events_sorted_set_key k w

  abbrev pub entry : IndexKey → W → Option RetryEvent
  entry k w = entry_in json (document_at k w)

  abbrev pub IsSound : W → Type 0
  IsSound w = (k : IndexKey) → Fits json (document_at k w) (score_at k w)

  -- One entry is what it is made to be, and the others are as before.
  abbrev pub Sets : IndexKey → Option String → Option ℕ → W → W → Type 0
  Sets k o n w w' =
      (j : IndexKey)
      → (document_at j w' ≡ (if k == j then o else document_at j w))
        × (score_at j w' ≡ (if k == j then n else score_at j w))

  pub Sets-IsSound :
      (k : IndexKey) (o : Option String) (n : Option ℕ) (w w' : W)
      → Sets k o n w w'
      → Fits json o n
      → IsSound w
      → IsSound w'
  Sets-IsSound k o n w w' h f s j = elim (Bool-cases (k == j)) [
    | inl q ↦
        let d : document_at j w' ≡ o = ground (arith, (h j).0) in
        let m : score_at j w' ≡ n = ground (arith, (h j).1) in rw (d, m) f
    | inr q ↦
        let d : document_at j w' ≡ document_at j w = ground (arith, (h j).0) in
        let m : score_at j w' ≡ score_at j w = ground (arith, (h j).1) in rw (d, m) (s j)
  ]

  pub Sets-entry :
      (k : IndexKey) (o : Option String) (n : Option ℕ) (w w' : W)
      → Sets k o n w w'
      → (j : IndexKey) → entry j w' ≡ (if k == j then entry_in json o else entry j w)
  Sets-entry k o n w w' h j = elim (Bool-cases (k == j)) [
    | inl q ↦ let d : document_at j w' ≡ o = ground (arith, (h j).0) in rw (d, q) refl
    | inr q ↦ let d : document_at j w' ≡ document_at j w = ground (arith, (h j).0) in rw (d, q) refl
  ]

  print_same : JsonLaws json → (n m : ℕ) → json.print_i64 n == json.print_i64 m ≡ nat_beq n m
  print_same laws n m =
      let apart = laws.print_apart n m in
      let alike : n ≡ m → json.print_i64 n ≡ json.print_i64 m = ap json.print_i64 in
      ground (arith, apart, alike, string_eq.same_iff (json.print_i64 n) (json.print_i64 m))

  -- The guard tells whether a document's nonce is the expected one.
  nonce_matches_lem :
      JsonLaws json
      → (t : String) (event : RetryEvent) (n : ℕ) → json.from_str t ≡ ok event
      → nonce_matches json (json.print_i64 n) (some t) ≡ nat_beq event.nonce n
  unfolding nonce_matches
  nonce_matches_lem laws t event n e = elim (laws.nonce_reply_is t event e) [
    | inl reply ↦
        ap (λ o. nonce_or_zero o == json.print_i64 n)
          (ap match_nonce reply
            ∙ match_nonce_one (json.print_i64 event.nonce) (laws.print_digits event.nonce))
        ∙ print_same laws event.nonce n
    | inr (reply, zero) ↦
        ap (λ o. nonce_or_zero o == json.print_i64 n) (ap match_nonce reply ∙ match_nonce_blank)
        ∙ ap (λ d. d == json.print_i64 n) (sym laws.print_zero)
        ∙ print_same laws 0 n
        ∙ ap (λ m. nat_beq m n) (sym zero)
  ]

  -- What `NONCE_GUARD_LUA` tests.
  pub nonce_guard_lem :
      JsonLaws json
      → (k : IndexKey) (n : ℕ) (w : W) → IsSound w
      → nonce_guard json commands (state_json_key k) (json.print_i64 n) w ≡ has_nonce n (entry k w)
  unfolding nonce_guard nonce_matches
  nonce_guard_lem laws k n w s = guarded (document_at k w) (score_at k w) (s k)
    where
      guarded :
          (o : Option String) (m : Option ℕ)
          → Fits json o m
          → nonce_matches json (json.print_i64 n) o ≡ has_nonce n (entry_in json o)
      guarded none m f = refl
      guarded (some t) m (event, e, f) = nonce_matches_lem laws t event n e ∙ rw e refl

  module _ (laws : CommandLaws commands) where
    pub written-Sets :
        (k : IndexKey) (t : String) (n : ℕ) (w : W)
        → Sets k
            (some t)
            (some n)
            w
            (zadd events_sorted_set_key n k (json_set (state_json_key k) t w))
    written-Sets k t n w j = (
      laws.add_document events_sorted_set_key k (state_json_key j) n
            (json_set (state_json_key k) t w)
          ∙ laws.set_document (state_json_key k) (state_json_key j) t w
          ∙ ap (λ b. if b then some t else document_at j w) (state_json_key_same k j),
      laws.add_score events_sorted_set_key k j n (json_set (state_json_key k) t w)
          ∙ ap (λ m. if k == j then some n else m)
              (laws.set_score (state_json_key k) t events_sorted_set_key j w),
    )

    pub removed-Sets :
        (k : IndexKey) (w : W)
        → Sets k none none w (zrem events_sorted_set_key k (json_del (state_json_key k) w))
    removed-Sets k w j = (
      laws.rem_document events_sorted_set_key k (state_json_key j) (json_del (state_json_key k) w)
          ∙ laws.del_document (state_json_key k) (state_json_key j) w
          ∙ ap (λ b. if b then none else document_at j w) (state_json_key_same k j),
      laws.rem_score events_sorted_set_key k j (json_del (state_json_key k) w)
          ∙ ap (λ m. if k == j then none else m)
              (laws.del_score (state_json_key k) events_sorted_set_key j w),
    )

    -- A tidied world: the documents are as they were, and scores are only taken away.
    abbrev pub Tidied : W → W → Type 0
    Tidied w w' =
        (j : IndexKey)
        → (document_at j w' ≡ document_at j w)
          × ((score_at j w' ≡ score_at j w) ⊎ (score_at j w' ≡ none))

    pub Tidied-IsSound : (w w' : W) → Tidied w w' → IsSound w → IsSound w'
    Tidied-IsSound w w' h s j = elim (h j).1 [
      | inl same ↦ rw ((h j).0, same) (s j)
      | inr gone ↦ rw ((h j).0, gone) (Fits-unscored json (document_at j w) (score_at j w) (s j))
    ]

    remove_stale_one-Tidied :
        (key : String) (k : IndexKey) (w : W)
        → Tidied w (remove_stale_one json commands events_sorted_set_key key k w)
    unfolding remove_stale_one
    remove_stale_one-Tidied key k w j = elim (Option-cases (document key w)) [
      | inl q ↦
          rw (remove_stale_one, q)
            (
              laws.rem_document events_sorted_set_key k (state_json_key j) w,
              elim (Bool-cases (k == j)) [
                | inl p ↦ inr (ground (arith, laws.rem_score events_sorted_set_key k j w))
                | inr p ↦ inl (ground (arith, laws.rem_score events_sorted_set_key k j w))
              ],
            )
      | inr (t, q) ↦ rw (remove_stale_one, q) (refl, inl refl)
    ]

    Tidied-trans : (w v x : W) → Tidied w v → Tidied v x → Tidied w x
    Tidied-trans w v x g h j = (
      (h j).0 ∙ (g j).0,
      elim (h j).1 [
        | inr gone ↦ inr gone
        | inl same ↦ elim (g j).1 [ inl old ↦ inl (same ∙ old) | inr gone ↦ inr (same ∙ gone) ]
      ],
    )

    pub remove_stale_script-Tidied :
        (members : List (String × String)) (w : W)
        → Tidied w (remove_stale_script json commands events_sorted_set_key members w)
    unfolding remove_stale_script
    remove_stale_script-Tidied [] w = λ j. (refl, inl refl)
    remove_stale_script-Tidied ((key, k) ∷ members) w =
        let v = remove_stale_one json commands events_sorted_set_key key k w in
        Tidied-trans w v (remove_stale_script json commands events_sorted_set_key members v)
          (remove_stale_one-Tidied key k w) (remove_stale_script-Tidied members v)
