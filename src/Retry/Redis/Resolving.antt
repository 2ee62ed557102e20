-- ===== src/Retry/Redis/Resolving.antt =====
-- The loop of `RedisRetryStore::fetch_ready` in nexus-watcher/src/events/retry/store.rs: the entries
-- that it finds for the members of the sorted set.
use pubky_nexus.Base.Sort.{IsSorted}
use pubky_nexus.Retry.Store.{in_time, IsCapped}
use pubky_nexus.Base.{
  length, ◌≤◌, ℕ, String, true, Option, none, some, List, [], ◌∷◌, Result, ok, map, ◌≡◌, inl, inr,
  refl, arith, ap, ◌∙◌, sym, Result-cases, All, subst,
}
use pubky_nexus.Base.Word.{leb_i64}
use pubky_nexus.Retry.Entry.{IndexKey, RetryEvent}
use pubky_nexus.Retry.Redis.{
  Json, Commands, Connection, state_json_key, deserialize_values, resolve, first,
}
use pubky_nexus.Retry.Redis.Layout.{JsonLaws}
use pubky_nexus.Retry.Redis.Sound.{Fits, entry, IsSound, document_at, score_at}

some_same : {A : Type 0} (a b : A) → some a ≡ some b → a ≡ b
some_same a b h = cc

module _ {W : Type 0} (json : Json) (commands : Commands W)
    (connection : Connection W commands) where
  -- A pair to return, and a candidate of the sorted set.
  abbrev pub IsReady : ℕ → W → IndexKey × RetryEvent → Type 0
  IsReady now w p = (entry json commands p.0 w ≡ some p.1) × (leb_i64 p.1.next_retry_at now ≡ true)

  abbrev pub IsScored : ℕ → W → IndexKey × ℕ → Type 0
  IsScored now w p = (score_at json commands p.0 w ≡ some p.1) × (leb_i64 p.1 now ≡ true)

  abbrev pub documents : W → List (IndexKey × ℕ) → List (Option String)
  documents w pairs = map (λ key. commands.document (state_json_key key) w) (map (λ p. p.0) pairs)

  -- What a document was read as.
  abbrev Reads : Option String → Option RetryEvent → Type 0
  Reads none found = found ≡ none
  Reads (some t) found =
      (events : List RetryEvent) × (json.from_reply t ≡ ok events) × (found ≡ first events)

  deserialize_values-cons :
      (o : Option String) (os : List (Option String)) (r : List (Option RetryEvent))
      → deserialize_values json commands connection (o ∷ os) ≡ ok r
      → (found : Option RetryEvent) × (rest : List (Option RetryEvent)) × (found ∷ rest ≡ r)
        × (deserialize_values json commands connection os ≡ ok rest)
        × Reads o found
  unfolding deserialize_values
  deserialize_values-cons none os r h =
      elim (Result-cases (deserialize_values json commands connection os)) [
        | inl (rest, q) ↦ (none, rest, ground arith, q, refl)
        | inr (e, q) ↦ absurd (ground arith)
      ]
  deserialize_values-cons (some t) os r h = elim (Result-cases (json.from_reply t)) [
    | inr (e, q) ↦ absurd (ground arith)
    | inl (events, q) ↦ elim (Result-cases (deserialize_values json commands connection os)) [
      | inl (rest, p) ↦ (first events, rest, ground arith, p, (events, q, refl))
      | inr (e, p) ↦ absurd (ground arith)
    ]
  ]

  resolve-All :
      (P : IndexKey × RetryEvent → Type 0) (key : IndexKey) (n : ℕ) (pairs : List (IndexKey × ℕ))
      (found : Option RetryEvent) (rest : List (Option RetryEvent))
      → ((event : RetryEvent) → found ≡ some event → P (key, event))
      → All P (resolve json commands connection pairs rest).0
      → All P (resolve json commands connection ((key, n) ∷ pairs) (found ∷ rest)).0
  unfolding resolve
  resolve-All P key n pairs none rest h k = k
  resolve-All P key n pairs (some event) rest h k = (h event refl, k)

  read_time :
      JsonLaws json
      → (n : ℕ) (o : Option String) (m : Option ℕ) (found : Option RetryEvent) → Fits json o m
      → m ≡ some n
      → Reads o found
      → (event : RetryEvent) → found ≡ some event
      → n ≡ event.next_retry_at
  read_time json_laws n none m found f s r event e = absurd (ground arith)
  read_time json_laws n (some doc) m found (x, q, f) s (y, p, r) event e =
      let one : Result.ok y ≡ Result.ok (x ∷ []) = sym p ∙ json_laws.reply_one x doc q in
      let all : y ≡ x ∷ [] = cc in
      f n s ∙ ap (λ z. z.next_retry_at) (some_same x event (ap first (sym all) ∙ sym r ∙ e))

  read-IsReady :
      JsonLaws json
      → (now : ℕ) (w : W) (key : IndexKey) (n : ℕ) (o : Option String) (m : Option ℕ)
        (found : Option RetryEvent)
      → document_at json commands key w ≡ o
      → Fits json o m
      → m ≡ some n
      → leb_i64 n now ≡ true
      → Reads o found
      → (event : RetryEvent) → found ≡ some event
      → IsReady now w (key, event)
  read-IsReady json_laws now w key n none m found d f s t r event e = absurd (ground arith)
  read-IsReady json_laws now w key n (some doc) m found d (x, q, f) s t (y, p, r) event e =
      let one : Result.ok y ≡ Result.ok (x ∷ []) = sym p ∙ json_laws.reply_one x doc q in
      let all : y ≡ x ∷ [] = cc in
      let same : x ≡ event = some_same x event (ap first (sym all) ∙ sym r ∙ e) in
      let time : n ≡ event.next_retry_at = f n s ∙ ap (λ z. z.next_retry_at) same in
      (rw (d, q) (ap some same), rw (← time) t)

  pub resolve-IsReady :
      JsonLaws json
      → (now : ℕ) (w : W) (pairs : List (IndexKey × ℕ)) (r : List (Option RetryEvent))
      → IsSound json commands w
      → deserialize_values json commands connection (documents w pairs) ≡ ok r
      → All (IsScored now w) pairs
      → All (IsReady now w) (resolve json commands connection pairs r).0
  unfolding resolve
  resolve-IsReady json_laws now w [] r s h k = tt
  resolve-IsReady json_laws now w ((key, n) ∷ pairs) r s h k =
      let (found, rest, e, d, reads) = deserialize_values-cons _ (documents w pairs) r h in
      subst (λ l. All (IsReady now w) (resolve json commands connection ((key, n) ∷ pairs) l).0) e
        (resolve-All (IsReady now w) key n pairs found rest
          (read-IsReady json_laws now w key n (document_at json commands key w)
            (score_at json commands key w) found refl (s key) k.0.0 k.0.1 reads)
          (resolve-IsReady json_laws now w pairs rest s d k.1))

  -- The entries keep the scores, their order and no more than their number.
  resolve-times :
      JsonLaws json
      → (P : ℕ → Type 0) (now : ℕ) (w : W) (pairs : List (IndexKey × ℕ))
        (r : List (Option RetryEvent))
      → IsSound json commands w
      → deserialize_values json commands connection (documents w pairs) ≡ ok r
      → All (IsScored now w) pairs
      → All (λ p. P p.1) pairs
      → All (λ p. P p.1.next_retry_at) (resolve json commands connection pairs r).0
  unfolding resolve
  resolve-times json_laws P now w [] r s h k t = tt
  resolve-times json_laws P now w ((key, n) ∷ pairs) r s h k t =
      let (found, rest, e, d, reads) = deserialize_values-cons _ (documents w pairs) r h in
      subst
        (λ l.
          All (λ p. P p.1.next_retry_at) (resolve json commands connection ((key, n) ∷ pairs) l).0)
        e
        (resolve-All (λ p. P p.1.next_retry_at) key n pairs found rest
          (λ event q.
            subst P
              (read_time json_laws n (document_at json commands key w)
                (score_at json commands key w) found (s key) k.0.0 reads event q)
              t.0)
          (resolve-times json_laws P now w pairs rest s d k.1 t.1))

  resolve-cons-IsSorted :
      (key : IndexKey) (n : ℕ) (pairs : List (IndexKey × ℕ)) (found : Option RetryEvent)
      (rest : List (Option RetryEvent))
      → ((event : RetryEvent) → found ≡ some event → n ≡ event.next_retry_at)
      → All
          (λ p. leb_i64 n p.1.next_retry_at ≡ true)
          (resolve json commands connection pairs rest).0
      → IsSorted in_time (resolve json commands connection pairs rest).0
      → IsSorted in_time (resolve json commands connection ((key, n) ∷ pairs) (found ∷ rest)).0
  unfolding resolve
  resolve-cons-IsSorted key n pairs none rest h a k = k
  resolve-cons-IsSorted key n pairs (some event) rest h a k = (
    subst
        (λ t.
          All (λ p. leb_i64 t p.1.next_retry_at ≡ true)
            (resolve json commands connection pairs rest).0)
        (h event refl) a,
    k,
  )

  pub resolve-IsSorted :
      JsonLaws json
      → (now : ℕ) (w : W) (pairs : List (IndexKey × ℕ)) (r : List (Option RetryEvent))
      → IsSound json commands w
      → deserialize_values json commands connection (documents w pairs) ≡ ok r
      → All (IsScored now w) pairs
      → IsSorted (λ p q. leb_i64 p.1 q.1) pairs
      → IsSorted in_time (resolve json commands connection pairs r).0
  unfolding resolve
  resolve-IsSorted json_laws now w [] r s h k t = tt
  resolve-IsSorted json_laws now w ((key, n) ∷ pairs) r s h k t =
      let (found, rest, e, d, reads) = deserialize_values-cons _ (documents w pairs) r h in
      subst (λ l. IsSorted in_time (resolve json commands connection ((key, n) ∷ pairs) l).0) e
        (resolve-cons-IsSorted key n pairs found rest
          (read_time json_laws n (document_at json commands key w) (score_at json commands key w)
            found (s key) k.0.0 reads)
          (resolve-times json_laws (λ t. leb_i64 n t ≡ true) now w pairs rest s d k.1 t.0)
          (resolve-IsSorted json_laws now w pairs rest s d k.1 t.1))

  length-resolve :
      (pairs : List (IndexKey × ℕ)) (r : List (Option RetryEvent))
      → length (resolve json commands connection pairs r).0 ≤ length pairs
  unfolding resolve
  length-resolve [] r = omega arith
  length-resolve (p ∷ pairs) [] = omega arith
  length-resolve ((key, n) ∷ pairs) (none ∷ rest) = omega (arith, length-resolve pairs rest)
  length-resolve ((key, n) ∷ pairs) (some event ∷ rest) = omega (arith, length-resolve pairs rest)

  pub resolve-IsCapped :
      (limit : Option ℕ) (pairs : List (IndexKey × ℕ)) (r : List (Option RetryEvent))
      → IsCapped limit pairs
      → IsCapped limit (resolve json commands connection pairs r).0
  resolve-IsCapped none pairs r h = tt
  resolve-IsCapped (some limit) pairs r h = omega (arith, h, length-resolve pairs r)
