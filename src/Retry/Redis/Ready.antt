-- ===== src/Retry/Redis/Ready.antt =====
-- What `RedisRetryStore::fetch_ready` returns, and that it changes no entry.
use pubky_nexus.Base.Sort.{IsSorted}
use pubky_nexus.Retry.Store.{in_time, IsCapped}
use pubky_nexus.Base.{
  ℕ, String, Option, List, [], ◌∷◌, Result, ok, err, Step, map_err, and_then, pure, map, ◌≡◌, inl,
  inr, refl, arith, ◌∙◌, sym, All, subst, ◌>>=◌,
}
use pubky_nexus.Errors.{EventProcessorError, Messages, from_redis}
use pubky_nexus.Retry.Entry.{IndexKey, RetryEvent}
use pubky_nexus.Retry.Redis.{
  Json, Commands, Connection, state_json_key, events_sorted_set_key, deserialize_values,
  get_multiple_from_index, remove_stale_index_entries, remove_stale_script, ready_keys, lifted,
  resolve, cleaned, fetch_ready,
}
use pubky_nexus.Retry.Redis.Layout.{JsonLaws, CommandLaws, ConnectionLaws}
use pubky_nexus.Retry.Redis.Resolving.{IsReady, resolve-IsReady, resolve-IsSorted, resolve-IsCapped}
use pubky_nexus.Retry.Redis.Sound.{IsSound, Tidied, remove_stale_script-Tidied}

then_read-state :
    {W E A B : Type 0} (p : Result A E × W) (g : A → Result B E)
    → (and_then p (λ v w. (g v, w))).1 ≡ p.1
then_read-state (ok a, w) g = refl
then_read-state (err e, w) g = refl

then_read-ok :
    {W E A B : Type 0} (p : Result A E × W) (g : A → Result B E) (r : B)
    → (and_then p (λ v w. (g v, w))).0 ≡ ok r
    → (a : A) × (p.0 ≡ ok a) × (g a ≡ ok r)
then_read-ok (ok a, w) g r h = (a, refl, h)
then_read-ok (err e, w) g r h = absurd (ground arith)

then_pure-state :
    {W E A B : Type 0} (p : Result A E × W) (b : B) → (and_then p (λ _. pure b)).1 ≡ p.1
then_pure-state (ok a, w) b = refl
then_pure-state (err e, w) b = refl

then_pure-ok :
    {W E A B : Type 0} (p : Result A E × W) (b c : B) → (and_then p (λ _. pure b)).0 ≡ ok c → b ≡ c
then_pure-ok (ok a, w) b c h = cc
then_pure-ok (err e, w) b c h = absurd (ground arith)

then_step :
    {W E A B : Type 0} (P : W → Type 0) (p : Result A E × W) (f : A → W → Result B E × W)
    → P p.1
    → ((a : A) → P (f a p.1).1)
    → P (and_then p f).1
then_step P (ok a, w) f h g = g a
then_step P (err e, w) f h g = h

then_ok :
    {W E A B : Type 0} (p : Result A E × W) (f : A → W → Result B E × W) (b : B)
    → (and_then p f).0 ≡ ok b
    → (a : A) × (p.0 ≡ ok a) × ((f a p.1).0 ≡ ok b)
then_ok (ok a, w) f b h = (a, refl, h)
then_ok (err e, w) f b h = absurd (ground arith)

map_err_ok : {E E' A : Type 0} (f : E → E') (r : Result A E) (a : A) → map_err f r ≡ ok a → r ≡ ok a
map_err_ok f (ok x) a h = cc
map_err_ok f (err e) a h = absurd (ground arith)

module _ {W : Type 0} (json : Json) (commands : Commands W) (connection : Connection W commands)
    (laws : CommandLaws commands) (answers : ConnectionLaws connection) where
  open connection use {atomic}

  -- A reading changes nothing and, when it is answered, gives what is there.
  atomic_read : {A : Type 0} (read : W → A) (w : W) → (atomic (λ v. (read v, v)) w).1 ≡ w
  atomic_read read w = elim (answers.atomic_acts (λ v. (read v, v)) w) [
    | inl same ↦ same
    | inr done ↦ done
  ]

  get_multiple-state :
      (keys : List IndexKey) (w : W)
      → (get_multiple_from_index json commands connection keys w).1 ≡ w
  unfolding get_multiple_from_index
  get_multiple-state [] w = refl
  get_multiple-state (key ∷ keys) w =
      then_read-state
        (atomic (λ v. (map (λ k. commands.document (state_json_key k) v) (key ∷ keys), v)) w)
        (deserialize_values json commands connection)
      ∙ atomic_read (λ v. map (λ k. commands.document (state_json_key k) v) (key ∷ keys)) w

  get_multiple-ok :
      (keys : List IndexKey) (w : W) (r : List (Option RetryEvent))
      → (get_multiple_from_index json commands connection keys w).0 ≡ ok r
      → deserialize_values json commands connection
          (map (λ k. commands.document (state_json_key k) w) keys)
        ≡ ok r
  unfolding get_multiple_from_index deserialize_values
  get_multiple-ok [] w r h = h
  get_multiple-ok (key ∷ keys) w r h =
      let read : W → List (Option String) =
        λ v. map (λ k. commands.document (state_json_key k) v) (key ∷ keys) in
      let (values, e, d) =
        then_read-ok (atomic (λ v. (read v, v)) w) (deserialize_values json commands connection) r
          h in
      subst (λ l. deserialize_values json commands connection l ≡ ok r)
        (answers.atomic_ok (λ v. (read v, v)) w values e).0 d

  module _ (text : Messages) (for_uri : String → IndexKey) where
    remove_stale-Tidied :
        (keys : List IndexKey) (w : W)
        → Tidied json commands laws w (remove_stale_index_entries json commands connection keys w).1
    unfolding remove_stale_index_entries
    remove_stale-Tidied [] w = λ j. (refl, inl refl)
    remove_stale-Tidied (key ∷ keys) w =
        let members : List (String × String) = map (λ k. (state_json_key k, k)) (key ∷ keys) in
        elim (answers.atomic_acts
          (λ v. (tt, remove_stale_script json commands events_sorted_set_key members v)) w) [
            | inl same ↦ rw same (λ j. (refl, inl refl))
            | inr done ↦ rw done (remove_stale_script-Tidied json commands laws members w)
          ]

    cleaned-Tidied :
        (p : List (IndexKey × RetryEvent) × List IndexKey) (w : W)
        → Tidied json commands laws w (cleaned json commands connection text for_uri p w).1
    unfolding cleaned lifted
    cleaned-Tidied (events, []) w = λ j. (refl, inl refl)
    cleaned-Tidied (events, key ∷ stale) w =
        rw
          (then_pure-state
            (
              map_err (from_redis text)
                  (remove_stale_index_entries json commands connection (key ∷ stale) w).0,
              (remove_stale_index_entries json commands connection (key ∷ stale) w).1,
            )
            events)
          (remove_stale-Tidied (key ∷ stale) w)

    cleaned-ok :
        (p : List (IndexKey × RetryEvent) × List IndexKey) (w : W)
        (l : List (IndexKey × RetryEvent))
        → (cleaned json commands connection text for_uri p w).0 ≡ ok l
        → p.0 ≡ l
    unfolding cleaned lifted
    cleaned-ok (events, []) w l h = cc
    cleaned-ok (events, key ∷ stale) w l h = then_pure-ok _ events l h

    -- `fetch_ready` once it has the candidates.
    abbrev fetched : List (IndexKey × ℕ) → Step W EventProcessorError (List (IndexKey × RetryEvent))
    fetched pairs =
        lifted json commands connection text
          (get_multiple_from_index json commands connection (map (λ p. p.0) pairs))
        >>= λ events.
            cleaned json commands connection text for_uri
              (resolve json commands connection pairs events)

    fetched-Tidied :
        (pairs : List (IndexKey × ℕ)) (w : W) → Tidied json commands laws w (fetched pairs w).1
    unfolding lifted
    fetched-Tidied pairs w =
        let keys = map (λ p. p.0) pairs in
        let same = get_multiple-state keys w in
        then_step (Tidied json commands laws w)
          (lifted json commands connection text
            (get_multiple_from_index json commands connection keys) w)
          (λ events.
            cleaned json commands connection text for_uri
              (resolve json commands connection pairs events))
          (subst (Tidied json commands laws w) (sym same) (λ j. (refl, inl refl)))
          (λ events.
            let p = resolve json commands connection pairs events in
            subst
              (λ v.
                Tidied json commands laws w (cleaned json commands connection text for_uri p v).1)
              (sym same) (cleaned-Tidied p w))

    pub fetch_ready-Tidied :
        (now : ℕ) (limit : Option ℕ) (w : W)
        → Tidied json commands laws w
            (fetch_ready json commands connection text for_uri now limit w).1
    unfolding fetch_ready ready_keys
    fetch_ready-Tidied now limit w =
        let same = answers.range_acts events_sorted_set_key now limit w in
        then_step (Tidied json commands laws w)
          (ready_keys json commands connection text now limit w) fetched
          (subst (Tidied json commands laws w) (sym same) (λ j. (refl, inl refl)))
          (λ pairs.
            subst (λ v. Tidied json commands laws w (fetched pairs v).1) (sym same)
              (fetched-Tidied pairs w))

    pub fetch_ready-ok :
        JsonLaws json
        → (now : ℕ) (limit : Option ℕ) (w : W) (l : List (IndexKey × RetryEvent))
        → IsSound json commands w
        → (fetch_ready json commands connection text for_uri now limit w).0 ≡ ok l
        → All (IsReady json commands connection now w) l × IsSorted in_time l × IsCapped limit l
    unfolding fetch_ready ready_keys lifted
    fetch_ready-ok json_laws now limit w l s h =
        let (pairs, e, h1) =
          then_ok (ready_keys json commands connection text now limit w) fetched l h in
        let range = map_err_ok _ _ pairs e in
        let here : (fetched pairs w).0 ≡ ok l =
          subst (λ v. (fetched pairs v).0 ≡ ok l)
            (answers.range_acts events_sorted_set_key now limit w) h1 in
        let keys = map (λ p. p.0) pairs in
        let (events, e2, h2) =
          then_ok
            (lifted json commands connection text
              (get_multiple_from_index json commands connection keys) w)
            (λ events.
              cleaned json commands connection text for_uri
                (resolve json commands connection pairs events))
            l here in
        let found = get_multiple-ok keys w events (map_err_ok _ _ events e2) in
        let (scored, sorted, capped) =
          answers.range_ok events_sorted_set_key now limit w pairs range in
        subst
          (λ l.
            All (IsReady json commands connection now w) l × IsSorted in_time l × IsCapped limit l)
          (cleaned-ok (resolve json commands connection pairs events) _ l h2)
          (
            resolve-IsReady json commands connection json_laws now w pairs events s found scored,
            resolve-IsSorted json commands connection json_laws now w pairs events s found scored
                sorted,
            resolve-IsCapped json commands connection limit pairs events capped,
          )
