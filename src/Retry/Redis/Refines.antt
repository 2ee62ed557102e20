-- ===== src/Retry/Redis/Refines.antt =====
-- `RedisRetryStore` implements the interface of a retry store, on the states whose layout is sound.
use pubky_nexus.Base.{
  ℕ, String, Bool, true, false, Option, none, some, Result, ok, err, ◌≡◌, ◌⊎◌, inl, inr, refl,
  arith, ap, ◌∙◌, sym, All, if◌then◌else◌, ◌==◌, ◌&&◌, string_eq, subst,
}
use pubky_nexus.Base.Sort.{IsSorted}
use pubky_nexus.Errors.{EventProcessorError, Messages}
use pubky_nexus.Retry.Entry.{IndexKey, RetryEvent, has_nonce}
use pubky_nexus.Retry.Store.{Unchanged, RemovedIf, ReplacedIf, Written, in_time, IsCapped}
use pubky_nexus.Retry.Redis.{Json, Commands, Connection, put, put_if, remove_if, fetch_ready}
use pubky_nexus.Retry.Redis.Layout.{JsonLaws, CommandLaws, ConnectionLaws}
use pubky_nexus.Retry.Redis.Sound.{
  entry, entry_in, event_of, IsSound, Sets, Sets-IsSound, Sets-entry, nonce_guard_lem,
  Tidied-IsSound,
}
use pubky_nexus.Retry.Redis.Acts.{
  guard, Writes, put-acts, put-ok, put_if-acts, put_if-ok, remove_if-acts, remove_if-ok,
}
use pubky_nexus.Retry.Redis.Resolving.{IsReady}
use pubky_nexus.Retry.Redis.Ready.{fetch_ready-Tidied, fetch_ready-ok}

if_both :
    {A : Type 0} (b c : Bool) (x y z : A)
    → c ≡ true
    → x ≡ (if b then y else z)
    → x ≡ (if b && c then y else z)
if_both true c x y z h e = rw h e
if_both false c x y z h e = e

if_neither :
    {A : Type 0} (b c : Bool) (x y z : A) → c ≡ false → x ≡ z → x ≡ (if b && c then y else z)
if_neither true c x y z h e = rw h e
if_neither false c x y z h e = e

-- What holds of an answer, and what holds after a failure.
abbrev pub Ends : {A B : Type 0} → Result A B → (A → Type 0) → Type 0 → Type 0
Ends (ok a) IsAnswered Failed = IsAnswered a
Ends (err e) IsAnswered Failed = Failed

ends :
    {A B : Type 0} (r : Result A B) (IsAnswered : A → Type 0) (Failed : Type 0)
    → Failed
    → ((a : A) → r ≡ ok a → IsAnswered a)
    → Ends r IsAnswered Failed
ends (ok a) P F f h = h a refl
ends (err e) P F f h = f

pub Ends-either :
    {A B U D : Type 0} (r : Result A B) (P : A → Type 0) → Ends r (λ a. D × P a) (U ⊎ D) → U ⊎ D
Ends-either (ok a) P (d, p) = inr d
Ends-either (err e) P h = h

pub Ends-ok :
    {A B : Type 0} (r : Result A B) (P : A → Type 0) (F : Type 0) (a : A)
    → Ends r P F
    → r ≡ ok a
    → P a
Ends-ok r P F a h e = subst (λ q. Ends q P F) e h

module _ {W : Type 0} (json : Json) (commands : Commands W) (connection : Connection W commands)
    (json_laws : JsonLaws json) (laws : CommandLaws commands) (answers : ConnectionLaws connection)
    (text : Messages) (for_uri : String → IndexKey) where
  abbrev E : IndexKey → W → Option RetryEvent
  E = entry json commands

  -- A method keeps the layout. If it is answered, it did what it is to do and the answer is right,
  -- and if it fails, it did that or nothing.
  abbrev pub Does :
      {A : Type 0} → W → Result A EventProcessorError × W → (W → Type 0) → (A → Type 0) → Type 0
  Does {A} w p Done IsAnswer =
      IsSound json commands p.1
      × Ends p.0 (λ a. Done p.1 × IsAnswer a) (Unchanged (entry json commands) w p.1 ⊎ Done p.1)

  Writes-IsSound :
      (event : RetryEvent) (w w' : W)
      → Writes json commands connection laws answers text for_uri event w w'
      → IsSound json commands w
      → IsSound json commands w'
  Writes-IsSound event w w' (t, q, sets) s =
      Sets-IsSound json commands (for_uri event.event_uri) (some t) (some event.next_retry_at) w w'
        sets (event, json_laws.from_back event t q, λ time e. ground arith) s

  Writes-Written :
      (event : RetryEvent) (w w' : W)
      → Writes json commands connection laws answers text for_uri event w w'
      → Written E (for_uri event.event_uri) event w w'
  Writes-Written event w w' (t, q, sets) j =
      Sets-entry json commands (for_uri event.event_uri) (some t) (some event.next_retry_at) w w'
        sets j
      ∙ ap (λ o. if for_uri event.event_uri == j then o else E j w)
          (ap (event_of json) (json_laws.from_back event t q))

  -- A test on a nonce, as the answer of the script.
  tests :
      (k : IndexKey) (n : ℕ) (w : W)
      → IsSound json commands w
      → guard json commands connection laws answers text k n w ≡ has_nonce n (E k w)
  tests k n w s = nonce_guard_lem json commands json_laws k n w s

  removed :
      (k : IndexKey) (n : ℕ) (w w' : W)
      → has_nonce n (E k w) ≡ true
      → Sets json commands k none none w w'
      → RemovedIf E k n w w'
  removed k n w w' h sets j =
      if_both (k == j) _ (E j w') none (E j w) h (Sets-entry json commands k none none w w' sets j)

  not_removed :
      (k : IndexKey) (n : ℕ) (w w' : W)
      → has_nonce n (E k w) ≡ false
      → w' ≡ w
      → RemovedIf E k n w w'
  not_removed k n w w' h same j = if_neither (k == j) _ (E j w') none (E j w) h (ap (E j) same)

  replaced :
      (event : RetryEvent) (n : ℕ) (w w' : W)
      → has_nonce n (E (for_uri event.event_uri) w) ≡ true
      → Writes json commands connection laws answers text for_uri event w w'
      → ReplacedIf E (for_uri event.event_uri) event n w w'
  replaced event n w w' h writes j =
      if_both (for_uri event.event_uri == j) _ (E j w') (some event) (E j w) h
        (Writes-Written event w w' writes j)

  not_replaced :
      (event : RetryEvent) (n : ℕ) (w w' : W)
      → has_nonce n (E (for_uri event.event_uri) w) ≡ false
      → w' ≡ w
      → ReplacedIf E (for_uri event.event_uri) event n w w'
  not_replaced event n w w' h same j =
      if_neither (for_uri event.event_uri == j) _ (E j w') (some event) (E j w) h (ap (E j) same)

  unchanged : (w w' : W) → w' ≡ w → Unchanged E w w'
  unchanged w w' same j = ap (E j) same

  stays : (w w' : W) → w' ≡ w → IsSound json commands w → IsSound json commands w'
  stays w w' same s = subst (IsSound json commands) (sym same) s

  -- `put` writes the entry of its event.
  abbrev pub DoesPut : RetryEvent → W → Type 0
  DoesPut event w =
      let p = put json commands connection text for_uri event w in
      Does w p (Written (entry json commands) (for_uri event.event_uri) event w) (λ _. Unit)

  pub put-Does : (event : RetryEvent) (w : W) → IsSound json commands w → DoesPut event w
  put-Does event w s =
      let w' = (put json commands connection text for_uri event w).1 in
      let acts = put-acts json commands connection laws answers text for_uri event w in
      (
        elim acts [
          | inl same ↦ stays w w' same s
          | inr writes ↦ Writes-IsSound event w w' writes s
        ],
        ends _ (λ _. Written E (for_uri event.event_uri) event w w' × Unit) _
            (elim acts [
              | inl same ↦ inl (unchanged w w' same)
              | inr writes ↦ inr (Writes-Written event w w' writes)
            ])
            (λ a h. (
              Writes-Written event w w'
                  (put-ok json commands connection laws answers text for_uri event w h),
              tt,
            )),
      )

  -- `remove_if` removes the entry that carries the nonce, and answers whether there is one.
  abbrev pub DoesRemoveIf : IndexKey → ℕ → W → Type 0
  DoesRemoveIf k n w =
      Does w (remove_if json commands connection text for_uri k n w)
        (RemovedIf (entry json commands) k n w) (λ b. b ≡ has_nonce n (entry json commands k w))

  pub remove_if-Does : (k : IndexKey) (n : ℕ) (w : W) → IsSound json commands w → DoesRemoveIf k n w
  remove_if-Does k n w s =
      let w' = (remove_if json commands connection text for_uri k n w).1 in
      let acts = remove_if-acts json commands connection laws answers text for_uri k n w in
      let t = sym (tests k n w s) in
      (
        elim acts [
          | inl same ↦ stays w w' same s
          | inr (g, sets) ↦ Sets-IsSound json commands k none none w w' sets tt s
        ],
        ends _ _ _
            (elim acts [
              | inl same ↦ inl (unchanged w w' same)
              | inr (g, sets) ↦ inr (removed k n w w' (t ∙ g) sets)
            ])
            (λ b h.
              let (answer, done) =
                remove_if-ok json commands connection laws answers text for_uri k n w b h in
              (
                elim done [
                  | inl (g, sets) ↦ removed k n w w' (t ∙ g) sets
                  | inr (g, same) ↦ not_removed k n w w' (t ∙ g) same
                ],
                answer ∙ sym t,
              )),
      )

  -- `put_if` replaces the entry that carries the nonce, and answers whether there is one.
  abbrev pub DoesPutIf : RetryEvent → ℕ → W → Type 0
  DoesPutIf event n w =
      Does w (put_if json commands connection text for_uri event n w)
        (ReplacedIf (entry json commands) (for_uri event.event_uri) event n w)
        (λ b. b ≡ has_nonce n (entry json commands (for_uri event.event_uri) w))

  pub put_if-Does :
      (event : RetryEvent) (n : ℕ) (w : W) → IsSound json commands w → DoesPutIf event n w
  put_if-Does event n w s =
      let w' = (put_if json commands connection text for_uri event n w).1 in
      let acts = put_if-acts json commands connection laws answers text for_uri event n w in
      let t = sym (tests (for_uri event.event_uri) n w s) in
      (
        elim acts [
          | inl same ↦ stays w w' same s
          | inr (g, writes) ↦ Writes-IsSound event w w' writes s
        ],
        ends _ _ _
            (elim acts [
              | inl same ↦ inl (unchanged w w' same)
              | inr (g, writes) ↦ inr (replaced event n w w' (t ∙ g) writes)
            ])
            (λ b h.
              let (answer, done) =
                put_if-ok json commands connection laws answers text for_uri event n w b h in
              (
                elim done [
                  | inl (g, writes) ↦ replaced event n w w' (t ∙ g) writes
                  | inr (g, same) ↦ not_replaced event n w w' (t ∙ g) same
                ],
                answer ∙ sym t,
              )),
      )

  -- `fetch_ready` changes no entry, and returns entries that are there and due, in the order of
  -- their times and at most as many as the limit.
  abbrev pub DoesFetchReady : ℕ → Option ℕ → W → Type 0
  DoesFetchReady now limit w =
      Does w (fetch_ready json commands connection text for_uri now limit w)
        (Unchanged (entry json commands) w)
        (λ l.
          All (IsReady json commands connection now w) l × IsSorted in_time l × IsCapped limit l)

  pub fetch_ready-Does :
      (now : ℕ) (limit : Option ℕ) (w : W) → IsSound json commands w → DoesFetchReady now limit w
  fetch_ready-Does now limit w s =
      let w' = (fetch_ready json commands connection text for_uri now limit w).1 in
      let tidied =
        fetch_ready-Tidied json commands connection laws answers text for_uri now limit w in
      let same : Unchanged E w w' = λ j. ap (entry_in json) (tidied j).0 in
      (
        Tidied-IsSound json commands laws w w' tidied s,
        ends _
            (λ l.
              Unchanged E w w'
              × (All (IsReady json commands connection now w) l
                  × IsSorted in_time l
                  × IsCapped limit l))
            _ (inl same)
            (λ l h. (
              same,
              fetch_ready-ok json commands connection laws answers text for_uri json_laws now limit
                  w l s h,
            )),
      )
