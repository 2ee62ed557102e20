-- ===== src/Retry/Store.antt =====
-- The trait `RetryStore` of nexus-watcher/src/events/retry/store.rs: its methods, and what its
-- documentation promises of them in terms of the entry that each key has. A method that fails
-- may or may not have acted; it never does anything else. That `fetch_ready` returns every due entry
-- up to the limit is no part of this interface: the Redis store fetches `limit` members of its
-- sorted set, and members without a document count among them.
use pubky_nexus.Base.Sort.{IsSorted}
use pubky_nexus.Base.{
  ◌≤◌, length, ℕ, String, Bool, true, Option, none, some, List, ◌≡◌, ◌⊎◌, ◌&&◌, ok, Step, ◌==◌,
  string_eq, if◌then◌else◌, All,
}
use pubky_nexus.Base.Word.{leb_i64}
use pubky_nexus.Errors.{EventProcessorError}
use pubky_nexus.Retry.Entry.{IndexKey, RetryEvent, has_nonce}

module _ {St : Type 0} (entry : IndexKey → St → Option RetryEvent) where
  abbrev pub Unchanged : St → St → Type 0
  Unchanged s s' = (j : IndexKey) → entry j s' ≡ entry j s

  -- The entry of `k` was removed if it carried the nonce.
  abbrev pub RemovedIf : IndexKey → ℕ → St → St → Type 0
  RemovedIf k n s s' =
      (j : IndexKey) → entry j s' ≡ (if k == j && has_nonce n (entry k s) then none else entry j s)

  -- The entry of `k` was replaced if it carried the nonce.
  abbrev pub ReplacedIf : IndexKey → RetryEvent → ℕ → St → St → Type 0
  ReplacedIf k event n s s' =
      (j : IndexKey)
      → entry j s' ≡ (if k == j && has_nonce n (entry k s) then some event else entry j s)

  -- The entry of `k` was written.
  abbrev pub Written : IndexKey → RetryEvent → St → St → Type 0
  Written k event s s' = (j : IndexKey) → entry j s' ≡ (if k == j then some event else entry j s)

-- `a` is due no later than `b`.
abbrev pub in_time : IndexKey × RetryEvent → IndexKey × RetryEvent → Bool
in_time a b = leb_i64 a.1.next_retry_at b.1.next_retry_at

-- At most as many as the limit, if there is one.
abbrev pub IsCapped : {A : Type 0} → Option ℕ → List A → Type 0
IsCapped none l = Unit
IsCapped (some limit) l = length l ≤ limit

pub record RetryStore (for_uri : String → IndexKey) : Type 1 where
  pub St : Type 0
  pub entry : IndexKey → St → Option RetryEvent
  pub put : RetryEvent → Step St EventProcessorError (Unit {0})
  pub remove_if : IndexKey → ℕ → Step St EventProcessorError Bool
  pub put_if : RetryEvent → ℕ → Step St EventProcessorError Bool
  pub fetch_ready : ℕ → Option ℕ → Step St EventProcessorError (List (IndexKey × RetryEvent))
  pub put_acts :
      (event : RetryEvent) (s : St)
      → Unchanged entry s (put event s).1
        ⊎ Written entry (for_uri event.event_uri) event s (put event s).1
  pub put_ok :
      (event : RetryEvent) (s : St)
      → (put event s).0 ≡ ok tt
      → Written entry (for_uri event.event_uri) event s (put event s).1
  pub remove_if_acts :
      (k : IndexKey) (n : ℕ) (s : St)
      → Unchanged entry s (remove_if k n s).1 ⊎ RemovedIf entry k n s (remove_if k n s).1
  pub remove_if_ok :
      (k : IndexKey) (n : ℕ) (s : St) (b : Bool)
      → (remove_if k n s).0 ≡ ok b
      → RemovedIf entry k n s (remove_if k n s).1 × (b ≡ has_nonce n (entry k s))
  pub put_if_acts :
      (event : RetryEvent) (n : ℕ) (s : St)
      → Unchanged entry s (put_if event n s).1
        ⊎ ReplacedIf entry (for_uri event.event_uri) event n s (put_if event n s).1
  pub put_if_ok :
      (event : RetryEvent) (n : ℕ) (s : St) (b : Bool)
      → (put_if event n s).0 ≡ ok b
      → ReplacedIf entry (for_uri event.event_uri) event n s (put_if event n s).1
        × (b ≡ has_nonce n (entry (for_uri event.event_uri) s))
  pub fetch_ready_acts :
      (now : ℕ) (limit : Option ℕ) (s : St) → Unchanged entry s (fetch_ready now limit s).1
  pub fetch_ready_ok :
      (now : ℕ) (limit : Option ℕ) (s : St) (l : List (IndexKey × RetryEvent))
      → (fetch_ready now limit s).0 ≡ ok l
      → All (λ p. (entry p.0 s ≡ some p.1) × (leb_i64 p.1.next_retry_at now ≡ true)) l
  pub fetch_ready_order :
      (now : ℕ) (limit : Option ℕ) (s : St) (l : List (IndexKey × RetryEvent))
      → (fetch_ready now limit s).0 ≡ ok l
      → IsSorted in_time l × IsCapped limit l
