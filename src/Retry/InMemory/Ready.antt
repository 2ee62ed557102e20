-- ===== src/Retry/InMemory/Ready.antt =====
-- What `InMemoryRetryStore::fetch_ready` returns.
use pubky_nexus.Base.{
  ℕ, true, Option, none, some, filter, length, Elem, ◌≡◌, arith, inl, ◌⊎◌, All, All-filter,
  All-take, Elem-filter, string_eq,
}
use pubky_nexus.Base.Word.{leb_i64}
use pubky_nexus.Base.Order.{str_leb_total, str_leb_trans}
use pubky_nexus.Base.HashMap
use pubky_nexus.Base.Sort.{
  IsSorted, sort_by-IsSorted, All-sort_by, Elem-sort_by, take-least, take-IsSorted,
}
use pubky_nexus.Retry.Entry.{IndexKey, RetryEvent}
use pubky_nexus.Retry.InMemory.{Map, no_later, truncate, ready}

pub no_later_total : (a b : IndexKey × RetryEvent) → (no_later a b ≡ true) ⊎ (no_later b a ≡ true)
unfolding no_later
no_later_total a b = ground (arith, str_leb_total a.0 b.0)

pub no_later_trans :
    (a b c : IndexKey × RetryEvent)
    → no_later a b ≡ true
    → no_later b c ≡ true
    → no_later a c ≡ true
unfolding no_later
no_later_trans a b c h k = ground (arith, str_leb_trans a.0 b.0 c.0)

abbrev pub IsDue : ℕ → Map → IndexKey × RetryEvent → Type 0
IsDue now m p = (HashMap.get p.0 m ≡ some p.1) × (leb_i64 p.1.next_retry_at now ≡ true)

ready-IsDue : (now : ℕ) (m : Map) → All (IsDue now m) (ready now m)
unfolding ready
ready-IsDue now m =
    All-sort_by no_later no_later_total no_later_trans (IsDue now m)
      (filter (λ p. leb_i64 p.1.next_retry_at now) (HashMap.iter m))
      (All-filter (λ p. HashMap.get p.0 m ≡ some p.1) (λ p. leb_i64 p.1.next_retry_at now)
        (HashMap.iter m) (HashMap.iter_sound m))

pub ready_sound :
    (now : ℕ) (limit : Option ℕ) (m : Map) → All (IsDue now m) (truncate limit (ready now m))
unfolding truncate
ready_sound now none m = ready-IsDue now m
ready_sound now (some n) m = All-take (IsDue now m) n (ready now m) (ready-IsDue now m)

ready-IsSorted : (now : ℕ) (m : Map) → IsSorted no_later (ready now m)
unfolding ready
ready-IsSorted now m =
    sort_by-IsSorted no_later no_later_total no_later_trans
      (filter (λ p. leb_i64 p.1.next_retry_at now) (HashMap.iter m))

ready_complete :
    (now : ℕ) (m : Map) (k : IndexKey) (event : RetryEvent)
    → HashMap.get k m ≡ some event
    → leb_i64 event.next_retry_at now ≡ true
    → Elem (k, event) (ready now m)
unfolding ready
ready_complete now m k event h d =
    Elem-sort_by no_later no_later_total no_later_trans (k, event)
      (filter (λ p. leb_i64 p.1.next_retry_at now) (HashMap.iter m))
      (Elem-filter (λ p. leb_i64 p.1.next_retry_at now) (HashMap.iter m)
        (HashMap.iter_complete k event m h) d)

-- What was left out although it is due: the list is as long as the limit and nothing in it comes
-- after the entry.
abbrev pub CutOff : Option ℕ → IndexKey × RetryEvent → Map → Type 0
CutOff none p l = ⊥
CutOff (some limit) p l = (length l ≡ limit) × All (λ q. no_later q p ≡ true) l

module _ (now : ℕ) (m : Map) where
  -- `fetch_ready` returns the entries that are due, in the order of time and key, and of these the
  -- first `limit` where there is a limit: nothing else is returned, and a due entry that is not
  -- returned comes after `limit` others that are.
  pub ready_lem :
      (limit : Option ℕ)
      → let l = truncate limit (ready now m) in
        IsSorted no_later l
        × All (IsDue now m) l
        × ((k : IndexKey) (event : RetryEvent)
            → IsDue now m (k, event)
            → Elem (k, event) l ⊎ CutOff limit (k, event) l)
  unfolding truncate
  ready_lem none = (
    ready-IsSorted now m,
    ready-IsDue now m,
    λ k event d. inl (ready_complete now m k event d.0 d.1),
  )
  ready_lem (some limit) = (
    take-IsSorted no_later no_later_total no_later_trans limit (ready now m) (ready-IsSorted now m),
    ready_sound now (some limit) m,
    λ k event d.
        take-least no_later no_later_total no_later_trans limit (k, event) (ready now m)
          (ready-IsSorted now m) (ready_complete now m k event d.0 d.1),
  )
