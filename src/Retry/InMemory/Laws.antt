-- ===== src/Retry/InMemory/Laws.antt =====
-- `InMemoryRetryStore` keeps what the trait `RetryStore` documents.
use pubky_nexus.Base.{
  [], ◌∷◌, none, subst, All-map, length-take-le, ℕ, String, Bool, true, Option, some, List, ok,
  string_eq, ◌≡◌, refl, arith, inr, All,
}
use pubky_nexus.Base.Word.{leb_i64}
use pubky_nexus.Base.HashMap
use pubky_nexus.Base.Sort.{IsSorted}
use pubky_nexus.Retry.Entry.{IndexKey, RetryEvent, has_nonce}
use pubky_nexus.Retry.Store.{
  Unchanged, RemovedIf, ReplacedIf, Written, RetryStore, in_time, IsCapped,
}
use pubky_nexus.Retry.InMemory
use pubky_nexus.Retry.InMemory.{Map}
use pubky_nexus.Retry.InMemory.Ready.{ready_sound, ready_lem}

abbrev pub entry : IndexKey → Map → Option RetryEvent
entry = HashMap.get

pub remove_if-RemovedIf :
    (k : IndexKey) (n : ℕ) (m : Map) → RemovedIf entry k n m (InMemory.remove_if k n m).1
unfolding InMemory.remove_if
remove_if-RemovedIf k n m j = ground (arith, HashMap.get-remove k j m)

module _ (for_uri : String → IndexKey) where
  pub put-Written :
      (event : RetryEvent) (m : Map)
      → Written entry (for_uri event.event_uri) event m (InMemory.put for_uri event m).1
  unfolding InMemory.put
  put-Written event m j = HashMap.get-insert (for_uri event.event_uri) j event m

  pub put_if-ReplacedIf :
      (event : RetryEvent) (n : ℕ) (m : Map)
      → ReplacedIf entry (for_uri event.event_uri) event n m (InMemory.put_if for_uri event n m).1
  unfolding InMemory.put_if
  put_if-ReplacedIf event n m j =
      ground (arith, HashMap.get-insert (for_uri event.event_uri) j event m)

  pub put_if_result :
      (event : RetryEvent) (n : ℕ) (m : Map) (b : Bool)
      → (InMemory.put_if for_uri event n m).0 ≡ ok b
      → b ≡ has_nonce n (entry (for_uri event.event_uri) m)
  unfolding InMemory.put_if
  put_if_result event n m b h = ground arith

pub remove_if_result :
    (k : IndexKey) (n : ℕ) (m : Map) (b : Bool)
    → (InMemory.remove_if k n m).0 ≡ ok b
    → b ≡ has_nonce n (entry k m)
unfolding InMemory.remove_if
remove_if_result k n m b h = ground arith

pub fetch_ready_result :
    (now : ℕ) (limit : Option ℕ) (m : Map) (l : List (IndexKey × RetryEvent))
    → (InMemory.fetch_ready now limit m).0 ≡ ok l
    → All (λ p. (entry p.0 m ≡ some p.1) × (leb_i64 p.1.next_retry_at now ≡ true)) l
unfolding InMemory.fetch_ready
fetch_ready_result now limit m l h =
    let e : InMemory.truncate limit (InMemory.ready now m) ≡ l = cc in
    rw e at (ready_sound now limit m)

in_time_lem : (a b : IndexKey × RetryEvent) → InMemory.no_later a b ≡ true → in_time a b ≡ true
unfolding InMemory.no_later
in_time_lem a b h = ground arith

in_time-IsSorted : (l : Map) → IsSorted InMemory.no_later l → IsSorted in_time l
in_time-IsSorted [] s = tt
in_time-IsSorted (p ∷ l) (h, s) = (All-map (λ q. in_time_lem p q) l h, in_time-IsSorted l s)

truncate-IsCapped : (limit : Option ℕ) (l : Map) → IsCapped limit (InMemory.truncate limit l)
unfolding InMemory.truncate
truncate-IsCapped none l = tt
truncate-IsCapped (some limit) l = length-take-le limit l

pub fetch_ready_order :
    (now : ℕ) (limit : Option ℕ) (m : Map) (l : List (IndexKey × RetryEvent))
    → (InMemory.fetch_ready now limit m).0 ≡ ok l
    → IsSorted in_time l × IsCapped limit l
unfolding InMemory.fetch_ready
fetch_ready_order now limit m l h =
    let e : InMemory.truncate limit (InMemory.ready now m) ≡ l = cc in
    subst (λ r. IsSorted in_time r × IsCapped limit r) e
      (in_time-IsSorted _ (ready_lem now m limit).0, truncate-IsCapped limit (InMemory.ready now m))

pub fetch_ready-Unchanged :
    (now : ℕ) (limit : Option ℕ) (m : Map) → Unchanged entry m (InMemory.fetch_ready now limit m).1
unfolding InMemory.fetch_ready
fetch_ready-Unchanged now limit m j = refl

-- The in-memory store has every method and every promise of the trait.
abbrev pub in_memory : (for_uri : String → IndexKey) → RetryStore for_uri
in_memory for_uri = record {
  St = Map;
  entry = entry;
  put = InMemory.put for_uri;
  remove_if = InMemory.remove_if;
  put_if = InMemory.put_if for_uri;
  fetch_ready = InMemory.fetch_ready;
  put_acts = λ event m. inr (put-Written for_uri event m);
  put_ok = λ event m h. put-Written for_uri event m;
  remove_if_acts = λ k n m. inr (remove_if-RemovedIf k n m);
  remove_if_ok = λ k n m b h. (remove_if-RemovedIf k n m, remove_if_result k n m b h);
  put_if_acts = λ event n m. inr (put_if-ReplacedIf for_uri event n m);
  put_if_ok =
      λ event n m b h. (put_if-ReplacedIf for_uri event n m, put_if_result for_uri event n m b h);
  fetch_ready_acts = fetch_ready-Unchanged;
  fetch_ready_ok = fetch_ready_result;
  fetch_ready_order = fetch_ready_order;
}
