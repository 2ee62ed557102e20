-- ===== src/Retry/InMemory.antt =====
-- `InMemoryRetryStore` of nexus-watcher/src/events/retry/store.rs: a map under a lock, so each
-- method is one step.
use pubky_nexus.Base.{
  ℕ, String, Bool, true, false, Option, none, some, List, ◌&&◌, ok, Step, if◌then◌else◌, filter,
  take, nat_beq, string_eq, Elem,
}
use pubky_nexus.Base.Word.{leb_i64}
use pubky_nexus.Base.Order.{str_leb}
use pubky_nexus.Base.HashMap
use pubky_nexus.Base.Sort.{sort_by}
use pubky_nexus.Errors.{EventProcessorError}
use pubky_nexus.Retry.Entry.{IndexKey, RetryEvent, has_nonce}
pub mod Laws
pub mod Ready

abbrev pub Map : Type 0
Map = List (IndexKey × RetryEvent)

-- The comparison of `fetch_ready`: by time, then by key.
unfoldable pub no_later : IndexKey × RetryEvent → IndexKey × RetryEvent → Bool
no_later a b =
    if leb_i64 a.1.next_retry_at b.1.next_retry_at
    then (if leb_i64 b.1.next_retry_at a.1.next_retry_at then str_leb a.0 b.0 else true)
    else false

-- `ready.truncate(limit)`
unfoldable pub truncate : Option ℕ → Map → Map
truncate none l = l
truncate (some limit) l = take limit l

module _ (for_uri : String → IndexKey) where
  unfoldable pub put : RetryEvent → Step Map EventProcessorError (Unit {0})
  put event m = (ok tt, HashMap.insert (for_uri event.event_uri) event m)

  unfoldable pub put_if : RetryEvent → ℕ → Step Map EventProcessorError Bool
  put_if event expected_nonce m =
      if has_nonce expected_nonce (HashMap.get (for_uri event.event_uri) m)
      then (ok true, HashMap.insert (for_uri event.event_uri) event m)
      else (ok false, m)

unfoldable pub get : IndexKey → Step Map EventProcessorError (Option RetryEvent)
get index_key m = (ok (HashMap.get index_key m), m)

unfoldable pub remove : IndexKey → Step Map EventProcessorError (Unit {0})
remove index_key m = (ok tt, HashMap.remove index_key m)

unfoldable pub remove_if : IndexKey → ℕ → Step Map EventProcessorError Bool
remove_if index_key expected_nonce m =
    if has_nonce expected_nonce (HashMap.get index_key m)
    then (ok true, HashMap.remove index_key m)
    else (ok false, m)

-- The entries that are due, in the order of `fetch_ready`.
unfoldable pub ready : ℕ → Map → Map
unfolding no_later
ready now m = sort_by no_later (filter (λ p. leb_i64 p.1.next_retry_at now) (HashMap.iter m))

unfoldable pub fetch_ready :
    ℕ → Option ℕ → Step Map EventProcessorError (List (IndexKey × RetryEvent))
unfolding ready truncate
fetch_ready now limit m = (ok (truncate limit (ready now m)), m)
