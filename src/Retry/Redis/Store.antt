-- ===== src/Retry/Redis/Store.antt =====
-- `RedisRetryStore` as a retry store: its states are those with a sound layout.
use pubky_nexus.Base.{ℕ, String, Option, Step, inl, inr}
use pubky_nexus.Errors.{EventProcessorError, Messages}
use pubky_nexus.Retry.Entry.{IndexKey, RetryEvent}
use pubky_nexus.Retry.Store.{RetryStore}
use pubky_nexus.Retry.Redis.{Json, Commands, Connection, put, put_if, remove_if, fetch_ready}
use pubky_nexus.Retry.Redis.Layout.{JsonLaws, CommandLaws, ConnectionLaws}
use pubky_nexus.Retry.Redis.Sound.{entry, IsSound}
use pubky_nexus.Retry.Redis.Refines.{
  Ends-either, Ends-ok, DoesPut, DoesRemoveIf, DoesPutIf, DoesFetchReady, put-Does, remove_if-Does,
  put_if-Does, fetch_ready-Does,
}

module _ {W : Type 0} (json : Json) (commands : Commands W) (connection : Connection W commands)
    (json_laws : JsonLaws json) (laws : CommandLaws commands) (answers : ConnectionLaws connection)
    (text : Messages) (for_uri : String → IndexKey) where
  -- Where JSON, the commands of Redis and a connection do what they document, the methods of
  -- `RedisRetryStore` that the retry processor and the scheduler use do to the entries what the
  -- trait promises, from every state in which a document reads as an event whose time is the score, if it has one.
  -- Each leaves such a state, also when it fails. A failed `put`, `remove_if` or `put_if` changed
  -- either what it is to change or nothing; an answered one changed it, and the conditional ones
  -- answer whether the stored entry has the nonce and else change nothing. `fetch_ready` changes no
  -- entry, and each pair it returns is an entry with its key, due by then; they come in the order
  -- of their times, and are at most as many as the limit if there is one.
  pub redis_store-Implements :
      (event : RetryEvent) (k : IndexKey) (n now : ℕ) (limit : Option ℕ) (w : W)
      → IsSound json commands w
      → DoesPut json commands connection json_laws laws answers text for_uri event w
        × DoesRemoveIf json commands connection json_laws laws answers text for_uri k n w
        × DoesPutIf json commands connection json_laws laws answers text for_uri event n w
        × DoesFetchReady json commands connection json_laws laws answers text for_uri now limit w
  redis_store-Implements event k n now limit w s = (
    put-Does json commands connection json_laws laws answers text for_uri event w s,
    remove_if-Does json commands connection json_laws laws answers text for_uri k n w s,
    put_if-Does json commands connection json_laws laws answers text for_uri event n w s,
    fetch_ready-Does json commands connection json_laws laws answers text for_uri now limit w s,
  )

  abbrev SoundState : Type 0
  SoundState = (w : W) × IsSound json commands w

  -- A step on sound states.
  abbrev on_sound :
      {A : Type 0} (step : Step W EventProcessorError A)
      → ((w : W) → IsSound json commands w → IsSound json commands (step w).1)
      → Step SoundState EventProcessorError A
  on_sound step keeps (w, s) = ((step w).0, ((step w).1, keeps w s))

  -- `impl RetryStore for RedisRetryStore`
  abbrev pub redis_store : RetryStore for_uri
  redis_store =
      let puts = put-Does json commands connection json_laws laws answers text for_uri in
      let removes_if =
        remove_if-Does json commands connection json_laws laws answers text for_uri in
      let puts_if = put_if-Does json commands connection json_laws laws answers text for_uri in
      let fetches = fetch_ready-Does json commands connection json_laws laws answers text for_uri in
      record {
        St = SoundState;
        entry = λ k s. entry json commands k s.0;
        put = λ event.
            on_sound (put json commands connection text for_uri event) (λ w s. (puts event w s).0);
        remove_if = λ k n.
            on_sound (remove_if json commands connection text for_uri k n)
              (λ w s. (removes_if k n w s).0);
        put_if = λ event n.
            on_sound (put_if json commands connection text for_uri event n)
              (λ w s. (puts_if event n w s).0);
        fetch_ready = λ now limit.
            on_sound (fetch_ready json commands connection text for_uri now limit)
              (λ w s. (fetches now limit w s).0);
        put_acts = λ event s. Ends-either _ _ (puts event s.0 s.1).1;
        put_ok = λ event s h. (Ends-ok _ _ _ tt (puts event s.0 s.1).1 h).0;
        remove_if_acts = λ k n s. Ends-either _ _ (removes_if k n s.0 s.1).1;
        remove_if_ok = λ k n s b h. Ends-ok _ _ _ b (removes_if k n s.0 s.1).1 h;
        put_if_acts = λ event n s. Ends-either _ _ (puts_if event n s.0 s.1).1;
        put_if_ok = λ event n s b h. Ends-ok _ _ _ b (puts_if event n s.0 s.1).1 h;
        fetch_ready_acts = λ now limit s. elim (Ends-either _ _ (fetches now limit s.0 s.1).1) [
          | inl same ↦ same
          | inr same ↦ same
        ];
        fetch_ready_ok = λ now limit s l h. (Ends-ok _ _ _ l (fetches now limit s.0 s.1).1 h).1.0;
        fetch_ready_order = λ now limit s l h.
            let answer = Ends-ok _ _ _ l (fetches now limit s.0 s.1).1 h in
            (answer.1.1, answer.1.2);
      }
