-- ===== src/Retry/Redis/Tests.antt =====
-- The Redis store over documents and scores in maps, with JSON for a few events.
use pubky_nexus.Base.Sort.{IsSorted, sort_by, sort_by-IsSorted, All-sort_by, take-IsSorted}
use pubky_nexus.Retry.Store.{IsCapped}
use pubky_nexus.Base.{
  Option, take, All-take, length-take-le, ◌⊎◌, append, inl, ℕ, zero, suc, String, Bool, true, false,
  none, some, List, [], ◌∷◌, Result, ok, err, ◌≡◌, inr, refl, arith, ap, sym, subst, All,
  if◌then◌else◌, ◌==◌, ◌&&◌, string_eq, nat_beq,
}
use pubky_nexus.Base.HashMap
use pubky_nexus.Base.Word.{leb_i64}
use pubky_nexus.Errors.{RedisError, Messages}
use pubky_nexus.Event.{EventType}
use pubky_nexus.Retry.Nonce.{AllDigits}
use pubky_nexus.Retry.Entry.{IndexKey, RetryEvent}
use pubky_nexus.Retry.Redis.{Json, Commands, Connection, state_json_key, events_sorted_set_key}
use pubky_nexus.Retry.Redis.Layout.{JsonLaws, CommandLaws, ConnectionLaws}
use pubky_nexus.Retry.Redis.Sound.{IsSound, Sets-IsSound, written-Sets}
use pubky_nexus.Retry.Redis.Refines.{DoesPut, DoesRemoveIf, DoesPutIf, DoesFetchReady}
use pubky_nexus.Retry.Redis.Store.{redis_store-Implements}

abbrev event : RetryEvent
event = record {
  retry_count = 1;
  event_type = EventType.put;
  event_uri = "a b";
  next_retry_at = 5;
  origin_homeserver_id = "hs";
  nonce = 7;
}

-- A number in strokes, which are the digit one.
abbrev strokes : ℕ → String
strokes zero = ""
strokes (suc n) = String.◌∷◌ "1" (strokes n)

strokes_tail : (a b : String) → String.◌∷◌ "1" a ≡ String.◌∷◌ "1" b → a ≡ b
strokes_tail a b h = cc

abbrev is_blank : String → Bool
is_blank String.[] = true
is_blank (String.◌∷◌ c s) = false

strokes_apart : (a b : ℕ) → strokes a ≡ strokes b → a ≡ b
strokes_apart zero zero h = refl
strokes_apart zero (suc b) h = let e : true ≡ false = ap is_blank h in absurd (ground arith)
strokes_apart (suc a) zero h = let e : false ≡ true = ap is_blank h in absurd (ground arith)
strokes_apart (suc a) (suc b) h =
    ap suc (strokes_apart a b (strokes_tail (strokes a) (strokes b) h))

strokes_digits : (n : ℕ) → AllDigits (strokes n)
strokes_digits zero = tt
strokes_digits (suc n) = (refl, strokes_digits n)

-- A zero, and strokes for the number.
abbrev print : ℕ → String
print n = String.◌∷◌ "0" (strokes n)

print_tail : (a b : String) → String.◌∷◌ "0" a ≡ String.◌∷◌ "0" b → a ≡ b
print_tail a b h = cc

abbrev is_put : EventType → Bool
is_put EventType.put = true
is_put EventType.del = false

is_put_lem : (e : EventType) → is_put e ≡ true → e ≡ EventType.put
is_put_lem EventType.put h = refl
is_put_lem EventType.del h = absurd (ground arith)

-- Whether an event is the one that is serialized.
abbrev same_event : RetryEvent → Bool
same_event e =
    nat_beq e.retry_count 1
    && is_put e.event_type
    && (e.event_uri == "a b")
    && nat_beq e.next_retry_at 5
    && (e.origin_homeserver_id == "hs")
    && nat_beq e.nonce 7

same_fields :
    (e : RetryEvent)
    → e.retry_count ≡ 1
    → e.event_type ≡ EventType.put
    → e.event_uri ≡ "a b"
    → e.next_retry_at ≡ 5
    → e.origin_homeserver_id ≡ "hs"
    → e.nonce ≡ 7
    → event ≡ e
same_fields e a b c d f g = cc

same_event_lem : (e : RetryEvent) → same_event e ≡ true → event ≡ e
same_event_lem e h =
    same_fields e (ground (arith, h)) (is_put_lem e.event_type (ground arith))
      (ground (arith, string_eq.same_iff e.event_uri "a b")) (ground arith)
      (ground (arith, string_eq.same_iff e.origin_homeserver_id "hs")) (ground arith)

-- Documents, and the scores of the one sorted set that there is.
abbrev World : Type 0
World = List (String × String) × List (String × ℕ)

abbrev for_uri : String → IndexKey
for_uri uri = uri

abbrev json : Json
json = record {
  to_string = λ e. if same_event e then ok "doc" else err (RedisError.serialization_failed "");
  from_str = λ t. ok event;
  from_reply = λ t. ok (event ∷ []);
  nonce_reply = λ t. append "[" (append (print 7) "]");
  print_i64 = print;
}

abbrev read : RetryEvent → Result RetryEvent RedisError
read e = ok e

serialized :
    (b : Bool) (e : RetryEvent) (t : String)
    → (b ≡ true → event ≡ e)
    → (if b then ok "doc" else err (RedisError.serialization_failed "")) ≡ ok t
    → read event ≡ ok e
serialized true e t h q = ap read (h refl)
serialized false e t h q = absurd (ground arith)

abbrev reads : RetryEvent → Result (List RetryEvent) RedisError
reads e = ok (e ∷ [])

same_read : (e : RetryEvent) → read event ≡ read e → event ≡ e
same_read e h = ground arith

json_laws : JsonLaws json
json_laws = record {
  from_back = λ e t h. serialized (same_event e) e t (same_event_lem e) h;
  reply_one = λ e t h. ap reads (same_read e h);
  nonce_reply_is = λ t e h. inl (ap (λ x. append "[" (append (print x.nonce) "]")) (same_read e h));
  print_digits = λ n. inl (refl, strokes_digits n);
  print_zero = refl;
  print_apart = λ n m h. strokes_apart n m (print_tail (strokes n) (strokes m) h);
}

abbrev commands : Commands World
commands = record {
  document = λ k w. HashMap.get k w.0;
  score = λ s m w. HashMap.get m w.1;
  json_set = λ k t w. (HashMap.insert k t w.0, w.1);
  json_del = λ k w. (HashMap.remove k w.0, w.1);
  zadd = λ s n m w. (w.0, HashMap.insert m n w.1);
  zrem = λ s m w. (w.0, HashMap.remove m w.1);
}

laws : CommandLaws commands
laws = record {
  set_document = λ k j t w. HashMap.get-insert k j t w.0;
  set_score = λ k t s m w. refl;
  del_document = λ k j w. HashMap.get-remove k j w.0;
  del_score = λ k s m w. refl;
  add_document = λ s m j n w. refl;
  add_score = λ s m j n w. HashMap.get-insert m j n w.1;
  rem_document = λ s m j w. refl;
  rem_score = λ s m j w. HashMap.get-remove m j w.1;
}

-- The members that are due, each once.
abbrev due : ℕ → List (String × ℕ) → List (String × ℕ)
due now [] = []
due now (p ∷ ps) = if leb_i64 p.1 now then p ∷ due now ps else due now ps

due_kept :
    (P : String × ℕ → Type 0) (b : Bool) (p : String × ℕ) (now : ℕ) (l : List (String × ℕ))
    → leb_i64 p.1 now ≡ b
    → P p
    → All (λ q. P q × (leb_i64 q.1 now ≡ true)) l
    → All (λ q. P q × (leb_i64 q.1 now ≡ true)) (if b then p ∷ l else l)
due_kept P true p now l e h k = ((h, e), k)
due_kept P false p now l e h k = k

All-due :
    (P : String × ℕ → Type 0) (now : ℕ) (l : List (String × ℕ))
    → All P l
    → All (λ p. P p × (leb_i64 p.1 now ≡ true)) (due now l)
All-due P now [] h = tt
All-due P now (p ∷ ps) (h, k) =
    due_kept P (leb_i64 p.1 now) p now (due now ps) refl h (All-due P now ps k)

abbrev by_score : String × ℕ → String × ℕ → Bool
by_score p q = leb_i64 p.1 q.1

by_score_total : (p q : String × ℕ) → (by_score p q ≡ true) ⊎ (by_score q p ≡ true)
by_score_total p q = ground arith

by_score_trans :
    (p q r : String × ℕ) → by_score p q ≡ true → by_score q r ≡ true → by_score p r ≡ true
by_score_trans p q r h k = ground arith

abbrev capped : Option ℕ → List (String × ℕ) → List (String × ℕ)
capped none l = l
capped (some limit) l = take limit l

abbrev range : ℕ → Option ℕ → List (String × ℕ) → List (String × ℕ)
range now limit l = capped limit (sort_by by_score (due now l))

capped-kept :
    (P : String × ℕ → Type 0) (limit : Option ℕ) (l : List (String × ℕ))
    → All P l
    → IsSorted by_score l
    → All P (capped limit l) × IsSorted by_score (capped limit l) × IsCapped limit (capped limit l)
capped-kept P none l h s = (h, s, tt)
capped-kept P (some limit) l h s = (
  All-take P limit l h,
  take-IsSorted by_score by_score_total by_score_trans limit l s,
  length-take-le limit l,
)

range-kept :
    (P : String × ℕ → Type 0) (now : ℕ) (limit : Option ℕ) (l : List (String × ℕ))
    → All P l
    → let out = range now limit l in
      All (λ p. P p × (leb_i64 p.1 now ≡ true)) out × IsSorted by_score out × IsCapped limit out
range-kept P now limit l h =
    capped-kept (λ p. P p × (leb_i64 p.1 now ≡ true)) limit (sort_by by_score (due now l))
      (All-sort_by by_score by_score_total by_score_trans (λ p. P p × (leb_i64 p.1 now ≡ true))
        (due now l) (All-due P now l h))
      (sort_by-IsSorted by_score by_score_total by_score_trans (due now l))

abbrev connection : Connection World commands
connection = record {
  atomic = λ f w. (ok (f w).0, (f w).1);
  range_by_score = λ s now limit w. (ok (range now limit (HashMap.iter w.1)), w);
}

answered : {A : Type 0} (r : Result A RedisError) (a b : A) → r ≡ ok a → r ≡ ok b → b ≡ a
answered r a b p q = cc

answers : ConnectionLaws connection
answers = record {
  atomic_acts = λ f w. inr refl;
  atomic_ok = λ f w a h. (answered (ok (f w).0) _ a refl h, refl);
  range_acts = λ s now limit w. refl;
  range_ok = λ s now limit w l h.
      subst
        (λ r.
          All (λ p. (HashMap.get p.0 w.1 ≡ some p.1) × (leb_i64 p.1 now ≡ true)) r
          × IsSorted by_score r
          × IsCapped limit r)
        (sym (answered (connection.range_by_score s now limit w).0 _ l refl h))
        (range-kept (λ p. HashMap.get p.0 w.1 ≡ some p.1) now limit (HashMap.iter w.1)
          (HashMap.iter_sound w.1));
}

-- The member "gone" has no document.
abbrev emptied : World
emptied = ([], ("gone", 3) ∷ [])

emptied-IsSound : IsSound json commands emptied
unfolding HashMap.get
emptied-IsSound k = tt

-- The entry of "a b" is stored too.
abbrev world : World
world =
    commands.zadd events_sorted_set_key 5 "a b"
      (commands.json_set (state_json_key "a b") "doc" emptied)

world-IsSound : IsSound json commands world
world-IsSound =
    Sets-IsSound json commands "a b" (some "doc") (some 5) emptied world
      (written-Sets json commands laws "a b" "doc" 5 emptied) (event, refl, λ time h. ground arith)
      emptied-IsSound

abbrev silent : Messages
silent = record { redis = λ e. ""; graph = λ e. ""; hs = λ e. "" }

redis_store-Implements_example :
    DoesPut json commands connection json_laws laws answers silent for_uri event world
    × DoesRemoveIf json commands connection json_laws laws answers silent for_uri "a b" 7 world
    × DoesPutIf json commands connection json_laws laws answers silent for_uri event 7 world
    × DoesFetchReady json commands connection json_laws laws answers silent for_uri 9 none world
redis_store-Implements_example =
    redis_store-Implements json commands connection json_laws laws answers silent for_uri event
      "a b" 7 9 none world world-IsSound
