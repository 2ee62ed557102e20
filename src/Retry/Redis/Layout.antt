-- ===== src/Retry/Redis/Layout.antt =====
-- What Redis and the JSON library promise, and the layout that every write keeps: the document of
-- a key reads as an event, and its score, if it has one, is the event's time.
use Prim.Native.Char.{Char}
use pubky_nexus.Base.{
  ℕ, String, true, Option, none, some, List, [], ◌∷◌, ok, if◌then◌else◌, ◌==◌, string_eq, append,
  ◌≡◌, ◌⊎◌, arith, All,
}
use pubky_nexus.Base.Word.{leb_i64}
use pubky_nexus.Retry.Nonce.{IsInteger}
use pubky_nexus.Base.Sort.{IsSorted}
use pubky_nexus.Retry.Store.{IsCapped}
use pubky_nexus.Retry.Entry.{IndexKey, RetryEvent}
use pubky_nexus.Retry.Redis.{Json, Commands, Connection, state_json_key}

-- `serde_json` reads back what it wrote, and a reply has the one value at the path `$`. The reply for
-- `$.nonce` has the nonce that the document reads as, or is empty and the document reads as one with
-- the nonce 0. An `i64` is printed in digits, after a minus if it is negative, and no two alike.
pub record JsonLaws (json : Json) : Type 0 where
  pub from_back :
      (event : RetryEvent) (t : String) → json.to_string event ≡ ok t → json.from_str t ≡ ok event
  pub reply_one :
      (event : RetryEvent) (t : String)
      → json.from_str t ≡ ok event
      → json.from_reply t ≡ ok (event ∷ [])
  pub nonce_reply_is :
      (t : String) (event : RetryEvent)
      → json.from_str t ≡ ok event
      → (json.nonce_reply t ≡ append "[" (append (json.print_i64 event.nonce) "]"))
        ⊎ ((json.nonce_reply t ≡ "[]") × (event.nonce ≡ 0))
  pub print_digits : (n : ℕ) → IsInteger (json.print_i64 n)
  pub print_zero : json.print_i64 0 ≡ "0"
  pub print_apart : (n m : ℕ) → json.print_i64 n ≡ json.print_i64 m → n ≡ m

-- Each command changes what it names.
pub record CommandLaws {W : Type 0} (commands : Commands W) : Type 0 where
  pub set_document :
      (k j t : String) (w : W)
      → commands.document j (commands.json_set k t w)
        ≡ (if k == j then some t else commands.document j w)
  pub set_score :
      (k t s m : String) (w : W)
      → commands.score s m (commands.json_set k t w) ≡ commands.score s m w
  pub del_document :
      (k j : String) (w : W)
      → commands.document j (commands.json_del k w)
        ≡ (if k == j then none else commands.document j w)
  pub del_score :
      (k s m : String) (w : W) → commands.score s m (commands.json_del k w) ≡ commands.score s m w
  pub add_document :
      (s m j : String) (n : ℕ) (w : W)
      → commands.document j (commands.zadd s n m w) ≡ commands.document j w
  pub add_score :
      (s m j : String) (n : ℕ) (w : W)
      → commands.score s j (commands.zadd s n m w)
        ≡ (if m == j then some n else commands.score s j w)
  pub rem_document :
      (s m j : String) (w : W) → commands.document j (commands.zrem s m w) ≡ commands.document j w
  pub rem_score :
      (s m j : String) (w : W)
      → commands.score s j (commands.zrem s m w) ≡ (if m == j then none else commands.score s j w)

-- A script or transaction that is answered was done and gave the answer; one that fails was done or
-- not. A range has members with their scores, none above the bound, in the order of the scores and
-- at most as many as the limit, and changes nothing.
pub record ConnectionLaws {W : Type 0} {commands : Commands W} (connection : Connection W commands)
    : Type 1 where
  pub atomic_acts :
      {A : Type 0} (f : W → A × W) (w : W)
      → ((connection.atomic f w).1 ≡ w) ⊎ ((connection.atomic f w).1 ≡ (f w).1)
  pub atomic_ok :
      {A : Type 0} (f : W → A × W) (w : W) (a : A)
      → (connection.atomic f w).0 ≡ ok a
      → (a ≡ (f w).0) × ((connection.atomic f w).1 ≡ (f w).1)
  pub range_acts :
      (s : String) (now : ℕ) (limit : Option ℕ) (w : W)
      → (connection.range_by_score s now limit w).1 ≡ w
  pub range_ok :
      (s : String) (now : ℕ) (limit : Option ℕ) (w : W) (l : List (String × ℕ))
      → (connection.range_by_score s now limit w).0 ≡ ok l
      → All (λ p. (commands.score s p.0 w ≡ some p.1) × (leb_i64 p.1 now ≡ true)) l
        × IsSorted (λ p q. leb_i64 p.1 q.1) l
        × IsCapped limit l

same_tail : (c : Char) (a b : String) → String.◌∷◌ c a ≡ String.◌∷◌ c b → a ≡ b
same_tail c a b h = cc

append_cancel : (s a b : String) → append s a ≡ append s b → a ≡ b
append_cancel String.[] a b h = h
append_cancel (String.◌∷◌ c s) a b h = append_cancel s a b (same_tail c (append s a) (append s b) h)

-- State keys of different entries differ.
pub state_json_key_same : (a b : IndexKey) → state_json_key a == state_json_key b ≡ a == b
unfolding state_json_key
state_json_key_same a b = ground (
  arith,
  string_eq.same_iff (state_json_key a) (state_json_key b),
  string_eq.same_iff a b,
  append_cancel "RetryManagerV2:state:" a b,
)
