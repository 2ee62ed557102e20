-- ===== src/Resolver/Tests.antt =====
-- The resolver over a small key library and a graph kept as a map.
use Prim.Native.Char.{code}
use mathlib.Core.Option
use pubky_nexus.Base.{
  ℕ, zero, suc, String, true, false, Option, none, some, List, [], ◌∷◌, ◌++◌, Result, ok, Step, ◌≡◌,
  inl, inr, refl, arith, ap, ◌==◌, string_eq, nat_eq, nat_beq, if◌then◌else◌, Option-cases,
  Bool-cases,
}
use pubky_nexus.Base.HashMap
use pubky_nexus.Errors.{PubkyClientError}
use pubky_nexus.Resolver.Record.{
  Pkarr, RData, PkdnsRecord, published, stored, resolve_own_record, try_from, homeserver,
}
use pubky_nexus.Resolver.Record.Proof.{PkarrLaws}
use pubky_nexus.Resolver.Resolve.{
  Edge, User, Graph, bind, flag, view, Applied, resolve_user, Resolution, StaleReason,
}
use pubky_nexus.Resolver.Resolve.Keeps.{Keeps, resolve_user-Keeps}
use pubky_nexus.Resolver.Resolve.Proven.{AllProven, resolve_user-AllProven}
use pubky_nexus.Resolver.Resolve.Reports.{Explains, resolve_user-Explains}

-- A number in unary.
abbrev unary : ℕ → String
unary zero = ""
unary (suc n) = String.◌∷◌ "a" (unary n)

abbrev size : String → ℕ
size String.[] = 0
size (String.◌∷◌ c s) = suc (size s)

size-unary : (n : ℕ) → size (unary n) ≡ n
size-unary zero = refl
size-unary (suc n) = ap suc (size-unary n)

abbrev encode_one : ℕ → String → String
encode_one zero s = String.◌∷◌ "b" s
encode_one (suc n) s = String.◌∷◌ "a" (encode_one n s)

abbrev encode : List ℕ → String
encode [] = ""
encode (n ∷ ns) = encode_one n (encode ns)

abbrev one_more : Option (List ℕ) → Option (List ℕ)
one_more none = none
one_more (some []) = none
one_more (some (n ∷ ns)) = some (suc n ∷ ns)

abbrev decode : String → Option (List ℕ)
decode String.[] = some []
decode (String.◌∷◌ c s) =
    let rest = decode s in if nat_beq (code c) 98 then Option.map (◌∷◌ 0) rest else one_more rest

decode-encode_one :
    (n : ℕ) (s : String) (ns : List ℕ)
    → decode s ≡ some ns
    → decode (encode_one n s) ≡ some (n ∷ ns)
decode-encode_one zero s ns h = rw h refl
decode-encode_one (suc n) s ns h = rw (decode-encode_one n s ns h) refl

decode-encode : (ns : List ℕ) → decode (encode ns) ≡ some ns
decode-encode [] = refl
decode-encode (n ∷ ns) = decode-encode_one n (encode ns) ns (decode-encode ns)

abbrev zeros : ℕ → List ℕ
zeros zero = []
zeros (suc n) = 0 ∷ zeros n

abbrev read_payload : ℕ → List ℕ → Option (ℕ × ℕ × ℕ)
read_payload key [] = none
read_payload key (timestamp ∷ []) = none
read_payload key (timestamp ∷ hs ∷ []) = some (key, timestamp, hs)
read_payload key (timestamp ∷ hs ∷ more ∷ rest) = none

-- A packet is its key, its timestamp and the homeserver that it names.
abbrev keys : Pkarr
keys = record {
  PublicKey = ℕ;
  key_eq = nat_eq;
  key_bytes = λ key. key ∷ zeros 31;
  z32 = unary;
  try_from_z32 = λ s. some (size s);
  SignedPacket = ℕ × ℕ × ℕ;
  public_key = λ packet. packet.0;
  timestamp = λ packet. packet.1;
  as_bytes = λ packet. (packet.0 ∷ zeros 31) ++ (packet.1 ∷ packet.2 ∷ []);
  resource_records = λ name packet. RData.https (unary packet.2) ∷ [];
  from_relay_payload = read_payload;
  hex_encode = encode;
  hex_decode = decode;
}

abbrev laws : PkarrLaws keys
laws = record {
  relay_payload = λ packet. packet.1 ∷ packet.2 ∷ [];
  hex_back = decode-encode;
  key_length = λ key. refl;
  z32_back = λ key. ap some (size-unary key);
  packet_bytes = λ packet. refl;
  relay_back = λ packet h. refl;
}

abbrev Users : Type 0
Users = List (String × Option Edge)

abbrev user_of : String → Users → User
user_of = HashMap.get

abbrev update : (Option Edge → Option Edge) → String → User → Users → Users
update f u none w = w
update f u (some o) w = HashMap.insert u (f o) w

update-Applied :
    (f : Option Edge → Option Edge) (u : String) (w : Users)
    → Applied user_of f u w (update f u (user_of u w) w)
update-Applied f u w j = elim (Option-cases (user_of u w)) [
  | inl q ↦ rw q (elim (Bool-cases (u == j)) [
    | inl s ↦ let same : u ≡ j = (string_eq.same_iff u j).0 s in rw (s, ← same) q
    | inr s ↦ rw s refl
  ])
  | inr (o, q) ↦ rw q (HashMap.get-insert u j (f o) w)
]

got : {A E : Type 0} (a b : A) → (let r : Result A E = ok a in r) ≡ ok b → b ≡ a
got a b h = cc

abbrev graph : Graph Users
graph = record {
  user_of = user_of;
  get_user_homeserver = λ u w. (ok (view (user_of u w)), w);
  set_user_homeserver_from_record = λ u hs_id r w. (ok tt, update (bind hs_id r) u (user_of u w) w);
  set_user_homeserver_stale = λ u mark r w. (ok tt, update (flag mark r) u (user_of u w) w);
  get_acts = λ u w j. refl;
  get_ok = λ u w o h. got (view (user_of u w)) o h;
  bind_acts = λ u hs_id r w. inr (update-Applied (bind hs_id r) u w);
  bind_ok = λ u hs_id r w h. update-Applied (bind hs_id r) u w;
  flag_acts = λ u mark r w. inr (update-Applied (flag mark r) u w);
  flag_ok = λ u mark r w h. update-Applied (flag mark r) u w;
}

-- The user 1 is bound to the homeserver 2 and now names the homeserver 3.
abbrev users : Users
users = (unary 1, some (record { hs_id = unary 2; stale = false; kept = none })) ∷ []

abbrev lookup : ℕ → Step Users PubkyClientError (PkdnsRecord (ℕ × ℕ × ℕ))
lookup user_pk w = (ok (published (1, 7, 3)), w)

resolve_user-Keeps_example :
    Keeps keys graph lookup (unary 1) (unary 1) users (resolve_user keys graph lookup 1 users).1
resolve_user-Keeps_example =
    resolve_user-Keeps keys graph lookup (λ user_pk w j. refl) 1 users (unary 1)

-- No record is kept to begin with.
nothing_kept : AllProven keys graph users
unfolding HashMap.get
nothing_kept user_pk = elim (Bool-cases (unary 1 == unary user_pk)) [
  | inl q ↦ rw (HashMap.get, q) (λ kept e. absurd (ground arith))
  | inr q ↦ rw (HashMap.get, q) tt
]

resolve_user-AllProven_example : AllProven keys graph (resolve_user keys graph lookup 1 users).1
resolve_user-AllProven_example =
    resolve_user-AllProven keys graph laws lookup (λ user_pk w h. h) 1 users nothing_kept

abbrev after : Users
after =
    (
      unary 1,
      some (record { hs_id = unary 2; stale = true; kept = stored keys (published (1, 7, 3)) }),
    )
    ∷ []

marks_stale :
    resolve_user keys graph lookup 1 users
    ≡ (ok (Resolution.diverged StaleReason.hs_changed false), after)
unfolding resolve_user resolve_own_record HashMap.get HashMap.insert stored try_from homeserver
marks_stale = refl

resolve_user-Explains_example :
    Explains keys graph
      (resolve_own_record keys lookup 1 users).0
      (user_of (unary 1) users)
      (user_of (unary 1) after)
      (Resolution.diverged StaleReason.hs_changed false)
resolve_user-Explains_example =
    resolve_user-Explains keys graph lookup (λ user_pk w j. refl) 1 users after
      (Resolution.diverged StaleReason.hs_changed false) marks_stale
