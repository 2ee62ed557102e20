-- ===== src/Retry/Nonce.antt =====
-- The pattern of `NONCE_GUARD_LUA` in nexus-watcher/src/events/retry/event.rs:
-- `string.match(stored, '^%[(%-?%d+)%]$')`, on characters.
use Prim.Native.Char.{Char, code}
use pubky_nexus.Base.{
  String, Bool, true, false, Option, none, some, if◌then◌else◌, ◌&&◌, nat_beq, leb, append, ◌≡◌,
  ◌⊎◌, inl, inr, refl, arith,
}

-- `%d`
abbrev pub is_digit : Char → Bool
is_digit c = leb 48 (code c) && leb (code c) 57

abbrev is_empty_text : String → Bool
is_empty_text String.[] = true
is_empty_text (String.◌∷◌ c s) = false

abbrev prepend : Char → Option String → Option String
prepend c none = none
prepend c (some s) = some (String.◌∷◌ c s)

-- The digits before `%]$`, none of them needed.
unfoldable pub digits_to_bracket : String → Option String
digits_to_bracket String.[] = none
digits_to_bracket (String.◌∷◌ c s) =
    let rest = digits_to_bracket s in
    if is_digit c
    then prepend c rest
    else if nat_beq (code c) 93 && is_empty_text s
    then some String.[]
    else none

-- `%d+%]$`
unfoldable pub match_digits : String → Option String
unfolding digits_to_bracket
match_digits String.[] = none
match_digits (String.◌∷◌ c s) =
    let found = digits_to_bracket (String.◌∷◌ c s) in if is_digit c then found else none

-- `%-?%d+%]$`
unfoldable pub match_integer : String → Option String
unfolding match_digits
match_integer String.[] = none
match_integer (String.◌∷◌ c s) =
    if nat_beq (code c) 45 then prepend c (match_digits s) else match_digits (String.◌∷◌ c s)

-- The whole pattern, with what it captures.
unfoldable pub match_nonce : String → Option String
unfolding match_integer
match_nonce String.[] = none
match_nonce (String.◌∷◌ c s) = if nat_beq (code c) 91 then match_integer s else none

-- Decimal digits, at least one of them in a natural number, and a sign before an integer.
abbrev pub AllDigits : String → Type 0
AllDigits String.[] = Unit
AllDigits (String.◌∷◌ c s) = (is_digit c ≡ true) × AllDigits s

abbrev pub IsNatural : String → Type 0
IsNatural String.[] = ⊥
IsNatural (String.◌∷◌ c s) = (is_digit c ≡ true) × AllDigits s

abbrev pub IsInteger : String → Type 0
IsInteger String.[] = ⊥
IsInteger (String.◌∷◌ c s) = IsNatural (String.◌∷◌ c s) ⊎ ((code c ≡ 45) × IsNatural s)

digits_to_bracket_lem : (s : String) → AllDigits s → digits_to_bracket (append s "]") ≡ some s
unfolding digits_to_bracket
digits_to_bracket_lem String.[] h = refl
digits_to_bracket_lem (String.◌∷◌ c s) (d, h) = rw (d, digits_to_bracket_lem s h) refl

match_digits_lem : (s : String) → IsNatural s → match_digits (append s "]") ≡ some s
unfolding match_digits
match_digits_lem String.[] h = absurd h
match_digits_lem (String.◌∷◌ c s) (d, h) = rw (d, digits_to_bracket_lem s h) refl

match_integer_lem : (s : String) → IsInteger s → match_integer (append s "]") ≡ some s
unfolding match_integer
match_integer_lem String.[] h = absurd h
match_integer_lem (String.◌∷◌ c s) (inl (d, h)) =
    let other : nat_beq (code c) 45 ≡ false = ground arith in
    rw other (match_digits_lem (String.◌∷◌ c s) (d, h))
match_integer_lem (String.◌∷◌ c s) (inr (m, h)) =
    let minus : nat_beq (code c) 45 ≡ true = ground arith in rw (minus, match_digits_lem s h) refl

-- The pattern captures the one integer of a reply.
pub match_nonce_one : (s : String) → IsInteger s → match_nonce (append "[" (append s "]")) ≡ some s
unfolding match_nonce
match_nonce_one s h = match_integer_lem s h

pub match_nonce_blank : match_nonce "[]" ≡ none
unfolding match_nonce match_integer match_digits digits_to_bracket
match_nonce_blank = refl
