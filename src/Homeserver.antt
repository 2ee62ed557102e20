-- ===== src/Homeserver.antt =====
-- The cursor of a homeserver: `Homeserver` of nexus-common/src/models/homeserver.rs. The Redis
-- commands under it are the parameter `CursorIndex`.
use Prim.Native.Char.{code}
use pubky_nexus.Base.{
  ℕ, String, Bool, true, false, Option, none, some, Result, ok, err, Step, map_err, ◌+◌, ◌-◌, ◌*◌,
  ◌≡◌, ◌⊎◌, ◌==◌, ◌&&◌, string_eq, nat_beq, leb, ltb, if◌then◌else◌, append, ◌>>=◌, ◌>>◌, pure,
  raise,
}
use pubky_nexus.Base.Word.{u64_mod}
use pubky_nexus.Errors.{RedisError, ModelError, ensure_cursor_not_backwards}
pub mod Cursor
pub mod Tests

-- `Homeserver`
pub record Homeserver : Type 0 where
  pub id : String
  pub cursor : ℕ  -- u64

-- `Homeserver::new`
unfoldable pub new : String → Homeserver
new id = record { id = id; cursor = 0 }

-- The digits of `str::parse::<u64>`: none at another character and when the number does not fit.
digits : ℕ → String → Option ℕ
digits n String.[] = some n
digits n (String.◌∷◌ c s) =
    let next = n * 10 + (code c - 48) in
    let rest = digits next s in
    if leb 48 (code c) && leb (code c) 57 then (if ltb next u64_mod then rest else none) else none

-- `str::parse::<u64>`: at least one digit, after at most one plus sign.
unfoldable pub parse_u64 : String → Option ℕ
unfolding digits
parse_u64 String.[] = none
parse_u64 (String.◌∷◌ c String.[]) = digits 0 (String.◌∷◌ c String.[])
parse_u64 (String.◌∷◌ c (String.◌∷◌ d s)) =
    if nat_beq (code c) 43
    then digits 0 (String.◌∷◌ d s)
    else digits 0 (String.◌∷◌ c (String.◌∷◌ d s))

module _ {W : Type 0} (cursor_of : String → W → Option ℕ) where
  abbrev pub Unmoved : W → W → Type 0
  Unmoved w w' = (j : String) → cursor_of j w' ≡ cursor_of j w

  abbrev pub Stored : Homeserver → W → W → Type 0
  Stored h w w' =
      (j : String) → cursor_of j w' ≡ (if h.id == j then some h.cursor else cursor_of j w)

abbrev pub cursor_in : Option Homeserver → Option ℕ
cursor_in none = none
cursor_in (some h) = some h.cursor

-- The index of homeservers in Redis: `get_from_index` and the `put_index_json` of a homeserver, by
-- the cursor that each homeserver has there. A write that fails may have been done or not.
pub record CursorIndex (W : Type 0) : Type 0 where
  pub cursor_of : String → W → Option ℕ
  pub get_from_index : String → Step W RedisError (Option Homeserver)
  pub put_index_json : Homeserver → Step W RedisError (Unit {0})
  pub get_acts : (id : String) (w : W) → Unmoved cursor_of w (get_from_index id w).1
  pub get_ok :
      (id : String) (w : W) (o : Option Homeserver)
      → (get_from_index id w).0 ≡ ok o
      → cursor_in o ≡ cursor_of id w
  pub put_acts :
      (h : Homeserver) (w : W)
      → Unmoved cursor_of w (put_index_json h w).1 ⊎ Stored cursor_of h w (put_index_json h w).1
  pub put_ok :
      (h : Homeserver) (w : W)
      → (put_index_json h w).0 ≡ ok tt
      → Stored cursor_of h w (put_index_json h w).1

module _ {W : Type 0} (index : CursorIndex W) where
  -- The test of `validate_cursor_change`, once the stored homeserver is read.
  unfoldable pub check_stored :
      ℕ → Result (Option Homeserver) RedisError → Result (Unit {0}) RedisError
  check_stored new_cursor (err e) = err e
  check_stored new_cursor (ok none) = ok tt
  check_stored new_cursor (ok (some existing)) =
      ensure_cursor_not_backwards new_cursor existing.cursor

  -- `Homeserver::validate_cursor_change`
  unfoldable pub validate_cursor_change : String → ℕ → Step W RedisError (Unit {0})
  unfolding check_stored
  validate_cursor_change id new_cursor w =
      (check_stored new_cursor (index.get_from_index id w).0, (index.get_from_index id w).1)

  -- `Homeserver::put_to_index`
  unfoldable pub put_to_index : Homeserver → Step W RedisError (Unit {0})
  unfolding validate_cursor_change
  put_to_index self = do validate_cursor_change self.id self.cursor; index.put_index_json self

  -- `Homeserver::try_from_cursor`
  unfoldable pub try_from_cursor : String → String → Step W ModelError Homeserver
  unfolding parse_u64 validate_cursor_change
  try_from_cursor id cursor w = elim (parse_u64 cursor) [
    | none ↦ (
      err (
          ModelError.generic
            (append "Cannot create a homeserver from a non-numeric cursor: " cursor)),
      w,
    )
    | some c ↦ elim (validate_cursor_change id c w).0 [
      | err e ↦ (err (ModelError.kv_operation_failed e), (validate_cursor_change id c w).1)
      | ok _ ↦ (ok (record { id = id; cursor = c }), (validate_cursor_change id c w).1)
    ]
  ]
