-- ===== src/Homeserver/Tests.antt =====
-- Homeserver cursors on small inputs, with an index that never fails.
use pubky_nexus.Base.{
  ℕ, String, Option, none, some, List, [], ◌∷◌, Result, ok, err, ◌≡◌, refl, ap, ◌∙◌, sym, string_eq,
  inr,
}
use pubky_nexus.Base.HashMap
use pubky_nexus.Errors.{RedisError, ensure_cursor_not_backwards}
use pubky_nexus.Homeserver.{
  Homeserver, CursorIndex, cursor_in, Stored, put_to_index, validate_cursor_change, check_stored,
  parse_u64,
}
use pubky_nexus.Homeserver.Cursor.{AtLeast, put_to_index-AtLeast}

abbrev pub Cursors : Type 0
Cursors = List (String × ℕ)

abbrev pub found : String → Option ℕ → Option Homeserver
found id none = none
found id (some c) = some (record { id = id; cursor = c })

pub found_cursor : (id : String) (o : Option ℕ) → cursor_in (found id o) ≡ o
found_cursor id none = refl
found_cursor id (some c) = refl

pub found_ok :
    (id : String) (w : Cursors) (o : Option Homeserver)
    → ◌≡◌ {A = Result (Option Homeserver) RedisError} (ok (found id (HashMap.get id w))) (ok o)
    → cursor_in o ≡ HashMap.get id w
found_ok id w o h =
    let same : found id (HashMap.get id w) ≡ o = cc in
    ap cursor_in (sym same) ∙ found_cursor id (HashMap.get id w)

pub inserted :
    (h : Homeserver) (w : Cursors) → Stored HashMap.get h w (HashMap.insert h.id h.cursor w)
inserted h w j = HashMap.get-insert h.id j h.cursor w

abbrev pub index : CursorIndex Cursors
index = record {
  cursor_of = HashMap.get;
  get_from_index = λ id w. (ok (found id (HashMap.get id w)), w);
  put_index_json = λ h w. (ok tt, HashMap.insert h.id h.cursor w);
  get_acts = λ id w j. refl;
  get_ok = found_ok;
  put_acts = λ h w. inr (inserted h w);
  put_ok = λ h w q. inserted h w;
}

abbrev at_nine : Homeserver
at_nine = record { id = "hs"; cursor = 9 }

put_to_index-AtLeast_example :
    ((j : String)
      → AtLeast
          (HashMap.get j (("hs", 5) ∷ []))
          (HashMap.get j (put_to_index index at_nine (("hs", 5) ∷ [])).1))
    × ((put_to_index index at_nine (("hs", 5) ∷ [])).0 ≡ ok tt
        → HashMap.get "hs" (put_to_index index at_nine (("hs", 5) ∷ [])).1 ≡ some 9)
put_to_index-AtLeast_example = put_to_index-AtLeast index at_nine (("hs", 5) ∷ [])

backwards_is_refused :
    put_to_index index at_nine (("hs", 12) ∷ [])
    ≡ (err (RedisError.invalid_input "Cursor cannot move backwards"), ("hs", 12) ∷ [])
unfolding put_to_index validate_cursor_change check_stored ensure_cursor_not_backwards HashMap.get
backwards_is_refused = refl

parse_u64_fits : parse_u64 "+0018446744073709551615" ≡ some 18446744073709551615
unfolding parse_u64
parse_u64_fits = refl

parse_u64_overflows : parse_u64 "18446744073709551616" ≡ none
unfolding parse_u64
parse_u64_overflows = refl
