-- ===== src/Runner/Resume.antt =====
-- nexus-watcher/src/service/runner/key_based_user_resume.rs. A user is its key in z-base-32, with
-- its cursor.
use pubky_nexus.Base.{
  ℕ, zero, suc, String, Bool, Option, none, some, List, [], ◌∷◌, ◌++◌, ◌+◌, ◌%◌, not, length, take,
  drop, get_elem?, if◌then◌else◌, string_eq,
}
use pubky_nexus.Base.HashMap
use pubky_nexus.Base.Order.{str_leb}
use pubky_nexus.Base.Sort.{sort_by}
pub mod Strict
pub mod Turn

abbrev pub User : Type 0
User = String × ℕ

-- `UserResumePoints`
abbrev pub UserResumePoints : Type 0
UserResumePoints = List (String × String)

-- `slice::partition_point`: how many elements at the front satisfy the test.
unfoldable pub partition_point : {A : Type 0} → (A → Bool) → List A → ℕ
partition_point p [] = 0
partition_point p (x ∷ xs) = if p x then suc (partition_point p xs) else 0

-- `slice::rotate_left`
abbrev pub rotate_left : {A : Type 0} → ℕ → List A → List A
rotate_left n xs = drop n xs ++ take n xs

abbrev pub by_key : User → User → Bool
by_key a b = str_leb a.0 b.0

-- Whether a user comes before the resume point.
abbrev pub before : String → User → Bool
before resume_at user = not (str_leb resume_at user.0)

-- `UserResumePoints::order`
unfoldable pub order : String → List User → UserResumePoints → List User
order hs_id users inner =
    let sorted = sort_by by_key users in
    elim (HashMap.get hs_id inner) [
      | none ↦ sorted
      | some resume_at ↦ rotate_left (partition_point (before resume_at) sorted) sorted
    ]

-- `UserResumePoints::record_stop_after`: none where the index is out of range.
unfoldable pub record_stop_after :
    String → List User → ℕ → UserResumePoints → Option UserResumePoints
record_stop_after hs_id users index inner = elim (get_elem? users ((index + 1) % length users)) [
  | none ↦ none
  | some next_user ↦ some (HashMap.insert hs_id next_user.0 inner)
]

-- `UserResumePoints::record_full_pass`
unfoldable pub record_full_pass : String → UserResumePoints → UserResumePoints
record_full_pass hs_id inner = HashMap.remove hs_id inner
