-- ===== src/Base/Outcome.antt =====
-- `Result<T, E>`, and steps that pass a state on and may fail: the state reached before a failure
-- is kept, as a mutation made before a `?` is.
use mathlib.Core.Path.{◌≡◌, refl}
use mathlib.Core.Logic.{◌⊎◌, inl, inr}

pub data Result {ℓ κ} (A : Type ℓ) (E : Type κ) : Type (ℓ ⊔ κ) where
  ok : A → Result A E
  err : E → Result A E

abbrev pub map_err : {A E F : Type 0} → (E → F) → Result A E → Result A F
map_err f (ok a) = ok a
map_err f (err e) = err (f e)

-- An `async fn` returning `Result<A, E>` over a state `S`.
abbrev pub Step : Type 0 → Type 0 → Type 0 → Type 0
Step S E A = S → Result A E × S

abbrev pub and_then : {S E A B : Type 0} → Result A E × S → (A → Step S E B) → Result B E × S
and_then (ok a, s) f = f a s
and_then (err e, s) f = (err e, s)

infixl 5 ◌>>=◌ ◌>>◌
abbrev pub ◌>>=◌ : {S E A B : Type 0} → Step S E A → (A → Step S E B) → Step S E B
◌>>=◌ m f s = and_then (m s) f

abbrev pub ◌>>◌ : {S E A B : Type 0} → Step S E A → Step S E B → Step S E B
◌>>◌ m k s = and_then (m s) (λ _. k)

abbrev pub pure : {S E A : Type 0} → A → Step S E A
pure a s = (ok a, s)

abbrev pub raise : {S E A : Type 0} → E → Step S E A
raise e s = (err e, s)

pub Result-cases {ℓ κ} :
    {A : Type ℓ} {E : Type κ} (r : Result A E) → ((a : A) × (r ≡ ok a)) ⊎ ((e : E) × (r ≡ err e))
Result-cases (ok a) = inl (a, refl)
Result-cases (err e) = inr (e, refl)
