-- ===== src/Common/Outcome.antt =====
-- `Result<A, E>`, with `panic` for a thread that unwinds, and code that also changes a state.
use mathlib.Core.Path.{◌≡◌}
use mathlib.Core.Option.{Option, none, some}

pub data Result {ℓ} (E A : Type ℓ) : Type ℓ where
  ok : A → Result E A
  err : E → Result E A
  panic : Result E A

-- `?` in a function without state
abbrev pub and_then {ℓ} : {E A B : Type ℓ} → Result E A → (A → Result E B) → Result E B
and_then (ok a) f = f a
and_then (err e) f = err e
and_then panic f = panic

abbrev pub map_err {ℓ} : {E D A : Type ℓ} → (E → D) → Result E A → Result D A
map_err f (ok a) = ok a
map_err f (err e) = err (f e)
map_err f panic = panic

abbrev pub ok_or {ℓ} : {E A : Type ℓ} → E → Option A → Result E A
ok_or e none = err e
ok_or e (some a) = ok a

-- The state comes back beside an error or a panic too.
abbrev pub Action : Type 0 → Type 0 → Type 0 → Type 0
Action S E A = S → Result E A × S

abbrev pub continue : {S E A B : Type 0} → Result E A → (A → Action S E B) → Action S E B
continue (ok a) f s = f a s
continue (err e) f s = (err e, s)
continue panic f s = (panic, s)

abbrev pub pure : {S E A : Type 0} → A → Action S E A
pure a s = (ok a, s)

abbrev pub throw : {S E A : Type 0} → E → Action S E A
throw e s = (err e, s)

abbrev pub lift : {S E A : Type 0} → Result E A → Action S E A
lift r s = (r, s)

infixl 5 ◌>>=◌ ◌>>◌
abbrev pub ◌>>=◌ : {S E A B : Type 0} → Action S E A → (A → Action S E B) → Action S E B
◌>>=◌ m f s = let (r, t) = m s in continue r f t

abbrev pub ◌>>◌ : {S E A B : Type 0} → Action S E A → Action S E B → Action S E B
m >> k = m >>= λ _. k

-- An action whose first part returns goes on with the rest.
pub step_on :
    {S E A B : Type 0} (m : Action S E A) (f : A → Action S E B) (s t : S) (a : A)
    (r : Result E B × S)
    → m s ≡ (ok a, t)
    → f a t ≡ r
    → (m >>= f) s ≡ r
step_on m f s t a r e k = rw e k
