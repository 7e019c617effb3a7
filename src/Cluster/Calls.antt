-- ===== src/Cluster/Calls.antt =====
-- Calls that may fail: Go's `(A, error)` around the API server.
use rudr_x.Base.{Bool, String, false, if◌then◌else◌, inl, inr, refl, suc, true, zero, ℕ, ◌≡◌, ◌⊎◌}
use rudr_x.Base.Text.{◌+++◌}

-- An error as the code tells it apart: `IsNotFound`, `IsConflict`, and any other, wrapped ones too.
pub data Error : Type 0 where
  not_found : String → Error
  conflict : String → Error
  failure : String → Error

pub data Result (A : Type 0) : Type 0 where
  ok : A → Result A
  err : Error → Result A

pub Result-cases :
    {A : Type 0} (r : Result A) → ((a : A) × (r ≡ ok a)) ⊎ ((e : Error) × (r ≡ err e))
Result-cases (ok a) = inl (a, refl)
Result-cases (err e) = inr (e, refl)

pub ok-inj : {A : Type 0} {a b : A} → ok a ≡ ok b → a ≡ b
ok-inj h = cc

abbrev pub error_text : Error → String
error_text (not_found m) = m
error_text (conflict m) = m
error_text (failure m) = m

-- `errors.Wrap(err, m)`: the wrapped error is no longer an answer of the API server.
abbrev pub wrapped : String → Error → Error
wrapped m e = failure (m +++ ": " +++ error_text e)

-- `IsNotFound` of apimachinery 0.18, which does not unwrap.
abbrev pub is_not_found : Error → Bool
is_not_found (not_found m) = true
is_not_found _ = false

abbrev pub is_conflict : Error → Bool
is_conflict (conflict m) = true
is_conflict _ = false

-- The world goes on also where a call fails.
abbrev pub Call : Type 0 → Type 0 → Type 0
Call W A = W → Result A × W

module _ {W : Type 0} where
  abbrev pub pure : {A : Type 0} → A → Call W A
  pure a w = (ok a, w)

  abbrev pub fails : {A : Type 0} → Error → Call W A
  fails e w = (err e, w)

  abbrev pub returned : {A : Type 0} → Result A → Call W A
  returned r w = (r, w)

  -- What follows a call, by its answer.
  abbrev pub settled :
      {A B : Type 0} → (A → Call W B) → (Error → Call W B) → Result A × W → Result B × W
  settled f g (ok a, w) = f a w
  settled f g (err e, w) = g e w

  infixl 5 ◌>>=◌ ◌>>◌
  abbrev pub ◌>>=◌ : {A B : Type 0} → Call W A → (A → Call W B) → Call W B
  ◌>>=◌ m f w = settled f fails (m w)

  abbrev pub ◌>>◌ : {A B : Type 0} → Call W A → Call W B → Call W B
  m >> k = m >>= λ _. k

  -- A call whose error is handled by what follows.
  abbrev pub on_error : {A B : Type 0} → Call W A → (A → Call W B) → (Error → Call W B) → Call W B
  on_error m f g w = settled f g (m w)

  abbrev pub wrapping : {A : Type 0} → String → Call W A → Call W A
  wrapping m c = on_error c pure (λ e. fails (wrapped m e))

  -- A deletion of what may be gone: `err != nil && !IsNotFound(err)`.
  abbrev pub unless_gone : Error → Error → Call W (Unit {0})
  unless_gone e wrapped_error = if is_not_found e then pure tt else fails wrapped_error

  abbrev pub when : Bool → Call W (Unit {0}) → Call W (Unit {0})
  when b m = if b then m else pure tt

  -- `retry.RetryOnConflict`: after a conflict the call is made again, at most `retries` times.
  unfoldable pub retry_on_conflict : {A : Type 0} → ℕ → Call W A → Call W A
  retry_on_conflict zero m = m
  retry_on_conflict (suc retries) m =
      let again = retry_on_conflict retries m in
      on_error m pure (λ e. if is_conflict e then again else fails e)
