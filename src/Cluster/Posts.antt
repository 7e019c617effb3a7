-- ===== src/Cluster/Posts.antt =====
-- Rules for calls of the API server: what holds after a call, on success and on failure.
use mathlib.Core.Path.{subst}
use rudr_x.Base.{Bool, String, false, if◌then◌else◌, suc, true, zero, ℕ, ◌≡◌}
use rudr_x.Cluster.Calls.{
  Call, Error, Result, err, fails, is_conflict, ok, on_error, pure, retry_on_conflict, settled,
  wrapping, ◌>>=◌,
}

module _ {W : Type 0} where
  -- `Q` of the answer and the world after a success, `E` of the error and the world after a failure.
  abbrev pub Post : {A : Type 0} → (A → W → Type 0) → (Error → W → Type 0) → Result A × W → Type 0
  Post Q E (ok a, w) = Q a w
  Post Q E (err e, w) = E e w

  abbrev pub Whatever : Error → W → Type 0
  Whatever e w = Unit {0}

  -- A property of the world that the call keeps, whether it fails or not.
  abbrev pub Keeps : {A : Type 0} → (W → Type 0) → Call W A → Type 0
  Keeps P m = (w : W) → P w → P (m w).1

  -- What a success of the call gives.
  abbrev pub Gives : {A : Type 0} → (A → W → Type 0) → Call W A → Type 0
  Gives Q m = (w : W) → Post Q Whatever (m w)

  pub settled-Keeps :
      {A B : Type 0} (P : W → Type 0) (f : A → Call W B) (g : Error → Call W B) (x : Result A × W)
      → ((a : A) → Keeps P (f a))
      → ((e : Error) → Keeps P (g e))
      → P x.1
      → P (settled f g x).1
  settled-Keeps P f g (ok a, w) kf kg h = kf a w h
  settled-Keeps P f g (err e, w) kf kg h = kg e w h

  pub on_error-Keeps :
      {A B : Type 0} (P : W → Type 0) (m : Call W A) (f : A → Call W B) (g : Error → Call W B)
      → Keeps P m
      → ((a : A) → Keeps P (f a))
      → ((e : Error) → Keeps P (g e))
      → Keeps P (on_error m f g)
  on_error-Keeps P m f g km kf kg w h = settled-Keeps P f g (m w) kf kg (km w h)

  pub bind-Keeps :
      {A B : Type 0} (P : W → Type 0) (m : Call W A) (f : A → Call W B)
      → Keeps P m
      → ((a : A) → Keeps P (f a))
      → Keeps P (m >>= f)
  bind-Keeps P m f km kf = on_error-Keeps P m f fails km kf (λ e w h. h)

  pub wrapping-Keeps :
      {A : Type 0} (P : W → Type 0) (text : String) (m : Call W A)
      → Keeps P m
      → Keeps P (wrapping text m)
  wrapping-Keeps P text m km = on_error-Keeps P m pure _ km (λ a w h. h) (λ e w h. h)

  pub if-Keeps :
      {A : Type 0} (P : W → Type 0) (b : Bool) (m n : Call W A)
      → Keeps P m
      → Keeps P n
      → Keeps P (if b then m else n)
  if-Keeps P true m n km kn = km
  if-Keeps P false m n km kn = kn

  pub anything : {A : Type 0} (x : Result A × W) → Post (λ a w. Unit {0}) Whatever x
  anything (ok a, w) = tt
  anything (err e, w) = tt

  pub if-Gives :
      {A : Type 0} (Q : A → W → Type 0) (b : Bool) (m n : Call W A)
      → Gives Q m
      → Gives Q n
      → Gives Q (if b then m else n)
  if-Gives Q true m n gm gn = gm
  if-Gives Q false m n gm gn = gn

  pub settled-Post :
      {A B : Type 0} (Q : A → W → Type 0) (E F : Error → W → Type 0) (R : B → W → Type 0)
      (f : A → Call W B) (g : Error → Call W B) (x : Result A × W)
      → ((a : A) (w : W) → Q a w → Post R F (f a w))
      → ((e : Error) (w : W) → E e w → Post R F (g e w))
      → Post Q E x
      → Post R F (settled f g x)
  settled-Post Q E F R f g (ok a, w) kf kg h = kf a w h
  settled-Post Q E F R f g (err e, w) kf kg h = kg e w h

  -- A step whose error is only passed on or wrapped.
  pub bind-Post :
      {A B : Type 0} (Q : A → W → Type 0) (R : B → W → Type 0) (f : A → Call W B)
      (wrap : Error → Error) (x : Result A × W)
      → ((a : A) (w : W) → Q a w → Post R Whatever (f a w))
      → Post Q Whatever x
      → Post R Whatever (settled f (λ e. fails (wrap e)) x)
  bind-Post Q R f wrap (ok a, w) kf h = kf a w h
  bind-Post Q R f wrap (err e, w) kf h = tt

  pub Post-both :
      {A : Type 0} (P : W → Type 0) (Q : A → W → Type 0) (x : Result A × W)
      → P x.1
      → Post Q Whatever x
      → Post (λ a w. Q a w × P w) Whatever x
  Post-both P Q (ok a, w) p q = (q, p)
  Post-both P Q (err e, w) p q = tt

  pub retry-Keeps :
      {A : Type 0} (P : W → Type 0) (n : ℕ) (m : Call W A)
      → Keeps P m
      → Keeps P (retry_on_conflict n m)
  unfolding retry_on_conflict
  retry-Keeps P zero m k w h = k w h
  retry-Keeps P (suc n) m k w h =
      settled-Keeps P _ _ (m w) (λ a w' h'. h')
        (λ e.
          if-Keeps P (is_conflict e) (retry_on_conflict n m) (fails e) (retry-Keeps P n m k)
            (λ w' h'. h'))
        (k w h)

  pub kept : {A : Type 0} (P : W → Type 0) (x : Result A × W) → P x.1 → Post (λ a w. P w) Whatever x
  kept P (ok a, w) p = p
  kept P (err e, w) p = tt

  pub Post-mono :
      {A : Type 0} (Q R : A → W → Type 0) (x : Result A × W)
      → ((a : A) (w : W) → Q a w → R a w)
      → Post Q Whatever x
      → Post R Whatever x
  Post-mono Q R (ok a, w) imp q = imp a w q
  Post-mono Q R (err e, w) imp q = tt

  -- What a success was.
  pub Post-success :
      {A : Type 0} (Q : A → W → Type 0) (E : Error → W → Type 0) (x : Result A × W) {a : A} {w' : W}
      → Post Q E x
      → x ≡ (ok a, w')
      → Q a w'
  Post-success Q E x q h = subst (Post Q E) h q
