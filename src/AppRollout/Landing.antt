-- ===== src/AppRollout/Landing.antt =====
-- What holds of a round where it succeeds: `X` is what a panic has to give.
use mathlib.Core.Path.{subst}
use rudr_x.Base.{Bool, false, if◌then◌else◌, refl, true, ◌≡◌}
use rudr_x.AppRollout.Types.{Round, after, called}
use rudr_x.Cluster.Calls.{Call, Result, err, ok}
use rudr_x.Cluster.Posts.{Post, Whatever, anything}
use rudr_x.Rollout.Action.{Outcome, done, panic}

unfoldable pub Lands : {A W : Type 0} → Type 0 → (A → Type 0) → Outcome (Result A × W) → Type 0
Lands X P panic = X
Lands X P (done (ok a, w)) = P a
Lands X P (done (err e, w)) = Unit {0}

module _ {W : Type 0} (X : Type 0) where
  pub after-Lands :
      {A B : Type 0} (Q : A → Type 0) (P : B → Type 0) (f : A → Round W B)
      (o : Outcome (Result A × W))
      → Lands X Q o
      → ((a : A) (w : W) → Q a → Lands X P (f a w))
      → Lands X P (after f o)
  unfolding Lands
  after-Lands Q P f panic h next = h
  after-Lands Q P f (done (ok a, w)) h next = next a w h
  after-Lands Q P f (done (err e, w)) h next = tt

  -- A call, by what a success gives.
  pub called-Lands :
      {A : Type 0} (P : A → Type 0) (x : Result A × W)
      → Post (λ a w. P a) Whatever x
      → Lands X P (done x)
  unfolding Lands
  called-Lands P (ok a, w) h = h
  called-Lands P (err e, w) h = tt

  -- A call that is only made.
  pub then-Lands :
      {A B : Type 0} (P : B → Type 0) (f : A → Round W B) (x : Result A × W)
      → ((a : A) (w : W) → Lands X P (f a w))
      → Lands X P (after f (done x))
  unfolding Lands
  then-Lands P f (ok a, w) next = next a w
  then-Lands P f (err e, w) next = tt

  pub if-Lands :
      {A : Type 0} (P : A → Type 0) (b : Bool) (x y : Outcome (Result A × W))
      → (b ≡ true → Lands X P x)
      → (b ≡ false → Lands X P y)
      → Lands X P (if b then x else y)
  if-Lands P true x y h k = h refl
  if-Lands P false x y h k = k refl

  pub Lands-mono :
      {A : Type 0} (Q P : A → Type 0) (o : Outcome (Result A × W))
      → ((a : A) → Q a → P a)
      → Lands X Q o
      → Lands X P o
  unfolding Lands
  Lands-mono Q P panic weaker h = h
  Lands-mono Q P (done (ok a, w)) weaker h = weaker a h
  Lands-mono Q P (done (err e, w)) weaker h = tt

-- What a round lands on, by its outcome.
pub landed :
    {A W : Type 0} (X : Type 0) (P : A → Type 0) (o : Outcome (Result A × W)) {a : A} {w : W}
    → Lands X P o
    → o ≡ done (ok a, w)
    → P a
unfolding Lands
landed {W = W} X P o {a} {w} h e = subst (Lands {W = W} X P) e h

-- A call that is only made.
pub made : {A W : Type 0} (X : Type 0) (c : Call W A) (w : W) → Lands X (λ a. Unit {0}) (called c w)
made X c w = called-Lands X (λ a. Unit) (c w) (anything (c w))

pub quiet : {A W : Type 0} (X : Type 0) (a : A) (w : W) → Lands X (λ a. Unit {0}) (done (ok a, w))
unfolding Lands
quiet X a w = tt

-- A round of which nothing is asked.
pub whatever-Lands :
    {A W : Type 0} (o : Outcome (Result A × W)) → Lands (Unit {0}) (λ a. Unit {0}) o
unfolding Lands
whatever-Lands panic = tt
whatever-Lands (done (ok a, w)) = tt
whatever-Lands (done (err e, w)) = tt
