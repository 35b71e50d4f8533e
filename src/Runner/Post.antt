-- ===== src/Runner/Post.antt =====
-- What holds of the value a call returns. `H` is what is known of a call that hangs: ⊥ says that
-- it does not.
use reverse_traceroute_publi.Base
use reverse_traceroute_publi.Base.{
  ◌≡◌, ◌≢◌, refl, Bool, true, false, Run, ok, panic, if◌then◌else◌, arith,
}
use reverse_traceroute_publi.Runner.Result.{Result, ret, crash, hang, ◌>>=◌, of_run}

pub data Post {ℓ} {A : Type ℓ} (H : Type 0) (P : A → Type 0) : Result A → Type ℓ where
  returns : {a : A} → P a → Post H P (ret a)
  crashes : Post H P crash
  hangs : H → Post H P hang

module _ {ℓ κ} {A : Type ℓ} {B : Type κ} {H : Type 0} {Q : B → Type 0} where
  pub Post-bind :
      {P : A → Type 0} (m : Result A) (f : A → Result B)
      → Post H P m
      → ((a : A) → P a → Post H Q (f a))
      → Post H Q (m >>= f)
  unfolding ◌>>=◌
  Post-bind (ret a) f (returns p) k = k a p
  Post-bind crash f crashes k = crashes
  Post-bind hang f (hangs h) k = hangs h

  -- After a call that may panic.
  pub Post-run :
      (m : Run A) (f : A → Result B)
      → ((a : A) → m ≡ ok a → Post H Q (f a))
      → Post H Q (of_run m >>= f)
  unfolding ◌>>=◌ of_run
  Post-run (ok a) f k = k a refl
  Post-run panic f k = crashes

pub Post-if {ℓ} :
    {B : Type ℓ} {H : Type 0} {Q : B → Type 0} (b : Bool) (x y : Result B)
    → (b ≡ true → Post H Q x)
    → (b ≡ false → Post H Q y)
    → Post H Q (if b then x else y)
Post-if true x y p q = p refl
Post-if false x y p q = q refl

-- Nothing is asked of the value.
pub Post-any {ℓ} : {A : Type ℓ} (m : Result A) → Post Unit (λ a. Unit) m
Post-any (ret a) = returns tt
Post-any crash = crashes
Post-any hang = hangs tt

-- The same for a call that returns or panics.
pub data OfRun {ℓ} {A : Type ℓ} (P : A → Type 0) : Run A → Type ℓ where
  oks : {a : A} → P a → OfRun P (ok a)
  panics : OfRun P panic

pub OfRun-then {ℓ κ} :
    {A : Type ℓ} {B : Type κ} {H : Type 0} {P : A → Type 0} {Q : B → Type 0} (m : Run A)
    (f : A → Result B)
    → OfRun P m
    → ((a : A) → P a → Post H Q (f a))
    → Post H Q (of_run m >>= f)
unfolding ◌>>=◌ of_run
OfRun-then (ok a) f (oks p) k = k a p
OfRun-then panic f panics k = crashes

pub not_hang {ℓ} : {A : Type ℓ} {P : A → Type 0} (m : Result A) → Post ⊥ P m → m ≢ hang
not_hang (ret a) (returns p) e = ground arith
not_hang crash crashes e = ground arith
not_hang hang (hangs h) e = h

pub OfRun-bind {ℓ κ} :
    {A : Type ℓ} {B : Type κ} {P : A → Type 0} {Q : B → Type 0} (m : Run A) (f : A → Run B)
    → OfRun P m
    → ((a : A) → P a → OfRun Q (f a))
    → OfRun Q (Base.◌>>=◌ m f)
OfRun-bind (ok a) f (oks p) k = k a p
OfRun-bind panic f panics k = panics

pub OfRun-any {ℓ} : {A : Type ℓ} (m : Run A) → OfRun (λ a. Unit) m
OfRun-any (ok a) = oks tt
OfRun-any panic = panics

pub Post-map {ℓ} :
    {A : Type ℓ} {H : Type 0} {P Q : A → Type 0} (m : Result A)
    → ((a : A) → P a → Q a)
    → Post H P m
    → Post H Q m
Post-map (ret a) k (returns p) = returns (k a p)
Post-map crash k crashes = crashes
Post-map hang k (hangs h) = hangs h
