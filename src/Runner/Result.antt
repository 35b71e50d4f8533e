-- ===== src/Runner/Result.antt =====
-- How a call of the runner ends. `hang` is that the fuel of a loop ran out, or that a loop does
-- not end.
use reverse_traceroute_publi.Base.{Option, none, some, Run, ok, panic}

pub data Result {ℓ} (A : Type ℓ) : Type ℓ where
  ret : A → Result A
  crash : Result A
  hang : Result A

infixl 5 ◌>>=◌
unfoldable pub ◌>>=◌ {ℓ κ} : {A : Type ℓ} {B : Type κ} → Result A → (A → Result B) → Result B
ret a >>= next = next a
crash >>= next = crash
hang >>= next = hang

-- A call that may panic.
unfoldable pub of_run {ℓ} : {A : Type ℓ} → Run A → Result A
of_run (ok a) = ret a
of_run panic = crash

-- A call that runs on fuel of its own.
unfoldable pub of_fuel {ℓ} : {A : Type ℓ} → Option (Run A) → Result A
of_fuel (some run) = of_run run
of_fuel none = hang
