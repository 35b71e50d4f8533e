-- ===== src/Controller/Backend.antt =====
-- What the controller asks of the cache, the database, the router and the measurement tools; a call
-- may change the world `W`. `M` is a measurement, `R` its result, `S` router.ServiceDef and `T` a
-- MeasurementTool. An error of a call is its text.
use reverse_traceroute_publi.Base.{ℕ, String, Bool, Option, List}

pub data Reply (A : Type 0) : Type 0 where
  refused : String → Reply A
  given : A → Reply A

-- `is_done` is that a select takes the Done of the context, and `takes_error` that it takes the error
-- where a result is ready too. `late_key` is the key that a goroutine finds in the variable of the
-- loop that started it, one of those that the loop had not left. `order` is a range over a map, and
-- `interleave` is how the channel of the results gets what two goroutines send.
-- A stream is what is received until it is closed; gRPC gives no message that is nil.
pub record Backend (W M R S T : Type 0) : Type 1 where
  pub is_done : W → W × Bool
  pub takes_error : W → W × Bool
  pub late_key : List String → W → W × String
  pub order : {A : Type 0} → List A → List A
  pub interleave : {A : Type 0} → List A → List A → List A
  pub get_multi : List String → W → W × Option (List (String × List ℕ))
  pub set_with_expire : String → List ℕ → W → W
  pub unmarshal : List ℕ → Option R
  pub marshal : R → List ℕ
  pub get_from_db : List M → W → W × List R × Bool
  pub store : R → W → W × ℕ
  pub get_service : String → W → W × Reply S
  pub same_service : S → S → Bool
  pub get_mt : S → W → W × Reply T
  pub close : T → W → W
  pub measure : T → List M → W → W × Reply (List R)
