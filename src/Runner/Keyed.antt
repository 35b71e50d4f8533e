-- ===== src/Runner/Keyed.antt =====
-- Go maps whose keys are the structs pair and triplet, as association lists.
use reverse_traceroute_publi.Base.{
  String, Bool, ◌&&◌, Option, none, some, List, [], ◌∷◌, str_eq, if◌then◌else◌,
}

pub record Pair : Type 0 where
  pub src : String
  pub dst : String

-- A triplet, or a tripletTs with its `tsip` as the third text.
pub record Triplet : Type 0 where
  pub src : String
  pub dst : String
  pub third : String

unfoldable pub pair_eq : Pair → Pair → Bool
pair_eq a b = str_eq a.src b.src && str_eq a.dst b.dst

unfoldable pub triplet_eq : Triplet → Triplet → Bool
triplet_eq a b = str_eq a.src b.src && (str_eq a.dst b.dst && str_eq a.third b.third)

module _ {K V : Type 0} (eq : K → K → Bool) where
  unfoldable pub find : List (K × V) → K → Option V
  find [] k = none
  find ((j, v) ∷ m) k = if eq j k then some v else find m k

  unfoldable pub put : List (K × V) → K → V → List (K × V)
  put [] k v = (k, v) ∷ []
  put ((j, w) ∷ m) k v = if eq j k then (k, v) ∷ m else (j, w) ∷ put m k v

  unfoldable pub unset : List (K × V) → K → List (K × V)
  unset [] k = []
  unset ((j, w) ∷ m) k = if eq j k then unset m k else (j, w) ∷ unset m k

  unfoldable pub find_or : List (K × V) → K → V → V
  unfolding find
  find_or m k zero_value = elim (find m k) [ some v ↦ v | none ↦ zero_value ]
