-- ===== src/Controller/Phases.antt =====
-- controller/controller.go: what doPing and doTraceroute have in common. The measurements that may be
-- answered are looked up first in the cache, then in the database, and what is left is filed by the
-- service of its source. The Go maps are association lists.
pub mod Kept
pub mod Filed
pub mod Served
use reverse_traceroute_publi.Base.{
  ℕ, String, Bool, Option, none, some, List, [], ◌∷◌, ◌++◌, if◌then◌else◌, lookup, insert, map,
}
use reverse_traceroute_publi.Controller.Backend.{Backend, Reply, refused, given}

-- What is asked, also by its key, and what is not.
pub record Asked (M : Type 0) : Type 0 where
  pub by_key : List (String × M)
  pub asked : List M
  pub remaining : List M

abbrev pub no_asked : {M : Type 0} → Asked M
no_asked = record { by_key = []; asked = []; remaining = [] }

-- The results that are sent, and the measurements that are left.
pub record Progress (M R : Type 0) : Type 0 where
  pub sent : List R
  pub remaining : List M

module _ {M : Type 0} (key : M → String) where
  unfoldable pub ask_loop : (M → Bool) → Asked M → List M → Asked M
  ask_loop may_ask acc [] = acc
  ask_loop may_ask acc (m ∷ ms) =
      ask_loop may_ask
        (if may_ask m
          then (record acc { by_key = insert acc.by_key (key m) m; asked = acc.asked ++ m ∷ [] })
          else (record acc { remaining = acc.remaining ++ m ∷ [] }))
        ms

module _ {M R : Type 0} where
  -- What was looked up and found is sent.
  unfoldable pub answer_loop : List (String × R) → List (String × M) → Progress M R → Progress M R
  answer_loop found [] acc = acc
  answer_loop found ((k, m) ∷ entries) acc = answer_loop found entries (elim (lookup found k) [
    | some p ↦ record acc { sent = acc.sent ++ p ∷ [] }
    | none ↦ record acc { remaining = acc.remaining ++ m ∷ [] }
  ])

module _ {R : Type 0} where
  unfoldable pub key_loop : (R → String) → List (String × R) → List R → List (String × R)
  key_loop result_key found [] = found
  key_loop result_key found (p ∷ ps) = key_loop result_key (insert found (result_key p) p) ps

module _ {M S : Type 0} (same_service : S → S → Bool) where
  -- A measurement in the batch of a service.
  unfoldable pub file_by : List (S × List M) → S → M → List (S × List M)
  file_by [] s m = (s, m ∷ []) ∷ []
  file_by ((s', ms) ∷ mts) s m =
      if same_service s' s then (s', ms ++ m ∷ []) ∷ mts else (s', ms) ∷ file_by mts s m

module _ {W M R S T : Type 0} (be : Backend W M R S T) where
  -- The items that can be read.
  unfoldable pub found_loop : List (String × R) → List (String × List ℕ) → List (String × R)
  found_loop found [] = found
  found_loop found ((k, item) ∷ items) =
      found_loop (elim (be.unmarshal item) [ some p ↦ insert found k p | none ↦ found ]) items

  unfoldable pub found_items : Option (List (String × List ℕ)) → List (String × R)
  found_items none = []
  found_items (some items) = found_loop [] items

  -- An error and a timeout leave the map nil, which holds nothing.
  unfoldable pub check_cache : List String → W → W × List (String × R)
  check_cache keys w =
      let (w1, res) = be.get_multi keys w in
      let (w2, done) = be.is_done w1 in (w2, if done then [] else found_items res)

  -- Where nothing is asked, the cache is not called.
  unfoldable pub check_cache_for : List String → W → W × List (String × R)
  check_cache_for [] w = (w, [])
  check_cache_for (k ∷ keys) w = check_cache (k ∷ keys) w

  -- The results that the database gave are put into the cache by goroutines that read the variable
  -- of the loop for the key.
  unfoldable pub cache_late : (R → Bool) → List (String × R) → List (String × M) → W → W
  cache_late may_cache found [] w = w
  cache_late may_cache found ((k, m) ∷ entries) w = elim (lookup found k) [
    | none ↦ cache_late may_cache found entries w
    | some p ↦
        let (w1, late) = be.late_key (k ∷ map (λ e. e.0) entries) w in
        let set_it = be.set_with_expire late (be.marshal p) w1 in
        cache_late may_cache found entries (if may_cache p then set_it else w)
  ]

  -- What the cache and the database answer, and what is left. `check_db` reads the map that the
  -- database gives.
  unfoldable pub look_up :
      (M → String)
      → (M → Bool)
      → (M → Bool)
      → (List M → W → W × List (String × R))
      → (R → Bool)
      → List M
      → W
      → W × Progress M R
  look_up key may_ask_cache may_ask_db check_db may_cache ms w =
      let cache = ask_loop key may_ask_cache no_asked ms in
      let (w1, found) = check_cache_for (map key cache.asked) w in
      let cached =
        answer_loop found (be.order cache.by_key)
          (record { sent = []; remaining = cache.remaining }) in
      let db = ask_loop key may_ask_db no_asked cached.remaining in
      let (w2, dbs) = check_db db.asked w1 in
      let entries = be.order db.by_key in
      let w3 = cache_late may_cache dbs entries w2 in
      (w3, answer_loop dbs entries (record { sent = cached.sent; remaining = db.remaining }))

  -- A service that is not found is an error result.
  unfoldable pub file_loop :
      (M → String)
      → (M → String → R)
      → List M
      → List (S × List M)
      → List R
      → W
      → W × List (S × List M) × List R
  file_loop source error_result [] mts errors w = (w, mts, errors)
  file_loop source error_result (m ∷ ms) mts errors w =
      let (w1, sd) = be.get_service (source m) w in
      let refused_with = λ (err : String).
        file_loop source error_result ms mts (errors ++ error_result m err ∷ []) w1 in
      let filed =
        λ (s : S). file_loop source error_result ms (file_by be.same_service mts s m) errors w1 in
      elim sd [ refused err ↦ refused_with err | given s ↦ filed s ]

  -- errorAllPing and errorAllTrace.
  unfoldable pub error_all : (M → String → R) → String → List M → W → W × List R
  error_all error_result err [] w = (w, [])
  error_all error_result err (m ∷ ms) w =
      let (w1, done) = be.is_done w in
      let (w2, rest) = error_all error_result err ms w1 in
      (w2, if done then rest else error_result m err ∷ rest)

  -- The results of a stream; `receive` is the loop that reads them.
  unfoldable pub stream_results :
      (M → String → R) → (List R → W → W × List R) → List M → Reply (List R) → W → W × List R
  stream_results error_result receive ms (refused err) w = error_all error_result err ms w
  stream_results error_result receive ms (given ps) w = receive ps w

  unfoldable pub with_tool :
      (M → String → R) → (List R → W → W × List R) → List M → Reply T → W → W × List R
  with_tool error_result receive ms (refused err) w = error_all error_result err ms w
  with_tool error_result receive ms (given mt) w =
      let (w1, stream) = be.measure mt ms w in
      let (w2, results) = stream_results error_result receive ms stream w1 in
      (be.close mt w2, results)

  -- The goroutine of one service.
  unfoldable pub run_batch :
      (M → String → R) → (List R → W → W × List R) → S × List M → W → W × List R
  run_batch error_result receive (s, ms) w =
      let (w1, tool) = be.get_mt s w in with_tool error_result receive ms tool w1

  -- The goroutines of the services: they change the world one after another, and what they send is
  -- interleaved.
  unfoldable pub run_batches :
      (M → String → R) → (List R → W → W × List R) → List (S × List M) → W → W × List R
  run_batches error_result receive [] w = (w, [])
  run_batches error_result receive (b ∷ bs) w =
      let (w1, first) = run_batch error_result receive b w in
      let (w2, rest) = run_batches error_result receive bs w1 in (w2, be.interleave first rest)
