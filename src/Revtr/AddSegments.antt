-- ===== src/Revtr/AddSegments.antt =====
-- AddSegments: the paths that it pushes are free of loops, and what its result says.
use mathlib.Core.List.{Perm, Mem, mem-cons_self, mem-cons_of_mem}
use mathlib.Core.List.Perm
use reverse_traceroute_publi.Base.{
  ok, ◌<◌, ◌≡◌, ◌≢◌, ◌⊎◌, inl, inr, refl, ap, String, Bool, true, false, List, [], ◌∷◌, length,
  ◌==◌, arith, Bool-cases,
}
use reverse_traceroute_publi.StringUtil.{in_array, IsRangeOrder}
use reverse_traceroute_publi.Segment.{Segment, null_hop, hops, last_hop, segment_length}
use reverse_traceroute_publi.Segment.LoopFree.{remove_hops-in_array}
use reverse_traceroute_publi.ReversePath.{ReversePath, clone_path, path_hops, add}
use reverse_traceroute_publi.Revtr.{
  Revtr, is_dead, Added, curr_path, add_segments, finish_adding, fire_on_add, done, aborted, pruned,
  add_loop,
}
use reverse_traceroute_publi.Revtr.Externs.{Env}

-- A path that AddSegments may push: the base path with one more segment `s`, made from one of the
-- segments to add, which has hops, is no dead end and repeats no hop of the base path, null hops
-- apart.
pub record IsExtension (env : Env) (rt : Revtr) (base_path : ReversePath) (segs : List Segment)
    (p : ReversePath) : Type 0 where
  pub given : Segment
  pub listed : Mem given segs
  pub pushed : p ≡ add (clone_path base_path) (pruned env base_path given).0
  pub alive : is_dead rt (last_hop given.rev) ≡ false
  pub has_hops : hops (pruned env base_path given).0 ≢ []
  pub loop_free :
      (x : String)
      → in_array (hops (pruned env base_path given).0) x ≡ true
      → in_array (path_hops base_path.path) x ≡ true
      → x ≡ null_hop

-- `after` is `before` with extensions on top.
pub data Pushed (env : Env) (rt : Revtr) (base_path : ReversePath) (segs : List Segment)
    (before : List ReversePath) : List ReversePath → Type 0 where
  same : Pushed env rt base_path segs before before
  push :
      {p : ReversePath} {after : List ReversePath}
      → IsExtension env rt base_path segs p
      → Pushed env rt base_path segs before after
      → Pushed env rt base_path segs before (p ∷ after)

-- RemoveHops fails on one of the segments.
abbrev pub SomeLoop : Env → ReversePath → List Segment → Type 0
SomeLoop env base_path segs = (s : Segment) × Mem s segs × ((pruned env base_path s).1 ≡ true)

module _ (env : Env) (ranges : IsRangeOrder env.order) (rt : Revtr) (base_path : ReversePath)
    (segs : List Segment) where
  extension :
      (s : Segment)
      → Mem s segs
      → is_dead rt (last_hop s.rev) ≡ false
      → (segment_length (pruned env base_path s).0.rev false == 0) ≡ false
      → IsExtension env rt base_path segs (add (clone_path base_path) (pruned env base_path s).0)
  unfolding pruned segment_length
  extension s listed alive some_hops = record {
    given = s;
    listed = listed;
    pushed = refl;
    alive = alive;
    has_hops = λ e. ground arith;
    loop_free = λ x h k.
        remove_hops-in_array env.cm env.order ranges s.rev (path_hops base_path.path) x h k;
  }

  -- What the loop leaves, whether it ends or breaks off.
  abbrev Loop : List ReversePath → Bool → Added → Type 0
  Loop before added (done added' after) =
      Pushed env rt base_path segs before after
      × (((added' ≡ added) × (after ≡ before)) ⊎ ((added' ≡ true) × (length before < length after)))
  Loop before added (aborted after) =
      Pushed env rt base_path segs before after × SomeLoop env base_path segs

  Pushed-trans :
      {a b c : List ReversePath}
      → Pushed env rt base_path segs a b
      → Pushed env rt base_path segs b c
      → Pushed env rt base_path segs a c
  Pushed-trans p same = p
  Pushed-trans p (push e q) = push e (Pushed-trans p q)

  Loop-push :
      (before : List ReversePath) (added : Bool) (p : ReversePath) (r : Added)
      → IsExtension env rt base_path segs p
      → Loop (p ∷ before) true r
      → Loop before added r
  Loop-push before added p (done added' after) e (pushed, inl (a, same_paths)) =
      (Pushed-trans (push e same) pushed, inr (a, ground (arith, ap length same_paths)))
  Loop-push before added p (done added' after) e (pushed, inr (a, longer)) =
      (Pushed-trans (push e same) pushed, inr (a, omega arith))
  Loop-push before added p (aborted after) e (pushed, loop) =
      (Pushed-trans (push e same) pushed, loop)

  add_loop-Loop :
      (rest : List Segment) (added : Bool) (before : List ReversePath)
      → ((s : Segment) → Mem s rest → Mem s segs)
      → Loop before added (add_loop env rt base_path rest added before)
  unfolding add_loop
  add_loop-Loop [] added before sub = (same, inl (refl, refl))
  add_loop-Loop (s ∷ rest) added before sub =
      let later = λ (t : Segment) (m : Mem t rest). sub t (mem-cons_of_mem s m) in
      elim (Bool-cases (is_dead rt (last_hop s.rev))) [
        | inl dead ↦ rw dead (add_loop-Loop rest added before later)
        | inr alive ↦ elim (Bool-cases (pruned env base_path s).1) [
          | inl err ↦ rw (alive, err) (same, (s, sub s mem-cons_self, err))
          | inr fine ↦
              elim (Bool-cases (segment_length (pruned env base_path s).0.rev false == 0)) [
                | inl empty ↦ rw (alive, fine, empty) (add_loop-Loop rest added before later)
                | inr some_hops ↦
                    let p = add (clone_path base_path) (pruned env base_path s).0 in
                    let after = add_loop env rt base_path rest true (p ∷ before) in
                    rw (alive, fine, some_hops)
                      (Loop-push before added p after
                        (extension s (sub s mem-cons_self) alive some_hops)
                        (add_loop-Loop rest true (p ∷ before) later))
              ]
        ]
      ]

-- What the result of AddSegments says: true, and some path was pushed; false, and none was, or
-- RemoveHops failed on a segment.
abbrev pub Reported : Env → Revtr → ReversePath → List Segment → Revtr → Bool → Type 0
Reported env rt base_path segs rt' added =
    ((added ≡ true) × (length rt.paths < length rt'.paths))
    ⊎ ((added ≡ false) × ((rt' ≡ rt) ⊎ SomeLoop env base_path segs))

pub fire_on_add-paths : (rt : Revtr) → (fire_on_add rt).paths ≡ rt.paths
unfolding fire_on_add
fire_on_add-paths rt = ground arith

module _ (env : Env) (ranges : IsRangeOrder env.order)
    (sorts : (l : List Segment) → Perm (env.sort l) l) where
  -- Where the stack is not empty, a range over a map gives each entry once and the sort permutes,
  -- AddSegments returns; the stack grows by extensions of the current path by one given segment
  -- that is no dead end and repeats no hop of the path but the null hop; true means that the
  -- stack grew, and false that nothing changed or that RemoveHops failed on a segment.
  pub add_segments-Pushed :
      (rt : Revtr) (segs : List Segment) (p : ReversePath)
      → curr_path rt ≡ ok p
      → (rt' : Revtr) × (added : Bool) × (add_segments env rt segs ≡ ok (rt', added))
        × Pushed env rt (clone_path p) segs rt.paths rt'.paths
        × Reported env rt (clone_path p) segs rt' added
  unfolding add_segments finish_adding
  add_segments-Pushed rt segs p at =
      go (add_loop env rt (clone_path p) (env.sort segs) false rt.paths) refl (
        add_loop-Loop env ranges rt (clone_path p) segs (env.sort segs) false rt.paths
          (λ s m. (Perm.mem_iff (sorts segs)).0 m))
    where
      go :
          (r : Added)
          → add_loop env rt (clone_path p) (env.sort segs) false rt.paths ≡ r
          → Loop env ranges rt (clone_path p) segs rt.paths false r
          → (rt' : Revtr) × (added : Bool) × (add_segments env rt segs ≡ ok (rt', added))
            × Pushed env rt (clone_path p) segs rt.paths rt'.paths
            × Reported env rt (clone_path p) segs rt' added
      go (aborted paths) e (pushed, loop) = (
        record rt { paths = paths },
        false,
        rw at (ap (λ r. ok (finish_adding rt r)) e),
        pushed,
        inr (refl, inr loop),
      )
      go (done true paths) e (pushed, inl (a, same_paths)) = absurd (ground arith)
      go (done false paths) e (pushed, inl (a, same_paths)) = (
        record rt { paths = paths },
        false,
        rw at (ap (λ r. ok (finish_adding rt r)) e),
        pushed,
        inr (refl, inl (ap (λ ps. record rt { paths = ps }) same_paths)),
      )
      go (done false paths) e (pushed, inr (a, longer)) = absurd (ground arith)
      go (done true paths) e (pushed, inr (a, longer)) =
          let kept = fire_on_add-paths (record rt { paths = paths }) in
          (
            fire_on_add (record rt { paths = paths }),
            true,
            rw at (ap (λ r. ok (finish_adding rt r)) e),
            rw kept pushed,
            inl (refl, rw kept longer),
          )
