-- ===== src/Runner/Tests.antt =====
-- Steps of one reverse traceroute.
use reverse_traceroute_publi.Base.{
  ok, ℕ, ◌≡◌, ◌≢◌, ◌<◌, refl, String, Bool, true, Option, none, some, List, [], ◌∷◌, length, map,
  arith,
}
use reverse_traceroute_publi.IpUtil.{int32_to_ip_string}
use reverse_traceroute_publi.Revtr.{StopReason, revtr_last_hop}
use reverse_traceroute_publi.Revtr.Samples.{sample_env}
use reverse_traceroute_publi.Revtr.Timestamp.{adjs_left}
use reverse_traceroute_publi.Runner.Result.{ret, hang}
use reverse_traceroute_publi.Runner.Network.{AtlasPath, is_private}
use reverse_traceroute_publi.Runner.Measure.{
  IntersectingTr, intersecting_tr, issue_rr, issue_spoofed_rr, issue_traceroute,
}
use reverse_traceroute_publi.Runner.Measure.Answers.{
  RrAnswer, AllApart, issue_rr-ApartFrom, issue_spoofed_rr-ApartFrom,
}
use reverse_traceroute_publi.Runner.Measure.Traces.{
  FromCluster, IsTrace, StreamInRange, intersecting_tr-FromCluster, issue_traceroute-IsTrace,
}
use reverse_traceroute_publi.Runner.Steps.{tr_to_source}
use reverse_traceroute_publi.Runner.Timestamp.Rounds.{timestamp_step}
use reverse_traceroute_publi.Runner.Timestamp.Ends.{timestamp-ends}
use reverse_traceroute_publi.Runner.Run.{exec, run}
use reverse_traceroute_publi.Runner.Post.{Post}
use reverse_traceroute_publi.Runner.Graph.{Follows}
use reverse_traceroute_publi.Runner.Ending.{RunEnds, exec-Follows, run-RunEnds}
use reverse_traceroute_publi.Runner.Samples.{
  dst_address, via_address, src_address, known_path, sample_opts, running,
}

exec-Follows_example :
    Post Unit
      (Follows sample_env tr_to_source)
      (exec (sample_opts (known_path ∷ [])) 3 tr_to_source running)
exec-Follows_example = exec-Follows (sample_opts (known_path ∷ [])) 3 tr_to_source running

run-RunEnds_example :
    Post Unit
      (RunEnds (sample_opts (known_path ∷ [])))
      (run (sample_opts (known_path ∷ [])) 3 5 running)
run-RunEnds_example = run-RunEnds (sample_opts (known_path ∷ [])) 3 5 running

running_hop : revtr_last_hop running.revtr ≡ ok "1.0.0.9"
unfolding revtr_last_hop reverse_traceroute_publi.Revtr.top
    reverse_traceroute_publi.Revtr.create_reverse_traceroute
    reverse_traceroute_publi.ReversePath.path_last_hop
    reverse_traceroute_publi.ReversePath.last_seg_of
    reverse_traceroute_publi.ReversePath.new_reverse_path
    reverse_traceroute_publi.Segment.last_hop_of
    reverse_traceroute_publi.Segment.Create.new_dst_rev_segment
running_hop = refl

few_left : length (adjs_left running.revtr "1.0.0.9") < 31
unfolding reverse_traceroute_publi.Base.lookup_or
    reverse_traceroute_publi.Revtr.create_reverse_traceroute
few_left = omega arith

timestamp-ends_example : timestamp_step (sample_opts []) 31 running ≢ hang
timestamp-ends_example =
    timestamp-ends (sample_opts []) 31 running "1.0.0.9" running_hop (omega arith) few_left

issue_rr-ApartFrom_example :
    Post ⊥
      (λ (w, rr).
        RrAnswer sample_env "1.0.0.9" rr
        × (is_private sample_env "1.0.0.9" ≡ true → (w ≡ 0) × (rr ≡ none)))
      (issue_rr (sample_opts []) "9.9.9.9" "1.0.0.9" 0)
issue_rr-ApartFrom_example = issue_rr-ApartFrom (sample_opts []) "9.9.9.9" "1.0.0.9" 0

issue_spoofed_rr-ApartFrom_example :
    Post ⊥
      (λ (w, rrs, err). AllApart sample_env "1.0.0.9" rrs)
      (issue_spoofed_rr (sample_opts []) "9.9.9.9" "1.0.0.9" ("5.5.5.5" ∷ []) 0)
issue_spoofed_rr-ApartFrom_example =
    issue_spoofed_rr-ApartFrom (sample_opts []) "9.9.9.9" "1.0.0.9" ("5.5.5.5" ∷ []) 0

sample_in_range : (srci dsti : ℕ) → StreamInRange ((sample_opts []).traceroute srci dsti 0).1
sample_in_range srci dsti = ((omega arith, (omega arith, tt)), tt)

issue_traceroute-IsTrace_example :
    Post ⊥
      (IsTrace (sample_opts []) "9.9.9.9" "1.0.0.9" 0)
      (issue_traceroute (sample_opts []) "9.9.9.9" "1.0.0.9" 0)
issue_traceroute-IsTrace_example =
    issue_traceroute-IsTrace (sample_opts []) "9.9.9.9" "1.0.0.9" 0 sample_in_range

abbrev sample_path : AtlasPath
sample_path = record { address = dst_address; hops = src_address ∷ dst_address ∷ via_address ∷ [] }

intersecting_tr-FromCluster_example :
    (tr : IntersectingTr) × (intersecting_tr sample_env.cm (some sample_path) ≡ ret tr)
    × (tr.addr ≡ int32_to_ip_string dst_address)
    × FromCluster sample_env.cm tr.addr (map int32_to_ip_string sample_path.hops) tr.hops
intersecting_tr-FromCluster_example = intersecting_tr-FromCluster sample_env.cm sample_path
