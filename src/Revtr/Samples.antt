-- ===== src/Revtr/Samples.antt =====
-- A reverse traceroute from 9.9.9.9 to 1.0.0.9, and an environment that keeps every order.
use mathlib.Core.List.{Perm}
use mathlib.Core.List.Perm
use reverse_traceroute_publi.Base.{String, true, none, List, [], ◌∷◌}
use reverse_traceroute_publi.StringUtil.Samples.{keep_order}
use reverse_traceroute_publi.Segment.{Segment, Kind}
use reverse_traceroute_publi.ReversePath.{ReversePath}
use reverse_traceroute_publi.Revtr.{Revtr, Callbacks, create_reverse_traceroute}
use reverse_traceroute_publi.Revtr.Externs.{Env}

abbrev pub keep_segments : List Segment → List Segment
keep_segments l = l

pub keep_segments-Perm : (l : List Segment) → Perm (keep_segments l) l
keep_segments-Perm l = Perm.refl l

abbrev pub sample_env : Env
sample_env = record {
  is_global_unicast = λ h. true;
  cm = λ h. h;
  order = keep_order;
  sort = keep_segments;
  parse_ipv6 = λ s. none;
}

abbrev pub all_set : Callbacks
all_set = record { has_on_add = true; has_on_reach = true; has_on_fail = true }

abbrev pub fresh : Revtr
fresh = create_reverse_traceroute sample_env all_set true "9.9.9.9" "1.0.0.9"

abbrev pub sample_segment : Kind → List String → Segment
sample_segment kind segment = record {
  kind = kind;
  rev = record { segment = segment; src = "9.9.9.9"; hop = "1.0.0.9" };
}

abbrev pub first_path : ReversePath
first_path = record {
  src = "9.9.9.9";
  dst = "1.0.0.9";
  path = sample_segment Kind.dst_rev_segment ("1.0.0.9" ∷ []) ∷ [];
}
