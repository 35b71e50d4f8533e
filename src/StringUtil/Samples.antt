-- ===== src/StringUtil/Samples.antt =====
-- A map that is ranged over in the order of its insertions.
use mathlib.Core.List.Perm
use reverse_traceroute_publi.Base.{String, Bool, List}
use reverse_traceroute_publi.StringUtil.{IsRangeOrder}

abbrev pub keep_order : List (String × Bool) → List (String × Bool)
keep_order m = m

pub keep_order-IsRangeOrder : IsRangeOrder keep_order
keep_order-IsRangeOrder m = Perm.refl m
