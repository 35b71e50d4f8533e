-- ===== src/Runner/Samples.antt =====
-- A network where the atlas knows a path from 1.0.0.9 to 9.9.9.9, and a traceroute that is run.
use reverse_traceroute_publi.Base.{ℕ, suc, false, some, List, [], ◌∷◌, ltb}
use reverse_traceroute_publi.Revtr.Externs.{VpSource, AdjacencySource, AdjacencyToDest, Adjacency}
use reverse_traceroute_publi.Revtr.Samples.{sample_env, fresh}
use reverse_traceroute_publi.Runner.Network.{
  received, Ping, Trace, IntersectionResponse, ResponseType, Options, Running, no_reason,
}

-- 1.0.0.9, 1.0.0.7 and 9.9.9.9.
abbrev pub dst_address : ℕ
dst_address = 16777225

abbrev pub via_address : ℕ
via_address = 16777223

abbrev pub src_address : ℕ
src_address = 151587081

abbrev pub sample_vps : VpSource
sample_vps = record { get_rr_spoofers = λ dst. some []; get_ts_spoofers = some [] }

-- The destination has one adjacent.
abbrev pub sample_adjacencies : AdjacencySource
sample_adjacencies = record {
  get_adjacencies_by_ip1 =
      λ ip. some (record { ip1 = dst_address; ip2 = via_address; cnt = 1 } ∷ []);
  get_adjacencies_by_ip2 = λ ip. some [];
  get_adjacency_to_dest = λ dest24 address. some [];
  sort_to_dest = λ (l : List AdjacencyToDest). l;
  sort_adjacencies = λ (l : List Adjacency). l;
}

abbrev pub known_path : IntersectionResponse
known_path = record {
  type = ResponseType.path;
  token = 0;
  path = some (record {
    address = dst_address;
    hops = src_address ∷ dst_address ∷ via_address ∷ src_address ∷ [];
  });
}

-- A record-route answer that passes the destination and 1.0.0.7.
abbrev pub rr_ping : Ping
rr_ping = record {
  src = src_address;
  dst = dst_address;
  spoofed_from = 0;
  responses = record { rr = dst_address ∷ via_address ∷ src_address ∷ []; tsandaddr = [] } ∷ [];
}

abbrev pub sample_trace : Trace
sample_trace = record {
  dst = dst_address;
  error = false;
  hops =
      record { addr = via_address; probe_ttl = 1 }
      ∷ record { addr = dst_address; probe_ttl = 2 }
      ∷ [];
}

-- The world counts the calls; `known` is what the atlas answers.
abbrev pub sample_opts : List IntersectionResponse → Options ℕ
sample_opts known = record {
  env = sample_env;
  vps = sample_vps;
  adjacencies = sample_adjacencies;
  ping = λ pings w. (suc w, received (rr_ping ∷ []) false);
  traceroute = λ src dst w. (suc w, received (sample_trace ∷ []) false);
  get_intersecting_path = λ requests w. (suc w, received known false);
  get_paths_with_token = λ requests w. (suc w, received [] false);
  is_done = λ w. (w, ltb 20 w);
  order = λ l. l;
}

abbrev pub running : Running ℕ
running = record {
  world = 0;
  revtr = record fresh { backoff_endhost = false };
  tokens = [];
  ts_dst_to_stamps_zero = [];
  ts_src_to_hop_to_send_spoofed = [];
  fail_reason = no_reason;
}
