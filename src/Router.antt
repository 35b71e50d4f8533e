-- ===== src/Router.antt =====
-- router/router.go and Close of router/plcmt.go: the measurement tools that are open, counted by their users.
-- `M` is a measurement tool. What gRPC does with the connection of a tool is a parameter.
pub mod Counts
mod Tests
use reverse_traceroute_publi.Base.{
  ℕ, ◌+◌, ◌-◌, ◌%◌, ◌^◌, String, Bool, Option, none, some, List, [], ◌∷◌, ◌++◌, if◌then◌else◌, ◌==◌,
  text_append, lookup, insert,
}
use reverse_traceroute_publi.Controller.Numbers.{decimal}

pub record ServiceDef : Type 0 where
  pub addr : String
  pub port : String
  pub service : ℕ

abbrev pub planet_lab : ℕ
planet_lab = 1

-- ServiceDef.key.
unfoldable pub service_key : ServiceDef → String
service_key sd =
    text_append sd.addr
      (text_append ":" (text_append sd.port (text_append ":" (decimal sd.service))))

-- source: the one service that there is.
abbrev pub planet_lab_service : ServiceDef
planet_lab_service = record {
  addr = "plcontroller.revtr.ccs.neu.edu";
  port = "4380";
  service = planet_lab;
}

unfoldable pub source_get : String → ServiceDef
source_get dst = planet_lab_service

unfoldable pub source_all : List ServiceDef
source_all = planet_lab_service ∷ []

pub record MtCacheItem (M : Type 0) : Type 0 where
  pub mt : M
  pub ref_count : ℕ

abbrev pub MtCache : Type 0 → Type 0
MtCache M = List (String × MtCacheItem M)

-- A call may change the world `W`; `none` is an error.
module _ {W M : Type 0} (create_plmt : ServiceDef → W → W × Option M) where
  unfoldable pub create : ServiceDef → W → W × Option M
  create s w = if s.service == planet_lab then create_plmt s w else (w, none)

  unfoldable pub get_mt : ServiceDef → MtCache M → W → W × MtCache M × Option M
  get_mt s cache w =
      let (w1, made) = create s w in
      elim (lookup cache (service_key s)) [
        | some item ↦ (
          w,
          insert cache (service_key s) (record item { ref_count = (item.ref_count + 1) % 2 ^ 32 }),
          some item.mt,
        )
        | none ↦ elim made [
          | none ↦ (w1, cache, none)
          | some mt ↦
              (w1, insert cache (service_key s) (record { mt = mt; ref_count = 1 }), some mt)
        ]
      ]

  unfoldable pub all_loop : List ServiceDef → MtCache M → W → W × MtCache M × List M
  all_loop [] cache w = (w, cache, [])
  all_loop (s ∷ services) cache w =
      let (w1, cache1, mt) = get_mt s cache w in
      let (w2, cache2, rest) = all_loop services cache1 w1 in
      elim mt [ none ↦ (w2, cache2, rest) | some m ↦ (w2, cache2, m ∷ rest) ]

  -- Router.All.
  unfoldable pub all : List ServiceDef → MtCache M → W → W × MtCache M × List M
  all services cache w = all_loop services cache w

-- plmt.Close of a tool for the service; `close_conn` closes its connection.
unfoldable pub close : {W M : Type 0} → (M → W → W) → ServiceDef → M → MtCache M → W → W × MtCache M
close close_conn s mt cache w = elim (lookup cache (service_key s)) [
  | none ↦ (close_conn mt w, cache)
  | some item ↦ (
    w,
    insert cache (service_key s)
        (record item { ref_count = (item.ref_count + (2 ^ 32 - 1)) % 2 ^ 32 }),
  )
]
