-- ===== src/Router/Tests.antt =====
-- A tool that is asked for and closed.
use reverse_traceroute_publi.Base.{ℕ, suc, ◌<◌, ◌^◌, ◌≡◌, refl, Option, some, [], ◌∷◌, arith}
use reverse_traceroute_publi.Router.{ServiceDef, MtCache, planet_lab_service, get_mt, service_key}
use reverse_traceroute_publi.Router.Counts.{Back, close-get_mt, users}

-- A tool is its number, and the world counts the tools that were made.
abbrev make : ServiceDef → ℕ → ℕ × Option ℕ
make s w = (suc w, some w)

abbrev keep_open : ℕ → ℕ → ℕ
keep_open m w = w

abbrev cache : MtCache ℕ
cache = (service_key planet_lab_service, record { mt = 3; ref_count = 2 }) ∷ []

two_users : users cache (service_key planet_lab_service) ≡ 2
unfolding service_key reverse_traceroute_publi.Base.lookup
    reverse_traceroute_publi.Controller.Numbers.digits reverse_traceroute_publi.IpUtil.digit_text
two_users = refl

made_three : (get_mt make planet_lab_service cache 4).2 ≡ some 3
unfolding get_mt reverse_traceroute_publi.Base.lookup service_key
    reverse_traceroute_publi.Controller.Numbers.digits reverse_traceroute_publi.IpUtil.digit_text
made_three = refl

close-get_mt_example :
    Back make keep_open planet_lab_service cache (get_mt make planet_lab_service cache 4) 3
close-get_mt_example =
    close-get_mt make keep_open planet_lab_service cache 4 3 (omega (arith, two_users)) made_three
