-- ===== src/Warts/TracerouteShrinks.antt =====
-- How many bytes the readers of a traceroute leave (warts/traceroute.go).
use reverse_traceroute_publi.Base.{ℕ, ◌<◌, List, [], ◌∷◌, length, arith}
use reverse_traceroute_publi.Warts.Shrinks.{
  Below, Shrinks, pure-Shrinks, failed-Shrinks, bind-Shrinks, stored, test◌reads◌next◌,
  read_uint8-Shrinks, read_uint16-Shrinks, read_uint32-Shrinks, read_time_val-Shrinks,
}
use reverse_traceroute_publi.Warts.Address.{AddressRefs}
use reverse_traceroute_publi.Warts.Traceroute.{
  TracerouteFlags, flag_field, flag_fields, flags_after, read_traceroute_flags, read_traceroute,
}
use reverse_traceroute_publi.Warts.FieldShrinks.{
  get_flags-Shrinks, read_referenced_address-Shrinks, read_address-Shrinks, skip_length-Shrinks,
  read_traceroute_hops-Shrinks,
}

flag_field-Shrinks : (flag : ℕ) (tf : TracerouteFlags × AddressRefs) → Shrinks (flag_field flag tf)
unfolding flag_field
flag_field-Shrinks flag (tf, addrs) =
    test _
    reads stored _ read_uint32-Shrinks
    next test _
    reads stored _ read_uint32-Shrinks
    next test _
    reads stored _ (read_referenced_address-Shrinks addrs)
    next test _
    reads stored _ (read_referenced_address-Shrinks addrs)
    next test _
    reads stored _ read_time_val-Shrinks
    next test _
    reads stored _ read_uint8-Shrinks
    next test _
    reads stored _ read_uint8-Shrinks
    next test _
    reads stored _ read_uint8-Shrinks
    next test _
    reads stored _ read_uint8-Shrinks
    next test _
    reads stored _ read_uint8-Shrinks
    next test _
    reads stored _ read_uint8-Shrinks
    next test _
    reads stored _ read_uint16-Shrinks
    next test _
    reads stored _ read_uint16-Shrinks
    next test _
    reads stored _ read_uint16-Shrinks
    next test _
    reads stored _ read_uint8-Shrinks
    next test _
    reads stored _ read_uint8-Shrinks
    next test _
    reads stored _ read_uint8-Shrinks
    next test _
    reads stored _ read_uint8-Shrinks
    next test _
    reads stored _ read_uint16-Shrinks
    next test _
    reads stored _ read_uint8-Shrinks
    next test _
    reads stored _ read_uint8-Shrinks
    next test _
    reads stored _ read_uint8-Shrinks
    next test _
    reads stored _ read_uint16-Shrinks
    next test _
    reads stored _ read_uint8-Shrinks
    next test _
    reads stored _ read_uint8-Shrinks
    next test _
    reads stored _ (read_address-Shrinks addrs)
    next test _
    reads stored _ (read_address-Shrinks addrs)
    next test _
    reads stored _ read_uint32-Shrinks
    next failed-Shrinks

flag_fields-Shrinks :
    (flags : List ℕ) (tf : TracerouteFlags × AddressRefs) → Shrinks (flag_fields flags tf)
unfolding flag_fields
flag_fields-Shrinks [] tf = pure-Shrinks
flag_fields-Shrinks (flag ∷ flags) tf =
    bind-Shrinks (flag_field-Shrinks flag tf) (flag_fields-Shrinks flags)

flags_after-Shrinks : (first : ℕ) (addrs : AddressRefs) → Shrinks (flags_after first addrs)
unfolding flags_after
flags_after-Shrinks first addrs =
    bind-Shrinks (get_flags-Shrinks first)
      (λ flags. bind-Shrinks (skip_length-Shrinks flags) (λ l. flag_fields-Shrinks flags _))

read_traceroute_flags-Below :
    (addrs : AddressRefs) (n : ℕ) (buf : List ℕ)
    → length buf < n
    → Below n (read_traceroute_flags addrs buf)
unfolding read_traceroute_flags Below
read_traceroute_flags-Below addrs n [] h = h
read_traceroute_flags-Below addrs n (first ∷ buf) h =
    (flags_after-Shrinks first addrs).shrink n buf (omega arith)

read_traceroute_flags-Shrinks : (addrs : AddressRefs) → Shrinks (read_traceroute_flags addrs)
read_traceroute_flags-Shrinks addrs = record { shrink = read_traceroute_flags-Below addrs }

pub read_traceroute-Shrinks : Shrinks read_traceroute
unfolding read_traceroute
read_traceroute-Shrinks = bind-Shrinks (read_traceroute_flags-Shrinks _) (λ (tf, addrs).
    bind-Shrinks read_uint16-Shrinks (λ hc.
      bind-Shrinks (read_traceroute_hops-Shrinks hc addrs [])
        (λ ths. bind-Shrinks read_uint16-Shrinks (λ last. pure-Shrinks))))
