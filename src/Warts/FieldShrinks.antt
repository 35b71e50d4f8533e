-- ===== src/Warts/FieldShrinks.antt =====
-- How many bytes the readers of flags, addresses and hops leave (warts/traceroute.go).
use reverse_traceroute_publi.Base.{
  ℕ, zero, suc, ◌+◌, ◌%◌, ◌^◌, ◌<◌, Bool-cases, List, [], ◌∷◌, ◌++◌, length, arith, inl, inr, ltb,
  ◌==◌,
}
use reverse_traceroute_publi.Warts.Reader.{isset}
use reverse_traceroute_publi.Warts.Shrinks.{
  Below, Shrinks, pure-Shrinks, failed-Shrinks, bind-Shrinks, stored, test◌reads◌next◌,
  read-Shrinks, read_uint8-Shrinks, read_uint16-Shrinks, read_uint32-Shrinks, read_one-Shrinks,
  pure-Below,
}
use reverse_traceroute_publi.Warts.Flags.{flags_loop, with_byte, next_byte, get_flags}
use reverse_traceroute_publi.Warts.Address.{AddressRefs, read_address, read_referenced_address}
use reverse_traceroute_publi.Warts.Icmp.{
  IcmpExtension, extensions_loop, read_icmp_extension, read_icmp_extension_list,
}
use reverse_traceroute_publi.Warts.Hop.{
  TracerouteHop, hop_field, hop_fields, skip_length, read_traceroute_hop, read_traceroute_hops,
}

flags_loop-Below :
    (ret : List ℕ) (check byte_num n : ℕ) (buf : List ℕ)
    → length buf < n
    → Below n (flags_loop ret check byte_num buf)
unfolding flags_loop Below
flags_loop-Below ret check byte_num n [] h = elim (Bool-cases (isset check 8)) [
  | inl e ↦ rw e tt
  | inr e ↦ rw e h
]
flags_loop-Below ret check byte_num n (b ∷ buf) h =
    let more =
      flags_loop-Below (with_byte ret check byte_num) b (next_byte byte_num) n buf (omega arith) in
    elim (Bool-cases (isset check 8)) [ inl e ↦ rw e more | inr e ↦ rw e h ]

pub get_flags-Shrinks : (first : ℕ) → Shrinks (get_flags first)
unfolding get_flags
get_flags-Shrinks first = record { shrink = flags_loop-Below [] first 1 }

pub read_referenced_address-Shrinks :
    (addrs : AddressRefs) → Shrinks (read_referenced_address addrs)
unfolding read_referenced_address
read_referenced_address-Shrinks addrs = stored _ read_uint32-Shrinks

pub read_address-Shrinks : (addrs : AddressRefs) → Shrinks (read_address addrs)
unfolding read_address
read_address-Shrinks addrs = bind-Shrinks read_uint8-Shrinks (λ length.
    elim (Bool-cases (length == 0)) [
      | inl e ↦ rw e (stored _ read_uint32-Shrinks)
      | inr e ↦ rw e (
          bind-Shrinks read_uint8-Shrinks
            (λ t. bind-Shrinks (read-Shrinks length) (λ res. pure-Shrinks)))
    ])

pub skip_length-Shrinks : (flags : List ℕ) → Shrinks (skip_length flags)
unfolding skip_length
skip_length-Shrinks [] = pure-Shrinks
skip_length-Shrinks (flag ∷ flags) = read_uint16-Shrinks

read_icmp_extension-Shrinks : Shrinks read_icmp_extension
unfolding read_icmp_extension
read_icmp_extension-Shrinks = bind-Shrinks read_uint16-Shrinks (λ l.
    bind-Shrinks read_uint8-Shrinks
      (λ class. bind-Shrinks read_uint8-Shrinks (λ typen. stored _ (read-Shrinks l))))

extensions_loop-Shrinks :
    (fuel l i : ℕ) (exts : List IcmpExtension) → Shrinks (extensions_loop fuel l i exts)
unfolding extensions_loop
extensions_loop-Shrinks zero l i exts = failed-Shrinks
extensions_loop-Shrinks (suc fuel) l i exts =
    let more = bind-Shrinks read_icmp_extension-Shrinks (λ ext.
      extensions_loop-Shrinks fuel l ((i + (ext.ext_length + 4)) % 2 ^ 16) (exts ++ ext ∷ [])) in
    record {
      shrink = λ n buf h. elim (Bool-cases (ltb i l)) [
        | inl e ↦ rw e (more.shrink n buf h)
        | inr e ↦ rw e (pure-Below n _ buf h)
      ];
    }

pub read_icmp_extension_list-Shrinks : Shrinks read_icmp_extension_list
unfolding read_icmp_extension_list
read_icmp_extension_list-Shrinks = bind-Shrinks read_uint16-Shrinks (λ l. record {
  shrink = λ n rest.
      (bind-Shrinks (extensions_loop-Shrinks (suc (length rest)) l 0 [])
          (λ exts. pure-Shrinks)).shrink
        n rest;
})

hop_field-Shrinks : (flag : ℕ) (th : TracerouteHop × AddressRefs) → Shrinks (hop_field flag th)
unfolding hop_field
hop_field-Shrinks flag (th, addrs) =
    test _
    reads stored _ (read_referenced_address-Shrinks addrs)
    next test _
    reads stored _ read_uint8-Shrinks
    next test _
    reads stored _ read_uint8-Shrinks
    next test _
    reads stored _ read_uint8-Shrinks
    next test _
    reads stored _ read_uint8-Shrinks
    next test _
    reads stored _ read_uint32-Shrinks
    next test _
    reads stored _ read_uint16-Shrinks
    next test _
    reads stored _ read_uint16-Shrinks
    next test _
    reads stored _ read_uint16-Shrinks
    next test _
    reads stored _ read_uint16-Shrinks
    next test _
    reads stored _ read_uint8-Shrinks
    next test _
    reads stored _ read_uint16-Shrinks
    next test _
    reads stored _ read_uint16-Shrinks
    next test _
    reads stored _ read_uint8-Shrinks
    next test _
    reads stored _ read_uint8-Shrinks
    next test _
    reads stored _ read_uint8-Shrinks
    next test _
    reads stored _ read_icmp_extension_list-Shrinks
    next test _
    reads stored _ (read_address-Shrinks addrs)
    next failed-Shrinks

hop_fields-Shrinks :
    (flags : List ℕ) (th : TracerouteHop × AddressRefs) → Shrinks (hop_fields flags th)
unfolding hop_fields
hop_fields-Shrinks [] th = pure-Shrinks
hop_fields-Shrinks (flag ∷ flags) th =
    bind-Shrinks (hop_field-Shrinks flag th) (hop_fields-Shrinks flags)

read_traceroute_hop-Shrinks : (addrs : AddressRefs) → Shrinks (read_traceroute_hop addrs)
unfolding read_traceroute_hop
read_traceroute_hop-Shrinks addrs = bind-Shrinks read_one-Shrinks (λ first.
    bind-Shrinks (get_flags-Shrinks first)
      (λ flags. bind-Shrinks (skip_length-Shrinks flags) (λ l. hop_fields-Shrinks flags _)))

pub read_traceroute_hops-Shrinks :
    (count : ℕ) (addrs : AddressRefs) (ret : List TracerouteHop)
    → Shrinks (read_traceroute_hops count addrs ret)
unfolding read_traceroute_hops
read_traceroute_hops-Shrinks zero addrs ret = pure-Shrinks
read_traceroute_hops-Shrinks (suc count) addrs ret =
    bind-Shrinks (read_traceroute_hop-Shrinks addrs)
      (λ (th, addrs'). read_traceroute_hops-Shrinks count addrs' (ret ++ th ∷ []))
