-- ===== src/Warts/Icmp.antt =====
-- warts/traceroute.go: the ICMP extensions of a hop. Their loop runs on fuel, the number of bytes left
-- plus one.
use reverse_traceroute_publi.Base.{
  ℕ, zero, suc, ◌+◌, ◌%◌, ◌^◌, List, [], ◌∷◌, ◌++◌, length, if◌then◌else◌, ltb,
}
use reverse_traceroute_publi.Warts.Reader.{
  Reader, got, failed, bad, pure, and_then, ◌>>=◌, read_uint8, read_uint16, read_bytes,
}

pub record IcmpExtension : Type 0 where
  pub ext_length : ℕ
  pub class_number : ℕ
  pub type_number : ℕ
  pub ext_data : List ℕ

unfoldable pub read_icmp_extension : Reader IcmpExtension
read_icmp_extension = read_uint16 >>= λ l. read_uint8 >>= λ class. read_uint8 >>= λ typen.
    read_bytes l >>= λ bs.
    pure (record { ext_length = l; class_number = class; type_number = typen; ext_data = bs })

pub record IcmpExtensionList : Type 0 where
  pub list_length : ℕ
  pub extensions : List IcmpExtension

-- The loop over `i`, a number of 16 bits.
unfoldable pub extensions_loop : ℕ → ℕ → ℕ → List IcmpExtension → Reader (List IcmpExtension)
extensions_loop zero l i exts buf = failed bad buf
extensions_loop (suc fuel) l i exts buf =
    let more =
      and_then (read_icmp_extension buf)
        (λ ext. extensions_loop fuel l ((i + (ext.ext_length + 4)) % 2 ^ 16) (exts ++ ext ∷ [])) in
    if ltb i l then more else got exts buf

unfoldable pub read_icmp_extension_list : Reader IcmpExtensionList
read_icmp_extension_list buf = and_then (read_uint16 buf) (λ l rest.
    and_then (extensions_loop (suc (length rest)) l 0 [] rest)
      (λ exts. pure (record { list_length = l; extensions = exts })))
