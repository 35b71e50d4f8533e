-- ===== src/Warts/Address.antt =====
-- warts/address.go: the addresses of a file, and the references to them.
use reverse_traceroute_publi.Base.{ℕ, ◌+◌, ◌%◌, ◌^◌, List, [], ◌∷◌, if◌then◌else◌, ◌==◌}
use reverse_traceroute_publi.Warts.Reader.{
  Reader, pure, ◌>>=◌, read_uint8, read_uint32, read_bytes, slice_to_uint64,
}

pub record Address : Type 0 where
  pub type : ℕ
  pub address : ℕ

abbrev pub no_address : Address
no_address = record { type = 0; address = 0 }

-- The map is a list; the last write of an id stands first.
pub record AddressRefs : Type 0 where
  pub id : ℕ
  pub addrs : List (ℕ × Address)

abbrev pub new_address_refs : AddressRefs
new_address_refs = record { id = 0; addrs = [] }

unfoldable pub add : AddressRefs → Address → AddressRefs
add ar addr = record { id = (ar.id + 1) % 2 ^ 32; addrs = (ar.id, addr) ∷ ar.addrs }

unfoldable pub get_loop : List (ℕ × Address) → ℕ → Address
get_loop [] id = no_address
get_loop ((i, a) ∷ addrs) id = if i == id then a else get_loop addrs id

abbrev pub get : AddressRefs → ℕ → Address
get ar id = get_loop ar.addrs id

unfoldable pub read_referenced_address : AddressRefs → Reader Address
read_referenced_address addrs = read_uint32 >>= λ id. pure (get addrs id)

-- A length of zero is a reference; another address is kept for later references.
unfoldable pub read_address : AddressRefs → Reader (Address × AddressRefs)
read_address addrs = read_uint8 >>= λ length.
    if length == 0
    then (read_uint32 >>= λ id. pure (get addrs id, addrs))
    else (read_uint8 >>= λ t. read_bytes length >>= λ res.
        let a : Address = record { type = t; address = slice_to_uint64 res } in
        pure (a, add addrs a))
