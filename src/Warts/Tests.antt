-- ===== src/Warts/Tests.antt =====
-- Runs of the warts module on small inputs.
use reverse_traceroute_publi.Base.{ℕ, ◌≡◌, arith, refl, ◌≢◌, [], ◌∷◌, List}
use reverse_traceroute_publi.Warts.Reader.{
  and_then, read, be_number, when◌run◌otherwise◌, get_string, wrapped, isset, read_uint16, Reading,
  got, failed, bad,
}
use reverse_traceroute_publi.Warts.Records.{
  read_header, check_magic, read_list_flags, after_list_flag, read_texts, after_description,
  read_monitor, after_monitor, WartsList, read_list,
}
use reverse_traceroute_publi.Warts.Address.{no_address, new_address_refs, add}
use reverse_traceroute_publi.Warts.Ping.{read_ping_ts, strings_loop, strings}
use reverse_traceroute_publi.Base.{any}
use reverse_traceroute_publi.Warts.Parse.{
  parse_loop, after_record, parse_next, by_type, is_wanted, with_object, get_warts_t, Object,
  objects, out_of_fuel, parse,
}
use reverse_traceroute_publi.Warts.ParseEnds.{parse-ends}
use reverse_traceroute_publi.Warts.Icmp.{IcmpExtension, extensions_loop}
use reverse_traceroute_publi.Warts.RoundTrip.{write_list, read_list-write_list}

abbrev list : WartsList
list = record {
  list_id = 1;
  c_list_id = 70000;
  list_name = 100 ∷ 101 ∷ [];
  p_length = 5;
  description = 104 ∷ [];
  monitor_name = 109 ∷ 110 ∷ [];
}

read_list-write_list_example : read_list (write_list list (7 ∷ [])) ≡ got list (7 ∷ [])
read_list-write_list_example =
    read_list-write_list list (7 ∷ []) (omega arith, (omega arith, tt)) (omega arith, tt)
      (omega arith, (omega arith, tt))

-- An extension of two bytes, of class 3 and type 4, and a byte behind it.
abbrev extension_bytes : List ℕ
extension_bytes = 0 ∷ 2 ∷ 3 ∷ 4 ∷ 8 ∷ 9 ∷ 7 ∷ []

abbrev extension : IcmpExtension
extension = record { ext_length = 2; class_number = 3; type_number = 4; ext_data = 8 ∷ 9 ∷ [] }

extensions_read : extensions_loop 8 6 0 [] extension_bytes ≡ got (extension ∷ []) (7 ∷ [])
unfolding extensions_loop reverse_traceroute_publi.Warts.Reader.and_then
    reverse_traceroute_publi.Warts.Icmp.read_icmp_extension
    reverse_traceroute_publi.Warts.Reader.read_uint16 reverse_traceroute_publi.Warts.Reader.wrapped
    reverse_traceroute_publi.Warts.Reader.read reverse_traceroute_publi.Warts.Reader.read_uint8
    reverse_traceroute_publi.Warts.Reader.be_number
extensions_read = refl

-- A file with that list.
abbrev file : List ℕ
file = 18 ∷ 5 ∷ 0 ∷ 1 ∷ 0 ∷ 0 ∷ 0 ∷ 9 ∷ write_list list []

file_parsed : parse file (1 ∷ []) ≡ objects (Object.warts_list list ∷ [])
unfolding parse parse_loop after_record parse_next and_then read_header read check_magic be_number
    by_type when◌run◌otherwise◌ read_list get_string read_list_flags wrapped after_list_flag isset
    read_uint16 read_texts after_description read_monitor after_monitor any is_wanted with_object
    get_warts_t
file_parsed = refl

parse-ends_example : parse file (1 ∷ 6 ∷ []) ≢ out_of_fuel
parse-ends_example = parse-ends file (1 ∷ 6 ∷ [])

-- The addresses of a timestamp option stand behind as many that are zero.
abbrev ts_bytes : List ℕ
ts_bytes = 1 ∷ 4 ∷ 1 ∷ 9 ∷ 9 ∷ 9 ∷ 9 ∷ []

ts_padded :
    read_ping_ts new_address_refs ts_bytes
    ≡ got
        (
          no_address ∷ record { type = 1; address = 151587081 } ∷ [],
          add new_address_refs (record { type = 1; address = 151587081 }),
        )
        []
unfolding read_ping_ts reverse_traceroute_publi.Warts.Reader.and_then
    reverse_traceroute_publi.Warts.Reader.read_uint8 reverse_traceroute_publi.Warts.Reader.wrapped
    reverse_traceroute_publi.Warts.Reader.read
    reverse_traceroute_publi.Warts.PingReply.read_addresses
    reverse_traceroute_publi.Warts.Reader.be_number
    reverse_traceroute_publi.Warts.Address.read_address
    reverse_traceroute_publi.Warts.Reader.slice_to_uint64
ts_padded = refl

pf_strings : strings 41 ≡ "v4rr" ∷ "tsonly" ∷ "icmpsum" ∷ []
unfolding strings strings_loop isset
pf_strings = refl
