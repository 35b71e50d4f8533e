-- ===== src/Warts/Records.antt =====
-- warts/header.go, list.go and cycle.go: headers, lists, and the start and the stop of a cycle.
use reverse_traceroute_publi.Base.{
  ℕ, Bool, true, false, not, ◌&&◌, List, [], take, drop, if◌then◌else◌, ◌==◌,
}
use reverse_traceroute_publi.Warts.Reader.{
  Reader, Reading, got, failed, bad, pure, and_then, ◌>>=◌, read, wrapped, be_number, read_uint16,
  read_uint32, get_string, isset,
}

pub record Header : Type 0 where
  pub magic : ℕ
  pub type : ℕ
  pub header_length : ℕ

abbrev pub warts_magic : ℕ
warts_magic = 0x1205

-- The numbers at the places of the bytes.
abbrev pub number_at : ℕ → ℕ → List ℕ → ℕ
number_at from n bs = be_number 0 (take n (drop from bs))

unfoldable pub check_magic : List ℕ → Reader Header
check_magic bytes =
    if number_at 0 2 bytes == warts_magic
    then pure (record {
      magic = number_at 0 2 bytes;
      type = number_at 2 2 bytes;
      header_length = number_at 4 4 bytes;
    })
    else failed bad

unfoldable pub read_header : Reader Header
read_header = read 8 >>= check_magic

pub record ListFlags : Type 0 where
  pub flags_length : ℕ
  pub description : List ℕ
  pub monitor_name : List ℕ

abbrev pub no_list_flags : ListFlags
no_list_flags = record { flags_length = 0; description = []; monitor_name = [] }

-- An error at a text ends the flags, and is dropped.
unfoldable pub after_monitor : ListFlags → Reading (List ℕ) → Reading ListFlags
after_monitor lf (got mon rest) = got (record lf { monitor_name = mon }) rest
after_monitor lf (failed e rest) = got lf rest

unfoldable pub read_monitor : Bool → ListFlags → Reader ListFlags
read_monitor false lf buf = got lf buf
read_monitor true lf buf = after_monitor lf (get_string [] buf)

unfoldable pub after_description : Bool → ListFlags → Reading (List ℕ) → Reading ListFlags
after_description mon_is_set lf (got desc rest) =
    read_monitor mon_is_set (record lf { description = desc }) rest
after_description mon_is_set lf (failed e rest) = got lf rest

unfoldable pub read_texts : Bool → Bool → ListFlags → Reader ListFlags
read_texts false mon_is_set lf buf = read_monitor mon_is_set lf buf
read_texts true mon_is_set lf buf = after_description mon_is_set lf (get_string [] buf)

unfoldable pub after_list_flag : ℕ → Reader ListFlags
after_list_flag flag =
    if not (isset flag 1) && not (isset flag 2)
    then pure no_list_flags
    else (read_uint16 >>= λ l.
        read_texts (isset flag 1) (isset flag 2) (record no_list_flags { flags_length = l }))

unfoldable pub read_list_flags : Reader ListFlags
read_list_flags buf = and_then (wrapped (read 1 buf)) (λ first. after_list_flag (be_number 0 first))

pub record WartsList : Type 0 where
  pub list_id : ℕ
  pub c_list_id : ℕ
  pub list_name : List ℕ
  pub p_length : ℕ
  pub description : List ℕ
  pub monitor_name : List ℕ

abbrev pub list_of : List ℕ → List ℕ → ListFlags → WartsList
list_of ids name flags = record {
  list_id = number_at 0 4 ids;
  c_list_id = number_at 4 4 ids;
  list_name = name;
  p_length = flags.flags_length;
  description = flags.description;
  monitor_name = flags.monitor_name;
}

unfoldable pub read_list : Reader WartsList
read_list = read 8 >>= λ ids.
    get_string [] >>= λ name. read_list_flags >>= λ flags. pure (list_of ids name flags)

pub record CycleStartFlags : Type 0 where
  pub flags_length : ℕ
  pub stop_time : ℕ
  pub hostname : List ℕ

abbrev pub no_cycle_flags : CycleStartFlags
no_cycle_flags = record { flags_length = 0; stop_time = 0; hostname = [] }

unfoldable pub read_stop_time : Bool → CycleStartFlags → Reader CycleStartFlags
read_stop_time false csf = pure csf
read_stop_time true csf = read_uint32 >>= λ n. pure (record csf { stop_time = n })

unfoldable pub read_hostname : Bool → CycleStartFlags → Reader CycleStartFlags
read_hostname false csf = pure csf
read_hostname true csf = get_string [] >>= λ hn. pure (record csf { hostname = hn })

unfoldable pub after_cycle_flag : ℕ → Reader CycleStartFlags
after_cycle_flag flag =
    if not (isset flag 1) && not (isset flag 2)
    then pure no_cycle_flags
    else (read_uint16 >>= λ l.
        read_stop_time (isset flag 1) (record no_cycle_flags { flags_length = l }) >>= λ csf.
        read_hostname (isset flag 2) csf)

unfoldable pub read_cycle_start_flags : Reader CycleStartFlags
read_cycle_start_flags buf =
    and_then (wrapped (read 1 buf)) (λ first. after_cycle_flag (be_number 0 first))

pub record CycleStart : Type 0 where
  pub cycle_id : ℕ
  pub list_id : ℕ
  pub c_cycle_id : ℕ
  pub start_time : ℕ
  pub p_length : ℕ
  pub stop_time : ℕ
  pub hostname : List ℕ

unfoldable pub read_cycle : Reader CycleStart
read_cycle = read 16 >>= λ ids. read_cycle_start_flags >>= λ fl. pure (record {
  cycle_id = number_at 0 4 ids;
  list_id = number_at 4 4 ids;
  c_cycle_id = number_at 8 4 ids;
  start_time = number_at 12 4 ids;
  p_length = fl.flags_length;
  stop_time = fl.stop_time;
  hostname = fl.hostname;
})

pub record CycleStop : Type 0 where
  pub cycle_id : ℕ
  pub stop_time : ℕ

-- A byte of flags is read, and nothing of it is used.
unfoldable pub read_cycle_stop : Reader CycleStop
read_cycle_stop = read 8 >>= λ ids. read 1 >>= λ first.
    pure (record { cycle_id = number_at 0 4 ids; stop_time = number_at 4 4 ids })
