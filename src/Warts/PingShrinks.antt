-- ===== src/Warts/PingShrinks.antt =====
-- How many bytes the readers of a ping leave (warts/ping.go).
use reverse_traceroute_publi.Base.{ℕ, zero, suc, List, [], ◌∷◌}
use reverse_traceroute_publi.Warts.Shrinks.{
  Shrinks, pure-Shrinks, failed-Shrinks, bind-Shrinks, stored, test◌reads◌next◌, read-Shrinks,
  read_uint8-Shrinks, read_uint16-Shrinks, read_uint32-Shrinks, read_one-Shrinks,
  read_time_val-Shrinks,
}
use reverse_traceroute_publi.Warts.FieldShrinks.{
  get_flags-Shrinks, skip_length-Shrinks, read_address-Shrinks,
}
use reverse_traceroute_publi.Warts.Address.{AddressRefs}
use reverse_traceroute_publi.Warts.PingReply.{
  PingReplyFlags, read_ts_reply, read_time_stamps, read_addresses, read_v4_ts, read_v4_rr,
  reply_field, reply_fields, read_ping_reply_flags, read_ping_replies,
}
use reverse_traceroute_publi.Warts.Ping.{
  PingFlags, read_ping_ts, ping_field, ping_fields, read_ping_flags, read_ping,
}

read_ts_reply-Shrinks : Shrinks read_ts_reply
unfolding read_ts_reply
read_ts_reply-Shrinks =
    bind-Shrinks read_uint32-Shrinks
      (λ o. bind-Shrinks read_uint32-Shrinks (λ r. stored _ read_uint32-Shrinks))

read_time_stamps-Shrinks : (n : ℕ) → Shrinks (read_time_stamps n)
unfolding read_time_stamps
read_time_stamps-Shrinks zero = pure-Shrinks
read_time_stamps-Shrinks (suc n) =
    bind-Shrinks read_uint32-Shrinks (λ t. stored _ (read_time_stamps-Shrinks n))

read_addresses-Shrinks : (n : ℕ) (addrs : AddressRefs) → Shrinks (read_addresses n addrs)
unfolding read_addresses
read_addresses-Shrinks zero addrs = pure-Shrinks
read_addresses-Shrinks (suc n) addrs =
    bind-Shrinks (read_address-Shrinks addrs)
      (λ (a, addrs'). stored _ (read_addresses-Shrinks n addrs'))

read_v4_ts-Shrinks : (addrs : AddressRefs) → Shrinks (read_v4_ts addrs)
unfolding read_v4_ts
read_v4_ts-Shrinks addrs = bind-Shrinks read_uint8-Shrinks (λ tsc.
    bind-Shrinks read_uint8-Shrinks (λ ipc.
      bind-Shrinks (read_time_stamps-Shrinks tsc)
        (λ ts. stored _ (read_addresses-Shrinks ipc addrs))))

read_v4_rr-Shrinks : (addrs : AddressRefs) → Shrinks (read_v4_rr addrs)
unfolding read_v4_rr
read_v4_rr-Shrinks addrs =
    bind-Shrinks read_uint8-Shrinks (λ count. stored _ (read_addresses-Shrinks count addrs))

read_ping_ts-Shrinks : (addrs : AddressRefs) → Shrinks (read_ping_ts addrs)
unfolding read_ping_ts
read_ping_ts-Shrinks addrs =
    bind-Shrinks read_uint8-Shrinks (λ num. stored _ (read_addresses-Shrinks num addrs))

reply_field-Shrinks : (flag : ℕ) (pr : PingReplyFlags × AddressRefs) → Shrinks (reply_field flag pr)
unfolding reply_field
reply_field-Shrinks flag (pr, addrs) =
    test _
    reads stored _ read_uint32-Shrinks
    next test _
    reads stored _ read_uint8-Shrinks
    next test _
    reads stored _ read_uint8-Shrinks
    next test _
    reads stored _ read_uint16-Shrinks
    next test _
    reads stored _ read_uint16-Shrinks
    next test _
    reads stored _ read_uint32-Shrinks
    next test _
    reads stored _ read_uint16-Shrinks
    next test _
    reads stored _ read_uint16-Shrinks
    next test _
    reads stored _ read_uint16-Shrinks
    next test _
    reads stored _ read_uint8-Shrinks
    next test _
    reads stored _ read_uint8-Shrinks
    next test _
    reads stored _ (read_address-Shrinks addrs)
    next test _
    reads stored _ (read_v4_rr-Shrinks addrs)
    next test _
    reads stored _ (read_v4_ts-Shrinks addrs)
    next test _
    reads stored _ read_uint32-Shrinks
    next test _
    reads stored _ read_time_val-Shrinks
    next test _
    reads stored _ read_ts_reply-Shrinks
    next failed-Shrinks

reply_fields-Shrinks :
    (flags : List ℕ) (pr : PingReplyFlags × AddressRefs) → Shrinks (reply_fields flags pr)
unfolding reply_fields
reply_fields-Shrinks [] pr = pure-Shrinks
reply_fields-Shrinks (flag ∷ flags) pr =
    bind-Shrinks (reply_field-Shrinks flag pr) (reply_fields-Shrinks flags)

read_ping_reply_flags-Shrinks : (addrs : AddressRefs) → Shrinks (read_ping_reply_flags addrs)
unfolding read_ping_reply_flags
read_ping_reply_flags-Shrinks addrs = bind-Shrinks read_one-Shrinks (λ first.
    bind-Shrinks (get_flags-Shrinks first) (λ flags.
      bind-Shrinks (skip_length-Shrinks flags) (λ l. stored _ (reply_fields-Shrinks flags _))))

read_ping_replies-Shrinks :
    (count : ℕ) (addrs : AddressRefs) → Shrinks (read_ping_replies count addrs)
unfolding read_ping_replies
read_ping_replies-Shrinks zero addrs = pure-Shrinks
read_ping_replies-Shrinks (suc count) addrs =
    bind-Shrinks (read_ping_reply_flags-Shrinks addrs)
      (λ (prf, addrs'). stored _ (read_ping_replies-Shrinks count addrs'))

ping_field-Shrinks : (flag : ℕ) (fl : PingFlags × AddressRefs) → Shrinks (ping_field flag fl)
unfolding ping_field
ping_field-Shrinks flag (fl, addrs) =
    test _
    reads stored _ read_uint32-Shrinks
    next test _
    reads stored _ read_uint32-Shrinks
    next test _
    reads stored _ read_uint32-Shrinks
    next test _
    reads stored _ read_uint32-Shrinks
    next test _
    reads stored _ read_time_val-Shrinks
    next test _
    reads stored _ read_uint8-Shrinks
    next test _
    reads stored _ read_uint8-Shrinks
    next test _
    reads stored _ read_uint16-Shrinks
    next test _
    reads stored _ (read-Shrinks fl.data_length)
    next test _
    reads stored _ read_uint16-Shrinks
    next test _
    reads stored _ read_uint16-Shrinks
    next test _
    reads stored _ read_uint8-Shrinks
    next test _
    reads stored _ read_uint8-Shrinks
    next test _
    reads stored _ read_uint16-Shrinks
    next test _
    reads stored _ read_uint16-Shrinks
    next test _
    reads stored _ read_uint8-Shrinks
    next test _
    reads stored _ read_uint16-Shrinks
    next test _
    reads stored _ read_uint16-Shrinks
    next test _
    reads stored _ read_uint32-Shrinks
    next test _
    reads stored _ (read_address-Shrinks addrs)
    next test _
    reads stored _ (read_address-Shrinks addrs)
    next test _
    reads stored _ read_uint8-Shrinks
    next test _
    reads stored _ read_uint8-Shrinks
    next test _
    reads stored _ (read_ping_ts-Shrinks addrs)
    next test _
    reads stored _ read_uint16-Shrinks
    next test _
    reads stored _ read_uint16-Shrinks
    next test _
    reads stored _ read_uint8-Shrinks
    next test _
    reads stored _ read_uint32-Shrinks
    next failed-Shrinks

ping_fields-Shrinks :
    (flags : List ℕ) (fl : PingFlags × AddressRefs) → Shrinks (ping_fields flags fl)
unfolding ping_fields
ping_fields-Shrinks [] fl = pure-Shrinks
ping_fields-Shrinks (flag ∷ flags) fl =
    bind-Shrinks (ping_field-Shrinks flag fl) (ping_fields-Shrinks flags)

read_ping_flags-Shrinks : (addrs : AddressRefs) → Shrinks (read_ping_flags addrs)
unfolding read_ping_flags
read_ping_flags-Shrinks addrs = bind-Shrinks read_one-Shrinks (λ first.
    bind-Shrinks (get_flags-Shrinks first) (λ flags.
      bind-Shrinks (skip_length-Shrinks flags) (λ l. stored _ (ping_fields-Shrinks flags _))))

pub read_ping-Shrinks : Shrinks read_ping
unfolding read_ping
read_ping-Shrinks = bind-Shrinks (read_ping_flags-Shrinks _) (λ (fl, addrs).
    bind-Shrinks read_uint16-Shrinks (λ rc. stored _ (read_ping_replies-Shrinks rc addrs)))
