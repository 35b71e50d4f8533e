-- ===== src/Warts.antt =====
-- warts: the readers of the warts format.
pub mod Reader
pub mod Flags
pub mod Address
pub mod Records
pub mod Icmp
pub mod Hop
pub mod Traceroute
pub mod PingReply
pub mod Ping
pub mod Parse
pub mod RoundTrip
pub mod Shrinks
pub mod FieldShrinks
pub mod TracerouteShrinks
pub mod PingShrinks
pub mod ParseEnds
pub mod Fuel
pub mod Tests
