-- ===== src/Dispatch/Screen.antt =====
-- src/dispatch.rs: the screen against requests to internal addresses. The octets of an IPv4 address
-- and the segments of an IPv6 address are numbers; the predicates of std on them are written out. The
-- URL parser and the resolver are parameters.
pub mod Blocks
pub mod Sound
use simply_firewall.Prelude.{
  ℕ, ◌-◌, ◌%◌, ◌/◌, ◌+◌, ◌<◌, Bool, true, false, not, ◌&&◌, ◌||◌, Option, none, some, List, Text,
  codes, any, is_empty, if◌then◌else◌, text_eq, unwrap_or, ltb, leb, ◌==◌,
}

pub record Ipv4Addr : Type 0 where
  pub a : ℕ
  pub b : ℕ
  pub c : ℕ
  pub d : ℕ

pub record Ipv6Addr : Type 0 where
  pub s0 : ℕ
  pub s1 : ℕ
  pub s2 : ℕ
  pub s3 : ℕ
  pub s4 : ℕ
  pub s5 : ℕ
  pub s6 : ℕ
  pub s7 : ℕ

pub data IpAddr : Type 0 where
  v4 : Ipv4Addr → IpAddr
  v6 : Ipv6Addr → IpAddr

module _ (ip : Ipv4Addr) where
  abbrev is_private : Bool
  is_private =
      ip.a == 10 || (ip.a == 172 && leb 16 ip.b && leb ip.b 31) || (ip.a == 192 && ip.b == 168)

  abbrev is_link_local : Bool
  is_link_local = ip.a == 169 && ip.b == 254

  abbrev is_unspecified : Bool
  is_unspecified = ip.a == 0 && ip.b == 0 && ip.c == 0 && ip.d == 0

  abbrev is_broadcast : Bool
  is_broadcast = ip.a == 255 && ip.b == 255 && ip.c == 255 && ip.d == 255

  abbrev is_documentation : Bool
  is_documentation =
      (ip.a == 192 && ip.b == 0 && ip.c == 2)
      || (ip.a == 198 && ip.b == 51 && ip.c == 100)
      || (ip.a == 203 && ip.b == 0 && ip.c == 113)

  -- The mask `0xfe` clears the lowest bit of an octet.
  unfoldable pub is_blocked_v4 : Bool
  is_blocked_v4 =
      is_private
      || ip.a == 127
      || is_link_local
      || is_unspecified
      || is_broadcast
      || is_documentation
      || (ip.a == 100 && leb 64 ip.b && ltb ip.b 128)
      || ip.a == 0
      || (ip.a == 192 && ip.b == 0 && ip.c == 0)
      || (ip.a == 198 && ip.b - ip.b % 2 == 18)

abbrev pub is_zero_to_s4 : Ipv6Addr → Bool
is_zero_to_s4 ip = ip.s0 == 0 && ip.s1 == 0 && ip.s2 == 0 && ip.s3 == 0 && ip.s4 == 0

-- The masks `0xfe00` and `0xffc0` clear the lowest nine and six bits of a segment.
unfoldable pub is_blocked_v6 : Ipv6Addr → Bool
is_blocked_v6 ip =
    (is_zero_to_s4 ip && ip.s5 == 0 && ip.s6 == 0 && ip.s7 == 1)
    || (is_zero_to_s4 ip && ip.s5 == 0 && ip.s6 == 0 && ip.s7 == 0)
    || ip.s0 - ip.s0 % 512 == 0xfc00
    || ip.s0 - ip.s0 % 64 == 0xfe80

-- `to_ipv4_mapped`
unfoldable pub to_ipv4_mapped : Ipv6Addr → Option Ipv4Addr
to_ipv4_mapped ip =
    if is_zero_to_s4 ip && ip.s5 == 0xffff
    then some (record { a = ip.s6 / 256; b = ip.s6 % 256; c = ip.s7 / 256; d = ip.s7 % 256 })
    else none

is_blocked_mapped : Ipv6Addr → Option Ipv4Addr → Bool
unfolding is_blocked_v4 is_blocked_v6
is_blocked_mapped ip (some mapped) = is_blocked_v4 mapped
is_blocked_mapped ip none = is_blocked_v6 ip

unfoldable pub is_blocked_address : IpAddr → Bool
unfolding is_blocked_mapped to_ipv4_mapped
is_blocked_address (v4 ip) = is_blocked_v4 ip
is_blocked_address (v6 ip) = is_blocked_mapped ip (to_ipv4_mapped ip)

pub record Url : Type 0 where
  pub scheme : Text
  pub host : Option Text
  pub port_or_known_default : Option ℕ

-- The code outside the repository.
pub record Net : Type 0 where
  pub parse_url : Text → Option Url
  pub lookup_host : Text → ℕ → Option (List IpAddr)

abbrev pub no_blocked : Option (List IpAddr) → Bool
no_blocked none = false
no_blocked (some addrs) = if is_empty addrs then false else not (any is_blocked_address addrs)

module _ (net : Net) where
  screen_host : Url → Option Text → Bool
  screen_host url none = false
  screen_host url (some host) =
      no_blocked (net.lookup_host host (unwrap_or url.port_or_known_default 80))

  screen_url : Option Url → Bool
  unfolding screen_host
  screen_url none = false
  screen_url (some url) =
      if not (text_eq url.scheme (codes "http")) && not (text_eq url.scheme (codes "https"))
      then false
      else screen_host url url.host

  unfoldable pub is_url_safe : Text → (allow_private : Bool) → Bool
  unfolding screen_url
  is_url_safe url_str allow_private =
      if allow_private then true else screen_url (net.parse_url url_str)
