-- ===== src/ClientIp.antt =====
-- src/config.rs: `resolve_client_ip`, the address that `bound_ips` and the audit trail see. The
-- address type, its parser and the networks belong to std and to the ipnetwork crate.
pub mod Search
pub mod Trust
use simply_firewall.Prelude.{
  Bool, not, Option, none, some, List, [], ◌∷◌, map, Text, if◌then◌else◌, any, find, filter_map,
  is_empty, trim, split, keep, unwrap_or,
}
use mathlib.Core.List.{reverse}

-- The code outside the repository.
pub record Addresses : Type 1 where
  pub IpAddr : Type 0
  pub Network : Type 0
  -- `Ipv6Addr::to_ipv4_mapped`, with `None` on a plain IPv4 address
  pub mapped : IpAddr → Option IpAddr
  pub parse : Text → Option IpAddr
  pub is_inside : IpAddr → Network → Bool

-- The two headers that the function reads, where they are present and readable.
pub record Headers : Type 0 where
  pub forwarded_for : Option Text
  pub real_ip : Option Text

module _ (a : Addresses) where
  unfoldable pub normalize_ip : a.IpAddr → a.IpAddr
  normalize_ip ip = unwrap_or (a.mapped ip) ip

  unfoldable pub is_trusted : a.IpAddr → List a.Network → Bool
  is_trusted ip trusted = any (a.is_inside ip) trusted

  -- The addresses of the chain, the nearest hop first.
  unfoldable pub hops : Text → List a.IpAddr
  unfolding normalize_ip
  hops forwarded = reverse (
      map normalize_ip
        (filter_map a.parse (keep (λ s. not (is_empty s)) (map trim (split b',' forwarded)))))

  unfoldable pub first_untrusted : Option Text → List a.Network → Option a.IpAddr
  unfolding hops is_trusted
  first_untrusted none trusted = none
  first_untrusted (some forwarded) trusted =
      find (λ ip. not (is_trusted ip trusted)) (hops forwarded)

  unfoldable pub named_by_real_ip : Option Text → Option a.IpAddr
  named_by_real_ip none = none
  named_by_real_ip (some header) = a.parse (trim header)

  -- The two `if let`s, on what the headers gave.
  unfoldable pub or_real_ip : (peer : a.IpAddr) → Option a.IpAddr → a.IpAddr
  unfolding normalize_ip
  or_real_ip peer (some real_ip) = normalize_ip real_ip
  or_real_ip peer none = peer

  unfoldable pub or_headers : (peer : a.IpAddr) → Headers → Option a.IpAddr → a.IpAddr
  unfolding or_real_ip named_by_real_ip
  or_headers peer headers (some client) = client
  or_headers peer headers none = or_real_ip peer (named_by_real_ip headers.real_ip)

  unfoldable pub resolve_client_ip : (peer : a.IpAddr) → Headers → List a.Network → a.IpAddr
  unfolding or_headers first_untrusted normalize_ip is_trusted
  resolve_client_ip peer headers trusted =
      if not (is_trusted (normalize_ip peer) trusted)
      then normalize_ip peer
      else or_headers (normalize_ip peer) headers (first_untrusted headers.forwarded_for trusted)
