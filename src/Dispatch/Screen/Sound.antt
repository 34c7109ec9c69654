-- ===== src/Dispatch/Screen/Sound.antt =====
-- src/dispatch.rs: `is_url_safe`, without the allowance for private networks.
use simply_firewall.Prelude.{
  ◌≡◌, ◌⊎◌, refl, inl, inr, true, false, not, ◌&&◌, Option, none, some, List, [], ◌∷◌, Text, codes,
  any, All, text_eq, text_eq_iff, unwrap_or, arith, Bool-cases,
}
use simply_firewall.Dispatch.Screen.{
  IpAddr, is_blocked_address, Url, Net, no_blocked, screen_host, screen_url, is_url_safe,
}

-- There is a host to connect to, and none of its addresses is blocked.
pub record IsScreened (net : Net) (url_str : Text) : Type 0 where
  pub url : Url
  pub host : Text
  pub first : IpAddr
  pub rest : List IpAddr
  pub parses : net.parse_url url_str ≡ some url
  pub is_http : (url.scheme ≡ codes "http") ⊎ (url.scheme ≡ codes "https")
  pub has_host : url.host ≡ some host
  pub resolves : net.lookup_host host (unwrap_or url.port_or_known_default 80) ≡ some (first ∷ rest)
  pub all_allowed : All (λ ip. is_blocked_address ip ≡ false) (first ∷ rest)

any-All :
    (ips : List IpAddr)
    → any is_blocked_address ips ≡ false
    → All (λ ip. is_blocked_address ip ≡ false) ips
any-All [] h = tt
any-All (ip ∷ ips) h = ground (arith, any-All ips)

module _ (net : Net) (url_str : Text) where
  addresses-IsScreened :
      (url : Url) (host : Text) (x : Option (List IpAddr))
      → net.parse_url url_str ≡ some url
      → (url.scheme ≡ codes "http") ⊎ (url.scheme ≡ codes "https")
      → url.host ≡ some host
      → net.lookup_host host (unwrap_or url.port_or_known_default 80) ≡ x
      → no_blocked x ≡ true
      → IsScreened net url_str
  addresses-IsScreened url host none p s q e h = absurd cc
  addresses-IsScreened url host (some []) p s q e h = absurd cc
  addresses-IsScreened url host (some (ip ∷ ips)) p s q e h = record {
    url = url;
    host = host;
    first = ip;
    rest = ips;
    parses = p;
    is_http = s;
    has_host = q;
    resolves = e;
    all_allowed = any-All (ip ∷ ips) (ground arith);
  }

  host-IsScreened :
      (url : Url) (x : Option Text)
      → net.parse_url url_str ≡ some url
      → (url.scheme ≡ codes "http") ⊎ (url.scheme ≡ codes "https")
      → url.host ≡ x
      → screen_host net url x ≡ true
      → IsScreened net url_str
  unfolding screen_host
  host-IsScreened url none p s q h = absurd cc
  host-IsScreened url (some host) p s q h = addresses-IsScreened url host _ p s q refl h

  url-IsScreened :
      (x : Option Url)
      → net.parse_url url_str ≡ x
      → screen_url net x ≡ true
      → IsScreened net url_str
  unfolding screen_url
  url-IsScreened none p h = absurd cc
  url-IsScreened (some url) p h =
      elim (Bool-cases
        (not (text_eq url.scheme (codes "http")) && not (text_eq url.scheme (codes "https")))) [
          | inl e ↦ absurd ground (arith, e, h)
          | inr e ↦
              host-IsScreened url url.host p
                (ground (
                  arith,
                  e,
                  text_eq_iff url.scheme (codes "http"),
                  text_eq_iff url.scheme (codes "https"),
                ))
                refl (ground (arith, e, h))
        ]

  -- A URL passes the screen only if it parses, its scheme is http or https, and its host resolves to
  -- at least one address, none of which, not only the first, is blocked.
  pub is_url_safe-IsScreened : is_url_safe net url_str false ≡ true → IsScreened net url_str
  unfolding is_url_safe
  is_url_safe-IsScreened h = url-IsScreened (net.parse_url url_str) refl h
