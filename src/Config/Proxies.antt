-- ===== src/Config/Proxies.antt =====
-- src/config.rs: the entries of `TRUSTED_PROXIES`. The parsers of `IpNetwork` and `IpAddr` are
-- parameters.
pub mod Accepted
use simply_firewall.Prelude.{
  ℕ, Bool, true, false, not, ◌&&◌, ◌||◌, Option, none, some, List, [], ◌∷◌, ◌++◌, Text, trim, split,
  keep, map, all, any, is_empty, length, if◌then◌else◌, ltb, ◌==◌, ◌⊎◌, inl, inr, ◌≡◌, refl, All,
  Member, arith, ◌≤◌, ◌↔◌,
}
use simply_firewall.Config.{is_ascii_digit, is_ascii_alphanumeric}

pub data Rejection : Type 0 where
  empty too_long address_syntax edges digits_and_dots bad_characters : Rejection

unfoldable pub last_of : ℕ → Text → ℕ
last_of c [] = c
last_of c (d ∷ s) = last_of d s

edges_are_alphanumeric : Text → Bool
unfolding last_of
edges_are_alphanumeric [] = false
edges_are_alphanumeric (c ∷ s) = is_ascii_alphanumeric c && is_ascii_alphanumeric (last_of c s)

abbrev is_dns_character : ℕ → Bool
is_dns_character c = is_ascii_alphanumeric c || c == b'-' || c == b'.' || c == b'_'

unfoldable pub hostname_rejection : Text → Option Rejection
unfolding edges_are_alphanumeric
hostname_rejection entry =
    if is_empty entry
    then some empty
    else if ltb 253 (length entry)
    then some too_long
    else if any (λ c. c == b'/') entry || any (λ c. c == b':') entry
    then some address_syntax
    else if not (edges_are_alphanumeric entry)
    then some edges
    else if all (λ c. is_ascii_digit c || c == b'.') entry
    then some digits_and_dots
    else if not (all is_dns_character entry)
    then some bad_characters
    else none

module _ (Network : Type 0) where
  pub data ProxyMatcher : Type 0 where
    network : Network → ProxyMatcher
    hostname : Text → ProxyMatcher

  pub data Parsed : Type 0 where
    matchers : List ProxyMatcher → Parsed
    invalid_entries : List (Text × Rejection) → Parsed

module _ {Network IpAddr : Type 0} (parse_network : Text → Option Network)
    (parse_address : Text → Option IpAddr) (of_address : IpAddr → Network) where
  or_hostname : Text → Option Rejection → ProxyMatcher Network ⊎ (Text × Rejection)
  or_hostname entry none = inl (hostname entry)
  or_hostname entry (some reason) = inr (entry, reason)

  or_address : Text → Option IpAddr → ProxyMatcher Network ⊎ (Text × Rejection)
  unfolding or_hostname hostname_rejection
  or_address entry (some addr) = inl (network (of_address addr))
  or_address entry none = or_hostname entry (hostname_rejection entry)

  or_network : Text → Option Network → ProxyMatcher Network ⊎ (Text × Rejection)
  unfolding or_address
  or_network entry (some net) = inl (network net)
  or_network entry none = or_address entry (parse_address entry)

  -- Where the loop pushes an entry.
  unfoldable pub classify : Text → ProxyMatcher Network ⊎ (Text × Rejection)
  unfolding or_network
  classify entry = or_network entry (parse_network entry)

  push :
      ProxyMatcher Network ⊎ (Text × Rejection)
      → List (ProxyMatcher Network) × List (Text × Rejection)
      → List (ProxyMatcher Network) × List (Text × Rejection)
  push (inl matcher) (ms, is) = (matcher ∷ ms, is)
  push (inr bad) (ms, is) = (ms, bad ∷ is)

  -- The two vectors after the loop.
  sorted : List Text → List (ProxyMatcher Network) × List (Text × Rejection)
  unfolding push
  sorted [] = ([], [])
  sorted (entry ∷ rest) = push (classify entry) (sorted rest)

  finish : List (ProxyMatcher Network) × List (Text × Rejection) → Parsed Network
  finish (ms, []) = matchers ms
  finish (ms, bad ∷ is) = invalid_entries (bad ∷ is)

  abbrev pub entries_of : Text → List Text
  entries_of raw = keep (λ e. not (is_empty e)) (map trim (split b',' raw))

  unfoldable pub parse_trusted_proxies : Text → Parsed Network
  unfolding sorted finish
  parse_trusted_proxies raw = finish (sorted (entries_of raw))

  -- Each entry has the matcher that stands at its place.
  abbrev pub Matches : List Text → List (ProxyMatcher Network) → Type 0
  Matches [] [] = Unit
  Matches [] (_ ∷ _) = ⊥
  Matches (_ ∷ _) [] = ⊥
  Matches (e ∷ es) (m ∷ ms) = (classify e ≡ inl m) × Matches es ms

  abbrev pub AreBad : List (Text × Rejection) → List Text → Type 0
  AreBad bad es = All (λ b. Member b.0 es × (classify b.0 ≡ inr b)) bad
