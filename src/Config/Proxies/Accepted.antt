-- ===== src/Config/Proxies/Accepted.antt =====
-- src/config.rs: what `TRUSTED_PROXIES` accepts.
use simply_firewall.Prelude.{
  ℕ, true, false, ◌||◌, Option, none, some, List, [], ◌∷◌, Text, all, any, length, ◌==◌, ◌⊎◌, inl,
  inr, ◌≡◌, refl, All, Member, arith, ◌≤◌, ◌↔◌, ◌≢◌, subst, sym,
}
use simply_firewall.Config.{is_ascii_digit, is_ascii_alphanumeric}
use simply_firewall.Config.Proxies.{
  Rejection, ProxyMatcher, Parsed, matchers, invalid_entries, hostname_rejection, is_dns_character,
  edges_are_alphanumeric, last_of, classify, or_network, or_address, or_hostname, push, sorted,
  finish, entries_of, parse_trusted_proxies, Matches, AreBad,
}

-- A DNS name with a letter, a dash or an underscore in it.
abbrev pub IsHostname : Text → Type 0
IsHostname [] = ⊥
IsHostname (c ∷ s) =
    (length (c ∷ s) ≤ 253)
    × (all is_dns_character (c ∷ s) ≡ true)
    × (is_ascii_alphanumeric c ≡ true)
    × (is_ascii_alphanumeric (last_of c s) ≡ true)
    × (all (λ d. is_ascii_digit d || d == b'.') (c ∷ s) ≡ false)

all-dns-no-any :
    (sep : ℕ) (s : Text)
    → is_dns_character sep ≡ false
    → all is_dns_character s ≡ true
    → any (λ c. c == sep) s ≡ false
all-dns-no-any sep [] h k = refl
all-dns-no-any sep (c ∷ s) h k = ground (arith, all-dns-no-any sep s h)

-- A name is taken for a hostname exactly if it is one: 1 to 253 bytes, all of them letters, digits,
-- dashes, dots or underscores, the first and the last a letter or a digit, and not all of them digits
-- and dots.
pub hostname_rejection_iff : (entry : Text) → (hostname_rejection entry ≡ none) ↔ IsHostname entry
unfolding hostname_rejection edges_are_alphanumeric
hostname_rejection_iff [] = ground arith
hostname_rejection_iff (c ∷ s) =
    ground (arith, all-dns-no-any b'/' (c ∷ s) refl, all-dns-no-any b':' (c ∷ s) refl)

module _ {Network IpAddr : Type 0} (parse_network : Text → Option Network)
    (parse_address : Text → Option IpAddr) (of_address : IpAddr → Network) where
  abbrev class : Text → ProxyMatcher Network ⊎ (Text × Rejection)
  class = classify parse_network parse_address of_address

  abbrev sort : List Text → List (ProxyMatcher Network) × List (Text × Rejection)
  sort = sorted parse_network parse_address of_address

  -- Every entry that is refused is reported.
  abbrev Reports : List Text → List (Text × Rejection) → Type 0
  Reports es bad = All (λ e. (b : Text × Rejection) → class e ≡ inr b → Member b bad) es

  record IsSorted (es : List Text) (x : List (ProxyMatcher Network) × List (Text × Rejection))
      : Type 0 where
    bad : AreBad parse_network parse_address of_address x.1 es
    reported : Reports es x.1
    matched : x.1 ≡ [] → Matches parse_network parse_address of_address es x.0

  AreBad-later :
      (e : Text) (es : List Text) (bad : List (Text × Rejection))
      → AreBad parse_network parse_address of_address bad es
      → AreBad parse_network parse_address of_address bad (e ∷ es)
  AreBad-later e es [] h = tt
  AreBad-later e es (b ∷ bad) ((m, c), h) = ((inr m, c), AreBad-later e es bad h)

  Reports-more :
      (b : Text × Rejection) (es : List Text) (bad : List (Text × Rejection))
      → Reports es bad
      → Reports es (b ∷ bad)
  Reports-more b [] bad h = tt
  Reports-more b (e ∷ es) bad (k, h) = ((λ c q. inr (k c q)), Reports-more b es bad h)

  -- A refusal names its entry.
  classify-name : (e : Text) (b : Text × Rejection) → class e ≡ inr b → b.0 ≡ e
  unfolding classify or_network or_address or_hostname
  classify-name e b q = network_name (parse_network e) q
    where
      host_name :
          (x : Option Rejection)
          → or_hostname parse_network parse_address of_address e x ≡ inr b
          → b.0 ≡ e
      host_name none h = absurd cc
      host_name (some reason) h = cc

      address_name :
          (x : Option IpAddr)
          → or_address parse_network parse_address of_address e x ≡ inr b
          → b.0 ≡ e
      address_name none h = host_name (hostname_rejection e) h
      address_name (some addr) h = absurd cc

      network_name :
          (x : Option Network)
          → or_network parse_network parse_address of_address e x ≡ inr b
          → b.0 ≡ e
      network_name none h = address_name (parse_address e) h
      network_name (some net) h = absurd cc

  push-IsSorted :
      (e : Text) (es : List Text) (c : ProxyMatcher Network ⊎ (Text × Rejection))
      → (x : List (ProxyMatcher Network) × List (Text × Rejection)) → class e ≡ c
      → IsSorted es x
      → IsSorted (e ∷ es) (push parse_network parse_address of_address c x)
  unfolding push
  push-IsSorted e es (inl m) (ms, bad) q h = record {
    bad = AreBad-later e es bad h.bad;
    reported = ((λ b p. absurd cc), h.reported);
    matched = λ none_bad. (q, h.matched none_bad);
  }
  push-IsSorted e es (inr b) (ms, bad) q h = record {
    bad = ((inl (classify-name e b q), class_of_name), AreBad-later e es bad h.bad);
    reported = ((λ c p. inl cc), Reports-more b es bad h.reported);
    matched = λ none_bad. absurd cc;
  }
    where
      class_of_name : class b.0 ≡ inr b
      class_of_name = subst (λ x. class x ≡ inr b) (sym (classify-name e b q)) q

  sort-IsSorted : (es : List Text) → IsSorted es (sort es)
  unfolding sorted
  sort-IsSorted [] = record { bad = tt; reported = tt; matched = λ h. tt }
  sort-IsSorted (e ∷ es) = push-IsSorted e es (class e) (sort es) refl (sort-IsSorted es)

  -- What the answer says of the list of entries.
  abbrev pub IsAnswer : List Text → Parsed Network → Type 0
  IsAnswer es (matchers ms) = Matches parse_network parse_address of_address es ms
  IsAnswer es (invalid_entries bad) =
      (bad ≢ []) × AreBad parse_network parse_address of_address bad es × Reports es bad

  finish-IsAnswer :
      (es : List Text) (x : List (ProxyMatcher Network) × List (Text × Rejection))
      → IsSorted es x
      → IsAnswer es (finish parse_network parse_address of_address x)
  unfolding finish
  finish-IsAnswer es (ms, []) h = h.matched refl
  finish-IsAnswer es (ms, bad ∷ more) h = ((λ e. absurd cc), h.bad, h.reported)

  -- `TRUSTED_PROXIES` is taken whole or not at all: either each entry that is not blank has its
  -- matcher, in the order of the entries, or none is taken, and the answer lists exactly the entries
  -- that are neither a network, nor an address, nor a hostname, each with the reason.
  pub parse_trusted_proxies-IsAnswer :
      (raw : Text)
      → IsAnswer
          (entries_of parse_network parse_address of_address raw)
          (parse_trusted_proxies parse_network parse_address of_address raw)
  unfolding parse_trusted_proxies
  parse_trusted_proxies-IsAnswer raw =
      let es = entries_of parse_network parse_address of_address raw in
      finish-IsAnswer es (sort es) (sort-IsSorted es)
