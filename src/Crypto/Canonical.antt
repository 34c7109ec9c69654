-- ===== src/Crypto/Canonical.antt =====
-- src/crypto.rs, `canonical_v1_payload`: the fields in what a signature covers.
use simply_firewall.Prelude.{◌≡◌, ap, sym, ◌∙◌, false, Option, some, ◌∷◌, ◌++◌, Text, any, ◌==◌}
use simply_firewall.Crypto.{canonical_v1_payload, split_once}
use simply_firewall.Crypto.RoundTrip.{split_once-append}

-- A request line's parts and a header's value have no line feed.
abbrev pub OneLine : Text → Type 0
OneLine t = any (λ c. c == 10) t ≡ false

parts_equal :
    (l r l' r' : Text) → OneLine l → OneLine l' → l ++ 10 ∷ r ≡ l' ++ 10 ∷ r' → (l ≡ l') × (r ≡ r')
parts_equal l r l' r' h h' e =
    let split : ◌≡◌ {A = Option (Text × Text)} (some (l, r)) (some (l', r')) =
      sym (split_once-append 10 l r h) ∙ ap (split_once 10) e ∙ split_once-append 10 l' r' h' in
    (cc, cc)

-- Two requests have the same canonical payload only if they have the same method, target, timestamp
-- and body, as long as the first three are single lines: no field can run into the next.
pub canonical_v1_payload_injective :
    (method target timestamp body method' target' timestamp' body' : Text)
    → OneLine method
    → OneLine target
    → OneLine timestamp
    → OneLine method'
    → OneLine target'
    → OneLine timestamp'
    → canonical_v1_payload method target timestamp body
      ≡ canonical_v1_payload method' target' timestamp' body'
    → (method ≡ method') × (target ≡ target') × (timestamp ≡ timestamp') × (body ≡ body')
unfolding canonical_v1_payload
canonical_v1_payload_injective m t s b m' t' s' b' hm ht hs hm' ht' hs' e =
    let (same_m, rest) = parts_equal m _ m' _ hm hm' e in
    let (same_t, rest') = parts_equal t _ t' _ ht ht' rest in
    let (same_s, same_b) = parts_equal s b s' b' hs hs' rest' in (same_m, same_t, same_s, same_b)
