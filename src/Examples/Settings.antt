-- ===== src/Examples/Settings.antt =====
-- The settings at concrete variables.
use simply_firewall.Prelude.{
  ◌≡◌, refl, Option, none, some, [], ◌∷◌, Text, codes, text_eq, split, trim, if◌then◌else◌,
  parse_unsigned, ℕ,
}
use simply_firewall.Config.{Env, max_body_bytes, webhook_max_retries, webhook_workers, numeric_env}
use simply_firewall.Config.Bounds.{AreInRange, settings-AreInRange}
use simply_firewall.Config.Proxies.{
  entries_of, parse_trusted_proxies, hostname_rejection, matchers, hostname, network, classify,
  address_syntax,
}
use simply_firewall.Config.Proxies.Accepted.{IsAnswer, parse_trusted_proxies-IsAnswer}

-- Every variable has the same text.
abbrev all_set : Text → Env
all_set value name = some value

settings-AreInRange_example : AreInRange (all_set (codes "0"))
settings-AreInRange_example = settings-AreInRange (all_set (codes "0"))

none_or_limit :
    (webhook_workers (all_set (codes " 0 ")) ≡ 1)
    × (webhook_max_retries (all_set (codes "99")) ≡ 10)
unfolding webhook_workers webhook_max_retries numeric_env trim parse_unsigned
none_or_limit = (refl, refl)

-- 2 ^ 44 mebibytes wrap to nothing.
body_limit_wraps : max_body_bytes (all_set (codes "17592186044416")) ≡ 0
unfolding max_body_bytes numeric_env trim parse_unsigned
body_limit_wraps = refl

-- A network is the text `n`, an address the text `a`.
abbrev one_text : Text → Text → Option ℕ
one_text word t = if text_eq t word then some 7 else none

abbrev proxies : Text
proxies = codes "n, ,proxy-1,a"

taken :
    parse_trusted_proxies (one_text (codes "n")) (one_text (codes "a")) (λ n. n) proxies
    ≡ matchers (network 7 ∷ hostname (codes "proxy-1") ∷ network 7 ∷ [])
unfolding parse_trusted_proxies classify hostname_rejection text_eq split trim
taken = refl

parse_trusted_proxies-IsAnswer_example :
    IsAnswer
      (one_text (codes "n"))
      (one_text (codes "a"))
      (λ n. n)
      (entries_of (one_text (codes "n")) (one_text (codes "a")) (λ n. n) (codes "n,10.0.0.0/33"))
      (parse_trusted_proxies
        (one_text (codes "n"))
        (one_text (codes "a"))
        (λ n. n)
        (codes "n,10.0.0.0/33"))
parse_trusted_proxies-IsAnswer_example =
    parse_trusted_proxies-IsAnswer (one_text (codes "n")) (one_text (codes "a")) (λ n. n)
      (codes "n,10.0.0.0/33")

hostname_runs : hostname_rejection (codes "10.0.0.0/33") ≡ some address_syntax
unfolding hostname_rejection
hostname_runs = refl
