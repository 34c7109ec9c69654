-- ===== src/Dispatch/Modes.antt =====
-- src/entities/webhook_config.rs: `AuthMode`.
use simply_firewall.Prelude.{
  ◌⊎◌, inl, inr, ℕ, zero, suc, arith, ◌==◌, sym, ap, ◌∙◌, ◌-◌, ◌≡◌, refl, Bool, true, false, ◌&&◌,
  Option, none, some, Text, codes, map, trim, text_eq, if◌then◌else◌, leb, unwrap_or,
}

pub data AuthMode : Type 0 where
  canonical_v1 hmac_only api_key_only no_auth : AuthMode

abbrev pub to_ascii_uppercase : Text → Text
to_ascii_uppercase = map λ c. if leb b'a' c && leb c b'z' then c - 32 else c

unfoldable pub as_str : AuthMode → Text
as_str canonical_v1 = codes "CANONICAL_V1"
as_str hmac_only = codes "HMAC_ONLY"
as_str api_key_only = codes "API_KEY_ONLY"
as_str no_auth = codes "NONE"

of_word : Text → Option AuthMode
of_word word =
    if text_eq word (codes "CANONICAL_V1")
    then some canonical_v1
    else if text_eq word (codes "HMAC_ONLY")
    then some hmac_only
    else if text_eq word (codes "BODY_ONLY")
    then some hmac_only
    else if text_eq word (codes "API_KEY_ONLY")
    then some api_key_only
    else if text_eq word (codes "NONE")
    then some no_auth
    else none

-- `AuthMode::parse`
unfoldable pub parse_mode : Text → Option AuthMode
unfolding of_word
parse_mode value = of_word (to_ascii_uppercase (trim value))

unfoldable pub from_stored : Text → AuthMode
unfolding parse_mode
from_stored value = unwrap_or (parse_mode value) hmac_only

abbrev pub requires_secret : AuthMode → Bool
requires_secret canonical_v1 = true
requires_secret hmac_only = true
requires_secret _ = false

abbrev pub sends_api_key : AuthMode → Bool
sends_api_key canonical_v1 = true
sends_api_key api_key_only = true
sends_api_key _ = false

-- The modes whose dispatches carry a signature, and the others.
abbrev pub Signs : AuthMode → Type 0
Signs mode = (mode ≡ canonical_v1) ⊎ (mode ≡ hmac_only)

abbrev pub SignsNothing : AuthMode → Type 0
SignsNothing mode = (mode ≡ api_key_only) ⊎ (mode ≡ no_auth)

pub requires_secret-Signs : (mode : AuthMode) → requires_secret mode ≡ true → Signs mode
requires_secret-Signs canonical_v1 h = inl refl
requires_secret-Signs hmac_only h = inr refl
requires_secret-Signs api_key_only h = absurd cc
requires_secret-Signs no_auth h = absurd cc

pub requires_secret-SignsNothing :
    (mode : AuthMode) → requires_secret mode ≡ false → SignsNothing mode
requires_secret-SignsNothing canonical_v1 h = absurd cc
requires_secret-SignsNothing hmac_only h = absurd cc
requires_secret-SignsNothing api_key_only h = inl refl
requires_secret-SignsNothing no_auth h = inr refl

-- The comparison that `AuthMode` derives.
abbrev rank : AuthMode → ℕ
rank canonical_v1 = 0
rank hmac_only = 1
rank api_key_only = 2
rank no_auth = 3

unfoldable pub same_mode : AuthMode → AuthMode → Bool
same_mode a b = rank a == rank b

of_rank : ℕ → AuthMode
of_rank zero = canonical_v1
of_rank (suc zero) = hmac_only
of_rank (suc (suc zero)) = api_key_only
of_rank (suc (suc (suc n))) = no_auth

of_rank-rank : (a : AuthMode) → of_rank (rank a) ≡ a
unfolding of_rank
of_rank-rank canonical_v1 = refl
of_rank-rank hmac_only = refl
of_rank-rank api_key_only = refl
of_rank-rank no_auth = refl

pub eq_of_same_mode : (a b : AuthMode) → same_mode a b ≡ true → a ≡ b
unfolding same_mode
eq_of_same_mode a b h = sym (of_rank-rank a) ∙ ap of_rank (ground (arith, h)) ∙ of_rank-rank b

parse-as_str : (mode : AuthMode) → parse_mode (as_str mode) ≡ some mode
unfolding parse_mode as_str text_eq trim
parse-as_str canonical_v1 = refl
parse-as_str hmac_only = refl
parse-as_str api_key_only = refl
parse-as_str no_auth = refl

unsigned_only_if_asked :
    (x : Option AuthMode)
    → requires_secret (unwrap_or x hmac_only) ≡ false
    → x ≡ some (unwrap_or x hmac_only)
unsigned_only_if_asked none h = absurd cc
unsigned_only_if_asked (some mode) h = refl

-- What is stored for a mode is read back as that mode, and a stored text is read as a mode that
-- signs nothing only if it spells that mode out.
pub from_stored-as_str :
    ((mode : AuthMode) → from_stored (as_str mode) ≡ mode)
    × ((value : Text)
        → requires_secret (from_stored value) ≡ false
        → parse_mode value ≡ some (from_stored value))
unfolding from_stored
from_stored-as_str = (
  (λ mode. rw (parse-as_str mode) refl),
  (λ value h. unsigned_only_if_asked (parse_mode value) h),
)
