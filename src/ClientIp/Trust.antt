-- ===== src/ClientIp/Trust.antt =====
-- Which header can choose the client's address, and when.
use simply_firewall.Prelude.{
  ◌≡◌, refl, ap, ◌∙◌, inl, inr, not, Option, none, some, List, [], ◌∷◌, ◌++◌, find, arith, sym,
  unwrap_or, Bool, Bool-cases, Text, subst, trim, split, split-append, map, keep, filter_map,
  is_empty,
}
use mathlib.Core.List.{reverse, reverse-append, map-append}
use simply_firewall.ClientIp.{
  Addresses, Headers, normalize_ip, is_trusted, hops, first_untrusted, named_by_real_ip, or_real_ip,
  or_headers, resolve_client_ip,
}
use simply_firewall.ClientIp.Search.{
  addresses, find-append, plain, Trusted, is_trusted-Trusted, is_trusted-not_Trusted, NoneUntrusted,
  IsRightmost, untrusted, IsFound, search-IsFound,
}

module _ (a : Addresses) (trusted : List a.Network) where
  -- What the header tells: nothing, if it is absent or names trusted addresses only.
  abbrev pub SaysNothing : Option Text → Type 0
  SaysNothing none = Unit
  SaysNothing (some forwarded) = NoneUntrusted a trusted (split b',' forwarded)

  -- Where the address comes from, in the order of precedence.
  pub data IsClient (peer : a.IpAddr) (headers : Headers) : a.IpAddr → Type 0 where
    direct : ¬ Trusted a trusted peer → IsClient peer headers peer
    forwarded :
        {ip : a.IpAddr} {chain : Text}
        → Trusted a trusted peer
        → headers.forwarded_for ≡ some chain
        → IsRightmost a trusted ip (split b',' chain)
        → IsClient peer headers ip
    named :
        {ip : a.IpAddr} {header : Text}
        → Trusted a trusted peer
        → SaysNothing headers.forwarded_for
        → headers.real_ip ≡ some header
        → a.parse (trim header) ≡ some ip
        → IsClient peer headers (plain a ip)
    proxy :
        Trusted a trusted peer
        → SaysNothing headers.forwarded_for
        → ((header : Text) → headers.real_ip ≡ some header → a.parse (trim header) ≡ none)
        → IsClient peer headers peer

  nothing_said :
      (header : Option Text) → first_untrusted a header trusted ≡ none → SaysNothing header
  unfolding first_untrusted hops
  nothing_said none e = tt
  nothing_said (some chain) e =
      subst (λ x. IsFound a trusted x (split b',' chain)) e
        (search-IsFound a trusted (split b',' chain))

  chain_of :
      (header : Option Text) (ip : a.IpAddr)
      → first_untrusted a header trusted ≡ some ip
      → (chain : Text) × (header ≡ some chain) × IsRightmost a trusted ip (split b',' chain)
  unfolding first_untrusted hops
  chain_of none ip e = absurd cc
  chain_of (some chain) ip e = (
    chain,
    refl,
    subst (λ x. IsFound a trusted x (split b',' chain)) e
        (search-IsFound a trusted (split b',' chain)),
  )

  header_of :
      (real_ip : Option Text) (ip : a.IpAddr)
      → named_by_real_ip a real_ip ≡ some ip
      → (header : Text) × (real_ip ≡ some header) × (a.parse (trim header) ≡ some ip)
  unfolding named_by_real_ip
  header_of none ip e = absurd cc
  header_of (some header) ip e = (header, refl, e)

  no_header :
      (real_ip : Option Text)
      → named_by_real_ip a real_ip ≡ none
      → (header : Text) → real_ip ≡ some header
      → a.parse (trim header) ≡ none
  unfolding named_by_real_ip
  no_header none e header h = absurd (cc)
  no_header (some x) e header h = ap (λ y. a.parse (trim (unwrap_or y []))) (sym h) ∙ e

  module _ (peer : a.IpAddr) (headers : Headers) (t : Trusted a trusted peer) where
    or_real_ip-IsClient :
        (x : Option a.IpAddr)
        → SaysNothing headers.forwarded_for
        → named_by_real_ip a headers.real_ip ≡ x
        → IsClient peer headers (or_real_ip a peer x)
    unfolding or_real_ip normalize_ip
    or_real_ip-IsClient (some ip) s e =
        let (header, h, parsed) = header_of headers.real_ip ip e in named t s h parsed
    or_real_ip-IsClient none s e = proxy t s (no_header headers.real_ip e)

    or_headers-IsClient :
        (x : Option a.IpAddr)
        → first_untrusted a headers.forwarded_for trusted ≡ x
        → IsClient peer headers (or_headers a peer headers x)
    unfolding or_headers
    or_headers-IsClient (some ip) e =
        let (chain, c, first) = chain_of headers.forwarded_for ip e in forwarded t c first
    or_headers-IsClient none e = or_real_ip-IsClient _ (nothing_said headers.forwarded_for e) refl

-- The address that the service acts on: that of the peer, unless the peer is a trusted proxy; then
-- the rightmost address among the pieces of `X-Forwarded-For` that is not a trusted proxy; then, if
-- there is none, the address in `X-Real-IP`; then the peer again.
pub resolve_client_ip-IsClient :
    (a : Addresses) (peer : a.IpAddr) (headers : Headers) (trusted : List a.Network)
    → IsClient a trusted (plain a peer) headers (resolve_client_ip a peer headers trusted)
unfolding resolve_client_ip normalize_ip
resolve_client_ip-IsClient a peer headers trusted =
    elim (Bool-cases (is_trusted a (plain a peer) trusted)) [
      | inl t ↦ rw t (
          or_headers-IsClient a trusted (plain a peer) headers
            (is_trusted-Trusted a trusted (plain a peer) t) _ refl)
      | inr f ↦ rw f (direct (is_trusted-not_Trusted a trusted (plain a peer) f))
    ]

keep-append :
    {A : Type 0} (p : A → Bool) (xs ys : List A) → keep p (xs ++ ys) ≡ keep p xs ++ keep p ys
keep-append p [] ys = refl
keep-append p (x ∷ xs) ys = ground (arith, keep-append p xs ys)

filter_map-append :
    {A B : Type 0} (f : A → Option B) (xs ys : List A)
    → filter_map f (xs ++ ys) ≡ filter_map f xs ++ filter_map f ys
filter_map-append f [] ys = refl
filter_map-append f (x ∷ xs) ys = ground (arith, filter_map-append f xs ys)

addresses-append :
    (a : Addresses) (xs ys : List Text) → addresses a (xs ++ ys) ≡ addresses a xs ++ addresses a ys
addresses-append a xs ys =
    ap (λ l. map (normalize_ip a) (filter_map a.parse (keep (λ s. not (is_empty s)) l)))
      (map-append trim xs ys)
    ∙ ap (λ l. map (normalize_ip a) (filter_map a.parse l))
        (keep-append (λ s. not (is_empty s)) (map trim xs) (map trim ys))
    ∙ ap (map (normalize_ip a)) (filter_map-append a.parse _ _)
    ∙ map-append (normalize_ip a) _ _

hops-append :
    (a : Addresses) (forged chain : Text)
    → hops a (forged ++ b',' ∷ chain) ≡ hops a chain ++ hops a forged
unfolding hops
hops-append a forged chain =
    ap (λ l. reverse (addresses a l)) (split-append b',' forged chain)
    ∙ ap reverse (addresses-append a (split b',' forged) (split b',' chain))
    ∙ reverse-append (addresses a (split b',' forged)) (addresses a (split b',' chain))

first_untrusted-append :
    (a : Addresses) (forged chain : Text) (trusted : List a.Network) (client : a.IpAddr)
    → first_untrusted a (some chain) trusted ≡ some client
    → first_untrusted a (some (forged ++ b',' ∷ chain)) trusted ≡ some client
unfolding first_untrusted
first_untrusted-append a forged chain trusted client e =
    ap (find (untrusted a trusted)) (hops-append a forged chain)
    ∙ find-append (untrusted a trusted) (hops a chain) (hops a forged) client e

-- What a client writes into the header ahead of the chain that the proxies append changes nothing,
-- as long as that chain has a hop that is no trusted proxy.
pub resolve_client_ip-forged :
    (a : Addresses) (peer client : a.IpAddr) (forged chain : Text) (real_ip : Option Text)
    (trusted : List a.Network)
    → first_untrusted a (some chain) trusted ≡ some client
    → resolve_client_ip a peer
        (record { forwarded_for = some (forged ++ b',' ∷ chain); real_ip = real_ip })
        trusted
      ≡ resolve_client_ip a peer (record { forwarded_for = some chain; real_ip = real_ip }) trusted
unfolding resolve_client_ip
resolve_client_ip-forged a peer client forged chain real_ip trusted e =
    rw (first_untrusted-append a forged chain trusted client e, e)
