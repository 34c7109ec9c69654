-- ===== src/ClientIp/Search.antt =====
-- src/config.rs: the addresses that the pieces of `X-Forwarded-For` name, searched from the right.
use simply_firewall.Prelude.{
  ◌≡◌, refl, ap, ◌∙◌, inl, inr, true, false, not, Option, none, some, List, [], ◌∷◌, ◌++◌, find,
  arith, sym, unwrap_or, any, Member, ◌↔◌, ◌||◌, ◌⊎◌, Bool, Bool-cases, Text, All, subst, trim, map,
  keep, filter_map, is_empty,
}
use mathlib.Core.List.{reverse, reverse-append}
use simply_firewall.ClientIp.{Addresses, normalize_ip, is_trusted, hops}

-- The addresses among the pieces of a header.
abbrev pub addresses : (a : Addresses) → List Text → List a.IpAddr
addresses a pieces =
    map (normalize_ip a) (filter_map a.parse (keep (λ s. not (is_empty s)) (map trim pieces)))

pub find-append :
    {A : Type 0} (p : A → Bool) (xs ys : List A) (y : A)
    → find p xs ≡ some y
    → find p (xs ++ ys) ≡ some y
find-append p [] ys y e = absurd cc
find-append p (x ∷ xs) ys y e = ground (arith, find-append p xs ys y)

find-append_none :
    {A : Type 0} (p : A → Bool) (xs ys : List A) → find p xs ≡ none → find p (xs ++ ys) ≡ find p ys
find-append_none p [] ys e = refl
find-append_none p (x ∷ xs) ys e = ground (arith, find-append_none p xs ys)

module _ (a : Addresses) where
  -- An address as it is compared: the IPv4 address in an IPv4-mapped one, else itself.
  abbrev pub plain : a.IpAddr → a.IpAddr
  plain ip = unwrap_or (a.mapped ip) ip

  -- A piece of the header names an address.
  abbrev pub Names : Text → a.IpAddr → Type 0
  Names piece ip =
      (is_empty (trim piece) ≡ false)
      × (named : a.IpAddr) × (a.parse (trim piece) ≡ some named)
      × (ip ≡ plain named)

  -- What one piece adds to the list of addresses.
  abbrev IsAdded : (piece : Text) → List Text → Type 0
  IsAdded piece pieces =
      (((ip : a.IpAddr) → ¬ Names piece ip) × (addresses a (piece ∷ pieces) ≡ addresses a pieces))
      ⊎ ((ip : a.IpAddr) × Names piece ip
          × ((other : a.IpAddr) → Names piece other → other ≡ ip)
          × (addresses a (piece ∷ pieces) ≡ ip ∷ addresses a pieces))

  same_named : (x : Option a.IpAddr) (m n : a.IpAddr) → x ≡ some m → x ≡ some n → m ≡ n
  same_named none m n e f = absurd cc
  same_named (some y) m n e f = cc

  parsed-IsAdded :
      (piece : Text) (pieces : List Text) (x : Option a.IpAddr)
      → is_empty (trim piece) ≡ false
      → a.parse (trim piece) ≡ x
      → IsAdded piece pieces
  unfolding normalize_ip
  parsed-IsAdded piece pieces none e p = inl ((λ ip n. not_none n.1 (sym p ∙ n.2)), rw (e, p) refl)
    where
      not_none : (y : a.IpAddr) → none ≡ some y → ⊥
      not_none y h = cc
  parsed-IsAdded piece pieces (some named) e p = inr (
    normalize_ip a named,
    (e, named, p, refl),
    (λ other n. n.3 ∙ ap (normalize_ip a) (same_named (a.parse (trim piece)) n.1 named n.2 p)),
    rw (e, p) refl,
  )

  piece-IsAdded : (piece : Text) (pieces : List Text) → IsAdded piece pieces
  piece-IsAdded piece pieces = elim (Bool-cases (is_empty (trim piece))) [
    | inl e ↦ inl ((λ ip n. ground (arith, e, n.0)), rw e refl)
    | inr e ↦ parsed-IsAdded piece pieces (a.parse (trim piece)) e refl
  ]

module _ (a : Addresses) (trusted : List a.Network) where
  -- An address lies in one of the trusted networks.
  abbrev pub Trusted : a.IpAddr → Type 0
  Trusted ip = (n : a.Network) × Member n trusted × (a.is_inside ip n ≡ true)

  any_inside :
      (ip : a.IpAddr) (networks : List a.Network)
      → (any (a.is_inside ip) networks ≡ true)
        ↔ ((n : a.Network) × Member n networks × (a.is_inside ip n ≡ true))
  any_inside ip [] = ((λ h. absurd cc), λ s. absurd s.1)
  any_inside ip (n ∷ rest) = elim (Bool-cases (a.is_inside ip n)) [
    | inl t ↦ ((λ h. (n, inl refl, t)), λ s. ground (arith, t))
    | inr f ↦ (
      (λ h. further ((any_inside ip rest).0 (ground (arith, h, f)))),
      λ s. later (any_inside ip rest) s f,
    )
  ]
    where
      further :
          ((m : a.Network) × Member m rest × (a.is_inside ip m ≡ true))
          → (m : a.Network) × Member m (n ∷ rest) × (a.is_inside ip m ≡ true)
      further (m, i, t) = (m, inr i, t)

      later :
          ((any (a.is_inside ip) rest ≡ true)
            ↔ ((m : a.Network) × Member m rest × (a.is_inside ip m ≡ true)))
          → ((m : a.Network) × Member m (n ∷ rest) × (a.is_inside ip m ≡ true))
          → a.is_inside ip n ≡ false
          → (a.is_inside ip n || any (a.is_inside ip) rest) ≡ true
      later iff (m, inl same, t) f = absurd (ground (arith, ap (a.is_inside ip) same, t, f))
      later iff (m, inr i, t) f = ground (arith, iff.1 (m, i, t))

  pub is_trusted-Trusted : (ip : a.IpAddr) → is_trusted a ip trusted ≡ true → Trusted ip
  unfolding is_trusted
  is_trusted-Trusted ip h = (any_inside ip trusted).0 h

  pub is_trusted-not_Trusted : (ip : a.IpAddr) → is_trusted a ip trusted ≡ false → ¬ Trusted ip
  unfolding is_trusted
  is_trusted-not_Trusted ip h t = ground (arith, h, (any_inside ip trusted).1 t)

  -- The pieces name trusted addresses, if any.
  abbrev pub NoneUntrusted : List Text → Type 0
  NoneUntrusted = All (λ piece. (ip : a.IpAddr) → Names a piece ip → Trusted ip)

  -- An address is the rightmost one that the pieces name and that is not trusted: to the right of its
  -- piece only trusted ones are named.
  pub record IsRightmost (ip : a.IpAddr) (pieces : List Text) : Type 0 where
    pub before : List Text
    pub piece : Text
    pub after : List Text
    pub cut : pieces ≡ before ++ piece ∷ after
    pub named : Names a piece ip
    pub untrusted_hop : ¬ Trusted ip
    pub trusted_after : NoneUntrusted after

  abbrev pub untrusted : a.IpAddr → Bool
  untrusted ip = not (is_trusted a ip trusted)

  -- What a search from the right finds.
  abbrev pub IsFound : Option a.IpAddr → List Text → Type 0
  IsFound none pieces = NoneUntrusted pieces
  IsFound (some ip) pieces = IsRightmost ip pieces

  cons-IsRightmost :
      (piece : Text) (pieces : List Text) (ip : a.IpAddr)
      → IsRightmost ip pieces
      → IsRightmost ip (piece ∷ pieces)
  cons-IsRightmost piece pieces ip r = record {
    before = piece ∷ r.before;
    piece = r.piece;
    after = r.after;
    cut = ap (λ l. piece ∷ l) r.cut;
    named = r.named;
    untrusted_hop = r.untrusted_hop;
    trusted_after = r.trusted_after;
  }

  -- A piece that names nothing.
  cons-IsFound :
      (piece : Text) (pieces : List Text) (x : Option a.IpAddr)
      → ((ip : a.IpAddr) → ¬ Names a piece ip)
      → IsFound x pieces
      → IsFound x (piece ∷ pieces)
  cons-IsFound piece pieces none h f = ((λ ip n. absurd (h ip n)), f)
  cons-IsFound piece pieces (some ip) h f = cons-IsRightmost piece pieces ip f

  -- A piece that names an address, to the left of those that were searched.
  cons-IsFound_named :
      (piece : Text) (pieces : List Text) (ip : a.IpAddr) (hops : List a.IpAddr)
      (x : Option a.IpAddr)
      → Names a piece ip
      → ((other : a.IpAddr) → Names a piece other → other ≡ ip)
      → find untrusted hops ≡ x
      → IsFound x pieces
      → IsFound (find untrusted (hops ++ ip ∷ [])) (piece ∷ pieces)
  cons-IsFound_named piece pieces ip hops (some y) n only e f =
      subst (λ z. IsFound z (piece ∷ pieces)) (sym (find-append untrusted hops (ip ∷ []) y e))
        (cons-IsRightmost piece pieces y f)
  cons-IsFound_named piece pieces ip hops none n only e f =
      subst (λ z. IsFound z (piece ∷ pieces)) (sym (find-append_none untrusted hops (ip ∷ []) e))
        (elim (Bool-cases (is_trusted a ip trusted)) [
          | inl t ↦
              rw t ((λ other m. subst Trusted (sym (only other m)) (is_trusted-Trusted ip t)), f)
          | inr u ↦ rw u (record {
            before = [];
            piece = piece;
            after = pieces;
            cut = refl;
            named = n;
            untrusted_hop = is_trusted-not_Trusted ip u;
            trusted_after = f;
          })
        ])

  pub search-IsFound :
      (pieces : List Text) → IsFound (find untrusted (reverse (addresses a pieces))) pieces
  search-IsFound [] = tt
  search-IsFound (piece ∷ pieces) =
      from_added (piece-IsAdded a piece pieces) (search-IsFound pieces)
    where
      from_added :
          IsAdded a piece pieces
          → IsFound (find untrusted (reverse (addresses a pieces))) pieces
          → IsFound (find untrusted (reverse (addresses a (piece ∷ pieces)))) (piece ∷ pieces)
      from_added (inl (nothing, same)) f =
          subst (λ l. IsFound (find untrusted (reverse l)) (piece ∷ pieces)) (sym same)
            (cons-IsFound piece pieces _ nothing f)
      from_added (inr (ip, n, only, same)) f =
          subst (λ l. IsFound (find untrusted (reverse l)) (piece ∷ pieces)) (sym same)
            (subst (λ l. IsFound (find untrusted l) (piece ∷ pieces))
              (sym (reverse-append (ip ∷ []) (addresses a pieces)))
              (cons-IsFound_named piece pieces ip (reverse (addresses a pieces)) _ n only refl f))
