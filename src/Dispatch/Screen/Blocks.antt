-- ===== src/Dispatch/Screen/Blocks.antt =====
-- src/dispatch.rs: the screened addresses as blocks of the address space.
use simply_firewall.Prelude.{
  ℕ, ◌≡◌, ◌<◌, ◌+◌, ◌*◌, ◌/◌, ◌^◌, refl, Bool, true, false, Option, none, some, List, [], ◌∷◌, any,
  ◌==◌, arith, ◌&&◌, ◌||◌, leb, ltb, ◌-◌, ◌%◌,
}
use simply_firewall.Dispatch.Screen.{
  Ipv4Addr, Ipv6Addr, IpAddr, v4, v6, is_blocked_v4, is_blocked_v6, is_blocked_address,
  to_ipv4_mapped, is_blocked_mapped, is_zero_to_s4,
}

abbrev pub number : Ipv4Addr → ℕ
number ip = ip.a * 2 ^ 24 + ip.b * 2 ^ 16 + ip.c * 2 ^ 8 + ip.d

abbrev pub dotted : (a b c d : ℕ) → ℕ
dotted a b c d = a * 2 ^ 24 + b * 2 ^ 16 + c * 2 ^ 8 + d

-- The lowest address of a block, and how many bits are free in it.
abbrev pub Block : Type 0
Block = ℕ × ℕ

abbrev pub is_in : ℕ → Block → Bool
is_in n (base, free) = n / 2 ^ free == base / 2 ^ free

-- The blocks in the order of the tests: private, loopback, link-local, unspecified, broadcast,
-- documentation, shared, this network, protocol assignments, benchmarking.
abbrev pub blocks : List Block
blocks =
    (dotted 10 0 0 0, 24)
    ∷ (dotted 172 16 0 0, 20)
    ∷ (dotted 192 168 0 0, 16)
    ∷ (dotted 127 0 0 0, 24)
    ∷ (dotted 169 254 0 0, 16)
    ∷ (dotted 0 0 0 0, 0)
    ∷ (dotted 255 255 255 255, 0)
    ∷ (dotted 192 0 2 0, 8)
    ∷ (dotted 198 51 100 0, 8)
    ∷ (dotted 203 0 113 0, 8)
    ∷ (dotted 100 64 0 0, 22)
    ∷ (dotted 0 0 0 0, 24)
    ∷ (dotted 192 0 0 0, 8)
    ∷ (dotted 198 18 0 0, 17)
    ∷ []

abbrev pub IsIpv4 : Ipv4Addr → Type 0
IsIpv4 ip = (ip.a < 256) × (ip.b < 256) × (ip.c < 256) × (ip.d < 256)

module _ (ip : Ipv4Addr) (h : IsIpv4 ip) where
  in_8 : (x : ℕ) → is_in (number ip) (dotted x 0 0 0, 24) ≡ (ip.a == x)
  in_8 x = ground arith

  in_16 : (x y : ℕ) → y < 256 → is_in (number ip) (dotted x y 0 0, 16) ≡ (ip.a == x && ip.b == y)
  in_16 x y k = ground arith

  in_24 :
      (x y z : ℕ)
      → y < 256
      → z < 256
      → is_in (number ip) (dotted x y z 0, 8) ≡ (ip.a == x && ip.b == y && ip.c == z)
  in_24 x y z k l = ground arith

  in_32 :
      (x y z w : ℕ)
      → y < 256
      → z < 256
      → w < 256
      → is_in (number ip) (dotted x y z w, 0) ≡ (ip.a == x && ip.b == y && ip.c == z && ip.d == w)
  in_32 x y z w k l m = ground arith

  in_172 : is_in (number ip) (dotted 172 16 0 0, 20) ≡ (ip.a == 172 && leb 16 ip.b && leb ip.b 31)
  in_172 = ground arith

  in_100 : is_in (number ip) (dotted 100 64 0 0, 22) ≡ (ip.a == 100 && leb 64 ip.b && ltb ip.b 128)
  in_100 = ground arith

  in_198 : is_in (number ip) (dotted 198 18 0 0, 17) ≡ (ip.a == 198 && ip.b - ip.b % 2 == 18)
  in_198 = ground arith

or_assoc : (x y z : Bool) → ((x || y) || z) ≡ (x || (y || z))
or_assoc true y z = refl
or_assoc false y z = refl

or_false : (x : Bool) → (x || false) ≡ x
or_false true = refl
or_false false = refl

blocked_v4-blocks : (ip : Ipv4Addr) → IsIpv4 ip → is_blocked_v4 ip ≡ any (is_in (number ip)) blocks
unfolding is_blocked_v4
blocked_v4-blocks ip h =
    rw
      (
        in_8 ip h 10,
        in_172 ip h,
        in_16 ip h 192 168 (omega arith),
        in_8 ip h 127,
        in_16 ip h 169 254 (omega arith),
        in_32 ip h 0 0 0 0 (omega arith) (omega arith) (omega arith),
        in_32 ip h 255 255 255 255 (omega arith) (omega arith) (omega arith),
        in_24 ip h 192 0 2 (omega arith) (omega arith),
        in_24 ip h 198 51 100 (omega arith) (omega arith),
        in_24 ip h 203 0 113 (omega arith) (omega arith),
        in_100 ip h,
        in_8 ip h 0,
        in_24 ip h 192 0 0 (omega arith) (omega arith),
        in_198 ip h,
      )
      (simp (or_assoc, or_false))

abbrev pub IsIpv6 : Ipv6Addr → Type 0
IsIpv6 ip = (ip.s0 < 65536) × (ip.s6 < 65536) × (ip.s7 < 65536)

abbrev pub IsAddress : IpAddr → Type 0
IsAddress (v4 ip) = IsIpv4 ip
IsAddress (v6 ip) = IsIpv6 ip

-- fc00::/7 and fe80::/10 by their first segment, and the two addresses :: and ::1.
abbrev pub is_internal_v6 : Ipv6Addr → Bool
is_internal_v6 ip =
    (ip.s0 / 512 == 0xfc00 / 512)
    || (ip.s0 / 64 == 0xfe80 / 64)
    || (is_zero_to_s4 ip && ip.s5 == 0 && ip.s6 == 0 && ltb ip.s7 2)

-- An IPv4-mapped address stands where its IPv4 address does.
abbrev pub in_internal_block : IpAddr → Bool
in_internal_block (v4 ip) = any (is_in (number ip)) blocks
in_internal_block (v6 ip) = at (to_ipv4_mapped ip)
  where
    at : Option Ipv4Addr → Bool
    at none = is_internal_v6 ip
    at (some mapped) = any (is_in (number mapped)) blocks

mapped-IsIpv4 : (ip : Ipv6Addr) (m : Ipv4Addr) → IsIpv6 ip → to_ipv4_mapped ip ≡ some m → IsIpv4 m
unfolding to_ipv4_mapped
mapped-IsIpv4 ip m h e = ground arith

blocked_v6-internal : (ip : Ipv6Addr) → IsIpv6 ip → is_blocked_v6 ip ≡ is_internal_v6 ip
unfolding is_blocked_v6
blocked_v6-internal ip h = ground arith

mapped-internal :
    (ip : Ipv6Addr) (x : Option Ipv4Addr)
    → IsIpv6 ip
    → to_ipv4_mapped ip ≡ x
    → is_blocked_mapped ip x ≡ in_internal_block (v6 ip)
unfolding is_blocked_mapped
mapped-internal ip none h e = rw e (blocked_v6-internal ip h)
mapped-internal ip (some m) h e = rw e (blocked_v4-blocks m (mapped-IsIpv4 ip m h e))

-- The screen refuses exactly the addresses of fourteen IPv4 blocks, of fc00::/7 and fe80::/10, and ::
-- and ::1, and an IPv4-mapped IPv6 address exactly as the IPv4 address in it.
pub is_blocked_address-internal :
    (ip : IpAddr) → IsAddress ip → is_blocked_address ip ≡ in_internal_block ip
unfolding is_blocked_address
is_blocked_address-internal (v4 ip) h = blocked_v4-blocks ip h
is_blocked_address-internal (v6 ip) h = mapped-internal ip _ h refl
