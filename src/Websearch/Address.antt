-- ===== src/Websearch/Address.antt =====
-- denied, v6Global and permit in internal/websearch/policy.go, with what they use of net/netip. An
-- address is its number of 32 or 128 bits; one of version 6 has a zone, mostly the empty text.
use Prim.Native.Nat.{◌^◌}
use cogitorium.Prelude.{
  ℕ, ◌+◌, ◌-◌, ◌*◌, ◌/◌, ◌%◌, Bool, true, false, not, ◌&&◌, ◌||◌, Option, none, some, List, [], ◌∷◌,
  any, ◌==◌, if◌then◌else◌, Text, is_empty,
}

pub data Address : Type 0 where
  v4 : ℕ → Address
  v6 : ℕ → Text → Address

-- an address and its length in bits
pub data Prefix : Type 0 where
  prefix4 prefix6 : ℕ → ℕ → Prefix

-- a.b.c.d
abbrev pub dotted : ℕ → ℕ → ℕ → ℕ → ℕ
dotted a b c d = a * 16777216 + b * 65536 + c * 256 + d

-- the first two groups of sixteen bits and the other ninety-six bits
abbrev pub grouped : ℕ → ℕ → ℕ → ℕ
grouped a b rest = a * 2 ^ 112 + b * 2 ^ 96 + rest

-- Prefix.Contains: nothing with a zone is in a prefix
unfoldable pub contains : Prefix → Address → Bool
contains (prefix4 base bits) (v4 n) = n / 2 ^ (32 - bits) == base / 2 ^ (32 - bits)
contains (prefix6 base bits) (v6 n zone) =
    is_empty zone && n / 2 ^ (128 - bits) == base / 2 ^ (128 - bits)
contains _ _ = false

-- Addr.Unmap
unfoldable pub unmap : Address → Address
unmap (v4 n) = v4 n
unmap (v6 n zone) = if n / 2 ^ 32 == 0xffff then v4 (n % 2 ^ 32) else v6 n zone

unfoldable pub denied : List Prefix
denied =
    prefix4 (dotted 0 0 0 0) 8
    ∷ prefix4 (dotted 10 0 0 0) 8
    ∷ prefix4 (dotted 100 64 0 0) 10
    ∷ prefix4 (dotted 127 0 0 0) 8
    ∷ prefix4 (dotted 169 254 0 0) 16
    ∷ prefix4 (dotted 172 16 0 0) 12
    ∷ prefix4 (dotted 192 0 0 0) 24
    ∷ prefix4 (dotted 192 0 2 0) 24
    ∷ prefix4 (dotted 192 88 99 0) 24
    ∷ prefix4 (dotted 192 168 0 0) 16
    ∷ prefix4 (dotted 198 18 0 0) 15
    ∷ prefix4 (dotted 198 51 100 0) 24
    ∷ prefix4 (dotted 203 0 113 0) 24
    ∷ prefix4 (dotted 224 0 0 0) 4
    ∷ prefix4 (dotted 240 0 0 0) 4
    ∷ prefix6 (grouped 0 0 0) 128
    ∷ prefix6 (grouped 0 0 1) 128
    ∷ prefix6 (grouped 0 0 0) 96
    ∷ prefix6 (grouped 0 0 (0xffff * 2 ^ 32)) 96
    ∷ prefix6 (grouped 0x64 0xff9b 0) 96
    ∷ prefix6 (grouped 0x64 0xff9b (2 ^ 80)) 48
    ∷ prefix6 (grouped 0x100 0 0) 64
    ∷ prefix6 (grouped 0x2001 0 0) 32
    ∷ prefix6 (grouped 0x2001 0xdb8 0) 32
    ∷ prefix6 (grouped 0x2002 0 0) 16
    ∷ prefix6 (grouped 0xfc00 0 0) 7
    ∷ prefix6 (grouped 0xfe80 0 0) 10
    ∷ prefix6 (grouped 0xff00 0 0) 8
    ∷ []

abbrev pub v6_global : Prefix
v6_global = prefix6 (grouped 0x2000 0 0) 3

abbrev pub is_v6 : Address → Bool
is_v6 (v4 n) = false
is_v6 (v6 n zone) = true

unfoldable pub is_loopback : Address → Bool
is_loopback (v4 n) = n / 2 ^ 24 == 127
is_loopback (v6 n zone) = n == 1

unfoldable pub is_private : Address → Bool
is_private (v4 n) = n / 2 ^ 24 == 10 || n / 2 ^ 20 == 0xac1 || n / 2 ^ 16 == 0xc0a8
is_private (v6 n zone) = n / 2 ^ 121 == 0x7e

unfoldable pub is_unspecified : Address → Bool
is_unspecified (v4 n) = n == 0
is_unspecified (v6 n zone) = n == 0 && is_empty zone

unfoldable pub is_link_local_unicast : Address → Bool
is_link_local_unicast (v4 n) = n / 2 ^ 16 == 0xa9fe
is_link_local_unicast (v6 n zone) = n / 2 ^ 118 == 0x3fa

unfoldable pub is_link_local_multicast : Address → Bool
is_link_local_multicast (v4 n) = n / 2 ^ 8 == 0xe00000
is_link_local_multicast (v6 n zone) = n / 2 ^ 120 == 0xff && n / 2 ^ 112 % 16 == 2

unfoldable pub is_multicast : Address → Bool
is_multicast (v4 n) = n / 2 ^ 28 == 0xe
is_multicast (v6 n zone) = n / 2 ^ 120 == 0xff

unfoldable pub is_interface_local_multicast : Address → Bool
is_interface_local_multicast (v4 n) = false
is_interface_local_multicast (v6 n zone) = n / 2 ^ 120 == 0xff && n / 2 ^ 112 % 16 == 1

-- the predicates that permit asks before the table
unfoldable pub is_special : Address → Bool
unfolding is_loopback is_private is_unspecified is_link_local_unicast is_link_local_multicast
    is_multicast is_interface_local_multicast
is_special ip =
    is_loopback ip
    || is_private ip
    || is_unspecified ip
    || is_link_local_unicast ip
    || is_link_local_multicast ip
    || is_multicast ip
    || is_interface_local_multicast ip

-- permit on an unmapped address; `local` are the addresses of this machine
unfoldable pub permit_address : (Address → Bool) → Address → Bool
unfolding contains is_special denied
permit_address local ip =
    if is_v6 ip && not (contains v6_global ip)
    then false
    else if is_special ip
    then false
    else if any (λ d. contains d ip) denied
    then false
    else not (local ip)

-- permit on what netip.ParseAddrPort reads
unfoldable pub permit : (Address → Bool) → Option (Address × ℕ) → Bool
unfolding unmap permit_address
permit local none = false
permit local (some (ip, port)) = if port == 443 then permit_address local (unmap ip) else false
