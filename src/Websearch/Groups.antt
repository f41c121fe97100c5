-- ===== src/Websearch/Groups.antt =====
-- The table of denied ranges, read on the first groups of an address of version 6.
use Prim.Native.Nat.{◌^◌}
use cogitorium.Prelude.{
  ℕ, ◌-◌, ◌*◌, ◌/◌, ◌<◌, ◌≤◌, ◌≡◌, refl, [], Bool, false, ◌&&◌, ◌||◌, arith, any, leb, ltb, ◌==◌,
  ◌≢◌, Text,
}
use cogitorium.Websearch.Address.{
  v6, prefix4, prefix6, grouped, contains, denied, v6_global, is_loopback, is_private,
  is_unspecified, is_link_local_unicast, is_link_local_multicast, is_multicast,
  is_interface_local_multicast, is_special,
}

module _ (a b r : ℕ) (hb : b < 65536) (hr : r < 2 ^ 96) where
  pub global_groups : contains v6_global (v6 (grouped a b r) []) ≡ (leb 0x2000 a && ltb a 0x4000)
  unfolding contains
  global_groups = ground arith

  first_group : (k : ℕ) → contains (prefix6 (grouped k 0 0) 16) (v6 (grouped a b r) []) ≡ (a == k)
  unfolding contains
  first_group k = ground arith

  two_groups :
      (k l : ℕ)
      → l < 65536
      → contains (prefix6 (grouped k l 0) 32) (v6 (grouped a b r) []) ≡ (a == k && b == l)
  unfolding contains
  two_groups k l h = ground arith

other_family : (base bits n : ℕ) (zone : Text) → contains (prefix4 base bits) (v6 n zone) ≡ false
unfolding contains
other_family base bits n zone = refl

-- The transition and documentation ranges within 2000::/3: Teredo, documentation and 6to4.
unfoldable pub transition : ℕ → ℕ → Bool
transition a b = (a == 0x2001 && b == 0) || ((a == 0x2001 && b == 0xdb8) || (a == 0x2002 || false))

module _ (a b r : ℕ) (low : 0x2000 ≤ a) (high : a < 0x4000) (hb : b < 65536) (hr : r < 2 ^ 96) where
  outside_short :
      (base bits : ℕ)
      → base / 2 ^ (128 - bits) ≢ grouped a b r / 2 ^ (128 - bits)
      → contains (prefix6 base bits) (v6 (grouped a b r) []) ≡ false
  unfolding contains
  outside_short base bits h = ground arith

  pub denied-groups : any (λ p. contains p (v6 (grouped a b r) [])) denied ≡ transition a b
  unfolding denied transition
  denied-groups =
      rw
        (
          outside_short (grouped 0 0 0) 128 (ground arith),
          outside_short (grouped 0 0 1) 128 (ground arith),
          outside_short (grouped 0 0 0) 96 (ground arith),
          outside_short (grouped 0 0 (0xffff * 2 ^ 32)) 96 (ground arith),
          outside_short (grouped 0x64 0xff9b 0) 96 (ground arith),
          outside_short (grouped 0x64 0xff9b (2 ^ 80)) 48 (ground arith),
          outside_short (grouped 0x100 0 0) 64 (ground arith),
          two_groups a b r hb hr 0x2001 0 (omega arith),
          two_groups a b r hb hr 0x2001 0xdb8 (omega arith),
          first_group a b r hb hr 0x2002,
          outside_short (grouped 0xfc00 0 0) 7 (ground arith),
          outside_short (grouped 0xfe80 0 0) 10 (ground arith),
          outside_short (grouped 0xff00 0 0) 8 (ground arith),
        )
        (simp other_family refl)

  -- None of the predicates before the table holds in 2000::/3.
  pub special-groups : is_special (v6 (grouped a b r) []) ≡ false
  unfolding is_special is_loopback is_private is_unspecified is_link_local_unicast
      is_link_local_multicast is_multicast is_interface_local_multicast
  special-groups = ground arith
