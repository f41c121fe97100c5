-- ===== src/Websearch/Reach.antt =====
-- Which addresses permit lets a search reach.
use Prim.Native.Nat.{◌^◌}
use mathlib.Core.Logic.{◌↔◌}
use cogitorium.Prelude.{
  ℕ, ◌+◌, ◌*◌, ◌/◌, ◌<◌, ◌≤◌, ◌≡◌, ◌≢◌, refl, [], ◌∷◌, some, Bool, true, false, not, ◌&&◌, ◌||◌,
  arith, inl, inr, ◌⊎◌, Bool-cases, leb, ltb, ◌==◌, if◌then◌else◌, Text,
}
use cogitorium.Websearch.Address.{
  Address, v4, v6, dotted, grouped, contains, unmap, is_interface_local_multicast, is_special,
  permit_address, permit,
}
use cogitorium.Websearch.Octets.{
  reserved, denied-octets, loopback_reserved, private_reserved, unspecified_reserved,
  link_local_reserved, link_local_multicast_reserved, multicast_reserved,
}
use cogitorium.Websearch.Groups.{transition, global_groups, denied-groups, special-groups}

||-cases : (a b : Bool) → (a || b) ≡ true → (a ≡ true) ⊎ (b ≡ true)
||-cases true b h = inl refl
||-cases false b h = inr h

either_way {ℓ} : {P : Type ℓ} (a b : Bool) → (a ≡ true → P) → (b ≡ true → P) → (a || b) ≡ true → P
either_way a b f g h = elim (||-cases a b h) [ inl e ↦ f e | inr e ↦ g e ]

permit_step :
    (local : Address → Bool) (ip : Address) (port : ℕ)
    → permit local (some (ip, port))
      ≡ (if port == 443 then permit_address local (unmap ip) else false)
unfolding permit
permit_step local ip port = refl

unmap_plain : (n : ℕ) (zone : Text) → n / 2 ^ 32 ≢ 0xffff → unmap (v6 n zone) ≡ v6 n zone
unfolding unmap
unmap_plain n zone h = ground arith

unmap_mapped : (n : ℕ) (zone : Text) → n < 2 ^ 32 → unmap (v6 (0xffff * 2 ^ 32 + n) zone) ≡ v4 n
unfolding unmap
unmap_mapped n zone h = ground arith

unmap_v4 : (n : ℕ) → unmap (v4 n) ≡ v4 n
unfolding unmap
unmap_v4 n = refl

module _ (a b c d : ℕ) (ha : a < 256) (hb : b < 256) (hc : c < 256) (hd : d < 256) where
  no_interface : is_interface_local_multicast (v4 (dotted a b c d)) ≡ true → reserved a b c d ≡ true
  unfolding is_interface_local_multicast
  no_interface h = cc

  special_reserved : is_special (v4 (dotted a b c d)) ≡ true → reserved a b c d ≡ true
  unfolding is_special
  special_reserved =
      either_way _ _
        (either_way _ _
          (either_way _ _
            (either_way _ _
              (either_way _ _
                (either_way _ _ (loopback_reserved a b c d ha hb hc hd)
                  (private_reserved a b c d ha hb hc hd))
                (unspecified_reserved a b c d ha hb hc hd))
              (link_local_reserved a b c d ha hb hc hd))
            (link_local_multicast_reserved a b c d ha hb hc hd))
          (multicast_reserved a b c d ha hb hc hd))
        no_interface

  address_octets :
      (local : Address → Bool)
      → permit_address local (v4 (dotted a b c d))
        ≡ (not (reserved a b c d) && not (local (v4 (dotted a b c d))))
  unfolding permit_address
  address_octets local = elim (Bool-cases (is_special (v4 (dotted a b c d)))) [
    | inl e ↦ rw (e, special_reserved e) refl
    | inr e ↦ rw (e, denied-octets a b c d ha hb hc hd) (ground arith)
  ]

  -- An address of version 4 is permitted exactly when the port is 443, its octets are in none of the
  -- ranges that are not of the public internet, and it is not one of this machine's.
  pub permit_octets :
      (local : Address → Bool) (port : ℕ)
      → (permit local (some (v4 (dotted a b c d), port)) ≡ true)
        ↔ ((port ≡ 443) × (reserved a b c d ≡ false) × (local (v4 (dotted a b c d)) ≡ false))
  permit_octets local port =
      rw
        (
          permit_step local (v4 (dotted a b c d)) port,
          unmap_v4 (dotted a b c d),
          address_octets local,
        )
        (ground arith)

never : (b : Bool) → (if b then false else false) ≡ true → ⊥
never true h = cc
never false h = cc

zone_refused :
    (local : Address → Bool) (z : ℕ) (zone : Text) (n : ℕ)
    → permit_address local (v6 n (z ∷ zone)) ≡ false
unfolding permit_address contains
zone_refused local z zone n = refl

module _ (a b r : ℕ) (ha : a < 65536) (hb : b < 65536) (hr : r < 2 ^ 96) where
  address_groups :
      (local : Address → Bool)
      → permit_address local (v6 (grouped a b r) []) ≡ (
          (leb 0x2000 a && ltb a 0x4000)
          && (not (transition a b) && not (local (v6 (grouped a b r) []))))
  unfolding permit_address
  address_groups local = elim (Bool-cases (leb 0x2000 a && ltb a 0x4000)) [
    | inl e ↦
        rw
          (
            global_groups a b r hb hr,
            e,
            special-groups a b r (ground arith) (ground arith) hb hr,
            denied-groups a b r (ground arith) (ground arith) hb hr,
          )
          (ground arith)
    | inr e ↦ rw (global_groups a b r hb hr, e) refl
  ]

  by_zone :
      (local : Address → Bool) (zone : Text) (port : ℕ)
      → ((if port == 443 then permit_address local (v6 (grouped a b r) zone) else false) ≡ true) ↔ (
          (port ≡ 443)
          × (zone ≡ [])
          × ((0x2000 ≤ a) × (a < 0x4000))
          × (transition a b ≡ false)
          × (local (v6 (grouped a b r) []) ≡ false))
  by_zone local [] port = rw (address_groups local) (ground arith)
  by_zone local (z ∷ zone) port =
      rw (zone_refused local z zone (grouped a b r))
        ((λ h. absurd (never (port == 443) h)), λ h. cc (h.1))

  -- An address of version 6 that is not an address of version 4 in disguise is permitted exactly when
  -- the port is 443, it has no zone, it is in 2000::/3 and in no transition or documentation range,
  -- and it is not one of this machine's.
  pub permit_groups :
      (local : Address → Bool) (zone : Text) (port : ℕ)
      → grouped a b r / 2 ^ 32 ≢ 0xffff
      → (permit local (some (v6 (grouped a b r) zone, port)) ≡ true) ↔ (
          (port ≡ 443)
          × (zone ≡ [])
          × ((0x2000 ≤ a) × (a < 0x4000))
          × (transition a b ≡ false)
          × (local (v6 (grouped a b r) []) ≡ false))
  permit_groups local zone port h =
      rw (permit_step local (v6 (grouped a b r) zone) port, unmap_plain (grouped a b r) zone h)
        (by_zone local zone port)

-- An address of version 4 in the form of version 6 is judged as that address.
pub permit_mapped :
    (local : Address → Bool) (n port : ℕ) (zone : Text)
    → n < 2 ^ 32
    → permit local (some (v6 (0xffff * 2 ^ 32 + n) zone, port)) ≡ permit local (some (v4 n, port))
permit_mapped local n port zone h =
    rw
      (
        permit_step local (v6 (0xffff * 2 ^ 32 + n) zone) port,
        permit_step local (v4 n) port,
        unmap_mapped n zone h,
        unmap_v4 n,
      )
      refl
