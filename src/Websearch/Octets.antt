-- ===== src/Websearch/Octets.antt =====
-- The table of denied ranges, read on the four octets of an address of version 4.
use cogitorium.Prelude.{
  ℕ, ◌<◌, ◌≡◌, refl, [], ◌∷◌, Bool, true, false, ◌&&◌, arith, any, inl, inr, ◌⊎◌, Bool-cases, leb,
  ◌==◌,
}
use cogitorium.Websearch.Address.{
  v4, prefix4, prefix6, dotted, contains, denied, is_loopback, is_private, is_unspecified,
  is_link_local_unicast, is_link_local_multicast, is_multicast,
}

module _ (a b c d : ℕ) (hb : b < 256) (hc : c < 256) (hd : d < 256) where
  first_octet : (k : ℕ) → contains (prefix4 (dotted k 0 0 0) 8) (v4 (dotted a b c d)) ≡ (a == k)
  unfolding contains
  first_octet k = ground arith

  two_octets :
      (k l : ℕ)
      → l < 256
      → contains (prefix4 (dotted k l 0 0) 16) (v4 (dotted a b c d)) ≡ (a == k && b == l)
  unfolding contains
  two_octets k l h = ground arith

  three_octets :
      (k l m : ℕ)
      → l < 256
      → m < 256
      → contains (prefix4 (dotted k l m 0) 24) (v4 (dotted a b c d))
        ≡ (a == k && (b == l && c == m))
  unfolding contains
  three_octets k l m h i = ground arith

  shared_space :
      contains (prefix4 (dotted 100 64 0 0) 10) (v4 (dotted a b c d))
      ≡ (a == 100 && (leb 64 b && leb b 127))
  unfolding contains
  shared_space = ground arith

  private_172 :
      contains (prefix4 (dotted 172 16 0 0) 12) (v4 (dotted a b c d))
      ≡ (a == 172 && (leb 16 b && leb b 31))
  unfolding contains
  private_172 = ground arith

  benchmarking :
      contains (prefix4 (dotted 198 18 0 0) 15) (v4 (dotted a b c d))
      ≡ (a == 198 && (leb 18 b && leb b 19))
  unfolding contains
  benchmarking = ground arith

  multicast :
      contains (prefix4 (dotted 224 0 0 0) 4) (v4 (dotted a b c d)) ≡ (leb 224 a && leb a 239)
  unfolding contains
  multicast = ground arith

  future_use :
      contains (prefix4 (dotted 240 0 0 0) 4) (v4 (dotted a b c d)) ≡ (leb 240 a && leb a 255)
  unfolding contains
  future_use = ground arith

-- The ranges of version 4 that are not of the public internet, by their octets.
unfoldable pub reserved : ℕ → ℕ → ℕ → ℕ → Bool
reserved a b c d =
    any (λ (range : Bool). range)
      ((a == 0)
        ∷ (a == 10)
        ∷ (a == 100 && (leb 64 b && leb b 127))
        ∷ (a == 127)
        ∷ (a == 169 && b == 254)
        ∷ (a == 172 && (leb 16 b && leb b 31))
        ∷ (a == 192 && (b == 0 && c == 0))
        ∷ (a == 192 && (b == 0 && c == 2))
        ∷ (a == 192 && (b == 88 && c == 99))
        ∷ (a == 192 && b == 168)
        ∷ (a == 198 && (leb 18 b && leb b 19))
        ∷ (a == 198 && (b == 51 && c == 100))
        ∷ (a == 203 && (b == 0 && c == 113))
        ∷ (leb 224 a && leb a 239)
        ∷ (leb 240 a && leb a 255)
        ∷ [])

other_family : (base bits n : ℕ) → contains (prefix6 base bits) (v4 n) ≡ false
unfolding contains
other_family base bits n = refl

multicast_of_first : (a b c d : ℕ) → leb 224 a ≡ true → leb a 239 ≡ true → reserved a b c d ≡ true
unfolding reserved
multicast_of_first a b c d h k = ground arith

module _ (a b c d : ℕ) (ha : a < 256) (hb : b < 256) (hc : c < 256) (hd : d < 256) where
  pub denied-octets : any (λ p. contains p (v4 (dotted a b c d))) denied ≡ reserved a b c d
  unfolding denied reserved
  denied-octets =
      rw
        (
          first_octet a b c d hb hc hd 0,
          first_octet a b c d hb hc hd 10,
          shared_space a b c d hb hc hd,
          first_octet a b c d hb hc hd 127,
          two_octets a b c d hb hc hd 169 254 (omega arith),
          private_172 a b c d hb hc hd,
          three_octets a b c d hb hc hd 192 0 0 (omega arith) (omega arith),
          three_octets a b c d hb hc hd 192 0 2 (omega arith) (omega arith),
          three_octets a b c d hb hc hd 192 88 99 (omega arith) (omega arith),
          two_octets a b c d hb hc hd 192 168 (omega arith),
          benchmarking a b c d hb hc hd,
          three_octets a b c d hb hc hd 198 51 100 (omega arith) (omega arith),
          three_octets a b c d hb hc hd 203 0 113 (omega arith) (omega arith),
          multicast a b c d hb hc hd,
          future_use a b c d hb hc hd,
        )
        (simp other_family refl)

  pub loopback_reserved : is_loopback (v4 (dotted a b c d)) ≡ true → reserved a b c d ≡ true
  unfolding is_loopback reserved
  loopback_reserved h = let e : a ≡ 127 = ground arith in rw e refl

  private_octets :
      is_private (v4 (dotted a b c d)) ≡ true
      → (a ≡ 10) ⊎ ((a ≡ 172) × (leb 16 b ≡ true) × (leb b 31 ≡ true)) ⊎ ((a ≡ 192) × (b ≡ 168))
  unfolding is_private
  private_octets h = elim (Bool-cases (a == 10)) [
    | inl e ↦ inl (ground arith)
    | inr e ↦ elim (Bool-cases (a == 172)) [
      | inl f ↦ inr (inl (ground arith, ground arith, ground arith))
      | inr f ↦ inr (inr (ground arith, ground arith))
    ]
  ]

  pub private_reserved : is_private (v4 (dotted a b c d)) ≡ true → reserved a b c d ≡ true
  unfolding reserved
  private_reserved h = elim (private_octets h) [
    | inl e ↦ rw e refl
    | inr (inl (e, f, g)) ↦ rw (e, f, g) refl
    | inr (inr (e, f)) ↦ rw (e, f) refl
  ]

  pub unspecified_reserved : is_unspecified (v4 (dotted a b c d)) ≡ true → reserved a b c d ≡ true
  unfolding is_unspecified reserved
  unspecified_reserved h = let e : a ≡ 0 = ground arith in rw e refl

  pub link_local_reserved :
      is_link_local_unicast (v4 (dotted a b c d)) ≡ true → reserved a b c d ≡ true
  unfolding is_link_local_unicast reserved
  link_local_reserved h =
      let e : a ≡ 169 = ground arith in let f : b ≡ 254 = ground arith in rw (e, f) refl

  pub link_local_multicast_reserved :
      is_link_local_multicast (v4 (dotted a b c d)) ≡ true → reserved a b c d ≡ true
  unfolding is_link_local_multicast reserved
  link_local_multicast_reserved h = let e : a ≡ 224 = ground arith in rw e refl

  pub multicast_reserved : is_multicast (v4 (dotted a b c d)) ≡ true → reserved a b c d ≡ true
  unfolding is_multicast reserved
  multicast_reserved h = multicast_of_first a b c d (ground arith) (ground arith)
