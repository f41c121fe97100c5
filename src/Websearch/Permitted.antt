-- ===== src/Websearch/Permitted.antt =====
-- Which URLs checkAuthority lets through.
use cogitorium.Prelude.{
  ◌≡◌, ap, ◌∙◌, true, false, Option, none, some, any, if◌then◌else◌, Text, codes, text_eq,
  text_eq→eq, arith, Bool-cases, inl, inr, ◌⊎◌, Option-cases,
}
use cogitorium.Websearch.Written.{Written, normal_host-Written}
use cogitorium.Websearch.Authority.{Url, normal_host, permitted_hosts, host_is, check_authority}

-- The host that a split gives, and the port that it must then have.
pub data HostIs (split : Text → Option (Text × Text)) (authority want : Text) : Type 0 where
  bare : split authority ≡ none → Written want authority → HostIs split authority want
  with_port :
      (host : Text)
      → split authority ≡ some (host, codes "443")
      → Written want host
      → HostIs split authority want

module _ (split : Text → Option (Text × Text)) where
  host_with_port :
      (authority host port want : Text)
      → split authority ≡ some (host, port)
      → (if text_eq port (codes "443") then text_eq (normal_host host) want else false) ≡ true
      → HostIs split authority want
  host_with_port authority host port want e h = elim (Bool-cases (text_eq port (codes "443"))) [
    | inl k ↦
        with_port host (e ∙ ap (λ (p : Text). some (host, p)) (text_eq→eq port _ k))
          (normal_host-Written host want (text_eq→eq _ want (rw k at h)))
    | inr k ↦ absurd (cc (rw k at h))
  ]

  host_is-HostIs :
      (authority want : Text) → host_is split authority want ≡ true → HostIs split authority want
  unfolding host_is
  host_is-HostIs authority want h = elim (Option-cases (split authority)) [
    | inl e ↦ bare e (normal_host-Written authority want (text_eq→eq _ want (rw e at h)))
    | inr ((host, port), e) ↦ host_with_port authority host port want e (rw e at h)
  ]

  one_of_two :
      (authority : Text)
      → any (host_is split authority) permitted_hosts ≡ true
      → HostIs split authority (codes "echo-page.com")
        ⊎ HostIs split authority (codes "api.duckduckgo.com")
  unfolding permitted_hosts
  one_of_two authority h = elim (Bool-cases (host_is split authority (codes "echo-page.com"))) [
    | inl e ↦ inl (host_is-HostIs authority _ e)
    | inr e ↦ inr (host_is-HostIs authority _ (ground arith))
  ]

  url_permitted :
      (u : Url)
      → (if text_eq u.scheme (codes "https")
          then if u.has_user then false else any (host_is split u.host) permitted_hosts
          else false)
        ≡ true
      → (u.scheme ≡ codes "https")
        × (u.has_user ≡ false)
        × (HostIs split u.host (codes "echo-page.com")
            ⊎ HostIs split u.host (codes "api.duckduckgo.com"))
  url_permitted u h = elim (Bool-cases (text_eq u.scheme (codes "https"))) [
    | inl e ↦ elim (Bool-cases u.has_user) [
      | inl k ↦ absurd (cc (rw (e, k) at h))
      | inr k ↦ (text_eq→eq u.scheme _ e, k, one_of_two u.host (rw (e, k) at h))
    ]
    | inr e ↦ absurd (cc (rw e at h))
  ]

  -- A URL is let through only if it parses, its scheme is https, it names no user, and its host is
  -- one of the two compiled-in names, with no port or port 443: letter by letter the name, a capital
  -- of it, or the Kelvin sign for k or the dotted I for i, with only brackets around it and at most
  -- one dot at its end.
  pub check_authority_permits :
      (parse : Text → Option Url) (raw : Text)
      → check_authority split parse raw ≡ true
      → (u : Url) × (parse raw ≡ some u)
        × (u.scheme ≡ codes "https")
        × (u.has_user ≡ false)
        × (HostIs split u.host (codes "echo-page.com")
            ⊎ HostIs split u.host (codes "api.duckduckgo.com"))
  unfolding check_authority
  check_authority_permits parse raw h = elim (Option-cases (parse raw)) [
    | inl e ↦ absurd (cc (rw e at h))
    | inr (u, e) ↦ let (a, b, c) = url_permitted u (rw e at h) in (u, e, a, b, c)
  ]
