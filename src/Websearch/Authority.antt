-- ===== src/Websearch/Authority.antt =====
-- hostIs and checkAuthority in internal/websearch/policy.go. A URL is read by url.Parse and a host
-- and its port by net.SplitHostPort, both parameters, nothing where they fail.
use mathlib.Core.List.{reverse}
use cogitorium.Prelude.{
  ℕ, Bool, false, ◌||◌, Option, none, some, List, [], ◌∷◌, any, ◌==◌, if◌then◌else◌, Text, codes,
  text_eq, to_lower,
}

pub record Url : Type 0 where
  pub scheme : Text
  pub has_user : Bool
  pub host : Text

-- strings.Trim(s, "[]")
abbrev pub is_bracket : ℕ → Bool
is_bracket c = c == b'[' || c == b']'

unfoldable pub drop_brackets : Text → Text
drop_brackets [] = []
drop_brackets (c ∷ s) = let rest = drop_brackets s in if is_bracket c then rest else c ∷ s

unfoldable pub trim_brackets : Text → Text
unfolding drop_brackets
trim_brackets s = reverse (drop_brackets (reverse (drop_brackets s)))

-- strings.TrimSuffix(s, ".")
abbrev pub drop_dot : Text → Text
drop_dot [] = []
drop_dot (c ∷ s) = if c == b'.' then s else c ∷ s

unfoldable pub trim_dot : Text → Text
trim_dot s = reverse (drop_dot (reverse s))

unfoldable pub normal_host : Text → Text
unfolding to_lower trim_dot trim_brackets
normal_host h = to_lower (trim_dot (trim_brackets h))

unfoldable pub permitted_hosts : List Text
permitted_hosts = codes "echo-page.com" ∷ codes "api.duckduckgo.com" ∷ []

module _ (split_host_port : Text → Option (Text × Text)) where
  abbrev host_in : Text → Option (Text × Text) → Text → Bool
  host_in authority none want = text_eq (normal_host authority) want
  host_in authority (some (host, port)) want =
      if text_eq port (codes "443") then text_eq (normal_host host) want else false

  unfoldable pub host_is : Text → Text → Bool
  unfolding normal_host text_eq
  host_is authority want = host_in authority (split_host_port authority) want

  abbrev authority_of : Option Url → Bool
  authority_of none = false
  authority_of (some u) =
      if text_eq u.scheme (codes "https")
      then if u.has_user then false else any (host_is u.host) permitted_hosts
      else false

  unfoldable pub check_authority : (Text → Option Url) → Text → Bool
  unfolding host_is permitted_hosts text_eq
  check_authority parse raw = authority_of (parse raw)
