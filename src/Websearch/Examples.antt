-- ===== src/Websearch/Examples.antt =====
-- Tests of the search policy, and its theorems at concrete inputs.
use Prim.Native.Nat.{◌^◌}
use mathlib.Core.Logic.{◌↔◌}
use cogitorium.Prelude.{
  trim_space, ◌++◌, to_lower, ℕ, ◌+◌, ◌*◌, ◌<◌, ◌≤◌, ◌≡◌, refl, Bool, true, false, Option, none,
  some, [], ◌∷◌, arith, leb, ◌&&◌, ◌⊎◌, Text, codes, ◌||◌,
}
use cogitorium.Websearch.Address.{Address, v4, v6, dotted, grouped, permit}
use cogitorium.Websearch.Octets.{reserved}
use cogitorium.Websearch.Groups.{transition}
use cogitorium.Websearch.Reach.{permit_octets, permit_groups}
use cogitorium.Websearch.Authority.{Url, check_authority, normal_host, trim_dot, trim_brackets}
use cogitorium.Websearch.Permitted.{HostIs, check_authority_permits}
use cogitorium.Websearch.Query.{not_printable, sent, validate_query}
use cogitorium.Websearch.Approved.{IsQuery, HasBlob, sent_exactly}

nothing_local : Address → Bool
nothing_local ip = false

metadata_refused : permit nothing_local (some (v4 (dotted 169 254 169 254), 443)) ≡ false
unfolding permit
metadata_refused = refl

plain_port_refused : permit nothing_local (some (v4 (dotted 1 1 1 1), 80)) ≡ false
unfolding permit
plain_port_refused = refl

mapped_loopback_refused :
    permit nothing_local (some (v6 (0xffff * 2 ^ 32 + dotted 127 0 0 1) [], 443)) ≡ false
unfolding permit
mapped_loopback_refused = refl

resolver_permitted : permit nothing_local (some (v4 (dotted 1 1 1 1), 443)) ≡ true
unfolding permit nothing_local
resolver_permitted = refl

permit_octets_example : (permit nothing_local (some (v4 (dotted 1 1 1 1), 443)) ≡ true) ↔ (
    (◌≡◌ {A = ℕ} 443 443)
    × (reserved 1 1 1 1 ≡ false)
    × (nothing_local (v4 (dotted 1 1 1 1)) ≡ false))
permit_octets_example =
    permit_octets 1 1 1 1 (omega arith) (omega arith) (omega arith) (omega arith) nothing_local 443

permit_groups_example :
    (permit nothing_local (some (v6 (grouped 0x2606 0x4700 0x1111) [], 443)) ≡ true) ↔ (
      (◌≡◌ {A = ℕ} 443 443)
      × (◌≡◌ {A = Text} [] [])
      × ((0x2000 ≤ 0x2606) × (0x2606 < 0x4000))
      × (transition 0x2606 0x4700 ≡ false)
      × (nothing_local (v6 (grouped 0x2606 0x4700 0x1111) []) ≡ false))
permit_groups_example =
    permit_groups 0x2606 0x4700 0x1111 (omega arith) (omega arith) (omega arith) nothing_local []
      443 (ground arith)

-- a host alone, and a URL that is read as its host
no_port : Text → Option (Text × Text)
no_port authority = none

https_only : Text → Option Url
https_only raw = some (record { scheme = codes "https"; has_user = false; host = raw })

upper_case_permitted : check_authority no_port https_only (codes "Echo-Page.com.") ≡ true
unfolding check_authority no_port https_only
upper_case_permitted = refl

check_authority_permits_example :
    (u : Url) × (https_only (codes "Echo-Page.com.") ≡ some u)
    × (u.scheme ≡ codes "https")
    × (u.has_user ≡ false)
    × (HostIs no_port u.host (codes "echo-page.com")
        ⊎ HostIs no_port u.host (codes "api.duckduckgo.com"))
check_authority_permits_example =
    check_authority_permits no_port https_only (codes "Echo-Page.com.") upper_case_permitted

ascii_letter : ℕ → Bool
ascii_letter c = (leb b'a' c && leb c b'z') || (leb b'A' c && leb c b'Z')

ascii_number : ℕ → Bool
ascii_number c = leb b'0' c && leb c b'9'

control_refused : validate_query ascii_letter ascii_number (0x200b ∷ codes "go") ≡ not_printable
unfolding validate_query ascii_letter ascii_number
control_refused = refl

query_passes :
    validate_query ascii_letter ascii_number (codes " go maps ") ≡ sent (codes "go maps") false
unfolding validate_query ascii_letter ascii_number
query_passes = refl

sent_exactly_example :
    (validate_query ascii_letter ascii_number (codes " go maps ") ≡ sent (codes "go maps") false)
    ↔ ((codes "go maps" ≡ trim_space (codes " go maps "))
        × IsQuery ascii_letter ascii_number (codes "go maps")
        × ((◌≡◌ {A = Bool} false true) ↔ HasBlob (codes "go maps")))
sent_exactly_example =
    sent_exactly ascii_letter ascii_number (codes " go maps ") (codes "go maps") false

-- a host with the Kelvin sign
kelvin_permitted :
    check_authority no_port https_only (codes "api.duc" ++ 0x212a ∷ codes "duckgo.com") ≡ true
unfolding check_authority no_port https_only normal_host to_lower trim_dot trim_brackets
kelvin_permitted = refl
