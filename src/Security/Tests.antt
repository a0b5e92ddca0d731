-- ===== src/Security/Tests.antt =====
-- The theorems on app/core/security.py at concrete inputs.
use noxis_api_provider.Prelude.{◌+◌, ◌≡◌, ◌↔◌, refl, true, false, some, [], ◌∷◌, arith}
use noxis_api_provider.Security.{ipv4, ipv6, is_in, is_private, ParsedUrl, validate_outbound_url}
use noxis_api_provider.Security.Access.{IsPrivate4, is_private-both}

-- 127.0.0.1 and ::ffff:127.0.0.1
is_private-both_example :
    ((is_private (ipv4 2_130_706_433) ≡ true) ↔ IsPrivate4 2_130_706_433)
    × (is_private (ipv6 (281_470_681_743_360 + 2_130_706_433)) ≡ false)
is_private-both_example = is_private-both 2_130_706_433 (omega arith)

-- A public address passes, the loopback address does not.
abbrev url : ParsedUrl
url = record { scheme = "https"; hostname = some "example.org" }

url_lem :
    (validate_outbound_url (λ host. some (ipv4 0x5DB8D822 ∷ [])) url ≡ true)
    × (validate_outbound_url (λ host. some (ipv4 0x7F000001 ∷ [])) url ≡ false)
unfolding validate_outbound_url is_private is_in
url_lem = (refl, refl)
