-- ===== src/Security.antt =====
-- app/core/security.py: the keys of the gateway, and the guard on outbound URLs. SHA-256, the parsing
-- of URLs and the resolver are parameters, as are Python's `lower` and `strip`.
pub mod Access
pub mod Tests
use noxis_api_provider.Prelude.{
  ℕ, String, ◌≡◌, refl, ◌⊎◌, inl, inr, Bool, true, false, not, ◌||◌, Option, none, some, List, [],
  ◌∷◌, map, any, ◌/◌, ◌^◌, ◌==◌, str_eq, if◌then◌else◌,
}
use noxis_api_provider.Errors.{NoxisError, authentication_error, permission_denied_error}
use noxis_api_provider.Adapter.{take_chars, drop_chars}

-- hashlib.sha256(...).hexdigest(), str.lower, str.strip
pub record Text : Type 0 where
  pub hash_key : String → String
  pub lower : String → String
  pub strip : String → String

-- The hashes of the gateway's keys; the set is a list.
pub record KeyAuthenticator : Type 0 where
  pub valid_hashes : List String

-- A value, or the error that is raised.
pub data Result {ℓ} (A : Type ℓ) : Type ℓ where
  accepted : A → Result A
  refused : NoxisError → Result A

pub Result-cases {ℓ} :
    {A : Type ℓ} (r : Result A)
    → ((e : NoxisError) × (r ≡ refused e)) ⊎ ((a : A) × (r ≡ accepted a))
Result-cases (refused e) = inl (e, refl)
Result-cases (accepted a) = inr (a, refl)

module _ (py : Text) where
  -- KeyAuthenticator.__init__ and refresh, on settings.gateway_keys
  unfoldable pub authenticator : List String → KeyAuthenticator
  authenticator gateway_keys = record { valid_hashes = map py.hash_key gateway_keys }

  unfoldable pub is_valid : KeyAuthenticator → String → Bool
  is_valid a raw_key = any (str_eq (py.hash_key raw_key)) a.valid_hashes

  unfoldable pub key_id : String → String
  key_id raw_key = take_chars 12 (py.hash_key raw_key)

  -- From the value of the header, if there is one; auth[7:] is what follows "Bearer ".
  unfoldable pub extract_bearer_token : Option String → Option String
  extract_bearer_token none = none
  extract_bearer_token (some auth) =
      if str_eq auth "" || not (str_eq (take_chars 7 (py.lower auth)) "bearer ")
      then none
      else some (py.strip (drop_chars 7 auth))

  unfoldable pub require_auth : Option String → KeyAuthenticator → Bool → Result String
  unfolding is_valid key_id
  require_auth header a allow_unauthenticated = elim (extract_bearer_token header) [
    | none ↦
        if allow_unauthenticated
        then accepted "anonymous"
        else refused (authentication_error "Missing Authorization: Bearer <NOXIS key> header.")
    | some token ↦
        if not (is_valid a token)
        then refused (authentication_error "Invalid NOXIS API key.")
        else accepted (key_id token)
  ]

  -- `require_master` of app/api/admin.py, behind `authenticate`, which has given the key id.
  unfoldable pub require_master : Option String → String → String → Result String
  require_master header master_key id = elim (extract_bearer_token header) [
    | none ↦ refused (permission_denied_error "Admin endpoints require the NOXIS master key.")
    | some token ↦
        if str_eq master_key ""
          || (str_eq token "" || not (str_eq (py.hash_key token) (py.hash_key master_key)))
        then refused (permission_denied_error "Admin endpoints require the NOXIS master key.")
        else accepted id
  ]

-- An address that `ipaddress` has parsed.
pub data Address : Type 0 where
  ipv4 ipv6 : ℕ → Address

-- A network: the version, the prefix as a number, and the bits after it.
pub record Network : Type 0 where
  pub is_v4 : Bool
  pub prefix : ℕ
  pub host_bits : ℕ

-- ip in net: of the same version, with the same prefix
unfoldable pub is_in : Address → Network → Bool
is_in (ipv4 a) net = if net.is_v4 then a / 2 ^ net.host_bits == net.prefix else false
is_in (ipv6 a) net = if net.is_v4 then false else a / 2 ^ net.host_bits == net.prefix

-- _PRIVATE_NETS, in its order.
abbrev pub private_nets : List Network
private_nets =
    record { is_v4 = true; prefix = 127; host_bits = 24 }
    ∷ record { is_v4 = true; prefix = 10; host_bits = 24 }
    ∷ record { is_v4 = true; prefix = 0xAC1; host_bits = 20 }
    ∷ record { is_v4 = true; prefix = 0xC0A8; host_bits = 16 }
    ∷ record { is_v4 = true; prefix = 0xA9FE; host_bits = 16 }
    ∷ record { is_v4 = false; prefix = 1; host_bits = 0 }
    ∷ record { is_v4 = false; prefix = 0x7E; host_bits = 121 }
    ∷ record { is_v4 = false; prefix = 0x3FA; host_bits = 118 }
    ∷ record { is_v4 = true; prefix = 0; host_bits = 24 }
    ∷ []

unfoldable pub is_private : Address → Bool
is_private ip = any (is_in ip) private_nets

-- A URL that `urlparse` has parsed.
pub record ParsedUrl : Type 0 where
  pub scheme : String
  pub hostname : Option String

-- The addresses of a host, `none` for the error of the resolver.
abbrev pub Resolver : Type 0
Resolver = String → Option (List Address)

-- Whether the URL is let through; the texts of the refusals are left out.
unfoldable pub validate_outbound_url : Resolver → ParsedUrl → Bool
unfolding is_private
validate_outbound_url resolve url =
    if not (str_eq url.scheme "http" || str_eq url.scheme "https")
    then false
    else elim url.hostname [
      | none ↦ false
      | some host ↦
          if str_eq host ""
          then false
          else elim (resolve host) [ none ↦ false | some infos ↦ not (any is_private infos) ]
    ]
