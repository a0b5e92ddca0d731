-- ===== src/Security/Access.antt =====
-- Who gets past app/core/security.py, and which URLs.
use noxis_api_provider.Prelude.{
  ℕ, ◌+◌, ◌≤◌, ◌<◌, String, ◌≡◌, ◌≢◌, ◌↔◌, ◌⊎◌, inl, inr, Bool, true, false, Option, some, List, [],
  ◌∷◌, map, any, All, In, Bool-cases, Option-cases, str_eq, str_eq_iff, arith,
}
use noxis_api_provider.Security.{
  Text, KeyAuthenticator, authenticator, is_valid, key_id, extract_bearer_token, require_auth,
  accepted, require_master, Address, ipv4, ipv6, is_in, is_private, ParsedUrl, Resolver,
  validate_outbound_url,
}

any-In : (h : String) (hs : List String) → any (str_eq h) hs ≡ true → In h hs
any-In h [] e = absurd (ground arith)
any-In h (x ∷ hs) e = elim (Bool-cases (str_eq h x)) [
  | inl same ↦ inl ((str_eq_iff h x).0 same)
  | inr other ↦ inr (any-In h hs (ground arith))
]

-- Unless requests without a key are allowed, an accepted request has a token whose hash is known.
pub require_auth-known :
    (py : Text) (header : Option String) (a : KeyAuthenticator) (id : String)
    → require_auth py header a false ≡ accepted id
    → (token : String) × ((extract_bearer_token py header ≡ some token)
        × (In (py.hash_key token) a.valid_hashes × (id ≡ key_id py token)))
unfolding require_auth
require_auth-known py header a id h = elim (Option-cases (extract_bearer_token py header)) [
  | inl e ↦ absurd (ground (arith, e))
  | inr (token, e) ↦
      let valid : is_valid py a token ≡ true = ground (arith, e) in
      (
        token,
        (e, (unfold is_valid in any-In (py.hash_key token) _ valid, ground (arith, e, valid))),
      )
]

-- Unless requests without a key are allowed, a request is accepted only with a bearer token whose hash
-- is that of a configured gateway key, and then under the id of that token.
pub require_auth-accepted :
    (py : Text) (header : Option String) (keys : List String) (id : String)
    → require_auth py header (authenticator py keys) false ≡ accepted id
    → (token : String) × ((extract_bearer_token py header ≡ some token)
        × (In (py.hash_key token) (map py.hash_key keys) × (id ≡ key_id py token)))
unfolding authenticator
require_auth-accepted py header keys id h =
    require_auth-known py header (authenticator py keys) id h

-- An administrator's request is accepted only if a master key is configured and the token hashes as it
-- does; the key of a client does not do.
pub require_master-accepted :
    (py : Text) (header : Option String) (master_key id i : String)
    → require_master py header master_key id ≡ accepted i
    → (token : String) × ((extract_bearer_token py header ≡ some token)
        × ((py.hash_key token ≡ py.hash_key master_key) × ((master_key ≢ "") × (i ≡ id))))
unfolding require_master
require_master-accepted py header master_key id i h =
    elim (Option-cases (extract_bearer_token py header)) [
      | inl e ↦ absurd (ground (arith, e))
      | inr (token, e) ↦ (
        token,
        (
          e,
          (
            ground (arith, e, str_eq_iff (py.hash_key token) (py.hash_key master_key)),
            (λ q. ground (arith, e, str_eq_iff master_key "", q), ground (arith, e)),
          ),
        ),
      )
    ]

-- The private ranges of IPv4 that the module lists, as bounds.
abbrev pub Between : ℕ → ℕ → ℕ → Type 0
Between lo hi a = (lo ≤ a) × (a < hi)

abbrev pub IsPrivate4 : ℕ → Type 0
IsPrivate4 a =
    Between 0 16_777_216 a
    ⊎ (Between 167_772_160 184_549_376 a
        ⊎ (Between 2_130_706_432 2_147_483_648 a
            ⊎ (Between 2_851_995_648 2_852_061_184 a
                ⊎ (Between 2_886_729_728 2_887_778_304 a ⊎ Between 3_232_235_520 3_232_301_056 a))))

-- The test of networks finds exactly the addresses of 0/8, 10/8, 127/8, 169.254/16, 172.16/12 and
-- 192.168/16.
is_private_iff : (a : ℕ) → (is_private (ipv4 a) ≡ true) ↔ IsPrivate4 a
unfolding is_private is_in
is_private_iff a = (λ h. ground arith, λ h. ground arith)

-- An IPv4 address that is written as an IPv6 one (::ffff:a.b.c.d) is never found private, whatever its
-- range.
is_private-mapped :
    (a : ℕ) → a < 4_294_967_296 → is_private (ipv6 (281_470_681_743_360 + a)) ≡ false
unfolding is_private is_in
is_private-mapped a h = ground arith

-- Of the addresses of version 4 the test of networks finds exactly those of 0/8, 10/8, 127/8, 169.254/16,
-- 172.16/12 and 192.168/16; but written as one of version 6 (::ffff:a.b.c.d), none of them is found.
pub is_private-both :
    (a : ℕ)
    → a < 4_294_967_296
    → ((is_private (ipv4 a) ≡ true) ↔ IsPrivate4 a)
      × (is_private (ipv6 (281_470_681_743_360 + a)) ≡ false)
is_private-both a h = (is_private_iff a, is_private-mapped a h)

any-false : {A : Type 0} (p : A → Bool) (xs : List A) → any p xs ≡ false → All (λ x. p x ≡ false) xs
any-false p [] h = tt
any-false p (x ∷ xs) h = (ground arith, any-false p xs (ground arith))

-- A URL is let through only if its scheme is http or https, and its host resolves, to addresses none of
-- which is private.
pub validate_outbound_url-accepts :
    (resolve : Resolver) (url : ParsedUrl)
    → validate_outbound_url resolve url ≡ true
    → ((url.scheme ≡ "http") ⊎ (url.scheme ≡ "https"))
      × ((host : String) × ((infos : List Address) × ((url.hostname ≡ some host)
              × ((resolve host ≡ some infos) × All (λ ip. is_private ip ≡ false) infos))))
unfolding validate_outbound_url
validate_outbound_url-accepts resolve url h =
    let scheme : (url.scheme ≡ "http") ⊎ (url.scheme ≡ "https") =
      ground (arith, str_eq_iff url.scheme "http", str_eq_iff url.scheme "https") in
    elim (Option-cases url.hostname) [
      | inl e ↦ absurd (ground (arith, e))
      | inr (host, e) ↦ elim (Option-cases (resolve host)) [
        | inl q ↦ absurd (ground (arith, e, q))
        | inr (infos, q) ↦
            (scheme, (host, (infos, (e, (q, any-false is_private infos (ground (arith, e, q)))))))
      ]
    ]
