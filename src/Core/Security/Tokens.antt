-- ===== src/Core/Security/Tokens.antt =====
-- core/security.py and dependencies.py: whom the API lets in, and with which keys.
use Prim.Native.String.{◌++◌}
use agentcompany.Prelude.{
  ◌≡◌, refl, String, Option, ℕ, true, false, ◌&&◌, ◌-◌, ltb, or_else, Bool-cases, inl, inr, ◌⊎◌, ap,
  ◌∙◌, arith, eq_iff, sym,
}
use agentcompany.Exec.{
  Exec, ok, raise, Result, bind_inversion, raise_if_inversion, pure_inversion, raise_if, auth_error,
}
use agentcompany.Json.{Json, Fields, get, null, truthy}
use agentcompany.Core.Security.{
  TokenClaims, SecurityServices, Security, Decoded, claims_of, jwt_error, other_error, is_missing,
  token_claims, fetch_jwks, refreshed, decode_token, read_claims, validate_token, or_unauthorized,
  get_token_claims, jwks_ttl, unauthorized,
}

module _ {W : Type 0} (services : SecurityServices W) where
  open services use {download, decode, partition_space, lower}

  -- Keys that were cached, or that Keycloak gave for this request.
  abbrev pub KnownKeys : Security W → Json → Type 0
  KnownKeys s keys =
      ((truthy s.jwks_cache ≡ true) × (keys ≡ s.jwks_cache)) ⊎ ((download s.world).0 ≡ ok keys)

  -- Claims of a token that the keys verify, with a subject and an organisation.
  abbrev pub Verified : Json → String → TokenClaims → Type 0
  Verified keys token c =
      (payload : Fields) × (decode token keys ≡ claims_of payload)
      × (is_missing (get "sub" payload) ≡ false)
      × (is_missing (get "org_id" payload) ≡ false)
      × (c.sub ≡ or_else (get "sub" payload) null)
      × (c.org_id ≡ or_else (get "org_id" payload) null)

  refreshed-KnownKeys :
      (now : ℕ) (s : Security W) (x : Result Json × W) {keys : Json}
      → download s.world ≡ x
      → (refreshed services now s x).0 ≡ ok keys
      → KnownKeys s keys
  refreshed-KnownKeys now s (ok k, w) e h = inr (ap (λ y. y.0) e ∙ h)
  refreshed-KnownKeys now s (raise x, w) e h = elim (Bool-cases (truthy s.jwks_cache)) [
    | inl t ↦ inl (t, cc (rw t at h))
    | inr t ↦ cc (rw t at h)
  ]

  fetch_jwks-KnownKeys :
      (now : ℕ) (s : Security W) {keys : Json}
      → (fetch_jwks services now s).0 ≡ ok keys
      → KnownKeys s keys
  unfolding fetch_jwks
  fetch_jwks-KnownKeys now s h =
      elim (Bool-cases (truthy s.jwks_cache && ltb (now - s.jwks_fetched_at) jwks_ttl)) [
        | inl t ↦ inl (ground (arith, t), cc (rw t at h))
        | inr t ↦ refreshed-KnownKeys now s (download s.world) refl (rw t at h)
      ]

  decode_token_inversion :
      (token : String) (keys : Json) (s : Security W) {payload : Fields}
      → (decode_token services token keys s).0 ≡ ok payload
      → decode token keys ≡ claims_of payload
  unfolding decode_token
  decode_token_inversion token keys s {payload} h = go (decode token keys) h
    where
      go :
          (d : Decoded)
          → (elim d as (λ _. Result Fields × Security W) [
            | claims_of claims ↦ (ok claims, s)
            | jwt_error e ↦ (raise (auth_error ("Invalid token: " ++ services.error_text e)), s)
            | other_error e ↦ (raise e, s)
          ]).0
            ≡ ok payload
          → d ≡ claims_of payload
      go (claims_of claims) h = cc
      go (jwt_error e) h = cc
      go (other_error e) h = cc

  read_claims-Verified :
      (keys : Json) (token : String) (payload : Fields) (s : Security W) {c : TokenClaims}
      → decode token keys ≡ claims_of payload
      → (read_claims services payload s).0 ≡ ok c
      → Verified keys token c
  unfolding read_claims
  read_claims-Verified keys token payload s {c} decoded h =
      let (_, has_sub, h1) = bind_inversion _ _ s h in
      let (_, has_org, h2) = bind_inversion _ _ _ h1 in
      let (roles, _, h3) = bind_inversion _ _ _ h2 in
      let same : token_claims payload roles ≡ c = pure_inversion _ _ h3 in
      (
        payload,
        decoded,
        raise_if_inversion _ _ _ has_sub,
        raise_if_inversion _ _ _ has_org,
        ap (λ x. x.sub) (sym same),
        ap (λ x. x.org_id) (sym same),
      )

  validate_token-Verified :
      (now : ℕ) (token : String) (s : Security W) {c : TokenClaims}
      → (validate_token services now token s).0 ≡ ok c
      → (keys : Json) × KnownKeys s keys × Verified keys token c
  unfolding validate_token
  validate_token-Verified now token s h =
      let (keys, fetched, h1) = bind_inversion _ _ s h in
      let (payload, decoded, h2) = bind_inversion _ _ _ h1 in
      (
        keys,
        fetch_jwks-KnownKeys now s fetched,
        read_claims-Verified keys token payload _ (decode_token_inversion token keys _ decoded) h2,
      )

  or_unauthorized_inversion :
      {A : Type 0} (m : Exec (Security W) A) (s : Security W) {a : A}
      → (or_unauthorized services m s).0 ≡ ok a
      → (m s).0 ≡ ok a
  unfolding or_unauthorized
  or_unauthorized_inversion {A} m s {a} h = go (m s).0 h
    where
      go :
          (r : Result A)
          → (elim r as (λ _. Result A) [ ok b ↦ ok b | raise e ↦ raise (unauthorized e) ]) ≡ ok a
          → r ≡ ok a
      go (ok b) h = h
      go (raise e) h = cc

  -- A request is let in only by a header whose scheme is "bearer" and whose token decodes, under keys
  -- that were cached or that Keycloak gives, to claims with a subject and an organisation, which are
  -- those of the caller.
  pub get_token_claims-Verified :
      (now : ℕ) (authorization : Option String) (s : Security W) {c : TokenClaims}
      → (get_token_claims services now authorization s).0 ≡ ok c
      → (lower (partition_space (or_else authorization "")).0 ≡ "bearer")
        × ((keys : Json) × KnownKeys s keys
            × Verified keys (partition_space (or_else authorization "")).1 c)
  unfolding get_token_claims raise_if
  get_token_claims-Verified now authorization s h =
      let (_, given, h1) = bind_inversion _ _ s h in
      let (_, bearer, h2) = bind_inversion _ _ s h1 in
      let scheme = raise_if_inversion _ _ s bearer in
      (
        ground
            (arith, scheme, eq_iff (lower (partition_space (or_else authorization "")).0) "bearer"),
        validate_token-Verified now _ s (or_unauthorized_inversion _ s h2),
      )
