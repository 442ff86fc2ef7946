-- ===== src/Core/Security/Offline.antt =====
-- core/security.py: requests while the key set is fresh.
use Prim.Native.String.{◌++◌}
use agentcompany.Prelude.{◌≡◌, refl, String, Option, ℕ, true, List, [], ◌∷◌, ◌-◌, ltb, ◌∙◌, Bool}
use agentcompany.Exec.{ok, raise, Error, Result, raise_if, lift, pure, auth_error}
use agentcompany.Exec.Hoare.{Keeps, keeps_bind, triple_state, state_of}
use agentcompany.Json.{Json, Fields, truthy}
use agentcompany.Core.Security.{
  SecurityServices, Security, Decoded, claims_of, jwt_error, other_error, fetch_jwks, decode_token,
  read_claims, validate_token, or_unauthorized, get_token_claims, jwks_ttl,
}

module _ {W : Type 0} (services : SecurityServices W) where
  open services use {decode, partition_space, lower}

  -- The states of the module after requests, each with its time and its header.
  abbrev pub after_requests : List (ℕ × Option String) → Security W → Security W
  after_requests [] s = s
  after_requests ((now, authorization) ∷ requests) s =
      after_requests requests (get_token_claims services now authorization s).1

  -- Every request comes less than the time to live after the time of the key set.
  abbrev pub WithinTtl : ℕ → List (ℕ × Option String) → Type 0
  WithinTtl fetched_at [] = Unit
  WithinTtl fetched_at ((now, authorization) ∷ requests) =
      (ltb (now - fetched_at) jwks_ttl ≡ true) × WithinTtl fetched_at requests

  decode_token_state :
      (token : String) (keys : Json) (s : Security W) → (decode_token services token keys s).1 ≡ s
  unfolding decode_token
  decode_token_state token keys s = go (decode token keys)
    where
      go :
          (d : Decoded)
          → (elim d as (λ _. Result Fields × Security W) [
            | claims_of claims ↦ (ok claims, s)
            | jwt_error e ↦ (raise (auth_error ("Invalid token: " ++ services.error_text e)), s)
            | other_error e ↦ (raise e, s)
          ]).1
            ≡ s
      go (claims_of claims) = refl
      go (jwt_error e) = refl
      go (other_error e) = refl

  module _ (s : Security W) where
    abbrev Same : Security W → Type 0
    Same t = t ≡ s

    raise_if-Keeps : (b : Bool) (e : Error) → Keeps Same (raise_if b e)
    unfolding raise_if
    raise_if-Keeps b e = triple_state _ (λ t h. h)

    read_claims-Keeps : (payload : Fields) → Keeps Same (read_claims services payload)
    unfolding read_claims lift pure
    read_claims-Keeps payload = keeps_bind _ _ (raise_if-Keeps _ _) (λ _.
        keeps_bind _ _ (raise_if-Keeps _ _)
          (λ _. keeps_bind _ _ (triple_state _ (λ t h. h)) (λ roles. triple_state _ (λ t h. h))))

    module _ (now : ℕ) (cached : truthy s.jwks_cache ≡ true)
        (fresh : ltb (now - s.jwks_fetched_at) jwks_ttl ≡ true) where
      fetch_jwks-Keeps : Keeps Same (fetch_jwks services now)
      unfolding fetch_jwks
      fetch_jwks-Keeps = triple_state _ (λ t h. rw (h, cached, fresh, fetch_jwks) refl)

      validate_token-Keeps : (token : String) → Keeps Same (validate_token services now token)
      unfolding validate_token
      validate_token-Keeps token = keeps_bind _ _ fetch_jwks-Keeps (λ keys.
          keeps_bind _ _ (triple_state _ (λ t h. decode_token_state token keys t ∙ h))
            read_claims-Keeps)

      get_token_claims-Keeps :
          (authorization : Option String) → Keeps Same (get_token_claims services now authorization)
      unfolding get_token_claims or_unauthorized
      get_token_claims-Keeps authorization = keeps_bind _ _ (raise_if-Keeps _ _) (λ _.
          keeps_bind _ _ (raise_if-Keeps _ _)
            (λ _. triple_state _ (λ t h. state_of (validate_token-Keeps _) t h)))

  -- While the key set is fresh, requests change nothing and ask nothing of Keycloak, whatever their
  -- headers are: the cache, its time and the world of the network stay as they are.
  pub fresh_cache_serves :
      (requests : List (ℕ × Option String)) (s : Security W)
      → truthy s.jwks_cache ≡ true
      → WithinTtl s.jwks_fetched_at requests
      → after_requests requests s ≡ s
  fresh_cache_serves [] s cached within = refl
  fresh_cache_serves ((now, authorization) ∷ requests) s cached (fresh, within) =
      rw (state_of (get_token_claims-Keeps s now cached fresh authorization) s refl)
        (fresh_cache_serves requests s cached within)
