-- ===== src/Api/Webhooks/Signatures.antt =====
-- api/webhooks.py: what an unsigned webhook can do.
use agentcompany.Prelude.{
  ◌≡◌, ◌≢◌, refl, String, Option, Bool, List, ℕ, is_empty, or_else, true, false, Bool-cases, inl,
  inr, ap, ◌∙◌,
}
use agentcompany.Exec.{
  ok, raise, bind_of_ok, bind_of_raise, raise_if_passes, raise_if, lift, Error, Result,
  raise_if_stops,
}
use agentcompany.Api.Webhooks.{WebhookServices, signed_webhook, verify_hmac, verify_signature}

module _ {W : Type 0} (services : WebhookServices W)
    (compare_lawful : (a b : String) → services.compare_digest a b ≡ ok true → a ≡ b) where
  -- A call that raises before anything changes.
  abbrev pub Refused : {A : Type 0} → Result A × W → W → Type 0
  Refused x w = (e : Error) × (x ≡ (raise e, w))

  verify_signature_refuses :
      (secret : String) (body : List ℕ) (header signature : String) (w : W)
      → services.hexdigest secret body ≢ services.remove_prefix "sha256=" signature
      → Refused (verify_signature services secret body header signature w) w
  unfolding verify_signature lift raise_if
  verify_signature_refuses secret body header signature w wrong =
      go
        (services.compare_digest (services.hexdigest secret body)
          (services.remove_prefix "sha256=" signature))
        refl
    where
      go :
          (r : Result Bool)
          → services.compare_digest
              (services.hexdigest secret body)
              (services.remove_prefix "sha256=" signature)
            ≡ r
          → Refused (verify_signature services secret body header signature w) w
      go (ok true) e = absurd (wrong (compare_lawful _ _ e))
      go (ok false) e = (_, bind_of_ok _ _ (ap (λ r. (r, w)) e))
      go (raise x) e = (x, bind_of_raise _ _ (ap (λ r. (r, w)) e))

  verify_hmac_refuses :
      (secret : String) (body : List ℕ) (signature : Option String) (header : String) (w : W)
      → services.hexdigest secret body ≢ services.remove_prefix "sha256=" (or_else signature "")
      → Refused (verify_hmac services secret body signature header w) w
  unfolding verify_hmac
  verify_hmac_refuses secret body signature header w wrong =
      elim (Bool-cases (is_empty (or_else signature ""))) [
        | inl e ↦ (_, bind_of_raise _ _ (raise_if_stops _ _ w e))
        | inr e ↦
            let (x, raised) =
              verify_signature_refuses secret body header (or_else signature "") w wrong in
            (x, bind_of_ok _ _ (raise_if_passes _ _ w e) ∙ raised)
      ]

  -- A webhook of Plane or Outline whose signature is missing or is not the HMAC of its body raises,
  -- and nothing is published or changed, whatever the body holds. Equal digests are the only ones
  -- that compare as equal.
  pub unsigned-Refused :
      (source title header secret : String) (body : List ℕ) (signature : Option String) (w : W)
      → services.hexdigest secret body ≢ services.remove_prefix "sha256=" (or_else signature "")
      → Refused (signed_webhook services source title header secret body signature w) w
  unfolding signed_webhook
  unsigned-Refused source title header secret body signature w wrong =
      elim (Bool-cases (is_empty secret)) [
        | inl e ↦ (_, bind_of_raise _ _ (raise_if_stops _ _ w e))
        | inr e ↦
            let (x, raised) = verify_hmac_refuses secret body signature header w wrong in
            (x, bind_of_ok _ _ (raise_if_passes _ _ w e) ∙ bind_of_raise _ _ raised)
      ]
