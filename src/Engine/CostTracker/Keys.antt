-- ===== src/Engine/CostTracker/Keys.antt =====
-- The Redis keys of one agent do not clash.
use Prim.Native.Char.{Char, code}
use Prim.Native.String.{◌++◌, String}
use text.Mathlib.TextLemmas.{append_cancel_left, append_assoc, cons-append}
use agentcompany.Prelude.{◌≡◌, ℕ, ◌≢◌, sym, arith, ◌∙◌, ap}
use agentcompany.Engine.CostTracker.{
  daily_tokens_key, monthly_tokens_key, daily_usd_key, monthly_usd_key,
}

abbrev first : String → ℕ
first String.[] = 0
first (String.◌∷◌ c s) = code c

-- Two texts that differ at the character after a common beginning.
texts_apart :
    (p a b s t : String) (c d : Char)
    → code c ≢ code d
    → (p ++ String.◌∷◌ c a) ++ s ≢ (p ++ String.◌∷◌ d b) ++ t
texts_apart p a b s t c d h e = h (ap first (sym (cons-append c a s) ∙ rest ∙ cons-append d b t))
  where
    rest : (String.◌∷◌ c a) ++ s ≡ (String.◌∷◌ d b) ++ t
    rest =
        append_cancel_left p _ _
          (sym (append_assoc p (String.◌∷◌ c a) s) ∙ e ∙ append_assoc p (String.◌∷◌ d b) t)

-- The four keys of one agent differ, whatever the days and months are.
pub keys_ne :
    (id day month : String)
    → (daily_tokens_key id day ≢ monthly_tokens_key id month)
      × (daily_tokens_key id day ≢ daily_usd_key id day)
      × (daily_tokens_key id day ≢ monthly_usd_key id month)
      × (monthly_tokens_key id month ≢ daily_usd_key id day)
      × (monthly_tokens_key id month ≢ monthly_usd_key id month)
      × (daily_usd_key id day ≢ monthly_usd_key id month)
unfolding daily_tokens_key monthly_tokens_key daily_usd_key monthly_usd_key
keys_ne id day month = (
  (λ e.
      texts_apart ":" "aily_tokens:" "onthly_tokens:" day month "d" "m" (omega arith)
        (under _ _ e)),
  (λ e. texts_apart ":daily_" "okens:" "sd:" day day "t" "u" (omega arith) (under _ _ e)),
  (λ e. texts_apart ":" "aily_tokens:" "onthly_usd:" day month "d" "m" (omega arith) (under _ _ e)),
  (λ e. texts_apart ":" "onthly_tokens:" "aily_usd:" month day "m" "d" (omega arith) (under _ _ e)),
  (λ e. texts_apart ":monthly_" "okens:" "sd:" month month "t" "u" (omega arith) (under _ _ e)),
  (λ e. texts_apart ":" "aily_usd:" "onthly_usd:" day month "d" "m" (omega arith) (under _ _ e)),
)
  where
    under : (s t : String) → "budget:agent:" ++ (id ++ s) ≡ "budget:agent:" ++ (id ++ t) → s ≡ t
    under s t e =
        append_cancel_left id s t (append_cancel_left "budget:agent:" (id ++ s) (id ++ t) e)
