-- ===== src/Engine/Llm/Pricing.antt =====
-- engine/llm/types.py: prices and context windows of the models, and the cost of a call.
use agentcompany.Prelude.{ℕ, Option, Dict, some, none, ◌∷◌, []}
use agentcompany.Prelude.Int.{ℤ, pos}

-- USD per million tokens, in cents.
pub record PricingConfig : Type 0 where
  pub input_per_million : ℕ
  pub output_per_million : ℕ
  pub cache_write_per_million : Option ℕ
  pub cache_read_per_million : Option ℕ

abbrev priced : ℕ → ℕ → PricingConfig
priced a b = record {
  input_per_million = a;
  output_per_million = b;
  cache_write_per_million = none;
  cache_read_per_million = none;
}

abbrev cached : ℕ → ℕ → ℕ → ℕ → PricingConfig
cached a b c d = record {
  input_per_million = a;
  output_per_million = b;
  cache_write_per_million = some c;
  cache_read_per_million = some d;
}

abbrev pub sonnet_pricing : PricingConfig
sonnet_pricing = cached 300 1500 375 30

abbrev pub gpt_4o_pricing : PricingConfig
gpt_4o_pricing = priced 250 1000

abbrev pub anthropic_pricing : Dict PricingConfig
anthropic_pricing =
    ("claude-opus-4-5", cached 1500 7500 1875 150)
    ∷ ("claude-sonnet-4-6", sonnet_pricing)
    ∷ ("claude-haiku-4-5", cached 80 400 100 8)
    ∷ ("claude-3-5-haiku", cached 80 400 100 8)
    ∷ []

abbrev pub openai_pricing : Dict PricingConfig
openai_pricing =
    ("gpt-4o", gpt_4o_pricing)
    ∷ ("gpt-4o-mini", priced 15 60)
    ∷ ("gpt-4-turbo", priced 1000 3000)
    ∷ ("o3", priced 1000 4000)
    ∷ ("o4-mini", priced 110 440)
    ∷ []

abbrev pub anthropic_context_windows : Dict ℕ
anthropic_context_windows =
    ("claude-opus-4-5", 200000)
    ∷ ("claude-sonnet-4-6", 200000)
    ∷ ("claude-haiku-4-5", 200000)
    ∷ ("claude-3-5-haiku", 200000)
    ∷ []

abbrev pub openai_context_windows : Dict ℕ
openai_context_windows =
    ("gpt-4o", 128000)
    ∷ ("gpt-4o-mini", 128000)
    ∷ ("gpt-4-turbo", 128000)
    ∷ ("o3", 200000)
    ∷ ("o4-mini", 200000)
    ∷ []

-- The operations on floats that a price needs; `cents n` is the literal of n hundredths.
pub record Prices (F : Type 0) : Type 0 where
  pub cents : ℕ → F
  pub of_int : ℤ → F
  pub add : F → F → F
  pub mul : F → F → F
  pub div : F → F → F

module _ {F : Type 0} (prices : Prices F) where
  open prices use {cents, of_int, add, mul, div}

  -- `cost_per_token`
  unfoldable pub cost_per_token : PricingConfig → F × F
  cost_per_token p = (
    div (cents p.input_per_million) (of_int (pos 1000000)),
    div (cents p.output_per_million) (of_int (pos 1000000)),
  )

  -- `_calculate_cost`
  unfoldable pub calculate_cost : PricingConfig → ℤ → ℤ → F
  calculate_cost p input_tokens output_tokens =
      add (div (mul (of_int input_tokens) (cents p.input_per_million)) (of_int (pos 1000000)))
        (div (mul (of_int output_tokens) (cents p.output_per_million)) (of_int (pos 1000000)))
