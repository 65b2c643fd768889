-- ===== src/Server/Answer.antt =====
-- internal/server/utils.go, with internal/core/money.go: the fields of the context that an answer sets.
use diffractllm.Base.{Bool, String, Option, none, some, ℕ, ℤ, pos, add64}
use diffractllm.Core.Errors.{DiffractError}
use diffractllm.Core.Money.{FloatMoney, to_nano_usd}
use diffractllm.Pricing.Cost.{calculate_cost}
use diffractllm.Pricing.Merge.{Pricing}
use diffractllm.Pricing.Float.{Float64}
use diffractllm.Pricing.Usage.{Usage}

pub record Answer (F : Type 0) : Type 0 where
  pub response_status : ℤ
  pub response_bytes : ℤ
  pub error : Option DiffractError
  pub request_completed : Bool
  pub usage : Option (Usage F)
  pub cost : F
  -- the word of an `int32`
  pub stream_chunks : ℕ
  pub stream_finish_reason : String
  pub stream_aborted : Bool

-- An amount of money as Go computes with it: `from_nano` is `FromNanoUSD`.
pub record Pricer (F : Type 0) : Type 0 where
  pub float : Float64 F
  pub money : FloatMoney F
  pub from_nano : ℤ → F

module _ {F : Type 0} where
  unfoldable pub price_of : Pricer F → Pricing F → Usage F → F
  price_of pr pricing usage =
      pr.from_nano (to_nano_usd pr.money (calculate_cost pr.float pricing usage))

  unfoldable pub price : Pricer F → Pricing F → Answer F → Answer F
  unfolding price_of
  price pr pricing a = elim a.usage [
    | none ↦ a
    | some usage ↦ record a { cost = price_of pr pricing usage }
  ]

  -- Bytes that were written to the client.
  unfoldable pub sent : ℤ → Answer F → Answer F
  unfolding add64
  sent n a = record a { response_bytes = add64 a.response_bytes n }

  -- `size` is how many bytes of the error's JSON were written.
  unfoldable pub write_err : ℤ → DiffractError → Answer F → Answer F
  unfolding sent
  write_err size e a = sent size (record a { response_status = pos e.status_code; error = some e })
