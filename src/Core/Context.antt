-- ===== src/Core/Context.antt =====
-- internal/core/diffractcontext.go: the state of one request, as far as admission, routing and billing
-- read and write it.
use diffractllm.Base.{Bool, String, Option, ℤ}
use diffractllm.Pricing.Usage.{Usage}
use diffractllm.Core.Models.{CatalogKey, RequestKind}
use diffractllm.Core.VirtualKey.{VirtualKey}
use diffractllm.Core.Credential.{Credential}

pub record Context (F W : Type 0) : Type 0 where
  -- `Request.Header.Get`
  pub header : String → String
  pub request_kind : RequestKind
  pub model_key : CatalogKey
  pub client_id : String
  pub budget_ref : String
  pub virtual_key_id : String
  pub virtual_key_policy : Option (VirtualKey W)
  pub auth_frozen : Bool
  pub requested_model : String
  pub selected_credential : Option Credential
  pub upstream_model : String
  pub response_status : ℤ
  pub response_bytes : ℤ
  pub usage : Option (Usage F)
  pub cost : F
  pub started_at : ℤ
