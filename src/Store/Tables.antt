-- ===== src/Store/Tables.antt =====
-- internal/dbstore: the rows of virtual keys and budgets (virtualkeys.go, budget.go), and a transaction.
-- What gorm and the database do is an argument: which statements fail, and the cipher of the secrets.
use text.Mathlib.Text.{◌==◌}
use diffractllm.Base.{
  Bool, false, String, Option, none, some, ℤ, List, Map, Result, ok, err, if◌then◌else◌, ◌≡◌,
  string_eq, lookup,
}
use diffractllm.Core.VirtualKey.{ProviderConfig}

pub record StoreVirtualKey (W : Type 0) : Type 0 where
  pub id : String
  pub key_hash : String
  -- sealed in the database, plain in memory
  pub api_key : String
  pub display_prefix : String
  pub client_id : String
  pub budget_id : String
  pub mode : String
  pub provider_configs : List (ProviderConfig W)
  pub load_balancer : String
  pub is_active : Bool
  pub expires_at : Option ℤ

pub record StoreBudget : Type 0 where
  pub id : String
  pub name : String
  pub budget_limit : ℤ
  pub budget_unit : String
  pub budget_duration : String
  pub enforce : Bool
  pub total_cost : ℤ
  pub request_count : ℤ
  pub status : String
  pub last_budget_refresh_at : ℤ

-- Two tables, by the primary key.
pub record Tables (W : Type 0) : Type 0 where
  pub virtual_keys : Map String (StoreVirtualKey W)
  pub budgets : Map String StoreBudget

-- `encryptKey` and `decryptKey`, with the key of the context; `none` is an error.
pub record Cipher : Type 0 where
  pub encrypt_key : String → Option String
  pub decrypt_key : String → Option String

-- What is sealed can be opened again.
abbrev pub Opens : Cipher → Type 0
Opens c =
    (plain sealed : String) → c.encrypt_key plain ≡ some sealed → c.decrypt_key sealed ≡ some plain

pub data StoreError : Type 0 where
  virtual_key_not_found budget_not_found budget_already_bound key_is_revoked : StoreError
  mode_required load_balancer_required key_not_generated bad_mode bad_load_balancer : StoreError
  bad_provider_configs database_error cipher_error : StoreError

-- Which statements of an operation the database refuses.
pub record Faults : Type 0 where
  pub find : Bool
  pub count : Bool
  pub write_key : Bool
  pub write_budget : Bool
  pub reload : Bool

abbrev pub no_faults : Faults
no_faults = record {
  find = false;
  count = false;
  write_key = false;
  write_budget = false;
  reload = false;
}

-- `DB.Transaction`: an error leaves the tables as they were.
abbrev pub transaction :
    {W A : Type 0}
    → (Tables W → Result StoreError (Tables W × A))
    → Tables W
    → Tables W × Result StoreError A
transaction body t = elim (body t) [ err e ↦ (t, err e) | ok (t', a) ↦ (t', ok a) ]

module _ {W : Type 0} (c : Cipher) where
  -- `AfterFind` of a virtual key, without the mask.
  unfoldable pub after_find : StoreVirtualKey W → Option (StoreVirtualKey W)
  after_find key = if key.api_key == "" then some key else elim (c.decrypt_key key.api_key) [
    | none ↦ none
    | some plain ↦ some (record key { api_key = plain })
  ]

  -- `tx.Where("id = ?", id).First(&key)`; every failure reads as "not found".
  unfoldable pub first_key : Bool → String → Tables W → Result StoreError (StoreVirtualKey W)
  unfolding lookup after_find
  first_key fails id t =
      if fails then err virtual_key_not_found else elim (lookup id t.virtual_keys) [
        | none ↦ err virtual_key_not_found
        | some row ↦ elim (after_find row) [ none ↦ err virtual_key_not_found | some key ↦ ok key ]
      ]

  -- `BeforeSave` of a virtual key.
  unfoldable pub before_save : StoreVirtualKey W → Result StoreError (StoreVirtualKey W)
  before_save key = elim (c.encrypt_key key.api_key) [
    | none ↦ err cipher_error
    | some sealed ↦ ok (record key { api_key = sealed })
  ]
