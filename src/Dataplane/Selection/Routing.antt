-- ===== src/Dataplane/Selection/Routing.antt =====
-- internal/dataplane/dataplane.go: where a request may be sent.
use text.Mathlib.Text.{◌==◌}
use diffractllm.Base.{
  ◌≡◌, subst, true, false, String, some, List, [], ok, lookup, string_eq, is_set, arith, Bool-cases,
  Option-cases, inl, inr,
}
use diffractllm.Core.Models.{CatalogKey}
use diffractllm.Core.VirtualKey.{VirtualKey, provider_config}
use diffractllm.Core.Credential.{Credential}
use diffractllm.Core.Context.{Context}
use diffractllm.Dataplane.Selection.{
  Cursors, pick, Wheel, pick_provider, viable_providers, pick_and_commit, resolve_explicit,
  resolve_weighted, resolve,
}
use diffractllm.Dataplane.Selection.Viable.{
  IsIn, pick-IsIn, nothing-IsSourced, viable_providers-IsSourced, viable_providers-fresh,
  pick_provider-viable,
}

module _ {F W : Type 0} where
  -- Where a request was sent.
  pub record Routed (source : CatalogKey → List Credential) (rctx : Context F W) (cred : Credential)
      (rctx' : Context F W) : Type 0 where
    pub vk : VirtualKey W
    pub provider : String
    pub policy : rctx.virtual_key_policy ≡ some vk
    pub configured : is_set (provider_config vk.provider_configs provider) ≡ true
    pub offered : IsIn cred (source (record rctx.model_key { provider = provider }))
    pub bound : rctx' ≡ record rctx {
      model_key = record rctx.model_key { provider = provider };
      selected_credential = some cred;
    }

  pick_and_commit-ok :
      (key : CatalogKey) (creds : List Credential) (cursors cursors' : Cursors)
      (rctx rctx' : Context F W) (cred : Credential)
      → pick_and_commit key creds cursors rctx ≡ (cursors', ok (cred, rctx'))
      → IsIn cred creds × (rctx' ≡ record rctx { model_key = key; selected_credential = some cred })
  unfolding pick_and_commit
  pick_and_commit-ok key creds cursors cursors' rctx rctx' cred h =
      elim (Option-cases (pick key creds cursors).0) [
        | inl nothing ↦ absurd (ground arith)
        | inr (c, chosen) ↦ (pick-IsIn key creds cursors cred (ground arith), ground arith)
      ]

  module _ {T : Type 0} (wheel : Wheel W T) (random : T) (source : CatalogKey → List Credential)
      (cursors cursors' : Cursors) (rctx rctx' : Context F W) (cred : Credential) where
    resolve_explicit-Routed :
        (vk : VirtualKey W)
        → rctx.virtual_key_policy ≡ some vk
        → resolve_explicit source cursors rctx rctx.model_key vk ≡ (cursors', ok (cred, rctx'))
        → Routed source rctx cred rctx'
    unfolding resolve_explicit
    resolve_explicit-Routed vk policy h =
        let committed : pick_and_commit rctx.model_key (source rctx.model_key) cursors rctx
            ≡ (cursors', ok (cred, rctx')) =
          ground arith in
        let (member, bound) =
          pick_and_commit-ok rctx.model_key (source rctx.model_key) cursors cursors' rctx rctx' cred
            committed in
        record {
          vk = vk;
          provider = rctx.model_key.provider;
          policy = policy;
          configured = ground arith;
          offered = member;
          bound = bound;
        }

    resolve_weighted-Routed :
        (vk : VirtualKey W)
        → rctx.virtual_key_policy ≡ some vk
        → resolve_weighted wheel random source cursors rctx rctx.model_key vk
          ≡ (cursors', ok (cred, rctx'))
        → Routed source rctx cred rctx'
    unfolding resolve_weighted
    resolve_weighted-Routed vk policy h =
        let key = rctx.model_key in
        let cfgs = vk.provider_configs in
        let viable = viable_providers source key cfgs [] in
        let provider = pick_provider wheel random viable cfgs in
        let named : (provider == "") ≡ false = ground arith in
        let is_viable = pick_provider-viable wheel random viable cfgs named in
        let sourced =
          viable_providers-IsSourced source key cfgs [] (nothing-IsSourced source key) in
        elim (Option-cases (lookup provider viable)) [
          | inl nothing ↦ absurd (ground arith)
          | inr (creds, found) ↦
              let committed : pick_and_commit (record key { provider = provider }) creds cursors
                    rctx
                  ≡ (cursors', ok (cred, rctx')) =
                ground arith in
              let (member, bound) =
                pick_and_commit-ok (record key { provider = provider }) creds cursors cursors' rctx
                  rctx' cred committed in
              record {
                vk = vk;
                provider = provider;
                policy = policy;
                configured = viable_providers-fresh source key cfgs provider is_viable;
                offered = subst (IsIn cred) (sourced provider creds found) member;
                bound = bound;
              }
        ]

    -- A request that is routed goes to a provider that its key configures, and to a credential that the
    -- source offers for the model at that provider; the request is bound to both and to nothing else.
    pub resolve-Routed :
        resolve wheel random source cursors rctx ≡ (cursors', ok (cred, rctx'))
        → Routed source rctx cred rctx'
    unfolding resolve
    resolve-Routed h = elim (Option-cases rctx.virtual_key_policy) [
      | inl missing ↦ absurd (ground arith)
      | inr (vk, policy) ↦ elim (Bool-cases (rctx.model_key.provider == "")) [
        | inl any ↦ resolve_weighted-Routed vk policy (ground arith)
        | inr named ↦ resolve_explicit-Routed vk policy (ground arith)
      ]
    ]
