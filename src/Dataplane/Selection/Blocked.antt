-- ===== src/Dataplane/Selection/Blocked.antt =====
-- internal/dataplane/dataplane.go: what the weighted choice does not look at.
use text.Mathlib.Text.{◌==◌}
use text.Mathlib.TextEquality.{eq_iff}
use diffractllm.Base.{
  delete, ◌≡◌, refl, ap, ◌∙◌, true, false, some, List, [], ◌∷◌, ok, lookup, insert, string_eq,
  arith,
}
use diffractllm.Core.Models.{CatalogKey}
use diffractllm.Core.VirtualKey.{ProviderConfig, VirtualKey, is_model_allowed}
use diffractllm.Core.Credential.{Credential}
use diffractllm.Core.Context.{Context}
use diffractllm.Dataplane.Selection.{
  Cursors, pick, Wheel, spin, pick_provider, viable_providers, commit, pick_and_commit,
  resolve_weighted,
}

module _ {F W T : Type 0} (wheel : Wheel W T) (random : T) (source : CatalogKey → List Credential)
    (cursors : Cursors) (rctx : Context F W) where
  only_second :
      (a b : ProviderConfig W) (cred : Credential) (key : CatalogKey)
      → source (record key { provider = a.provider }) ≡ []
      → source (record key { provider = b.provider }) ≡ cred ∷ []
      → viable_providers source key (a ∷ b ∷ []) [] ≡ (b.provider, cred ∷ []) ∷ []
  unfolding viable_providers insert delete
  only_second a b cred key none_a one_b = rw (none_a, one_b) refl

  pick_second :
      (a b : ProviderConfig W) (creds : List Credential)
      → (a.provider == b.provider) ≡ false
      → pick_provider wheel random ((b.provider, creds) ∷ []) (a ∷ b ∷ []) ≡ b.provider
  unfolding pick_provider spin lookup
  pick_second a b creds apart = ground (
    arith,
    eq_iff a.provider b.provider,
    eq_iff b.provider a.provider,
    eq_iff b.provider b.provider,
  )

  -- The engine does not ask the policy for the model again: where a key without a provider in it is allowed
  -- by the first configuration alone, and only the provider of the second has a credential for the model,
  -- the request is sent to the second, whose configuration does not allow the model.
  pub resolve_weighted-blocked :
      (vk : VirtualKey W) (a b : ProviderConfig W) (cred : Credential) (key : CatalogKey)
      → vk.provider_configs ≡ a ∷ b ∷ []
      → (a.provider == b.provider) ≡ false
      → (b.provider == "") ≡ false
      → is_model_allowed a (record key { provider = a.provider }) ≡ true
      → is_model_allowed b (record key { provider = b.provider }) ≡ false
      → source (record key { provider = a.provider }) ≡ []
      → source (record key { provider = b.provider }) ≡ cred ∷ []
      → resolve_weighted wheel random source cursors rctx key vk ≡ (
        cursors,
        ok (
          cred,
          record rctx {
            model_key = record key { provider = b.provider };
            selected_credential = some cred;
          },
        ),
      )
  unfolding resolve_weighted pick_and_commit commit pick lookup
  resolve_weighted-blocked vk a b cred key cfgs apart named may may_not none_a one_b =
      let v = (b.provider, cred ∷ []) ∷ [] in
      let viable : viable_providers source key vk.provider_configs [] ≡ v =
        ap (λ c. viable_providers source key c []) cfgs ∙ only_second a b cred key none_a one_b in
      let chosen : pick_provider wheel random v vk.provider_configs ≡ b.provider =
        ap (pick_provider wheel random v) cfgs ∙ pick_second a b (cred ∷ []) apart in
      let own = (eq_iff b.provider b.provider).1 refl in rw (viable, chosen, named, own) refl
