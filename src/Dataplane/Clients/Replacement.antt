-- ===== src/Dataplane/Clients/Replacement.antt =====
-- internal/dataplane/transport.go: the clients after a change of the settings, and the settings as they are reported.
use diffractllm.Base.{
  negsuc, subst, ◌≡◌, refl, true, false, Bool-cases, Option-cases, inl, inr, ◌<|>◌, when, is_set,
  String, Option, none, some, [], ◌∷◌, ℕ, ℤ, Map, lookup, insert, lookup-insert, string_eq, ◌==?◌,
  beq_refl, arith,
}
use diffractllm.Dataplane.Clients.{
  Clients, build_providers, keep_previous, old_client, replace, NetworkConfig, UpstreamConfig,
  effective_network,
}
use diffractllm.Dataplane.Transport.{compare_config}

module _ {U : Type 0} (build : String → U → Option ℕ) where
  -- A map has one entry for a key.
  abbrev pub IsUnique : Map String U → Type 0
  IsUnique [] = Unit {0}
  IsUnique ((provider, upstream) ∷ upstreams) =
      (lookup provider upstreams ≡ none) × IsUnique upstreams

  abbrev pub built : Map String U → String → Option ℕ
  built upstreams provider = elim (lookup provider upstreams) [
    | none ↦ none
    | some u ↦ build provider u
  ]

  lookup-build_providers :
      (upstreams : Map String U) (j : String)
      → IsUnique upstreams
      → lookup j (build_providers build upstreams) ≡ built upstreams j
  unfolding build_providers lookup
  lookup-build_providers [] j unique = refl
  lookup-build_providers ((provider, upstream) ∷ upstreams) j (fresh, unique) =
      let rest = lookup-build_providers upstreams j unique in
      elim (Option-cases (build provider upstream)) [
        | inl fails ↦ elim (Bool-cases (provider ==? j)) [
          | inl here ↦
              let same : provider ≡ j = (string_eq.beq_iff provider j).0 here in
              let absent = lookup-build_providers upstreams provider unique in
              subst
                (λ i.
                  lookup i (build_providers build ((provider, upstream) ∷ upstreams))
                  ≡ built ((provider, upstream) ∷ upstreams) i)
                same (ground (arith, fails, absent, fresh, beq_refl provider))
          | inr there ↦ ground (arith, fails, there, rest)
        ]
        | inr (client, made) ↦ ground (
          arith,
          made,
          rest,
          lookup-insert provider j client (build_providers build upstreams),
          string_eq.beq_iff provider j,
        )
      ]

  lookup-keep_previous :
      (old : Option Clients) (upstreams : Map String U) (next : Clients) (j : String)
      → lookup j (keep_previous build old upstreams next).0
        ≡ (lookup j next <|> when (is_set (lookup j upstreams)) (old_client build old j))
  unfolding keep_previous lookup
  lookup-keep_previous old [] next j = ground arith
  lookup-keep_previous old ((provider, upstream) ∷ upstreams) next j =
      elim (Bool-cases (is_set (lookup provider next))) [
        | inl has ↦ elim (Bool-cases (provider ==? j)) [
          | inl here ↦
              let same : provider ≡ j = (string_eq.beq_iff provider j).0 here in
              ground (
                arith,
                has,
                here,
                subst (λ i. is_set (lookup i next) ≡ true) same has,
                lookup-keep_previous old upstreams next j,
              )
          | inr there ↦ ground (arith, has, there, lookup-keep_previous old upstreams next j)
        ]
        | inr lacks ↦ elim (Option-cases (old_client build old provider)) [
          | inl never ↦ elim (Bool-cases (provider ==? j)) [
            | inl here ↦
                let same : provider ≡ j = (string_eq.beq_iff provider j).0 here in
                let before : old_client build old j ≡ none =
                  subst (λ i. old_client build old i ≡ none) same never in
                ground
                  (arith, lacks, never, here, before, lookup-keep_previous old upstreams next j)
            | inr there ↦
                ground (arith, lacks, never, there, lookup-keep_previous old upstreams next j)
          ]
          | inr (client, was) ↦ elim (Bool-cases (provider ==? j)) [
            | inl here ↦
                let same : provider ≡ j = (string_eq.beq_iff provider j).0 here in
                let before : old_client build old j ≡ some client =
                  subst (λ i. old_client build old i ≡ some client) same was in
                let without : is_set (lookup j next) ≡ false =
                  subst (λ i. is_set (lookup i next) ≡ false) same lacks in
                ground (
                  arith,
                  lacks,
                  was,
                  here,
                  before,
                  without,
                  lookup-insert provider j client next,
                  lookup-keep_previous old upstreams (insert provider client next) j,
                )
            | inr there ↦ ground (
              arith,
              lacks,
              was,
              there,
              lookup-insert provider j client next,
              lookup-keep_previous old upstreams (insert provider client next) j,
            )
          ]
        ]
      ]

  -- After a change of the settings, a provider that they name has the client that was built for it, or, where the
  -- build failed, the client it had before; a provider that they do not name has none.
  pub lookup-replace :
      (old : Option Clients) (upstreams : Map String U) (j : String)
      → IsUnique upstreams
      → lookup j (replace build old upstreams).0 ≡ elim (lookup j upstreams) [
        | none ↦ none
        | some upstream ↦ (build j upstream <|> old_client build old j)
      ]
  unfolding replace
  lookup-replace old upstreams j unique = ground (
    arith,
    lookup-build_providers upstreams j unique,
    lookup-keep_previous old upstreams (build_providers build upstreams) j,
  )

-- The limit of a body that `ServeHTTP` takes.
abbrev pub served_limit : UpstreamConfig → NetworkConfig → ℤ
served_limit defaults network =
    compare_config defaults.max_response_bytes (some network.max_response_bytes)

-- A stored limit below 0 is reported, while requests run with the default.
pub effective_network-negative :
    (defaults : UpstreamConfig) (stored : NetworkConfig) (n : ℕ)
    → stored.max_response_bytes ≡ negsuc n
    → ((effective_network defaults stored).max_response_bytes ≡ negsuc n)
      × (served_limit defaults stored ≡ defaults.max_response_bytes)
unfolding effective_network compare_config
effective_network-negative defaults stored n negative = ground (arith, negative)
