-- ===== src/Server/Kept.antt =====
-- internal/server/chat.go: which of the usages of a stream is kept.
use mathlib.Core.List.{append_assoc, append-nil}
use diffractllm.Base.{
  All-append, ◌++◌, ap, ◌∙◌, All, ◌≤ℤ◌, ◌<ℤ◌, leb_ℤ, sym, subst, ◌≡◌, refl, String, Option, none,
  some, List, [], ◌∷◌, arith, Bool-cases, inl, inr,
}
use diffractllm.Pricing.Usage.{Usage}
use diffractllm.Server.Answer.{Answer}
use diffractllm.Server.Chat.{keep_usage, take_chunk}

module _ {F : Type 0} where
  -- A usage, where a chunk has one, and those of later chunks.
  abbrev pub offered : Option (Usage F) → List (Usage F) → List (Usage F)
  offered none us = us
  offered (some u) us = u ∷ us

  -- Of the usages, the last of those with the most output tokens.
  abbrev pub IsKept : List (Usage F) → Option (Usage F) → Type 0
  IsKept us none = us ≡ []
  IsKept us (some u) =
      (before : List (Usage F)) × (after : List (Usage F)) × (us ≡ before ++ u ∷ after)
      × All (λ v. v.output_tokens ≤ℤ u.output_tokens) before
      × All (λ v. v.output_tokens <ℤ u.output_tokens) after

  All-≤ :
      (us : List (Usage F)) (u w : Usage F)
      → u.output_tokens ≤ℤ w.output_tokens
      → All (λ v. v.output_tokens ≤ℤ u.output_tokens) us
      → All (λ v. v.output_tokens ≤ℤ w.output_tokens) us
  All-≤ [] u w le all = all
  All-≤ (v ∷ us) u w le all = (ground (arith, le, all.0), All-≤ us u w le all.1)

  All-< :
      (us : List (Usage F)) (u : Usage F)
      → All (λ v. v.output_tokens <ℤ u.output_tokens) us
      → All (λ v. v.output_tokens ≤ℤ u.output_tokens) us
  All-< [] u all = all
  All-< (v ∷ us) u all = (ground (arith, all.0), All-< us u all.1)

  keep_usage-IsKept :
      (seen : List (Usage F)) (kept : Option (Usage F)) (w : Usage F)
      → IsKept seen kept
      → IsKept (seen ++ w ∷ []) (some (keep_usage kept w))
  unfolding keep_usage
  keep_usage-IsKept seen none w k = ([], [], ap (λ l. l ++ w ∷ []) k, tt, tt)
  keep_usage-IsKept seen (some u) w (before, after, same, less, fewer) =
      elim (Bool-cases (leb_ℤ u.output_tokens w.output_tokens)) [
        | inl newer ↦
            let le : u.output_tokens ≤ℤ w.output_tokens = ground (arith, newer) in
            rw newer (
              seen,
              [],
              refl,
              subst (All (λ v. v.output_tokens ≤ℤ w.output_tokens)) (sym same) (
                  All-append _ before (u ∷ after) (All-≤ before u w le less)
                    (le, All-≤ after u w le (All-< after u fewer))),
              tt,
            )
        | inr older ↦ rw older (
          before,
          after ++ w ∷ [],
          ap (λ l. l ++ w ∷ []) same ∙ append_assoc before (u ∷ after) (w ∷ []),
          less,
          All-append _ after (w ∷ []) fewer (ground (arith, older), tt),
        )
      ]

  pub take_chunk-IsKept :
      (seen : List (Usage F)) (usage : Option (Usage F)) (finish : Option String) (a : Answer F)
      → IsKept seen a.usage
      → IsKept (seen ++ offered usage []) (take_chunk usage finish a).usage
  unfolding take_chunk
  take_chunk-IsKept seen none finish a kept =
      subst (λ us. IsKept us a.usage) (sym (append-nil seen)) kept
  take_chunk-IsKept seen (some w) finish a kept = keep_usage-IsKept seen a.usage w kept

  pub offered-append :
      (usage : Option (Usage F)) (us : List (Usage F)) → offered usage us ≡ offered usage [] ++ us
  offered-append none us = refl
  offered-append (some u) us = refl
