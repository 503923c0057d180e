-- ===== src/Sync/Handler/Identity.antt =====
-- The key that toObjectModel hashes into an id.
use kube_graphql.Common.{
  split-join, All, Text, codes, join, Lacks, split, concat, ◌≡◌, sym, ap, ◌∙◌, List, [], ◌∷◌,
  append-nil,
}
use kube_graphql.Sync.Handler.{id_key}

id_key-join :
    (cluster group kind namespace name : Text)
    → id_key cluster group kind namespace name
      ≡ join (cluster ∷ group ∷ kind ∷ namespace ∷ name ∷ []) (b'/' ∷ [])
unfolding id_key concat codes
id_key-join cluster group kind namespace name = rw append-nil

-- The five texts that an id is made of.
abbrev pub HasNoSlash : List Text → Type 0
HasNoSlash = All (Lacks b'/')

-- Two objects with the same id key have the same cluster, group, kind, namespace and name, if none
-- of these holds a slash.
pub id_key-injective :
    (c₁ g₁ k₁ s₁ n₁ c₂ g₂ k₂ s₂ n₂ : Text)
    → HasNoSlash (c₁ ∷ g₁ ∷ k₁ ∷ s₁ ∷ n₁ ∷ [])
    → HasNoSlash (c₂ ∷ g₂ ∷ k₂ ∷ s₂ ∷ n₂ ∷ [])
    → id_key c₁ g₁ k₁ s₁ n₁ ≡ id_key c₂ g₂ k₂ s₂ n₂
    → (c₁ ≡ c₂) × (g₁ ≡ g₂) × (k₁ ≡ k₂) × (s₁ ≡ s₂) × (n₁ ≡ n₂)
id_key-injective c₁ g₁ k₁ s₁ n₁ c₂ g₂ k₂ s₂ n₂ h₁ h₂ e =
    let joined : join parts₁ (b'/' ∷ []) ≡ join parts₂ (b'/' ∷ []) =
      sym (id_key-join c₁ g₁ k₁ s₁ n₁) ∙ e ∙ id_key-join c₂ g₂ k₂ s₂ n₂ in
    let same : parts₁ ≡ parts₂ =
      sym (split-join c₁ (g₁ ∷ k₁ ∷ s₁ ∷ n₁ ∷ []) b'/' h₁)
      ∙ ap (λ t. split t b'/') joined
      ∙ split-join c₂ (g₂ ∷ k₂ ∷ s₂ ∷ n₂ ∷ []) b'/' h₂ in
    (cc same, cc same, cc same, cc same, cc same)
  where
    parts₁ : List Text
    parts₁ = c₁ ∷ g₁ ∷ k₁ ∷ s₁ ∷ n₁ ∷ []

    parts₂ : List Text
    parts₂ = c₂ ∷ g₂ ∷ k₂ ∷ s₂ ∷ n₂ ∷ []
