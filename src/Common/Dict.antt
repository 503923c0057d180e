-- ===== src/Common/Dict.antt =====
-- A Go map keyed by strings, as an association list in the order in which a `range` visits it.
use mathlib.Core.Path.{◌≡◌, refl, subst}
use mathlib.Core.Logic.{◌≢◌, inl, inr}
use mathlib.Core.Option.{Option, none, some}
use mathlib.Core.List.{List, [], ◌∷◌}
use native.Mathlib.Omega.{arith}
use kube_graphql.Common.Tests.{if◌then◌else◌, Bool-cases}
use kube_graphql.Common.Lists.{All}
use kube_graphql.Common.Strings.{Text, text_eq, text_eq_iff, text_ne}

module _ {ℓ} {V : Type ℓ} where
  -- `v, ok := m[k]`.
  abbrev pub lookup : Text → List (Text × V) → Option V
  lookup k [] = none
  lookup k ((j, v) ∷ m) = if text_eq j k then some v else lookup k m

  -- `m[k] = v`.
  abbrev pub insert : Text → V → List (Text × V) → List (Text × V)
  insert k v [] = (k, v) ∷ []
  insert k v ((j, w) ∷ m) = if text_eq j k then (k, v) ∷ m else (j, w) ∷ insert k v m

  -- `delete(m, k)`, for a map with each key once.
  abbrev pub erase : Text → List (Text × V) → List (Text × V)
  erase k [] = []
  erase k ((j, w) ∷ m) = if text_eq j k then erase k m else (j, w) ∷ erase k m

  pub lookup-insert :
      (k j : Text) (v : V) (m : List (Text × V))
      → lookup j (insert k v m) ≡ (if text_eq k j then some v else lookup j m)
  lookup-insert k j v [] = refl
  lookup-insert k j v ((i, w) ∷ m) =
      ground (arith, text_eq_iff k j, text_eq_iff i k, text_eq_iff i j, lookup-insert k j v m)

  pub lookup-erase :
      (k j : Text) (m : List (Text × V))
      → lookup j (erase k m) ≡ (if text_eq k j then none else lookup j m)
  lookup-erase k j [] = ground arith
  lookup-erase k j ((i, w) ∷ m) =
      ground (arith, text_eq_iff k j, text_eq_iff i k, text_eq_iff i j, lookup-erase k j m)

-- To show something of a lookup, show it of each entry, and of no value where no entry has the key.
pub lookup_cases {ℓ κ} :
    {V : Type ℓ} (P : Text → Option V → Type κ) (m : List (Text × V)) (f : Text)
    → All (λ e. P e.0 (some e.1)) m
    → (All (λ e. e.0 ≢ f) m → P f none)
    → P f (lookup f m)
lookup_cases P [] f h d = d tt
lookup_cases P ((j, v) ∷ m) f h d = elim (Bool-cases (text_eq j f)) [
  | inl e ↦ rw e (subst (λ x. P x (some v)) ((text_eq_iff j f).0 e) h.0)
  | inr ne ↦ rw ne (lookup_cases P m f h.1 (λ rest. d (text_ne j f ne, rest)))
]

-- The slice that a lookup gives: nil for a key that is missing.
abbrev pub or_nil {ℓ} : {A : Type ℓ} → Option (List A) → List A
or_nil none = []
or_nil (some xs) = xs
