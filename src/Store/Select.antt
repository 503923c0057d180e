-- ===== src/Store/Select.antt =====
-- INSERT … ON CONFLICT … DO UPDATE and DELETE, as a selection of the rows sees them.
use kube_graphql.Common.{
  Bool-cases, keep, some_of, ◌≡◌, refl, inl, inr, Bool, true, false, List, [], ◌∷◌, ◌++◌,
  append-nil, arith,
}
use kube_graphql.Store.Interface.{assign_all, upsert}

-- Two selections in either order.
pub keep_comm {ℓ} :
    {A : Type ℓ} (p q : A → Bool) (rs : List A) → keep p (keep q rs) ≡ keep q (keep p rs)
keep_comm p q [] = refl
keep_comm p q (r ∷ rs) = ground (arith, keep_comm p q rs)

pub keep-append {ℓ} :
    {A : Type ℓ} (p : A → Bool) (rs ss : List A) → keep p (rs ++ ss) ≡ keep p rs ++ keep p ss
keep-append p [] ss = refl
keep-append p (r ∷ rs) ss = ground (arith, keep-append p rs ss)

module _ {ℓ} {A : Type ℓ} (p : A → Bool) (same : A → A → Bool) (assign : A → A → A) (new : A) where
  -- The selection does not tell a row from the one it becomes, and is the same on rows in conflict.
  abbrev pub Respects : Type ℓ
  Respects = (r : A) → same new r ≡ true → (p r ≡ p new) × (p (assign new r) ≡ p new)

  module _ (respects : Respects) where
    some_of-keep :
        p new ≡ true → (rs : List A) → some_of (same new) (keep p rs) ≡ some_of (same new) rs
    some_of-keep e [] = refl
    some_of-keep e (r ∷ rs) = ground (arith, e, respects r, some_of-keep e rs)

    keep-assign_all_own :
        p new ≡ true
        → (rs : List A)
        → keep p (assign_all same assign new rs) ≡ assign_all same assign new (keep p rs)
    unfolding assign_all
    keep-assign_all_own e [] = refl
    keep-assign_all_own e (r ∷ rs) = elim (Bool-cases (same new r)) [
      | inl hit ↦ ground (arith, e, hit, respects r hit, keep-assign_all_own e rs)
      | inr miss ↦ ground (arith, e, miss, keep-assign_all_own e rs)
    ]

    keep-assign_all_other :
        p new ≡ false → (rs : List A) → keep p (assign_all same assign new rs) ≡ keep p rs
    unfolding assign_all
    keep-assign_all_other e [] = refl
    keep-assign_all_other e (r ∷ rs) = elim (Bool-cases (same new r)) [
      | inl hit ↦ ground (arith, e, hit, respects r hit, keep-assign_all_other e rs)
      | inr miss ↦ ground (arith, miss, keep-assign_all_other e rs)
    ]

    -- A row of the selection is stored among the selected rows.
    pub keep-upsert_own :
        p new ≡ true
        → (rs : List A) → keep p (upsert same assign new rs) ≡ upsert same assign new (keep p rs)
    unfolding upsert
    keep-upsert_own e rs = elim (Bool-cases (some_of (same new) rs)) [
      | inl s ↦ rw (some_of-keep e rs, s) (keep-assign_all_own e rs)
      | inr s ↦ rw (some_of-keep e rs, s, keep-append p rs (new ∷ []), e) refl
    ]

    -- Another row changes nothing of the selection.
    pub keep-upsert_other :
        p new ≡ false → (rs : List A) → keep p (upsert same assign new rs) ≡ keep p rs
    unfolding upsert
    keep-upsert_other e rs = elim (Bool-cases (some_of (same new) rs)) [
      | inl s ↦ rw s (keep-assign_all_other e rs)
      | inr s ↦ rw (s, keep-append p rs (new ∷ []), e) (append-nil _)
    ]
