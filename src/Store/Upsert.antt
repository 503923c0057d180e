-- ===== src/Store/Upsert.antt =====
-- INSERT … ON CONFLICT … DO UPDATE on a table whose rows have distinct keys.
use kube_graphql.Common.{
  Bool-cases, keep, some_of, All, All-append, ◌≡◌, refl, ◌∙◌, inl, inr, Bool, true, false, not,
  List, [], ◌∷◌, ◌++◌, append-nil, arith,
}
use kube_graphql.Store.Interface.{assign_all, upsert}
use kube_graphql.Store.Select.{keep-append}

-- Rows with equal keys are interchangeable in the comparison of keys.
pub record IsKey {ℓ} {A : Type ℓ} (same : A → A → Bool) : Type ℓ where
  pub self : (a : A) → same a a ≡ true
  pub left : (a b c : A) → same a b ≡ true → same a c ≡ same b c
  pub right : (a b c : A) → same a b ≡ true → same c a ≡ same c b

-- No two rows have the same key.
abbrev pub Unique {ℓ} : {A : Type ℓ} → (A → A → Bool) → List A → Type 0
Unique same [] = Unit
Unique same (r ∷ rs) = (some_of (same r) rs ≡ false) × Unique same rs

module _ {ℓ} {A : Type ℓ} (same : A → A → Bool) (key : IsKey same) (assign : A → A → A)
    (new : A) where
  -- A row in conflict becomes the new row.
  abbrev pub Replaces : List A → Type ℓ
  Replaces = All (λ r. same new r ≡ true → assign new r ≡ new)

  keep_none : (rs : List A) → some_of (same new) rs ≡ false → keep (same new) rs ≡ []
  keep_none [] h = refl
  keep_none (r ∷ rs) h = ground (arith, keep_none rs)

  assign_none : (rs : List A) → some_of (same new) rs ≡ false → assign_all same assign new rs ≡ rs
  unfolding assign_all
  assign_none [] h = refl
  assign_none (r ∷ rs) h = ground (arith, assign_none rs)

  some_of-same :
      (r : A) (rs : List A) → same new r ≡ true → some_of (same new) rs ≡ some_of (same r) rs
  some_of-same r [] h = refl
  some_of-same r (x ∷ rs) h = ground (arith, some_of-same r rs h, key.left new r x h)

  keep-assign_all :
      (rs : List A)
      → Unique same rs
      → Replaces rs
      → some_of (same new) rs ≡ true
      → keep (same new) (assign_all same assign new rs) ≡ new ∷ []
  unfolding assign_all
  keep-assign_all [] u h e = cc
  keep-assign_all (r ∷ rs) u h e = elim (Bool-cases (same new r)) [
    | inl hit ↦
        let none_left : some_of (same new) rs ≡ false = some_of-same r rs hit ∙ u.0 in
        ground (arith, hit, h.0 hit, key.self new, assign_none rs none_left, keep_none rs none_left)
    | inr miss ↦ ground (arith, miss, keep-assign_all rs u.1 h.1)
  ]

  others-assign_all :
      (rs : List A)
      → Replaces rs
      → keep (λ r. not (same new r)) (assign_all same assign new rs)
        ≡ keep (λ r. not (same new r)) rs
  unfolding assign_all
  others-assign_all [] h = refl
  others-assign_all (r ∷ rs) h = elim (Bool-cases (same new r)) [
    | inl hit ↦ ground (arith, hit, h.0 hit, key.self new, others-assign_all rs h.1)
    | inr miss ↦ ground (arith, miss, others-assign_all rs h.1)
  ]

  -- The new row is the one row of its key.
  pub keep-upsert :
      (rs : List A)
      → Unique same rs
      → Replaces rs
      → keep (same new) (upsert same assign new rs) ≡ new ∷ []
  unfolding upsert
  keep-upsert rs u h = elim (Bool-cases (some_of (same new) rs)) [
    | inl e ↦ rw e (keep-assign_all rs u h e)
    | inr e ↦ rw (e, keep-append (same new) rs (new ∷ []), keep_none rs e, key.self new)
  ]

  -- The rows of other keys stay.
  pub others-upsert :
      (rs : List A)
      → Replaces rs
      → keep (λ r. not (same new r)) (upsert same assign new rs) ≡ keep (λ r. not (same new r)) rs
  unfolding upsert
  others-upsert rs h = elim (Bool-cases (some_of (same new) rs)) [
    | inl e ↦ rw e (others-assign_all rs h)
    | inr e ↦ rw (e, keep-append (λ r. not (same new r)) rs (new ∷ []), key.self new) (append-nil _)
  ]

  some_of-assign_all :
      (r : A) (rs : List A)
      → Replaces rs
      → some_of (same r) (assign_all same assign new rs) ≡ some_of (same r) rs
  unfolding assign_all
  some_of-assign_all r [] h = refl
  some_of-assign_all r (x ∷ rs) h = elim (Bool-cases (same new x)) [
    | inl hit ↦ ground (arith, hit, h.0 hit, key.right new x r hit, some_of-assign_all r rs h.1)
    | inr miss ↦ ground (arith, miss, some_of-assign_all r rs h.1)
  ]

  assign_all-Unique :
      (rs : List A) → Unique same rs → Replaces rs → Unique same (assign_all same assign new rs)
  unfolding assign_all
  assign_all-Unique [] u h = tt
  assign_all-Unique (r ∷ rs) u h = elim (Bool-cases (same new r)) [
    | inl hit ↦
        rw (hit, h.0 hit)
          (
            some_of-assign_all new rs h.1 ∙ some_of-same r rs hit ∙ u.0,
            assign_all-Unique rs u.1 h.1,
          )
    | inr miss ↦ rw miss (some_of-assign_all r rs h.1 ∙ u.0, assign_all-Unique rs u.1 h.1)
  ]

  some_of-append_one :
      (r : A) (rs : List A)
      → same new r ≡ false
      → some_of (same r) rs ≡ false
      → some_of (same r) (rs ++ new ∷ []) ≡ false
  some_of-append_one r [] miss h = ground (arith, miss, key.self r, key.left r new r)
  some_of-append_one r (x ∷ rs) miss h = ground (arith, some_of-append_one r rs miss)

  append-Unique :
      (rs : List A) → Unique same rs → some_of (same new) rs ≡ false → Unique same (rs ++ new ∷ [])
  append-Unique [] u e = (refl, tt)
  append-Unique (r ∷ rs) u e = elim (Bool-cases (same new r)) [
    | inl hit ↦ cc (rw hit at e)
    | inr miss ↦ (some_of-append_one r rs miss u.0, append-Unique rs u.1 (rw miss at e))
  ]

  -- The keys stay distinct.
  pub upsert-Unique :
      (rs : List A) → Unique same rs → Replaces rs → Unique same (upsert same assign new rs)
  unfolding upsert
  upsert-Unique rs u h = elim (Bool-cases (some_of (same new) rs)) [
    | inl e ↦ rw e (assign_all-Unique rs u h)
    | inr e ↦ rw e (append-Unique rs u e)
  ]

module _ {ℓ κ} {A : Type ℓ} (same : A → A → Bool) (assign : A → A → A) (new : A)
    (Q : A → Type κ) where
  assign_all-All :
      (rs : List A)
      → ((r : A) → same new r ≡ true → Q (assign new r))
      → ((r : A) → same new r ≡ false → Q r)
      → All Q (assign_all same assign new rs)
  unfolding assign_all
  assign_all-All [] f g = tt
  assign_all-All (r ∷ rs) f g = elim (Bool-cases (same new r)) [
    | inl e ↦ rw e (f r e, assign_all-All rs f g)
    | inr e ↦ rw e (g r e, assign_all-All rs f g)
  ]

  -- What holds of the new row, of a row that it is assigned to and of a row of another key holds of
  -- all rows.
  pub upsert-All :
      (rs : List A)
      → Q new
      → ((r : A) → same new r ≡ true → Q (assign new r))
      → ((r : A) → same new r ≡ false → Q r)
      → All Q (upsert same assign new rs)
  unfolding upsert
  upsert-All rs h f g = elim (Bool-cases (some_of (same new) rs)) [
    | inl e ↦ rw e (assign_all-All rs f g)
    | inr e ↦ rw e (All-append Q rs (new ∷ []) (misses rs e) (h, tt))
  ]
    where
      misses : (rs : List A) → some_of (same new) rs ≡ false → All Q rs
      misses [] e = tt
      misses (r ∷ rs) e = (g r (ground arith), misses rs (ground arith))

  module _ (X : Type κ) where
    assigned_row :
        (rs : List A)
        → some_of (same new) rs ≡ true
        → ((r : A) → same new r ≡ true → Q (assign new r) → X)
        → All Q (assign_all same assign new rs)
        → X
    unfolding assign_all
    assigned_row [] e f q = cc e
    assigned_row (r ∷ rs) e f q = elim (Bool-cases (same new r)) [
      | inl hit ↦
          let q' : All Q (assign new r ∷ assign_all same assign new rs) = rw hit at q in
          f r hit q'.0
      | inr miss ↦
          let q' : All Q (r ∷ assign_all same assign new rs) = rw miss at q in
          assigned_row rs (rw miss at e) f q'.1
    ]

    last_row : (rs : List A) → All Q (rs ++ new ∷ []) → Q new
    last_row [] q = q.0
    last_row (r ∷ rs) q = last_row rs q.1

    -- Among the rows there is the new one, or one that it is assigned to.
    pub upsert_row :
        (rs : List A)
        → (Q new → X)
        → ((r : A) → same new r ≡ true → Q (assign new r) → X)
        → All Q (upsert same assign new rs)
        → X
    unfolding upsert
    upsert_row rs h f q = elim (Bool-cases (some_of (same new) rs)) [
      | inl e ↦ assigned_row rs e f (rw e at q)
      | inr e ↦ h (last_row rs (rw e at q))
    ]
