-- ===== src/Store/Interface.antt =====
-- A table of the database as the store uses it, with what SQL promises of its statements. A
-- statement that returns an error gives no new state: the table is as it was.
use kube_graphql.Common.{
  if◌then◌else◌, keep, some_of, ◌≡◌, Bool, not, Option, some, List, [], ◌∷◌, ◌++◌,
}

-- The rows after INSERT … ON CONFLICT … DO UPDATE: every row in conflict is assigned to, and where
-- there is none the new row is added.
unfoldable pub assign_all {ℓ} : {A : Type ℓ} → (A → A → Bool) → (A → A → A) → A → List A → List A
assign_all same assign new [] = []
assign_all same assign new (r ∷ rs) =
    (if same new r then assign new r else r) ∷ assign_all same assign new rs

unfoldable pub upsert {ℓ} : {A : Type ℓ} → (A → A → Bool) → (A → A → A) → A → List A → List A
upsert same assign new rs =
    if some_of (same new) rs then assign_all same assign new rs else rs ++ new ∷ []

pub record Table (Row : Type 0) : Type 1 where
  pub State : Type 0
  pub rows : State → List Row
  pub insert_or_update : (Row → Row → Bool) → (Row → Row → Row) → Row → State → Option State
  pub delete_where : (Row → Bool) → State → Option State
  pub select_where : (Row → Bool) → State → Option (List Row)
  pub rows-insert :
      (same : Row → Row → Bool) (assign : Row → Row → Row) (r : Row) (s s' : State)
      → insert_or_update same assign r s ≡ some s'
      → rows s' ≡ upsert same assign r (rows s)
  pub rows-delete :
      (p : Row → Bool) (s s' : State)
      → delete_where p s ≡ some s'
      → rows s' ≡ keep (λ r. not (p r)) (rows s)
  pub rows-select :
      (p : Row → Bool) (s : State) (rs : List Row)
      → select_where p s ≡ some rs
      → rs ≡ keep p (rows s)
