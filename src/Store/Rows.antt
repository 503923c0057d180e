-- ===== src/Store/Rows.antt =====
-- The rows of one cluster, and the deletions for a cluster.
use kube_graphql.Common.{
  keep, Text, text_eq, text_eq_iff, ◌≡◌, refl, ap, ◌≢◌, Bool, true, false, not, some, List, [], ◌∷◌,
  arith,
}
use kube_graphql.Store.{
  ObjectModel, ResourceTypeModel, ClusterModel, Db, Objects, ResourceTypes, Clusters,
  delete_resource_types_for_cluster, delete_cluster, delete_objects_for_cluster,
}

-- Rows that a first selection would keep anyway.
pub keep-keep {ℓ} :
    {A : Type ℓ} (p q : A → Bool) (rs : List A)
    → ((r : A) → p r ≡ true → q r ≡ true)
    → keep p (keep q rs) ≡ keep p rs
keep-keep p q [] h = refl
keep-keep p q (r ∷ rs) h = ground (arith, h r, keep-keep p q rs h)

-- Rows that a first selection has dropped.
pub keep-drop {ℓ} :
    {A : Type ℓ} (p q : A → Bool) (rs : List A)
    → ((r : A) → p r ≡ true → q r ≡ false)
    → keep p (keep q rs) ≡ []
keep-drop p q [] h = refl
keep-drop p q (r ∷ rs) h = ground (arith, h r, keep-drop p q rs h)

pub text_eq_other : (a m n : Text) → m ≢ n → text_eq a n ≡ true → not (text_eq a m) ≡ true
text_eq_other a m n h e = ground (arith, text_eq_iff a n, text_eq_iff a m)

-- The rows of a cluster, in each of the three tables.
abbrev pub objects_of : Text → List ObjectModel → List ObjectModel
objects_of name = keep (λ r. text_eq r.cluster name)

abbrev pub resource_types_of : Text → List ResourceTypeModel → List ResourceTypeModel
resource_types_of name = keep (λ r. text_eq r.cluster name)

abbrev pub clusters_of : Text → List ClusterModel → List ClusterModel
clusters_of name = keep (λ r. text_eq r.name name)

module _ (db : Db) (m : Text) where
  pub objects-delete_other :
      (n : Text) (s s' : Objects db)
      → delete_objects_for_cluster db m s ≡ some s'
      → m ≢ n
      → objects_of n (db.objects.rows s') ≡ objects_of n (db.objects.rows s)
  unfolding delete_objects_for_cluster
  objects-delete_other n s s' e h =
      rw (db.objects.rows-delete _ s s' e)
        (keep-keep _ _ (db.objects.rows s) (λ r. text_eq_other r.cluster m n h))

  pub objects-delete_self :
      (s s' : Objects db)
      → delete_objects_for_cluster db m s ≡ some s'
      → objects_of m (db.objects.rows s') ≡ []
  unfolding delete_objects_for_cluster
  objects-delete_self s s' e =
      rw (db.objects.rows-delete _ s s' e) (keep-drop _ _ (db.objects.rows s) (λ r. ap not))

  pub resource_types-delete_other :
      (n : Text) (s s' : ResourceTypes db)
      → delete_resource_types_for_cluster db m s ≡ some s'
      → m ≢ n
      → resource_types_of n (db.resource_types.rows s')
        ≡ resource_types_of n (db.resource_types.rows s)
  unfolding delete_resource_types_for_cluster
  resource_types-delete_other n s s' e h =
      rw (db.resource_types.rows-delete _ s s' e)
        (keep-keep _ _ (db.resource_types.rows s) (λ r. text_eq_other r.cluster m n h))

  pub resource_types-delete_self :
      (s s' : ResourceTypes db)
      → delete_resource_types_for_cluster db m s ≡ some s'
      → resource_types_of m (db.resource_types.rows s') ≡ []
  unfolding delete_resource_types_for_cluster
  resource_types-delete_self s s' e =
      rw (db.resource_types.rows-delete _ s s' e)
        (keep-drop _ _ (db.resource_types.rows s) (λ r. ap not))

  pub clusters-delete_other :
      (n : Text) (s s' : Clusters db)
      → delete_cluster db m s ≡ some s'
      → m ≢ n
      → clusters_of n (db.clusters.rows s') ≡ clusters_of n (db.clusters.rows s)
  unfolding delete_cluster
  clusters-delete_other n s s' e h =
      rw (db.clusters.rows-delete _ s s' e)
        (keep-keep _ _ (db.clusters.rows s) (λ r. text_eq_other r.name m n h))

  pub clusters-delete_self :
      (s s' : Clusters db)
      → delete_cluster db m s ≡ some s'
      → clusters_of m (db.clusters.rows s') ≡ []
  unfolding delete_cluster
  clusters-delete_self s s' e =
      rw (db.clusters.rows-delete _ s s' e) (keep-drop _ _ (db.clusters.rows s) (λ r. ap not))
