-- ===== src/Store/Keys.antt =====
-- The key of an object: the five columns of the unique index.
use kube_graphql.Common.{text_eq_iff, ◌≡◌, refl, ◌↔◌, true, arith}
use kube_graphql.Store.{ObjectModel, same_object, assign_object}
use kube_graphql.Store.Upsert.{IsKey}

pub same_object_iff :
    (a b : ObjectModel)
    → (same_object a b ≡ true) ↔ (
        (a.cluster ≡ b.cluster)
        × (a.api_group ≡ b.api_group)
        × (a.kind ≡ b.kind)
        × (a.namespace ≡ b.namespace)
        × (a.name ≡ b.name))
unfolding same_object
same_object_iff a b = ground (
  arith,
  text_eq_iff a.cluster b.cluster,
  text_eq_iff a.api_group b.api_group,
  text_eq_iff a.kind b.kind,
  text_eq_iff a.namespace b.namespace,
  text_eq_iff a.name b.name,
)

same_object_self : (a : ObjectModel) → same_object a a ≡ true
same_object_self a = (same_object_iff a a).1 (refl, refl, refl, refl, refl)

same_object_left :
    (a b c : ObjectModel) → same_object a b ≡ true → same_object a c ≡ same_object b c
unfolding same_object
same_object_left a b c h = let e = (same_object_iff a b).0 h in rw (e.0, e.1, e.2, e.3, e.4) refl

same_object_right :
    (a b c : ObjectModel) → same_object a b ≡ true → same_object c a ≡ same_object c b
unfolding same_object
same_object_right a b c h = let e = (same_object_iff a b).0 h in rw (e.0, e.1, e.2, e.3, e.4) refl

pub same_object-IsKey : IsKey same_object
same_object-IsKey = record {
  self = same_object_self;
  left = same_object_left;
  right = same_object_right;
}

-- A row with the key and the id of another becomes that other one.
pub assign_object-eq :
    (new old : ObjectModel)
    → new.id ≡ old.id
    → same_object new old ≡ true
    → assign_object new old ≡ new
unfolding assign_object
assign_object-eq new old i h = let e = (same_object_iff new old).0 h in ground arith
