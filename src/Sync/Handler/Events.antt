-- ===== src/Sync/Handler/Events.antt =====
-- OnAdd and OnUpdate, and the rows of the objects table.
use mathlib.Core.Option.{some-injective}
use mathlib.Core.Path.{subst}
use kube_graphql.Common.{
  Bool-cases, Option-cases, keep, some_of, All, All-append, All-keep, Text, ◌≡◌, refl, sym, ◌∙◌,
  inl, inr, Bool, true, not, some, List, [], ◌∷◌,
}
use kube_graphql.Store.{ObjectModel, same_object, assign_object, Db, Objects, upsert_object}
use kube_graphql.Store.Interface.{assign_all, upsert}
use kube_graphql.Store.Keys.{same_object_iff, same_object-IsKey, assign_object-eq}
use kube_graphql.Store.Upsert.{Unique, Replaces, keep-upsert, others-upsert, upsert-Unique}
use kube_graphql.Sync.Handler.{
  Unstructured, Delivered, to_unstructured, EventHandler, id_key, to_object_model, upsert_delivered,
  on_add, on_update,
}

module _ (new_sha1 : Text → Text) where
  -- The id of a row is made of its key.
  abbrev pub HasId : ObjectModel → Type 0
  HasId r = r.id ≡ new_sha1 (id_key r.cluster r.api_group r.kind r.namespace r.name)

  -- What holds of the table's rows at all times: distinct keys, and ids made of them.
  pub record IsSynced (rs : List ObjectModel) : Type 0 where
    pub unique : Unique same_object rs
    pub ids : All HasId rs

  pub to_object_model-HasId :
      (h : EventHandler) (u : Unstructured) (m : ObjectModel)
      → to_object_model new_sha1 h u ≡ some m
      → HasId m
  unfolding to_object_model
  to_object_model-HasId h u m e = elim (Option-cases u.object) [
    | inl o ↦ cc (rw (o, to_object_model) at e)
    | inr (json, o) ↦ subst HasId (some-injective _ _ (rw (o, to_object_model) at e)) refl
  ]

  HasId-Replaces :
      (m : ObjectModel) (rs : List ObjectModel)
      → HasId m
      → All HasId rs
      → Replaces same_object same_object-IsKey assign_object m rs
  HasId-Replaces m [] hm h = tt
  HasId-Replaces m (r ∷ rs) hm h =
      (λ e. assign_object-eq m r (hm ∙ same_id e ∙ sym h.0) e, HasId-Replaces m rs hm h.1)
    where
      same_id :
          same_object m r ≡ true
          → new_sha1 (id_key m.cluster m.api_group m.kind m.namespace m.name)
            ≡ new_sha1 (id_key r.cluster r.api_group r.kind r.namespace r.name)
      same_id e = let k = (same_object_iff m r).0 e in rw (k.0, k.1, k.2, k.3, k.4) refl

  pub all_ids-keep :
      (p : ObjectModel → Bool) (rs : List ObjectModel) → All HasId rs → All HasId (keep p rs)
  all_ids-keep p rs h = All-keep HasId HasId p rs (λ r _ i. i) h

  all_ids-assign :
      (m : ObjectModel) (rs : List ObjectModel)
      → HasId m
      → All HasId rs
      → All HasId (assign_all same_object assign_object m rs)
  unfolding assign_all
  all_ids-assign m [] hm h = tt
  all_ids-assign m (r ∷ rs) hm h = elim (Bool-cases (same_object m r)) [
    | inl hit ↦ rw (hit, (HasId-Replaces m (r ∷ rs) hm h).0 hit) (hm, all_ids-assign m rs hm h.1)
    | inr miss ↦ rw miss (h.0, all_ids-assign m rs hm h.1)
  ]

  all_ids-upsert :
      (m : ObjectModel) (rs : List ObjectModel)
      → HasId m
      → All HasId rs
      → All HasId (upsert same_object assign_object m rs)
  unfolding upsert
  all_ids-upsert m rs hm h = elim (Bool-cases (some_of (same_object m) rs)) [
    | inl e ↦ rw e (all_ids-assign m rs hm h)
    | inr e ↦ rw e (All-append HasId rs (m ∷ []) h (hm, tt))
  ]

  module _ (h : EventHandler) (db : Db) where
    -- In the second state the object m is the one row of its key, and all other rows are the same.
    pub record Stores (m : ObjectModel) (s t : Objects db) : Type 0 where
      pub stored : keep (same_object m) (db.objects.rows t) ≡ m ∷ []
      pub others :
          keep (λ r. not (same_object m r)) (db.objects.rows t)
          ≡ keep (λ r. not (same_object m r)) (db.objects.rows s)
      pub synced : IsSynced (db.objects.rows t)

    pub upsert_object-Stores :
        (m : ObjectModel) (s t : Objects db)
        → IsSynced (db.objects.rows s)
        → HasId m
        → upsert_object db m s ≡ some t
        → Stores m s t
    unfolding upsert_object
    upsert_object-Stores m s t ok hm e =
        let rs = db.objects.rows s in
        let law = db.objects.rows-insert same_object assign_object m s t e in
        let fit = HasId-Replaces m rs hm ok.ids in
        record {
          stored =
              rw law (keep-upsert same_object same_object-IsKey assign_object m rs ok.unique fit);
          others = rw law (others-upsert same_object same_object-IsKey assign_object m rs fit);
          synced = rw law (record {
            unique = upsert-Unique same_object same_object-IsKey assign_object m rs ok.unique fit;
            ids = all_ids-upsert m rs hm ok.ids;
          });
        }

    -- After an add or an update whose new value is the object u, and whose statement succeeds, the
    -- model of u is the one row of its key, and all other rows are as before.
    pub on_update-Stores :
        (d old : Delivered) (u : Unstructured) (m : ObjectModel) (s t : Objects db)
        → IsSynced (db.objects.rows s)
        → to_unstructured d ≡ some u
        → to_object_model new_sha1 h u ≡ some m
        → upsert_object db m s ≡ some t
        → Stores m s (on_add new_sha1 h db d s) × Stores m s (on_update new_sha1 h db old d s)
    unfolding on_add on_update upsert_delivered
    on_update-Stores d old u m s t ok hd hu ht =
        let stored = upsert_object-Stores m s t ok (to_object_model-HasId h u m hu) ht in
        rw (hd, hu, ht, upsert_delivered) (stored, stored)
