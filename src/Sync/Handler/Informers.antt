-- ===== src/Sync/Handler/Informers.antt =====
-- The events of several informers on one objects table, in the order in which their statements
-- run: an informer for each kind of object in each cluster.
use mathlib.Core.Option.{some-injective}
use kube_graphql.Common.{
  Bool-cases, Option-cases, keep, Text, text_eq, text_eq_iff, ◌≡◌, refl, sym, ap, ◌∙◌, ◌≢◌, inl,
  inr, true, false, not, none, some, List, [], ◌∷◌, arith,
}
use kube_graphql.Store.{
  ObjectModel, same_object, assign_object, Db, Objects, upsert_object, delete_object,
}
use kube_graphql.Store.Interface.{upsert}
use kube_graphql.Store.Rows.{keep-keep, objects_of}
use kube_graphql.Store.Select.{keep_comm, Respects, keep-upsert_own, keep-upsert_other}
use kube_graphql.Sync.Handler.{
  Unstructured, Delivered, to_unstructured, EventHandler, to_object_model, upsert_delivered, on_add,
  on_update, on_delete,
}
use kube_graphql.Sync.Handler.Sequences.{Event, added, deleted, updated, has_key, handle}

-- A call of a handler by its informer.
abbrev pub HandlerCall : Type 0
HandlerCall = EventHandler × Event

module _ (new_sha1 : Text → Text) where
  -- What an event does to the rows, if its statement does not fail.
  unfoldable stored : EventHandler → Delivered → List ObjectModel → List ObjectModel
  stored h d rs = elim (to_unstructured d) [
    | none ↦ rs
    | some u ↦ elim (to_object_model new_sha1 h u) [
      | none ↦ rs
      | some m ↦ upsert same_object assign_object m rs
    ]
  ]

  unfoldable removed : EventHandler → Delivered → List ObjectModel → List ObjectModel
  removed h d rs = elim (to_unstructured d) [
    | none ↦ rs
    | some u ↦ keep (λ r. not (has_key h u r)) rs
  ]

  unfoldable effect : EventHandler → Event → List ObjectModel → List ObjectModel
  effect h (added d) rs = stored h d rs
  effect h (updated old new) rs = stored h new rs
  effect h (deleted d) rs = removed h d rs

  module _ (n : Text) where
    -- A model is of the cluster of its handler.
    to_object_model-cluster :
        (h : EventHandler) (u : Unstructured) (m : ObjectModel)
        → to_object_model new_sha1 h u ≡ some m
        → m.cluster ≡ h.cluster_name
    unfolding to_object_model
    to_object_model-cluster h u m e = elim (Option-cases u.object) [
      | inl o ↦ cc (rw (o, to_object_model) at e)
      | inr (json, o) ↦
          ap (λ (r : ObjectModel). r.cluster)
            (sym (some-injective _ _ (rw (o, to_object_model) at e)))
    ]

    cluster-Respects :
        (m : ObjectModel) → Respects (λ r. text_eq r.cluster n) same_object assign_object m
    unfolding same_object assign_object
    cluster-Respects m r hit =
        let same : m.cluster ≡ r.cluster =
          (text_eq_iff m.cluster r.cluster).0 (ground (arith, hit)) in
        let selected = ap (λ c. text_eq c n) (sym same) in (selected, selected)

    stored_other :
        (h : EventHandler) (d : Delivered) (rs : List ObjectModel)
        → text_eq h.cluster_name n ≡ false
        → objects_of n (stored h d rs) ≡ objects_of n rs
    unfolding stored
    stored_other h d rs apart = elim (Option-cases (to_unstructured d)) [
      | inl e ↦ rw (stored, e) refl
      | inr (u, e) ↦ elim (Option-cases (to_object_model new_sha1 h u)) [
        | inl e' ↦ rw (stored, e, e') refl
        | inr (m, e') ↦
            rw (stored, e, e')
              (keep-upsert_other _ same_object assign_object m (cluster-Respects m)
                (rw (to_object_model-cluster h u m e') apart) rs)
      ]
    ]

    stored_own :
        (h : EventHandler) (d : Delivered) (rs : List ObjectModel)
        → text_eq h.cluster_name n ≡ true
        → objects_of n (stored h d rs) ≡ stored h d (objects_of n rs)
    unfolding stored
    stored_own h d rs own = elim (Option-cases (to_unstructured d)) [
      | inl e ↦ rw (stored, e) refl
      | inr (u, e) ↦ elim (Option-cases (to_object_model new_sha1 h u)) [
        | inl e' ↦ rw (stored, e, e') refl
        | inr (m, e') ↦
            rw (stored, e, e')
              (keep-upsert_own _ same_object assign_object m (cluster-Respects m)
                (rw (to_object_model-cluster h u m e') own) rs)
      ]
    ]

    removed_other :
        (h : EventHandler) (d : Delivered) (rs : List ObjectModel)
        → text_eq h.cluster_name n ≡ false
        → objects_of n (removed h d rs) ≡ objects_of n rs
    unfolding removed
    removed_other h d rs apart = elim (Option-cases (to_unstructured d)) [
      | inl e ↦ rw (removed, e) refl
      | inr (u, e) ↦
          rw (removed, e)
            (keep-keep _ _ rs (λ r of_n. ground (
              arith,
              apart,
              of_n,
              text_eq_iff r.cluster n,
              text_eq_iff h.cluster_name n,
              text_eq_iff r.cluster h.cluster_name,
            )))
    ]

    removed_own :
        (h : EventHandler) (d : Delivered) (rs : List ObjectModel)
        → objects_of n (removed h d rs) ≡ removed h d (objects_of n rs)
    unfolding removed
    removed_own h d rs = elim (Option-cases (to_unstructured d)) [
      | inl e ↦ rw (removed, e) refl
      | inr (u, e) ↦ rw (removed, e) (keep_comm _ _ rs)
    ]

    effect_other :
        (h : EventHandler) (e : Event) (rs : List ObjectModel)
        → text_eq h.cluster_name n ≡ false
        → objects_of n (effect h e rs) ≡ objects_of n rs
    unfolding effect
    effect_other h (added d) rs apart = stored_other h d rs apart
    effect_other h (updated old new) rs apart = stored_other h new rs apart
    effect_other h (deleted d) rs apart = removed_other h d rs apart

    effect_own :
        (h : EventHandler) (e : Event) (rs : List ObjectModel)
        → text_eq h.cluster_name n ≡ true
        → objects_of n (effect h e rs) ≡ effect h e (objects_of n rs)
    unfolding effect
    effect_own h (added d) rs own = stored_own h d rs own
    effect_own h (updated old new) rs own = stored_own h new rs own
    effect_own h (deleted d) rs own = removed_own h d rs

  module _ (db : Db) where
    -- The calls of all informers, in order.
    unfoldable pub run_informers : List HandlerCall → Objects db → Objects db
    run_informers [] s = s
    run_informers (c ∷ cs) s = run_informers cs (handle new_sha1 c.0 db c.1 s)

    -- No statement on the objects fails.
    pub record IsStoring : Type 0 where
      pub insert : (m : ObjectModel) (s : Objects db) → upsert_object db m s ≢ none
      pub delete :
          (cluster api_group kind namespace name : Text) (s : Objects db)
          → delete_object db cluster api_group kind namespace name s ≢ none

    module _ (storing : IsStoring) where
      stored-rows :
          (h : EventHandler) (d : Delivered) (s : Objects db)
          → db.objects.rows (upsert_delivered new_sha1 h db d s) ≡ stored h d (db.objects.rows s)
      unfolding upsert_delivered stored upsert_object
      stored-rows h d s = elim (Option-cases (to_unstructured d)) [
        | inl e ↦ rw (upsert_delivered, stored, e) refl
        | inr (u, e) ↦ elim (Option-cases (to_object_model new_sha1 h u)) [
          | inl e' ↦ rw (upsert_delivered, stored, e, e') refl
          | inr (m, e') ↦ elim (Option-cases (upsert_object db m s)) [
            | inl f ↦ absurd (storing.insert m s f)
            | inr (t, f) ↦
                rw (upsert_delivered, stored, e, e', f)
                  (db.objects.rows-insert same_object assign_object m s t f)
          ]
        ]
      ]

      removed-rows :
          (h : EventHandler) (d : Delivered) (s : Objects db)
          → db.objects.rows (on_delete new_sha1 h db d s) ≡ removed h d (db.objects.rows s)
      unfolding on_delete removed delete_object
      removed-rows h d s = elim (Option-cases (to_unstructured d)) [
        | inl e ↦ rw (on_delete, removed, e) refl
        | inr (u, e) ↦
            elim (Option-cases
              (delete_object db h.cluster_name h.group h.kind u.namespace u.name s)) [
                | inl f ↦ absurd (storing.delete _ _ _ _ _ s f)
                | inr (t, f) ↦ rw (on_delete, removed, e, f) (db.objects.rows-delete _ s t f)
              ]
      ]

      handle-rows :
          (h : EventHandler) (e : Event) (s : Objects db)
          → db.objects.rows (handle new_sha1 h db e s) ≡ effect h e (db.objects.rows s)
      unfolding handle on_add on_update effect
      handle-rows h (added d) s = stored-rows h d s
      handle-rows h (updated old new) s = stored-rows h new s
      handle-rows h (deleted d) s = removed-rows h d s

      -- If no statement fails, the rows of a cluster after the calls of several informers are those
      -- after the calls of the informers of that cluster alone, from a table with the same rows of
      -- the cluster.
      pub run_informers-objects_of :
          (n : Text) (cs : List HandlerCall) (s s' : Objects db)
          → objects_of n (db.objects.rows s) ≡ objects_of n (db.objects.rows s')
          → objects_of n (db.objects.rows (run_informers cs s))
            ≡ objects_of n
                (db.objects.rows (run_informers (keep (λ c. text_eq c.0.cluster_name n) cs) s'))
      unfolding run_informers
      run_informers-objects_of n [] s s' same = same
      run_informers-objects_of n ((h, e) ∷ cs) s s' same =
          let rows = handle-rows h e in
          elim (Bool-cases (text_eq h.cluster_name n)) [
            | inl own ↦ rw own (
                run_informers-objects_of n cs _ _ (
                  rw
                    (
                      rows s,
                      rows s',
                      effect_own n h e (db.objects.rows s) own,
                      effect_own n h e (db.objects.rows s') own,
                      same,
                    )
                    refl))
            | inr apart ↦ rw apart (
                run_informers-objects_of n cs _ s'
                  (rw (rows s) (effect_other n h e (db.objects.rows s) apart ∙ same)))
          ]
