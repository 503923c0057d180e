-- ===== src/Sync/Handler/Sequences.antt =====
-- OnDelete, and sequences of events.
use kube_graphql.Common.{
  Bool-cases, Option-cases, keep, some_of, Text, text_eq, ◌≡◌, refl, ap, inl, inr, Bool, false, not,
  ◌&&◌, some, List, [], ◌∷◌, arith,
}
use kube_graphql.Store.{ObjectModel, same_object, Db, Objects, upsert_object, delete_object}
use kube_graphql.Store.Rows.{keep-keep, keep-drop}
use kube_graphql.Store.Upsert.{Unique}
use kube_graphql.Sync.Handler.{
  Unstructured, Delivered, to_unstructured, EventHandler, to_object_model, upsert_delivered, on_add,
  on_update, on_delete,
}
use kube_graphql.Sync.Handler.Events.{
  IsSynced, to_object_model-HasId, all_ids-keep, upsert_object-Stores,
}

-- A call of the handler by its informer.
pub data Event : Type 0 where
  added deleted : Delivered → Event
  updated : Delivered → Delivered → Event

-- Whether a row has the key that `OnDelete` gives to `DeleteObject`.
abbrev pub has_key : EventHandler → Unstructured → ObjectModel → Bool
has_key h u r =
    text_eq r.cluster h.cluster_name
    && (text_eq r.api_group h.group
        && (text_eq r.kind h.kind && (text_eq r.namespace u.namespace && text_eq r.name u.name)))

some_of-keep {ℓ} :
    {A : Type ℓ} (q p : A → Bool) (rs : List A)
    → some_of q rs ≡ false
    → some_of q (keep p rs) ≡ false
some_of-keep q p [] h = refl
some_of-keep q p (r ∷ rs) h = ground (arith, some_of-keep q p rs)

keep-Unique {ℓ} :
    {A : Type ℓ} (same : A → A → Bool) (p : A → Bool) (rs : List A)
    → Unique same rs
    → Unique same (keep p rs)
keep-Unique same p [] h = tt
keep-Unique same p (r ∷ rs) h = elim (Bool-cases (p r)) [
  | inl e ↦ rw e (some_of-keep (same r) p rs h.0, keep-Unique same p rs h.1)
  | inr e ↦ rw e (keep-Unique same p rs h.1)
]

module _ (new_sha1 : Text → Text) (h : EventHandler) (db : Db) where
  -- One event.
  unfoldable pub handle : Event → Objects db → Objects db
  handle (added d) s = on_add new_sha1 h db d s
  handle (updated old new) s = on_update new_sha1 h db old new s
  handle (deleted d) s = on_delete new_sha1 h db d s

  -- The events of an informer, in order.
  unfoldable pub run : List Event → Objects db → Objects db
  run [] s = s
  run (e ∷ es) s = run es (handle e s)

  keep-IsSynced :
      (p : ObjectModel → Bool) (rs : List ObjectModel)
      → IsSynced new_sha1 rs
      → IsSynced new_sha1 (keep p rs)
  keep-IsSynced p rs ok = record {
    unique = keep-Unique same_object p rs ok.unique;
    ids = all_ids-keep new_sha1 p rs ok.ids;
  }

  upsert_delivered-IsSynced :
      (d : Delivered) (s : Objects db)
      → IsSynced new_sha1 (db.objects.rows s)
      → IsSynced new_sha1 (db.objects.rows (upsert_delivered new_sha1 h db d s))
  unfolding upsert_delivered
  upsert_delivered-IsSynced d s ok = elim (Option-cases (to_unstructured d)) [
    | inl e ↦ rw (e, upsert_delivered) ok
    | inr (u, e) ↦ elim (Option-cases (to_object_model new_sha1 h u)) [
      | inl e' ↦ rw (e, e', upsert_delivered) ok
      | inr (m, e') ↦ elim (Option-cases (upsert_object db m s)) [
        | inl e'' ↦ rw (e, e', e'', upsert_delivered) ok
        | inr (t, e'') ↦
            rw (e, e', e'', upsert_delivered)
              ((upsert_object-Stores new_sha1 h db m s t ok
                (to_object_model-HasId new_sha1 h u m e') e'').synced)
      ]
    ]
  ]

  on_delete-IsSynced :
      (d : Delivered) (s : Objects db)
      → IsSynced new_sha1 (db.objects.rows s)
      → IsSynced new_sha1 (db.objects.rows (on_delete new_sha1 h db d s))
  unfolding on_delete delete_object
  on_delete-IsSynced d s ok = elim (Option-cases (to_unstructured d)) [
    | inl e ↦ rw (e, on_delete) ok
    | inr (u, e) ↦
        elim (Option-cases (delete_object db h.cluster_name h.group h.kind u.namespace u.name s)) [
          | inl e' ↦ rw (e, e', on_delete) ok
          | inr (t, e') ↦
              rw (e, e', on_delete)
                (rw (db.objects.rows-delete _ s t e') (keep-IsSynced _ (db.objects.rows s) ok))
        ]
  ]

  handle-IsSynced :
      (e : Event) (s : Objects db)
      → IsSynced new_sha1 (db.objects.rows s)
      → IsSynced new_sha1 (db.objects.rows (handle e s))
  unfolding handle on_add on_update
  handle-IsSynced (added d) s ok = upsert_delivered-IsSynced d s ok
  handle-IsSynced (updated old new) s ok = upsert_delivered-IsSynced new s ok
  handle-IsSynced (deleted d) s ok = on_delete-IsSynced d s ok

  -- Over any sequence of events, failed statements and foreign values included, the table keeps
  -- one row at most for a key, and every row's id is the hash of its key.
  pub run-IsSynced :
      (es : List Event) (s : Objects db)
      → IsSynced new_sha1 (db.objects.rows s)
      → IsSynced new_sha1 (db.objects.rows (run es s))
  unfolding run
  run-IsSynced [] s ok = ok
  run-IsSynced (e ∷ es) s ok = run-IsSynced es (handle e s) (handle-IsSynced e s ok)

  -- After a deletion whose value is the object u, also one wrapped in a tombstone, and whose
  -- statement succeeds, no row has u's key and all other rows are as before.
  pub on_delete-removes :
      (d : Delivered) (u : Unstructured) (s t : Objects db)
      → to_unstructured d ≡ some u
      → delete_object db h.cluster_name h.group h.kind u.namespace u.name s ≡ some t
      → (keep (has_key h u) (db.objects.rows (on_delete new_sha1 h db d s)) ≡ [])
        × (keep (λ r. not (has_key h u r)) (db.objects.rows (on_delete new_sha1 h db d s))
            ≡ keep (λ r. not (has_key h u r)) (db.objects.rows s))
  unfolding on_delete delete_object
  on_delete-removes d u s t hd ht =
      rw (hd, ht, on_delete)
        (rw (db.objects.rows-delete _ s t ht) (
          keep-drop (has_key h u) _ (db.objects.rows s) (λ r. ap not),
          keep-keep (λ r. not (has_key h u r)) _ (db.objects.rows s) (λ r e. e),
        ))
