-- ===== src/Sync/Controller/Tracking.antt =====
-- The contexts that the sync controller keeps track of.
use kube_graphql.Common.{
  ◌==◌, if◌then◌else◌, Bool-cases, Option-cases, lookup, insert, erase, lookup-insert, lookup-erase,
  All, All-append, Text, text_eq, text_eq_iff, text_eq_refl, ℕ, suc, ◌<◌, ◌≡◌, refl, ap, ◌∙◌, inl,
  inr, Bool, true, false, Option, none, some, List, [], ◌∷◌, arith,
}
use kube_graphql.Api.{Time}
use kube_graphql.Gc.{Tables}
use kube_graphql.Store.{ClusterModel, Db, upsert_cluster}
use kube_graphql.Sync.Controller.{
  Server, Worker, cancel, active_cluster, stale_cluster, Call, engaged, disengaged, Controller,
  new_sync_controller, stop, start, store_cluster, discover, finish_engage, engage, disengage, call,
  calls,
}
use kube_graphql.Sync.Discovery.{GroupVersionResource, Blacklist, DiscoveredResource}

-- What runs under a context that is not cancelled is registered for its cluster.
abbrev pub Registered : List (Text × ℕ) → Worker → Type 0
Registered clusters w = w.cancelled ≡ false → lookup w.cluster_name clusters ≡ some w.context

-- A context in use is below the next one.
abbrev pub Used : ℕ → List Worker → Type 0
Used next = All (λ w. w.context < next)

pub cancel-Used : (id next : ℕ) (ws : List Worker) → Used next ws → Used next (cancel id ws)
unfolding cancel
cancel-Used id next [] h = tt
cancel-Used id next (w ∷ ws) h = elim (Bool-cases (w.context == id)) [
  | inl e ↦ rw e (h.0, cancel-Used id next ws h.1)
  | inr e ↦ rw e (h.0, cancel-Used id next ws h.1)
]

-- Once a name is erased and its context cancelled, what still runs is registered.
pub cancel-Registered :
    (name : Text) (id : ℕ) (clusters : List (Text × ℕ)) (ws : List Worker)
    → lookup name clusters ≡ some id
    → All (Registered clusters) ws
    → All (Registered (erase name clusters)) (cancel id ws)
unfolding cancel
cancel-Registered name id clusters [] e h = tt
cancel-Registered name id clusters (w ∷ ws) e h = elim (Bool-cases (w.context == id)) [
  | inl same ↦ rw same (λ live. ground (arith, live), cancel-Registered name id clusters ws e h.1)
  | inr differs ↦ rw differs (
    λ live. ground (
      arith,
      h.0 live,
      lookup-erase name w.cluster_name clusters,
      text_eq_iff name w.cluster_name,
      e,
    ),
    cancel-Registered name id clusters ws e h.1,
  )
]

insert-Registered_one :
    (name : Text) (next : ℕ) (clusters : List (Text × ℕ)) (w : Worker)
    → lookup name clusters ≡ none
    → Registered clusters w
    → Registered (insert name next clusters) w
insert-Registered_one name next clusters w e h live =
    rw (lookup-insert name w.cluster_name next clusters)
      (elim (Bool-cases (text_eq name w.cluster_name)) [
        | inl same ↦
            let moved = ap (λ n. lookup n clusters) ((text_eq_iff name w.cluster_name).0 same) in
            cc (h live, moved, e)
        | inr differs ↦ rw differs (h live)
      ])

-- A name without a context may get a new one.
insert-Registered :
    (name : Text) (next : ℕ) (clusters : List (Text × ℕ)) (ws : List Worker)
    → lookup name clusters ≡ none
    → All (Registered clusters) ws
    → All (Registered (insert name next clusters)) ws
insert-Registered name next clusters [] e h = tt
insert-Registered name next clusters (w ∷ ws) e h = (
  λ live. insert-Registered_one name next clusters w e h.0 live,
  insert-Registered name next clusters ws e h.1,
)

Used-weaken : (next : ℕ) (ws : List Worker) → Used next ws → Used (suc next) ws
Used-weaken next [] h = tt
Used-weaken next (w ∷ ws) h = (omega arith, Used-weaken next ws h.1)

module _ (db : Db) where
  -- What runs under a context that is not cancelled is what the controller has registered for its
  -- cluster: so each cluster has at most one such context, and a call that cancels it stops all.
  pub record IsTracked (s : Controller db) : Type 0 where
    pub used : Used s.next s.workers
    pub registered : All (Registered s.clusters) s.workers

  stop-lookup : (name : Text) (s : Controller db) → lookup name (stop db name s).clusters ≡ none
  unfolding stop
  stop-lookup name s = elim (Option-cases (lookup name s.clusters)) [
    | inl e ↦ rw (e, stop) e
    | inr (id, e) ↦ rw (e, stop) (lookup-erase name name s.clusters ∙ rw (text_eq_refl name) refl)
  ]

  stop-IsTracked : (name : Text) (s : Controller db) → IsTracked s → IsTracked (stop db name s)
  unfolding stop
  stop-IsTracked name s h = elim (Option-cases (lookup name s.clusters)) [
    | inl e ↦ rw (e, stop) h
    | inr (id, e) ↦
        rw (e, stop)
          (record {
            used = cancel-Used id s.next s.workers h.used;
            registered = cancel-Registered name id s.clusters s.workers e h.registered;
          })
  ]

  start-IsTracked :
      (takes : GroupVersionResource → Bool) (name : Text) (watchable : List DiscoveredResource)
      (s : Controller db)
      → lookup name s.clusters ≡ none
      → IsTracked s
      → IsTracked (start db takes name watchable s)
  unfolding start
  start-IsTracked takes name watchable s e h = record {
    used = All-append _ s.workers _ (Used-weaken s.next s.workers h.used) (omega arith, tt);
    registered =
        All-append _ s.workers _ (insert-Registered name s.next s.clusters s.workers e h.registered)
          (λ live. lookup-insert name name s.next s.clusters ∙ rw (text_eq_refl name) refl, tt);
  }

  either-IsTracked {ℓ} :
      {A : Type ℓ} (b : Bool) (x y : A × Controller db)
      → IsTracked x.1
      → IsTracked y.1
      → IsTracked (if b then x else y).1
  either-IsTracked true x y h k = h
  either-IsTracked false x y h k = k

  -- Nothing that is registered for no context still runs.
  abbrev pub Stopped : Text → Worker → Type 0
  Stopped name w = w.cluster_name ≡ name → w.cancelled ≡ true

  Registered-Stopped :
      (name : Text) (clusters : List (Text × ℕ)) (ws : List Worker)
      → lookup name clusters ≡ none
      → All (Registered clusters) ws
      → All (Stopped name) ws
  Registered-Stopped name clusters [] e h = tt
  Registered-Stopped name clusters (w ∷ ws) e h = (
    λ same. elim (Bool-cases w.cancelled) [
      | inl ended ↦ ended
      | inr live ↦ let moved = ap (λ n. lookup n clusters) same in cc (h.0 live, moved, e)
    ],
    Registered-Stopped name clusters ws e h.1,
  )

  module _ (fill : ClusterModel → ClusterModel) (marshal_strings : List Text → Text)
      (parse_group_version : Text → Option (Text × Text)) (bl : Blacklist) where
    -- What Engage and Disengage leave untracked is what they have started or stopped: statements on
    -- the store do not matter.
    with_tables-IsTracked :
        (s : Controller db) (t : Tables db) → IsTracked s → IsTracked (record s { tables = t })
    with_tables-IsTracked s t h = record { used = h.used; registered = h.registered }

    finish_engage-IsTracked :
        (name : Text) (server : Server) (found : Option (List DiscoveredResource))
        (s : Controller db)
        → lookup name s.clusters ≡ none
        → IsTracked s
        → IsTracked
            (finish_engage db fill marshal_strings parse_group_version bl name server found s).1
    unfolding finish_engage
    finish_engage-IsTracked name server none s e h = h
    finish_engage-IsTracked name server (some watchable) s e h =
        either-IsTracked server.dynamic_client _ _
          (start-IsTracked server.takes name watchable s e h) h

    engage-IsTracked :
        (now : Time) (name : Text) (server : Server) (s : Controller db)
        → IsTracked s
        → IsTracked (engage db fill marshal_strings parse_group_version bl now name server s).1
    unfolding engage store_cluster discover
    engage-IsTracked now name server s h =
        let stopped = stop db name s in
        let free = stop-lookup name s in
        let kept = stop-IsTracked name s h in
        elim (Option-cases
          (upsert_cluster db (fill (active_cluster name now)) stopped.tables.clusters)) [
            | inl e ↦ rw (e, engage, store_cluster) kept
            | inr (clusters, e) ↦
                rw (e, engage, store_cluster)
                  (either-IsTracked server.discovery_client _ _
                    (finish_engage-IsTracked name server _ _ free
                      (with_tables-IsTracked stopped _ kept))
                    (with_tables-IsTracked stopped _ kept))
          ]

    disengage_result :
        (P : Controller db → Type 0) (now : Time) (name : Text) (s : Controller db)
        → ((t : Tables db) → P (record (stop db name s) { tables = t }))
        → P (disengage db fill marshal_strings parse_group_version bl now name s).1
    unfolding disengage store_cluster
    disengage_result P now name s h =
        let stopped = stop db name s in
        elim (Option-cases
          (upsert_cluster db (fill (stale_cluster name now)) stopped.tables.clusters)) [
            | inl e ↦ rw (e, disengage, store_cluster) (h stopped.tables)
            | inr (clusters, e) ↦
                rw (e, disengage, store_cluster) (h (record stopped.tables { clusters = clusters }))
          ]

    call-IsTracked :
        (c : Call) (s : Controller db)
        → IsTracked s
        → IsTracked (call db fill marshal_strings parse_group_version bl c s)
    unfolding call
    call-IsTracked (engaged now name server) s h = engage-IsTracked now name server s h
    call-IsTracked (disengaged now name) s h =
        disengage_result IsTracked now name s
          (λ t. with_tables-IsTracked (stop db name s) t (stop-IsTracked name s h))

    calls_keep :
        (cs : List Call) (s : Controller db)
        → IsTracked s
        → IsTracked (calls db fill marshal_strings parse_group_version bl cs s)
    unfolding calls
    calls_keep [] s h = h
    calls_keep (c ∷ cs) s h =
        calls_keep cs (call db fill marshal_strings parse_group_version bl c s)
          (call-IsTracked c s h)

    -- From the start, whatever calls of Engage and Disengage follow each other and whatever fails in
    -- them, all that still runs for a cluster runs under the one context that the controller has
    -- registered for it.
    pub calls-IsTracked :
        (cs : List Call) (t : Tables db)
        → IsTracked
            (calls db fill marshal_strings parse_group_version bl cs (new_sync_controller db t))
    calls-IsTracked cs t =
        calls_keep cs (new_sync_controller db t) (record { used = tt; registered = tt })

    -- After Disengage nothing runs for the cluster, also if its statement fails.
    pub disengage-Stopped :
        (now : Time) (name : Text) (s : Controller db)
        → IsTracked s
        → All
            (Stopped name)
            (disengage db fill marshal_strings parse_group_version bl now name s).1.workers
    disengage-Stopped now name s h =
        disengage_result (λ s'. All (Stopped name) s'.workers) now name s
          (λ t.
            Registered-Stopped name (stop db name s).clusters (stop db name s).workers
              (stop-lookup name s) (stop-IsTracked name s h).registered)
