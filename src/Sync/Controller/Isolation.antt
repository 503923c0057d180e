-- ===== src/Sync/Controller/Isolation.antt =====
-- Calls of Engage and Disengage for other clusters.
use mathlib.Core.Option.{some-injective}
use mathlib.Core.Path.{subst}
use kube_graphql.Common.{
  Bool-cases, Option-cases, lookup, lookup-insert, lookup-erase, All, Text, text_eq, text_eq_iff,
  ne_text, ◌≡◌, refl, sym, ap, ◌∙◌, ◌≢◌, inl, inr, Bool, false, Option, none, some, List, [], ◌∷◌,
}
use kube_graphql.Api.{Time}
use kube_graphql.Gc.Safety.{Untouched, Untouched-refl, Untouched-trans}
use kube_graphql.Store.{ClusterModel, same_cluster, assign_cluster, Db, upsert_cluster}
use kube_graphql.Store.Select.{Respects, keep-upsert_other}
use kube_graphql.Sync.Controller.{
  Server, active_cluster, stale_cluster, Call, engaged, disengaged, Controller, stop, start,
  store_cluster, discover, finish_engage, engage, disengage, call, calls,
}
use kube_graphql.Sync.Discovery.{GroupVersionResource, Blacklist, DiscoveredResource}
use kube_graphql.Sync.Discovery.Isolation.{run_discovery-SameTypes}

abbrev pub call_name : Call → Text
call_name (engaged now name server) = name
call_name (disengaged now name) = name

cluster-Respects :
    (n : Text) (m : ClusterModel) → Respects (λ r. text_eq r.name n) same_cluster assign_cluster m
unfolding same_cluster assign_cluster
cluster-Respects n m r hit =
    let same : m.name ≡ r.name = (text_eq_iff m.name r.name).0 hit in
    let selected = ap (λ c. text_eq c n) (sym same) in (selected, selected)

module _ (db : Db) (n : Text) where
  -- The cluster n has the same registered context and the same rows.
  pub record Kept (s s' : Controller db) : Type 0 where
    pub context : lookup n s'.clusters ≡ lookup n s.clusters
    pub tables : Untouched db n s.tables s'.tables

  Kept-trans : (s t u : Controller db) → Kept s t → Kept t u → Kept s u
  Kept-trans s t u h k = record {
    context = k.context ∙ h.context;
    tables = Untouched-trans db n s.tables t.tables u.tables h.tables k.tables;
  }

  Kept-refl : (s : Controller db) → Kept s s
  Kept-refl s = record { context = refl; tables = Untouched-refl db n s.tables }

  module _ (m : Text) (apart : m ≢ n) where
    stop-Kept : (s : Controller db) → Kept s (stop db m s)
    unfolding stop
    stop-Kept s = elim (Option-cases (lookup m s.clusters)) [
      | inl e ↦ rw (stop, e) (Kept-refl s)
      | inr (id, e) ↦
          rw (stop, e)
            (record {
              context = lookup-erase m n s.clusters ∙ rw (ne_text m n apart) refl;
              tables = Untouched-refl db n s.tables;
            })
    ]

    start-Kept :
        (takes : GroupVersionResource → Bool) (watchable : List DiscoveredResource)
        (s : Controller db)
        → Kept s (start db takes m watchable s)
    unfolding start
    start-Kept takes watchable s = record {
      context = lookup-insert m n s.next s.clusters ∙ rw (ne_text m n apart) refl;
      tables = Untouched-refl db n s.tables;
    }

    module _ (fill : ClusterModel → ClusterModel)
        (fill-name : (r : ClusterModel) → (fill r).name ≡ r.name)
        (marshal_strings : List Text → Text) (parse_group_version : Text → Option (Text × Text))
        (bl : Blacklist) where
      store_cluster-Kept :
          (model : ClusterModel) (s t : Controller db)
          → model.name ≡ m
          → store_cluster db fill marshal_strings parse_group_version bl model s ≡ some t
          → Kept s t
      unfolding store_cluster upsert_cluster
      store_cluster-Kept model s t named e =
          elim (Option-cases (upsert_cluster db (fill model) s.tables.clusters)) [
            | inl f ↦ cc (rw (store_cluster, f) at e)
            | inr (clusters, f) ↦
                let other_name : text_eq (fill model).name n ≡ false =
                  rw (fill-name model, named) (ne_text m n apart) in
                subst (Kept s) (some-injective _ _ (rw (store_cluster, f) at e)) (record {
                  context = refl;
                  tables = record {
                    objects = refl;
                    resource_types = refl;
                    clusters =
                        rw
                          (db.clusters.rows-insert same_cluster assign_cluster (fill model)
                            s.tables.clusters clusters f)
                          (keep-upsert_other _ same_cluster assign_cluster (fill model)
                            (cluster-Respects n (fill model)) other_name
                            (db.clusters.rows s.tables.clusters));
                  };
                })
          ]

      discover-Kept :
          (server : Server) (s : Controller db)
          → Kept s (discover db fill marshal_strings parse_group_version bl m server s).1
      unfolding discover
      discover-Kept server s = record {
        context = refl;
        tables = record {
          objects = refl;
          resource_types =
              run_discovery-SameTypes n db marshal_strings parse_group_version bl m apart
                server.lists server.failed s.tables.resource_types;
          clusters = refl;
        };
      }

      finish_engage-Kept :
          (server : Server) (found : Option (List DiscoveredResource)) (s : Controller db)
          → Kept s (finish_engage db fill marshal_strings parse_group_version bl m server found s).1
      unfolding finish_engage
      finish_engage-Kept server none s = Kept-refl s
      finish_engage-Kept server (some watchable) s = elim (Bool-cases server.dynamic_client) [
        | inl e ↦ rw e (start-Kept server.takes watchable s)
        | inr e ↦ rw e (Kept-refl s)
      ]

      engage-Kept :
          (now : Time) (server : Server) (s : Controller db)
          → Kept s (engage db fill marshal_strings parse_group_version bl now m server s).1
      unfolding engage discover finish_engage
      engage-Kept now server s =
          let stopped = stop db m s in
          elim (Option-cases (
            store_cluster db fill marshal_strings parse_group_version bl (active_cluster m now)
              stopped)) [
                | inl e ↦ rw (engage, e) (stop-Kept s)
                | inr (t, e) ↦
                    let before =
                      Kept-trans s stopped t (stop-Kept s)
                        (store_cluster-Kept (active_cluster m now) stopped t refl e) in
                    elim (Bool-cases server.discovery_client) [
                      | inl d ↦
                          let found =
                            discover db fill marshal_strings parse_group_version bl m server t in
                          rw (engage, e, d)
                            (Kept-trans s t _ before (
                              Kept-trans t found.1 _ (discover-Kept server t)
                                (finish_engage-Kept server found.0 found.1)))
                      | inr d ↦ rw (engage, e, d) before
                    ]
              ]

      disengage-Kept :
          (now : Time) (s : Controller db)
          → Kept s (disengage db fill marshal_strings parse_group_version bl now m s).1
      unfolding disengage
      disengage-Kept now s =
          let stopped = stop db m s in
          elim (Option-cases (
            store_cluster db fill marshal_strings parse_group_version bl (stale_cluster m now)
              stopped)) [
                | inl e ↦ rw (disengage, e) (stop-Kept s)
                | inr (t, e) ↦
                    rw (disengage, e)
                      (Kept-trans s stopped t (stop-Kept s)
                        (store_cluster-Kept (stale_cluster m now) stopped t refl e))
              ]

  module _ (fill : ClusterModel → ClusterModel)
      (fill-name : (r : ClusterModel) → (fill r).name ≡ r.name) (marshal_strings : List Text → Text)
      (parse_group_version : Text → Option (Text × Text)) (bl : Blacklist) where
    call-Kept :
        (c : Call) (s : Controller db)
        → call_name c ≢ n
        → Kept s (call db fill marshal_strings parse_group_version bl c s)
    unfolding call
    call-Kept (engaged now name server) s apart =
        engage-Kept name apart fill fill-name marshal_strings parse_group_version bl now server s
    call-Kept (disengaged now name) s apart =
        disengage-Kept name apart fill fill-name marshal_strings parse_group_version bl now s

    -- Over any sequence of calls for other clusters, whatever fails, a cluster keeps its registered
    -- context and all its rows, if the database layer does not change a model's name.
    pub calls-Kept :
        (cs : List Call) (s : Controller db)
        → All (λ c. call_name c ≢ n) cs
        → Kept s (calls db fill marshal_strings parse_group_version bl cs s)
    unfolding calls
    calls-Kept [] s h = Kept-refl s
    calls-Kept (c ∷ cs) s h = Kept-trans s _ _ (call-Kept c s h.0) (calls-Kept cs _ h.1)
