-- ===== src/Sync/Controller/Lifetime.antt =====
-- The record of a cluster from Engage and Disengage to the collector of internal/gc/gc.go.
use mathlib.Core.Path.{subst}
use kube_graphql.Common.{
  if◌then◌else◌, Option-cases, All, All-weaken, pos, ◌+ℤ◌, ◌*ℤ◌, ltb_ℤ, +ℤ_parts, wrap_64, Text,
  codes, text_eq, text_eq_iff, text_ne, ◌≡◌, refl, sym, ap, ◌∙◌, ◌≢◌, inl, inr, Bool, true, false,
  not, ◌&&◌, Option, none, some, List, arith,
}
use kube_graphql.Api.{Time}
use kube_graphql.Gc.{expiry, is_expired, collect}
use kube_graphql.Gc.Expiry.{is_due}
use kube_graphql.Gc.Progress.{IsReliable, Gone, collect_removes}
use kube_graphql.Gc.Safety.{Untouched, collect-Untouched}
use kube_graphql.Store.{ClusterModel, same_cluster, assign_cluster, Db, Clusters, upsert_cluster}
use kube_graphql.Store.Upsert.{upsert-All, upsert_row}
use kube_graphql.Sync.Controller.{
  Server, upsert_failed, active_cluster, stale_cluster, Controller, stop, start, store_cluster,
  discover, finish_engage, engage, disengage,
}
use kube_graphql.Sync.Discovery.{Blacklist, DiscoveredResource}

-- What the database layer writes for a model of a cluster: the model, with the column's default of
-- 3600 seconds for a TTL of zero.
pub record FillsDefaults (fill : ClusterModel → ClusterModel) : Type 0 where
  pub name : (m : ClusterModel) → (fill m).name ≡ m.name
  pub status : (m : ClusterModel) → (fill m).status ≡ m.status
  pub last_seen : (m : ClusterModel) → (fill m).last_seen ≡ m.last_seen
  pub ttl : (m : ClusterModel) → m.ttl ≡ pos 0 → (fill m).ttl ≡ pos 3600

-- The columns that the collector reads are those of a model.
pub record Reads (m c : ClusterModel) : Type 0 where
  pub name : c.name ≡ m.name
  pub status : c.status ≡ m.status
  pub last_seen : c.last_seen ≡ m.last_seen
  pub ttl : c.ttl ≡ m.ttl

assign_cluster-Reads : (m r : ClusterModel) → same_cluster m r ≡ true → Reads m (assign_cluster m r)
unfolding same_cluster assign_cluster
assign_cluster-Reads m r e = record {
  name = sym ((text_eq_iff m.name r.name).0 e);
  status = refl;
  last_seen = refl;
  ttl = refl;
}

module _ (db : Db) (model : ClusterModel) (s s' : Clusters db)
    (stored : upsert_cluster db model s ≡ some s') where
  -- Every row of the model's name reads like the model.
  upsert_cluster-Reads : All (λ c. c.name ≡ model.name → Reads model c) (db.clusters.rows s')
  unfolding upsert_cluster same_cluster
  upsert_cluster-Reads =
      rw (db.clusters.rows-insert same_cluster assign_cluster model s s' stored) (
        upsert-All same_cluster assign_cluster model (λ c. c.name ≡ model.name → Reads model c)
          (db.clusters.rows s)
          (λ _. record { name = refl; status = refl; last_seen = refl; ttl = refl })
          (λ r e _. assign_cluster-Reads model r e)
          (λ r e same. absurd (text_ne model.name r.name e (sym same))))

  -- What follows of each row follows for one that reads like the model.
  upsert_cluster-row :
      (Q : ClusterModel → Type 0) (X : Type 0)
      → ((c : ClusterModel) → Reads model c → Q c → X)
      → All Q (db.clusters.rows s')
      → X
  unfolding upsert_cluster
  upsert_cluster-row Q X f q =
      upsert_row same_cluster assign_cluster model Q X (db.clusters.rows s)
        (f model (record { name = refl; status = refl; last_seen = refl; ttl = refl }))
        (λ r e. f (assign_cluster model r) (assign_cluster-Reads model r e))
        (rw (db.clusters.rows-insert same_cluster assign_cluster model s s' stored) at q)

-- A record that is not stale is never due.
active-due :
    (later now : Time) (name : Text) (fill : ClusterModel → ClusterModel) (c : ClusterModel)
    → FillsDefaults fill
    → Reads (fill (active_cluster name now)) c
    → is_due later c ≡ false
unfolding is_due codes text_eq
active-due later now name fill c h r =
    let status = r.status ∙ h.status (active_cluster name now) in rw status refl

stale_expiry :
    (now : Time) (name : Text) (fill : ClusterModel → ClusterModel) (c : ClusterModel)
    → FillsDefaults fill
    → Reads (fill (stale_cluster name now)) c
    → expiry c ≡ now +ℤ pos 3600000000000
unfolding expiry wrap_64 ◌*ℤ◌
stale_expiry now name fill c h r =
    let last_seen = r.last_seen ∙ h.last_seen (stale_cluster name now) in
    let ttl = r.ttl ∙ h.ttl (stale_cluster name now) refl in rw (last_seen, ttl) refl

hour_later :
    (now later : Time)
    → (ltb_ℤ now later && not (ltb_ℤ later (now +ℤ pos 3600000000000)))
      ≡ not (ltb_ℤ later (now +ℤ pos 3600000000000))
hour_later now later = ground (arith, +ℤ_parts now (pos 3600000000000))

-- A record that Disengage has left is due from an hour later on.
stale-due :
    (later now : Time) (name : Text) (fill : ClusterModel → ClusterModel) (c : ClusterModel)
    → FillsDefaults fill
    → Reads (fill (stale_cluster name now)) c
    → is_due later c ≡ not (ltb_ℤ later (now +ℤ pos 3600000000000))
unfolding is_due is_expired codes text_eq
stale-due later now name fill c h r =
    let status = r.status ∙ h.status (stale_cluster name now) in
    let last_seen = r.last_seen ∙ h.last_seen (stale_cluster name now) in
    rw (stale_expiry now name fill c h r, status, last_seen) (hour_later now later)

either-clusters {ℓ} :
    {A : Type ℓ} (db : Db) (b : Bool) (x y : A × Controller db) (k : Clusters db)
    → x.1.tables.clusters ≡ k
    → y.1.tables.clusters ≡ k
    → (if b then x else y).1.tables.clusters ≡ k
either-clusters db true x y k h g = h
either-clusters db false x y k h g = g

module _ (db : Db) (fill : ClusterModel → ClusterModel) (marshal_strings : List Text → Text)
    (parse_group_version : Text → Option (Text × Text)) (bl : Blacklist) where
  finish_engage-clusters :
      (name : Text) (server : Server) (found : Option (List DiscoveredResource)) (s : Controller db)
      → (finish_engage db fill marshal_strings parse_group_version bl name server found
          s).1.tables.clusters
        ≡ s.tables.clusters
  unfolding finish_engage start
  finish_engage-clusters name server none s = refl
  finish_engage-clusters name server (some watchable) s =
      either-clusters db server.dynamic_client _ _ s.tables.clusters refl refl

  -- The statement of Engage stands at its end, whatever fails behind it.
  engage-clusters :
      (now : Time) (name : Text) (server : Server) (s : Controller db)
      → (engage db fill marshal_strings parse_group_version bl now name server s).0
        ≢ some upsert_failed
      → upsert_cluster db (fill (active_cluster name now)) (stop db name s).tables.clusters
        ≡ some
            (engage db fill marshal_strings parse_group_version bl now name server
              s).1.tables.clusters
  unfolding engage store_cluster discover
  engage-clusters now name server s h =
      elim (Option-cases
        (upsert_cluster db (fill (active_cluster name now)) (stop db name s).tables.clusters)) [
          | inl e ↦ absurd (h (rw (e, engage, store_cluster) refl))
          | inr (clusters, e) ↦
              e
              ∙ ap some (
                  sym (
                    rw (e, engage, store_cluster)
                      (either-clusters db server.discovery_client _ _ clusters
                        (finish_engage-clusters name server _ _) refl)))
        ]

  disengage-clusters :
      (now : Time) (name : Text) (s : Controller db)
      → (disengage db fill marshal_strings parse_group_version bl now name s).0 ≡ true
      → upsert_cluster db (fill (stale_cluster name now)) (stop db name s).tables.clusters
        ≡ some
            (disengage db fill marshal_strings parse_group_version bl now name s).1.tables.clusters
  unfolding disengage store_cluster
  disengage-clusters now name s h =
      elim (Option-cases
        (upsert_cluster db (fill (stale_cluster name now)) (stop db name s).tables.clusters)) [
          | inl e ↦ cc (rw (e, disengage, store_cluster) at h)
          | inr (clusters, e) ↦ e ∙ ap some (sym (rw (e, disengage, store_cluster) refl))
        ]

  module _ (defaults : FillsDefaults fill) where
    -- After an Engage whose statement on the cluster's record does not fail, even if a later step
    -- does, a collection at any time leaves the cluster's objects, resource types and record.
    pub engage-Untouched :
        (now later : Time) (name : Text) (server : Server) (s : Controller db)
        → (engage db fill marshal_strings parse_group_version bl now name server s).0
          ≢ some upsert_failed
        → let t =
            (engage db fill marshal_strings parse_group_version bl now name server s).1.tables in
          Untouched db name t (collect db later t)
    engage-Untouched now later name server s h =
        let t =
          (engage db fill marshal_strings parse_group_version bl now name server s).1.tables in
        let stored = engage-clusters now name server s h in
        collect-Untouched db name later t (
          All-weaken _ _ (db.clusters.rows t.clusters)
            (λ c r due same.
              let read = r (same ∙ sym (defaults.name (active_cluster name now))) in
              cc (due, active-due later now name fill c defaults read))
            (upsert_cluster-Reads db (fill (active_cluster name now)) _ t.clusters stored))

    -- After a Disengage that returns no error, a collection less than an hour later leaves the
    -- cluster's objects, resource types and record.
    pub disengage-Untouched :
        (now later : Time) (name : Text) (s : Controller db)
        → (disengage db fill marshal_strings parse_group_version bl now name s).0 ≡ true
        → ltb_ℤ later (now +ℤ pos 3600000000000) ≡ true
        → let t = (disengage db fill marshal_strings parse_group_version bl now name s).1.tables in
          Untouched db name t (collect db later t)
    disengage-Untouched now later name s h early =
        let t = (disengage db fill marshal_strings parse_group_version bl now name s).1.tables in
        let stored = disengage-clusters now name s h in
        collect-Untouched db name later t (
          All-weaken _ _ (db.clusters.rows t.clusters)
            (λ c r due same.
              let read = r (same ∙ sym (defaults.name (stale_cluster name now))) in
              cc (due, stale-due later now name fill c defaults read, ap not early))
            (upsert_cluster-Reads db (fill (stale_cluster name now)) _ t.clusters stored))

    -- A collection exactly an hour after a Disengage that returns no error, or later, leaves nothing
    -- of the cluster, if no statement of the collection fails.
    pub disengage-Gone :
        (now later : Time) (name : Text) (s : Controller db)
        → IsReliable db
        → (disengage db fill marshal_strings parse_group_version bl now name s).0 ≡ true
        → ltb_ℤ later (now +ℤ pos 3600000000000) ≡ false
        → Gone db name (
            collect db later
              (disengage db fill marshal_strings parse_group_version bl now name s).1.tables)
    disengage-Gone now later name s reliable h late =
        let t = (disengage db fill marshal_strings parse_group_version bl now name s).1.tables in
        upsert_cluster-row db (fill (stale_cluster name now)) _ t.clusters
          (disengage-clusters now name s h)
          (λ c. is_due later c ≡ true → Gone db c.name (collect db later t))
          (Gone db name (collect db later t))
          (λ c read gone.
            subst (λ n. Gone db n (collect db later t))
              (read.name ∙ defaults.name (stale_cluster name now))
              (gone (stale-due later now name fill c defaults read ∙ ap not late)))
          (collect_removes db reliable later t)
