-- ===== src/Sync/Controller.antt =====
-- internal/sync/controller.go: the controller that starts and stops the informers of clusters. What
-- a cluster's server offers is an argument; logging is left out.
pub mod Tracking
pub mod Lifetime
pub mod Isolation
pub mod Debounce
use kube_graphql.Common.{
  ◌==◌, if◌then◌else◌, lookup, insert, erase, ℤ, pos, eq_ℤ, Text, codes, ℕ, suc, Bool, true, false,
  Option, none, some, List, [], ◌∷◌, ◌++◌,
}
use kube_graphql.Api.{Time}
use kube_graphql.Gc.{Tables}
use kube_graphql.Store.{ClusterModel, Db, upsert_cluster}
use kube_graphql.Sync.Discovery.{
  GroupVersionResource, default_blacklist, Blacklist, new_blacklist, ApiResourceList,
  DiscoveredResource, run_discovery,
}
use kube_graphql.Sync.Handler.{EventHandler}

abbrev pub default_resync_period : ℤ
default_resync_period = pos 600000000000

-- Config, without its store.
pub record Config : Type 0 where
  pub blacklist : Option Blacklist
  pub resync_period : ℤ

-- `NewSyncController`: the configuration with its defaults.
unfoldable pub with_defaults : Config → Config
with_defaults cfg = record {
  blacklist = elim cfg.blacklist [
    | none ↦ some (new_blacklist default_blacklist)
    | some bl ↦ some bl
  ];
  resync_period =
      if eq_ℤ cfg.resync_period (pos 0) then default_resync_period else cfg.resync_period;
}

-- What a cluster offers: whether the two clients can be made, what its server lists, whether it
-- reports an error with it, and whether the informer of a resource takes a handler.
pub record Server : Type 0 where
  pub discovery_client : Bool
  pub dynamic_client : Bool
  pub lists : List (Option ApiResourceList)
  pub failed : Bool
  pub takes : GroupVersionResource → Bool

-- The goroutines of one engagement, under one context: the handlers of `runInformers`.
pub record Worker : Type 0 where
  pub context : ℕ
  pub cluster_name : Text
  pub handlers : List EventHandler
  pub cancelled : Bool

-- `existing.cancel()`: the context ends for all that run under it.
unfoldable pub cancel : ℕ → List Worker → List Worker
cancel id [] = []
cancel id (w ∷ ws) = (if w.context == id then record w { cancelled = true } else w) ∷ cancel id ws

-- The handlers that `runInformers` adds.
unfoldable pub handlers_of :
    (GroupVersionResource → Bool) → Text → List DiscoveredResource → List EventHandler
handlers_of takes name [] = []
handlers_of takes name (r ∷ rs) =
    let rest = handlers_of takes name rs in
    if takes r.gvr
    then record {
      cluster_name = name;
      group = r.gvr.group;
      version = r.gvr.version;
      resource = r.gvr.resource;
      kind = r.kind;
    }
      ∷ rest
    else rest

-- The steps of Engage that can fail.
pub data EngageError : Type 0 where
  upsert_failed discovery_client_failed discovery_failed dynamic_client_failed : EngageError

-- The model of a cluster that Engage and Disengage store.
abbrev pub active_cluster : Text → Time → ClusterModel
active_cluster name now = record {
  name = name;
  status = codes "active";
  last_seen = now;
  engaged_at = some now;
  labels = [];
  ttl = pos 3600;
}

abbrev pub stale_cluster : Text → Time → ClusterModel
stale_cluster name now = record {
  name = name;
  status = codes "stale";
  last_seen = now;
  engaged_at = none;
  labels = [];
  ttl = pos 0;
}

-- A call of Engage or Disengage.
pub data Call : Type 0 where
  engaged : Time → Text → Server → Call
  disengaged : Time → Text → Call

module _ (db : Db) where
  -- SyncController, and what it has started: `clusters` maps a name to the context of its
  -- clusterState, and `next` is a context that is not in use.
  pub record Controller : Type 0 where
    pub clusters : List (Text × ℕ)
    pub workers : List Worker
    pub next : ℕ
    pub tables : Tables db

  -- `NewSyncController`.
  abbrev pub new_sync_controller : Tables db → Controller
  new_sync_controller t = record { clusters = []; workers = []; next = 0; tables = t }

  -- The first critical section of Engage and of Disengage.
  unfoldable pub stop : Text → Controller → Controller
  stop name s = elim (lookup name s.clusters) [
    | none ↦ s
    | some id ↦ record s { clusters = erase name s.clusters; workers = cancel id s.workers }
  ]

  -- The second critical section of Engage, with the goroutines that it starts.
  unfoldable pub start :
      (GroupVersionResource → Bool) → Text → List DiscoveredResource → Controller → Controller
  start takes name watchable s = record s {
    clusters = insert name s.next s.clusters;
    workers =
        s.workers
        ++ record {
          context = s.next;
          cluster_name = name;
          handlers = handlers_of takes name watchable;
          cancelled = false;
        }
          ∷ [];
    next = suc s.next;
  }

-- `fill` is what the database layer makes of a model before it is written: it fills in defaults.
module _ (db : Db) (fill : ClusterModel → ClusterModel) (marshal_strings : List Text → Text)
    (parse_group_version : Text → Option (Text × Text)) (bl : Blacklist) where
  -- The statement on the clusters' table.
  unfoldable pub store_cluster : ClusterModel → Controller db → Option (Controller db)
  store_cluster model s = elim (upsert_cluster db (fill model) s.tables.clusters) [
    | none ↦ none
    | some clusters ↦ some (record s { tables = record s.tables { clusters = clusters } })
  ]

  -- `RunDiscovery` on the controller's store.
  unfoldable pub discover :
      Text → Server → Controller db → Option (List DiscoveredResource) × Controller db
  discover name server s =
      let after =
        run_discovery db marshal_strings parse_group_version bl name server.lists server.failed
          s.tables.resource_types in
      (after.0, record s { tables = record s.tables { resource_types = after.1 } })

  -- The rest of Engage behind discovery.
  unfoldable pub finish_engage :
      Text
      → Server
      → Option (List DiscoveredResource)
      → Controller db
      → Option EngageError × Controller db
  finish_engage name server none s = (some discovery_failed, s)
  finish_engage name server (some watchable) s =
      if server.dynamic_client
      then (none, start db server.takes name watchable s)
      else (some dynamic_client_failed, s)

  -- `Engage`, at the time `now`.
  unfoldable pub engage : Time → Text → Server → Controller db → Option EngageError × Controller db
  engage now name server s =
      let stopped = stop db name s in
      elim (store_cluster (active_cluster name now) stopped) [
        | none ↦ (some upsert_failed, stopped)
        | some stored ↦
            if server.discovery_client
            then (let found = discover name server stored in
                finish_engage name server found.0 found.1)
            else (some discovery_client_failed, stored)
      ]

  -- `Disengage`: whether it returns no error, and the state.
  unfoldable pub disengage : Time → Text → Controller db → Bool × Controller db
  disengage now name s =
      let stopped = stop db name s in
      elim (store_cluster (stale_cluster name now) stopped) [
        | none ↦ (false, stopped)
        | some stored ↦ (true, stored)
      ]

  unfoldable pub call : Call → Controller db → Controller db
  call (engaged now name server) s = (engage now name server s).1
  call (disengaged now name) s = (disengage now name s).1

  unfoldable pub calls : List Call → Controller db → Controller db
  calls [] s = s
  calls (c ∷ cs) s = calls cs (call c s)
