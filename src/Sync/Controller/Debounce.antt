-- ===== src/Sync/Controller/Debounce.antt =====
-- watchCRDs of internal/sync/controller.go: discovery is run again when CRDs change.
use mathlib.Core.Path.{subst}
use kube_graphql.Common.{
  if◌then◌else◌, Bool-cases, pos, ◌+ℤ◌, ◌-ℤ◌, ◌≤ℤ◌, ltb_ℤ, +ℤ_parts, -ℤ_parts, Text, ◌≡◌, refl, sym,
  ◌∙◌, inl, inr, Bool, true, false, Option, none, some, List, [], ◌∷◌, arith,
}
use kube_graphql.Api.{Time}
use kube_graphql.Store.{Db, ResourceTypes}
use kube_graphql.Sync.Controller.{Server}
use kube_graphql.Sync.Discovery.{Blacklist, run_discovery}

-- The callbacks of crdRefreshHandler.
pub data CrdEvent : Type 0 where
  crd_added crd_updated crd_deleted : CrdEvent

-- `now.Sub(lastRefresh) < 30*time.Second`; the zero time is too long ago.
unfoldable pub is_recent : Time → Option Time → Bool
is_recent now none = false
is_recent now (some t) = ltb_ℤ (now -ℤ t) (pos 30000000000)

module _ (db : Db) (marshal_strings : List Text → Text)
    (parse_group_version : Text → Option (Text × Text)) (bl : Blacklist) (cluster_name : Text) where
  -- What the closure `refresh` keeps and changes.
  pub record Refresher : Type 0 where
    pub last_refresh : Option Time
    pub resource_types : ResourceTypes db

  -- `RunDiscovery` again; its error is logged.
  unfoldable pub rediscover : Server → ResourceTypes db → ResourceTypes db
  rediscover server s =
      (run_discovery db marshal_strings parse_group_version bl cluster_name server.lists
        server.failed s).1

  -- `refresh`, at the time `now`.
  unfoldable pub refresh : Time → Server → Refresher → Refresher
  refresh now server s =
      if is_recent now s.last_refresh
      then s
      else record { last_refresh = some now; resource_types = rediscover server s.resource_types }

  -- `OnAdd`, `OnUpdate` and `OnDelete`.
  unfoldable pub on_crd_event : CrdEvent → Time → Server → Refresher → Refresher
  on_crd_event crd_added now server s = refresh now server s
  on_crd_event crd_updated now server s = refresh now server s
  on_crd_event crd_deleted now server s = refresh now server s

  -- The events of the informer, one after another, each with its time and what the server offers
  -- then.
  unfoldable pub on_crd_events : List (CrdEvent × Time × Server) → Refresher → Refresher
  on_crd_events [] s = s
  on_crd_events ((e, now, server) ∷ es) s = on_crd_events es (on_crd_event e now server s)

  -- Discovery at some times, one after another.
  unfoldable pub rediscover_all : List (Time × Server) → ResourceTypes db → ResourceTypes db
  rediscover_all [] s = s
  rediscover_all ((now, server) ∷ ts) s = rediscover_all ts (rediscover server s)

  -- Each time is half a minute or more behind the one before it.
  unfoldable pub AreApart : Option Time → List (Time × Server) → Type 0
  AreApart last [] = Unit
  AreApart none ((now, server) ∷ ts) = AreApart (some now) ts
  AreApart (some t) ((now, server) ∷ ts) = (t +ℤ pos 30000000000 ≤ℤ now) × AreApart (some now) ts

  -- Which events `es` make discovery run, at `ts`, if it ran last at the first time: an event may be
  -- passed over only within half a minute of the last run before it.
  pub data Selects
      : Option Time → List (CrdEvent × Time × Server) → List (Time × Server) → Type 0 where
    done : {last : Option Time} → Selects last [] []
    pass :
        {t now : Time} {e : CrdEvent} {server : Server} {es : List (CrdEvent × Time × Server)}
        {ts : List (Time × Server)}
        → ¬ (t +ℤ pos 30000000000 ≤ℤ now)
        → Selects (some t) es ts
        → Selects (some t) ((e, now, server) ∷ es) ts
    fire :
        {last : Option Time} {now : Time} {e : CrdEvent} {server : Server}
        {es : List (CrdEvent × Time × Server)} {ts : List (Time × Server)}
        → Selects (some now) es ts
        → Selects last ((e, now, server) ∷ es) ((now, server) ∷ ts)

  -- Discovery runs at the times of some of the events, at least half a minute apart, with what the
  -- server offers then; no event is passed over that comes later than half a minute after the last
  -- run; and the resource types are what these runs leave.
  abbrev pub IsDebounced : List (CrdEvent × Time × Server) → Refresher → Refresher → Type 0
  IsDebounced es s s' =
      (ts : List (Time × Server)) × Selects s.last_refresh es ts
      × AreApart s.last_refresh ts
      × (s'.resource_types ≡ rediscover_all ts s.resource_types)

  apart_time :
      (t now : Time) → ltb_ℤ (now -ℤ t) (pos 30000000000) ≡ false → t +ℤ pos 30000000000 ≤ℤ now
  apart_time t now h = ground (arith, +ℤ_parts t (pos 30000000000), -ℤ_parts now t)

  refresh-on_crd_event :
      (e : CrdEvent) (now : Time) (server : Server) (s : Refresher)
      → on_crd_event e now server s ≡ refresh now server s
  unfolding on_crd_event
  refresh-on_crd_event crd_added now server s = refl
  refresh-on_crd_event crd_updated now server s = refl
  refresh-on_crd_event crd_deleted now server s = refl

  apart-cons :
      (last : Option Time) (now : Time) (server : Server) (ts : List (Time × Server))
      → is_recent now last ≡ false
      → AreApart (some now) ts
      → AreApart last ((now, server) ∷ ts)
  unfolding AreApart is_recent
  apart-cons none now server ts e h = h
  apart-cons (some t) now server ts e h = (apart_time t now e, h)

  pass_recent :
      (last : Option Time) (e : CrdEvent) (now : Time) (server : Server)
      (es : List (CrdEvent × Time × Server)) (ts : List (Time × Server))
      → is_recent now last ≡ true
      → Selects last es ts
      → Selects last ((e, now, server) ∷ es) ts
  unfolding is_recent
  pass_recent none e now server es ts h rest = cc h
  pass_recent (some t) e now server es ts h rest =
      pass (ground (arith, h, +ℤ_parts t (pos 30000000000), -ℤ_parts now t)) rest

  -- Whatever CRD events arrive at whatever times, discovery runs again exactly at those of them that
  -- have no run before them or come half a minute or more behind the last one, and nothing else
  -- changes the resource types.
  pub on_crd_events-IsDebounced :
      (es : List (CrdEvent × Time × Server)) (s : Refresher) → IsDebounced es s (on_crd_events es s)
  unfolding on_crd_events rediscover_all refresh
  on_crd_events-IsDebounced [] s = ([], done, unfold AreApart in tt, refl)
  on_crd_events-IsDebounced ((e, now, server) ∷ es) s =
      let rest = on_crd_events-IsDebounced es in
      let step = refresh-on_crd_event e now server s in
      elim (Bool-cases (is_recent now s.last_refresh)) [
        | inl recent ↦
            let same : on_crd_event e now server s ≡ s = step ∙ rw recent refl in
            let (ts, chosen, apart, types) = rest s in
            subst (λ x. IsDebounced ((e, now, server) ∷ es) s (on_crd_events es x)) (sym same)
              (ts, pass_recent s.last_refresh e now server es ts recent chosen, apart, types)
        | inr due ↦
            let s' : Refresher = record {
              last_refresh = some now;
              resource_types = rediscover server s.resource_types;
            } in
            let same : on_crd_event e now server s ≡ s' = step ∙ rw due refl in
            let (ts, chosen, apart, types) = rest s' in
            subst (λ x. IsDebounced ((e, now, server) ∷ es) s (on_crd_events es x)) (sym same)
              (
                (now, server) ∷ ts,
                fire chosen,
                apart-cons s.last_refresh now server ts due apart,
                types,
              )
      ]
