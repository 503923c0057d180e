-- ===== src/Gc/Expiry.antt =====
-- When collect treats a cluster as expired.
use kube_graphql.Common.{
  ℤ, pos, negsuc, ◌+ℤ◌, ◌*ℤ◌, ◌≤ℤ◌, ltb_ℤ, wrap_64, *ℤ-pos, wrap_64-pos, wrap_64-negsuc, codes,
  text_eq, ℕ, ◌+◌, ◌*◌, ◌≡◌, ◌↔◌, Bool, true, ◌&&◌, arith,
}
use kube_graphql.Api.{Time}
use kube_graphql.Gc.{expiry, is_expired}
use kube_graphql.Store.{ClusterModel}

-- A cluster that a collection at the time `now` removes.
unfoldable pub is_due : Time → ClusterModel → Bool
is_due now c = (text_eq c.status (codes "stale") && ltb_ℤ c.last_seen now) && is_expired now c

-- The nanoseconds of a negative number of seconds.
negative_seconds : (n : ℕ) → negsuc n *ℤ pos 1000000000 ≡ negsuc (n * 1000000000 + 999999999)
unfolding ◌*ℤ◌
negative_seconds n = ground arith

duration-exact :
    (t : ℤ)
    → negsuc 9223372035 ≤ℤ t
    → t ≤ℤ pos 9223372036
    → wrap_64 (t *ℤ pos 1000000000) ≡ t *ℤ pos 1000000000
duration-exact (pos n) low high = rw *ℤ-pos (wrap_64-pos (n * 1000000000) (omega arith))
duration-exact (negsuc n) low high =
    rw (negative_seconds n) (wrap_64-negsuc (n * 1000000000 + 999999999) (omega arith))

-- For a TTL of at most 9223372036 seconds in either direction, which fits in a duration of
-- nanoseconds, a cluster is expired exactly when the TTL's seconds have passed since it was last
-- seen: also at the very time at which they have.
pub is_expired_iff :
    (now : Time) (c : ClusterModel)
    → negsuc 9223372035 ≤ℤ c.ttl
    → c.ttl ≤ℤ pos 9223372036
    → (is_expired now c ≡ true) ↔ (c.last_seen +ℤ c.ttl *ℤ pos 1000000000 ≤ℤ now)
unfolding is_expired expiry
is_expired_iff now c low high = rw (duration-exact c.ttl low high) (ground arith)
