-- ===== src/Sync/Identities/Names.antt =====
-- The names of kcp's schemas: what RunKCPDiscovery reads of them.
use kube_graphql.Common.{Text, Lacks, ℕ, suc, ◌≡◌, refl, some, [], ◌∷◌, ◌++◌, arith}
use kube_graphql.Sync.Identities.{split_n, resource_and_group, parse_schema_name}

-- The name of a schema: <version>.<resource>.<group>.
abbrev pub schema_name : Text → Text → Text → Text
schema_name version resource api_group = version ++ (b'.' ∷ (resource ++ (b'.' ∷ api_group)))

split_n-append :
    (n : ℕ) (s t : Text) (sep : ℕ)
    → Lacks sep s
    → split_n (suc n) (s ++ sep ∷ t) sep ≡ s ∷ split_n n t sep
unfolding split_n
split_n-append n [] t sep h = ground arith
split_n-append n (c ∷ s) t sep h = ground (arith, split_n-append n s t sep h.1)

-- The resource and the group are read back from a schema's name, where neither the version nor the
-- resource holds a dot; the group may.
pub parse_schema_name-schema_name :
    (version resource api_group : Text)
    → Lacks b'.' version
    → Lacks b'.' resource
    → parse_schema_name (schema_name version resource api_group) ≡ some (resource, api_group)
unfolding parse_schema_name resource_and_group split_n
parse_schema_name-schema_name version resource api_group hv hr =
    rw
      (
        split_n-append 1 version (resource ++ (b'.' ∷ api_group)) b'.' hv,
        split_n-append 0 resource api_group b'.' hr,
      )
      refl
