-- ===== src/Tests/Relational/Order.antt =====
-- A query whose relations a range may visit in two orders.
use mathlib.Core.HLevel.{¬_prop}
use mathlib.Core.List.{Permᴰ, Pairwise, Pairwise-pair}
use kube_graphql.Common.{pos, codes, text_eq, text_ne, ◌≡◌, refl, true, none, []}
use kube_graphql.Api.{absent, shape, RelationMap, relation, spec}
use kube_graphql.Engine.Relational.{generate}
use kube_graphql.Engine.Relational.Deterministic.{with_objects, generate-order}
use kube_graphql.Engine.Relational.Queue.Order.{entries, DifferentKeys}
use kube_graphql.Tests.Relational.{codec, query, sqlite}

abbrev owners_first : RelationMap
owners_first =
    relation (codes "owners") (spec (pos 5) [] absent)
      (relation (codes "events") (spec (pos 0) [] absent) RelationMap.end)

abbrev events_first : RelationMap
events_first =
    relation (codes "events") (spec (pos 0) [] absent)
      (relation (codes "owners") (spec (pos 5) [] absent) RelationMap.end)

different : Pairwise DifferentKeys (entries owners_first)
unfolding entries codes text_eq
different = (Pairwise-pair {R = DifferentKeys} (λ a b. ¬_prop)).1 (text_ne _ _ refl)

swapped : Permᴰ (entries owners_first) (entries events_first)
unfolding entries
swapped = Permᴰ.swap refl refl

generate-order_example :
    generate codec sqlite (with_objects query (shape true true true none owners_first))
    ≡ generate codec sqlite (with_objects query (shape true true true none events_first))
generate-order_example =
    generate-order codec sqlite query true true true none owners_first events_first different
      swapped
