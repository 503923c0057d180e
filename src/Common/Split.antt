-- ===== src/Common/Split.antt =====
-- Laws of `split` and `join` at a separator of one byte.
use kube_graphql.Common.Lists.{All}
use kube_graphql.Common.Strings.{Text, Lacks, join, split, cons_head}
use Prim.Native.Nat.{ℕ}
use mathlib.Core.Path.{◌≡◌, refl}
use mathlib.Core.Logic.{◌≢◌}
use mathlib.Core.List.{List, [], ◌∷◌, ◌++◌}
use native.Mathlib.Omega.{arith}

-- A part that lacks the separator ends at the first one.
pub split-append : (s t : Text) (sep : ℕ) → Lacks sep s → split (s ++ sep ∷ t) sep ≡ s ∷ split t sep
unfolding split
split-append [] t sep h = ground arith
split-append (c ∷ s) t sep h = ground (arith, split-append s t sep h.1)

-- A text that lacks the separator is one part.
pub split_whole : (s : Text) (sep : ℕ) → Lacks sep s → split s sep ≡ s ∷ []
unfolding split
split_whole [] sep h = refl
split_whole (c ∷ s) sep h = ground (arith, split_whole s sep h.1)

-- Splitting a join gives the parts back, if there is a part and none holds the separator.
pub split-join :
    (p : Text) (ps : List Text) (sep : ℕ)
    → All (Lacks sep) (p ∷ ps)
    → split (join (p ∷ ps) (sep ∷ [])) sep ≡ p ∷ ps
split-join p [] sep h = split_whole p sep h.0
split-join p (q ∷ ps) sep h =
    rw (split-append p (join (q ∷ ps) (sep ∷ [])) sep h.0) (rw (split-join q ps sep h.1))

join-cons_head : (c : ℕ) (ps : List Text) (sep : Text) → join (cons_head c ps) sep ≡ c ∷ join ps sep
join-cons_head c [] sep = refl
join-cons_head c (p ∷ []) sep = refl
join-cons_head c (p ∷ q ∷ ps) sep = refl

cons_head-ne-nil : (c : ℕ) (ps : List Text) → cons_head c ps ≢ []
cons_head-ne-nil c [] = ground arith
cons_head-ne-nil c (p ∷ ps) = ground arith

split-ne-nil : (s : Text) (sep : ℕ) → split s sep ≢ []
unfolding split
split-ne-nil [] sep = ground arith
split-ne-nil (c ∷ s) sep = ground (arith, cons_head-ne-nil c (split s sep))

join_after : (ps : List Text) (sep : Text) → ps ≢ [] → join ([] ∷ ps) sep ≡ sep ++ join ps sep
join_after [] sep h = absurd (h refl)
join_after (p ∷ ps) sep h = refl

-- Joining the parts of a split gives the text back.
pub join-split : (s : Text) (sep : ℕ) → join (split s sep) (sep ∷ []) ≡ s
unfolding split
join-split [] sep = refl
join-split (c ∷ s) sep = ground (
  arith,
  join-split s sep,
  join-cons_head c (split s sep) (sep ∷ []),
  join_after (split s sep) (sep ∷ []) (split-ne-nil s sep),
)

cons_head-append :
    (c : ℕ) (ps qs : List Text) → ps ≢ [] → cons_head c (ps ++ qs) ≡ cons_head c ps ++ qs
cons_head-append c [] qs h = ground (arith, h)
cons_head-append c (p ∷ ps) qs h = refl

-- Any two texts with a separator between them split into the parts of both.
pub split-between : (s t : Text) (sep : ℕ) → split (s ++ sep ∷ t) sep ≡ split s sep ++ split t sep
unfolding split
split-between [] t sep = ground arith
split-between (c ∷ s) t sep = ground (
  arith,
  split-between s t sep,
  cons_head-append c (split s sep) (split t sep) (split-ne-nil s sep),
)
