-- ===== src/Engine/Tree/Paths.antt =====
-- parentPathOf of internal/engine/tree.go on the paths that the generator builds.
use mathlib.Core.List.{append_assoc}
use kube_graphql.Common.{
  leb, Bool-cases, split-append, split_whole, join-split, split-between, length, length-append,
  drop_last-append, Text, codes, join, Lacks, split, ◌+◌, ◌≤◌, ◌≡◌, refl, sym, ap, ◌∙◌, ◌≢◌, inl,
  inr, false, List, [], ◌∷◌, ◌++◌, arith,
}
use kube_graphql.Engine.Tree.{parent_path_of}

-- The path of a row below another: its kind and its namespace and name behind the parent's path.
abbrev pub child_row_path : Text → Text → Text → Text
child_row_path parent kind name = parent ++ (b'.' ∷ (kind ++ (b'.' ∷ name)))

-- The parts of a path below another are the parts of both.
split-child_row_path :
    (parent kind name : Text)
    → Lacks b'.' kind
    → split (child_row_path parent kind name) b'.' ≡ split parent b'.' ++ kind ∷ split name b'.'
split-child_row_path parent kind name k =
    rw (split-between parent (kind ++ (b'.' ∷ name)) b'.') (rw (split-append kind name b'.' k))

-- Of four parts or more, the last two go.
pub parent_path_of-parts :
    (path : Text) (parts : List Text) (kind name : Text)
    → split path b'.' ≡ parts ++ kind ∷ name ∷ []
    → 2 ≤ length parts
    → parent_path_of path ≡ join parts (b'.' ∷ [])
unfolding parent_path_of codes
parent_path_of-parts path parts kind name e h =
    let many : leb (length (parts ++ kind ∷ name ∷ [])) 3 ≡ false =
      ground (arith, length-append parts (kind ∷ name ∷ []), h) in
    rw e (rw many (rw (drop_last-append 2 parts (kind ∷ name ∷ []) refl) refl))

-- Below a path of two parts or more, the path of a child whose kind and whose namespace and name
-- hold no dot leads to exactly that path.
pub parent_path_of-child_row_path :
    (parent kind name : Text)
    → Lacks b'.' kind
    → Lacks b'.' name
    → 2 ≤ length (split parent b'.')
    → parent_path_of (child_row_path parent kind name) ≡ parent
parent_path_of-child_row_path parent kind name k n h =
    let parts = split parent b'.' in
    let e : split (child_row_path parent kind name) b'.' ≡ parts ++ kind ∷ name ∷ [] =
      rw (split-child_row_path parent kind name k) (rw (split_whole name b'.' n) refl) in
    parent_path_of-parts (child_row_path parent kind name) parts kind name e h
    ∙ join-split parent b'.'

longer_than : (s t path : Text) → path ≡ s ++ (b'.' ∷ t) → path ≢ s
longer_than s t path e same =
    let lengths : length s ≡ length (s ++ (b'.' ∷ t)) = ap length (sym same ∙ e) in
    ground (arith, lengths, length-append s (b'.' ∷ t))

-- With one dot in the child's namespace and name, the path leads to the parent's path and the
-- child's kind, which is not the parent's path.
pub parent_path_of-dotted :
    (parent kind first second : Text)
    → Lacks b'.' kind
    → Lacks b'.' first
    → Lacks b'.' second
    → 1 ≤ length (split parent b'.')
    → (parent_path_of (child_row_path parent kind (first ++ (b'.' ∷ second)))
        ≡ parent ++ (b'.' ∷ kind))
      × (parent_path_of (child_row_path parent kind (first ++ (b'.' ∷ second))) ≢ parent)
parent_path_of-dotted parent kind first second k f s h =
    let path = child_row_path parent kind (first ++ (b'.' ∷ second)) in
    let stem = parent ++ (b'.' ∷ kind) in
    let of_stem : split stem b'.' ≡ split parent b'.' ++ kind ∷ [] =
      rw (split-between parent kind b'.') (rw (split_whole kind b'.' k) refl) in
    let e : split path b'.' ≡ split stem b'.' ++ first ∷ second ∷ [] =
      rw (split-child_row_path parent kind (first ++ (b'.' ∷ second)) k) (
        rw (split-append first second b'.' f) (
          rw (split_whole second b'.' s) (
            rw of_stem
              (sym (append_assoc (split parent b'.') (kind ∷ []) (first ∷ second ∷ [])))))) in
    let many : 2 ≤ length (split stem b'.') =
      rw of_stem (ground (arith, length-append (split parent b'.') (kind ∷ []), h)) in
    let found =
      parent_path_of-parts path (split stem b'.') first second e many ∙ join-split stem b'.' in
    (found, longer_than parent kind (parent_path_of path) found)

-- Joining a list behind another one adds a separator and the second list.
length-join :
    (p : Text) (ps : List Text) (q : Text) (qs : List Text) (sep : Text)
    → length (join (p ∷ ps ++ q ∷ qs) sep)
      ≡ length (join (p ∷ ps) sep) + (length sep + length (join (q ∷ qs) sep))
length-join p [] q qs sep =
    omega (arith, length-append p (sep ++ join (q ∷ qs) sep), length-append sep (join (q ∷ qs) sep))
length-join p (r ∷ ps) q qs sep = omega (
  arith,
  length-append p (sep ++ join (r ∷ ps ++ q ∷ qs) sep),
  length-append sep (join (r ∷ ps ++ q ∷ qs) sep),
  length-append p (sep ++ join (r ∷ ps) sep),
  length-append sep (join (r ∷ ps) sep),
  length-join r ps q qs sep,
)

-- Three parts or more are some parts and two more.
last_two :
    (ps : List Text)
    → 3 ≤ length ps
    → (x : Text) × (xs : List Text) × (a : Text) × (b : Text) × (ps ≡ x ∷ xs ++ a ∷ b ∷ [])
last_two [] h = ground (arith, h)
last_two (p ∷ []) h = ground (arith, h)
last_two (p ∷ q ∷ []) h = ground (arith, h)
last_two (p ∷ q ∷ r ∷ []) h = (p, [], q, r, refl)
last_two (p ∷ q ∷ r ∷ s ∷ ps) h =
    let (x, xs, a, b, e) = last_two (q ∷ r ∷ s ∷ ps) (omega arith) in
    (p, x ∷ xs, a, b, ap (λ l. p ∷ l) e)

-- A path that is not empty is not its own parent's path.
pub parent_path_of-ne : (path : Text) → path ≢ [] → parent_path_of path ≢ path
unfolding parent_path_of
parent_path_of-ne path h same = elim (Bool-cases (leb (length (split path b'.')) 3)) [
  | inl few ↦ h (sym same ∙ rw few refl)
  | inr many ↦
      let (x, xs, a, b, e) = last_two (split path b'.') (ground (arith, many)) in
      let long : 2 ≤ length (x ∷ xs) =
        ground (arith, many, ap length e, length-append (x ∷ xs) (a ∷ b ∷ [])) in
      let found = parent_path_of-parts path (x ∷ xs) a b e long in
      let whole : join (x ∷ xs ++ a ∷ b ∷ []) (b'.' ∷ []) ≡ path =
        ap (λ l. join l (b'.' ∷ [])) (sym e) ∙ join-split path b'.' in
      let lengths = ap length (sym found ∙ same ∙ sym whole) in
      ground (arith, lengths, length-join x xs a (b ∷ []) (b'.' ∷ []))
]
