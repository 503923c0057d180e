-- ===== src/Tests/Assembly.antt =====
-- Paths of rows for runs of the theorems on the assembly of results.
use kube_graphql.Common.{length, Text, codes, Lacks, split, ◌≤◌, ◌≡◌, ◌≢◌, ◌∷◌, ◌++◌, arith}
use kube_graphql.Engine.Tree.{parent_path_of}
use kube_graphql.Engine.Tree.Paths.{
  child_row_path, parent_path_of-child_row_path, parent_path_of-dotted,
}

-- A root row, and a child below it.
abbrev parent : Text
parent = codes ".deployment.default/web"

kind-Lacks : Lacks b'.' (codes "pod")
unfolding codes
kind-Lacks = ground arith

name-Lacks : Lacks b'.' (codes "default/web-1")
unfolding codes
name-Lacks = ground arith

first-Lacks : Lacks b'.' (codes "default/web")
unfolding codes
first-Lacks = ground arith

second-Lacks : Lacks b'.' (codes "v1")
unfolding codes
second-Lacks = ground arith

one_part : 1 ≤ length (split parent b'.')
unfolding split codes
one_part = omega arith

parts : 2 ≤ length (split parent b'.')
unfolding split codes
parts = omega arith

parent_path_of-child_row_path_example :
    parent_path_of (child_row_path parent (codes "pod") (codes "default/web-1")) ≡ parent
parent_path_of-child_row_path_example =
    parent_path_of-child_row_path parent (codes "pod") (codes "default/web-1") kind-Lacks name-Lacks
      parts

parent_path_of-dotted_example :
    (parent_path_of
        (child_row_path parent (codes "pod") (codes "default/web" ++ (b'.' ∷ codes "v1")))
      ≡ parent ++ (b'.' ∷ codes "pod"))
    × (parent_path_of
          (child_row_path parent (codes "pod") (codes "default/web" ++ (b'.' ∷ codes "v1")))
        ≢ parent)
parent_path_of-dotted_example =
    parent_path_of-dotted parent (codes "pod") (codes "default/web") (codes "v1") kind-Lacks
      first-Lacks second-Lacks one_part
