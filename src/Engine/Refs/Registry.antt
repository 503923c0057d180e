-- ===== src/Engine/Refs/Registry.antt =====
-- Register and Lookup of RefPathRegistry in internal/engine/refs.go.
use mathlib.Core.List.{head-eq_of_cons-eq, tail-eq_of_cons-eq}
use kube_graphql.Common.{
  if◌then◌else◌, Bool-cases, insert, lookup-insert, split-append, join-split, keep, All, Text,
  codes, text_eq, text_eq_iff, text_ne, join, Lacks, split, ◌≡◌, refl, sym, ap, ◌∙◌, inl, inr, Bool,
  true, ◌&&◌, List, [], ◌∷◌, ◌++◌, append-nil, append_assoc, arith,
}
use kube_graphql.Engine.Refs.{
  RefPath, builtin_ref_paths, RefPathRegistry, source_key, paths_at, register,
  new_ref_path_registry, lookup_source,
}

-- Whether a path has that source key.
abbrev pub has_source : Text → RefPath → Bool
has_source key p = text_eq (source_key p.source_group p.source_kind) key

paths_at-insert :
    (key k : Text) (ps : List RefPath) (r : RefPathRegistry)
    → paths_at key (insert k ps r) ≡ (if text_eq k key then ps else paths_at key r)
paths_at-insert key k ps r = elim (Bool-cases (text_eq k key)) [
  | inl e ↦ rw (lookup-insert k key ps r) (rw e refl)
  | inr e ↦ rw (lookup-insert k key ps r) (rw e refl)
]

paths_at-register :
    (key : Text) (ps : List RefPath) (r : RefPathRegistry)
    → paths_at key (register ps r) ≡ paths_at key r ++ keep (has_source key) ps
unfolding register
paths_at-register key [] r = sym (append-nil (paths_at key r))
paths_at-register key (p ∷ ps) r =
    let k = source_key p.source_group p.source_kind in
    let here = paths_at-insert key k (paths_at k r ++ p ∷ []) r in
    let rest = paths_at-register key ps (insert k (paths_at k r ++ p ∷ []) r) in
    elim (Bool-cases (text_eq k key)) [
      | inl e ↦
          let same : k ≡ key = (text_eq_iff k key).0 e in
          rest
          ∙ rw here
              (rw e (rw same (append_assoc (paths_at key r) (p ∷ []) (keep (has_source key) ps))))
      | inr e ↦ rest ∙ rw here (rw e refl)
    ]

-- Whether a path has that source.
abbrev pub comes_from : Text → Text → RefPath → Bool
comes_from group kind p = text_eq p.source_group group && text_eq p.source_kind kind

-- Keys of groups without a slash are equal only if the groups and the kinds are.
source_key-injective :
    (g k h l : Text)
    → Lacks b'/' g
    → Lacks b'/' h
    → source_key g k ≡ source_key h l
    → (g ≡ h) × (k ≡ l)
unfolding codes
source_key-injective g k h l hg hh e =
    let parts : g ∷ split k b'/' ≡ h ∷ split l b'/' =
      sym (split-append g k b'/' hg) ∙ ap (λ s. split s b'/') e ∙ split-append h l b'/' hh in
    (
      head-eq_of_cons-eq parts,
      sym (join-split k b'/')
          ∙ ap (λ ps. join ps (b'/' ∷ [])) (tail-eq_of_cons-eq parts)
          ∙ join-split l b'/',
    )

same_key :
    (group kind : Text) (p : RefPath)
    → comes_from group kind p ≡ true
    → source_key p.source_group p.source_kind ≡ source_key group kind
same_key group kind p e =
    let g : p.source_group ≡ group = (text_eq_iff p.source_group group).0 (ground (arith, e)) in
    let k : p.source_kind ≡ kind = (text_eq_iff p.source_kind kind).0 (ground (arith, e)) in
    ap (λ x. source_key x p.source_kind) g ∙ ap (source_key group) k

has_source-comes_from :
    (group kind : Text) (p : RefPath)
    → Lacks b'/' group
    → Lacks b'/' p.source_group
    → has_source (source_key group kind) p ≡ comes_from group kind p
has_source-comes_from group kind p hg hp =
    let key = source_key p.source_group p.source_kind in
    let apart = source_key-injective p.source_group p.source_kind group kind hp hg in
    elim (Bool-cases (text_eq key (source_key group kind))) [
      | inl e ↦
          let both = apart ((text_eq_iff key (source_key group kind)).0 e) in
          let same : comes_from group kind p ≡ true =
            rw ((text_eq_iff p.source_group group).1 both.0)
              ((text_eq_iff p.source_kind kind).1 both.1) in
          e ∙ sym same
      | inr ne ↦ elim (Bool-cases (comes_from group kind p)) [
        | inl same ↦ absurd (text_ne key (source_key group kind) ne (same_key group kind p same))
        | inr differ ↦ ne ∙ sym differ
      ]
    ]

keep-comes_from :
    (group kind : Text) (ps : List RefPath)
    → Lacks b'/' group
    → All (λ (p : RefPath). Lacks b'/' p.source_group) ps
    → keep (has_source (source_key group kind)) ps ≡ keep (comes_from group kind) ps
keep-comes_from group kind [] h k = refl
keep-comes_from group kind (p ∷ ps) h k =
    rw (has_source-comes_from group kind p h k.0) (rw (keep-comes_from group kind ps h k.1) refl)

builtin-Lacks : All (λ (p : RefPath). Lacks b'/' p.source_group) builtin_ref_paths
unfolding builtin_ref_paths codes
builtin-Lacks = ground arith

-- A lookup finds the built-in paths and behind them the registered ones, in their order, that
-- come from the group and the kind, where no group holds a slash.
pub lookup_source-register :
    (group kind : Text) (ps : List RefPath)
    → Lacks b'/' group
    → All (λ (p : RefPath). Lacks b'/' p.source_group) ps
    → lookup_source group kind (register ps new_ref_path_registry)
      ≡ keep (comes_from group kind) builtin_ref_paths ++ keep (comes_from group kind) ps
unfolding lookup_source new_ref_path_registry
lookup_source-register group kind ps h k =
    let key = source_key group kind in
    rw (paths_at-register key ps (register builtin_ref_paths [])) (
      rw (paths_at-register key builtin_ref_paths []) (
        rw (keep-comes_from group kind builtin_ref_paths h builtin-Lacks)
          (rw (keep-comes_from group kind ps h k) refl)))
