-- ===== src/Engine/Execution/Scan.antt =====
-- scanFlatRows on rows that are read without an error.
use kube_graphql.Common.{
  ltb, leb, length, length-append, take, ℕ, zero, suc, ◌+◌, ◌<◌, ◌≡◌, refl, ◌∙◌, true, false, ◌&&◌,
  some, List, [], ◌∷◌, ◌++◌, map, append-nil, append_assoc, arith,
}
use kube_graphql.Engine.Execution.{Rows, scan_from, scan_flat_rows}
use kube_graphql.Engine.Tree.{FlatRow}

-- Rows that all scan, with no error.
abbrev pub good_rows : List FlatRow → Rows
good_rows rs = record { reached = map some rs; failed = λ n. false }

scan_from-good :
    (max_rows n m : ℕ) (acc rs : List FlatRow)
    → 0 < max_rows
    → length acc + m ≡ max_rows
    → scan_from max_rows (λ n. false) n acc (map some rs)
      ≡ some (acc ++ take m rs, ltb m (length rs))
unfolding scan_from
scan_from-good max_rows n zero acc [] h k = rw (append-nil acc) (ground arith)
scan_from-good max_rows n (suc m) acc [] h k = rw (append-nil acc) (ground arith)
scan_from-good max_rows n zero acc (r ∷ rs) h k =
    let full : (ltb 0 max_rows && leb max_rows (length acc)) ≡ true = ground (arith, h, k) in
    rw (full, scan_from) (rw (append-nil acc) (ground arith))
scan_from-good max_rows n (suc m) acc (r ∷ rs) h k =
    let room : (ltb 0 max_rows && leb max_rows (length acc)) ≡ false = ground (arith, h, k) in
    let more : length (acc ++ r ∷ []) + m ≡ max_rows =
      omega (arith, k, length-append acc (r ∷ [])) in
    let rest = scan_from-good max_rows (suc n) m (acc ++ r ∷ []) rs h more in
    let same : ltb m (length rs) ≡ ltb (suc m) (suc (length rs)) = ground arith in
    rw (room, scan_from) (rest ∙ rw same (rw (append_assoc acc (r ∷ []) (take m rs)) refl))

-- The scan returns the first rows up to the maximum, and tells whether there are more.
pub scan_flat_rows-good :
    (max_rows : ℕ) (rs : List FlatRow)
    → 0 < max_rows
    → scan_flat_rows (good_rows rs) max_rows ≡ some (take max_rows rs, ltb max_rows (length rs))
unfolding scan_flat_rows
scan_flat_rows-good max_rows rs h = scan_from-good max_rows 0 max_rows [] rs h (omega arith)
