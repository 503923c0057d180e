-- ===== src/Engine/Sql.antt =====
-- SQL text, its bound arguments, and the placeholders `?` in it, which the database driver replaces
-- by the arguments from left to right.
use kube_graphql.Common.{
  All, Bool-cases, ◌&&◌, true, false, inl, inr, ◌==◌, if◌then◌else◌, length, length-append, Text,
  join, concat, ℕ, ◌+◌, ◌≡◌, refl, ◌∙◌, List, [], ◌∷◌, ◌++◌, arith,
}
use kube_graphql.Api.{Time}

-- A value of type `any` among the arguments: a string or a time.
pub data Arg : Type 0 where
  text : Text → Arg
  time : Time → Arg

-- The number of placeholders of a text.
unfoldable pub marks : Text → ℕ
marks [] = 0
marks (c ∷ s) = (if c == b'?' then 1 else 0) + marks s

-- The number of placeholders of several texts.
unfoldable pub all_marks : List Text → ℕ
all_marks [] = 0
all_marks (p ∷ ps) = marks p + all_marks ps

-- A text that is written into SQL and holds no placeholder.
abbrev pub IsPlain : Text → Type 0
IsPlain s = marks s ≡ 0

pub marks-append : (s t : Text) → marks (s ++ t) ≡ marks s + marks t
unfolding marks
marks-append [] t = omega arith
marks-append (c ∷ s) t = omega (arith, marks-append s t)

pub all_marks-append : (ps qs : List Text) → all_marks (ps ++ qs) ≡ all_marks ps + all_marks qs
unfolding all_marks
all_marks-append [] qs = omega arith
all_marks-append (p ∷ ps) qs = omega (arith, all_marks-append ps qs)

-- Joining with a separator that has no placeholder adds none.
pub marks-join : (ps : List Text) (sep : Text) → marks sep ≡ 0 → marks (join ps sep) ≡ all_marks ps
unfolding all_marks
marks-join [] sep h = unfold marks in refl
marks-join (p ∷ []) sep h = omega arith
marks-join (p ∷ q ∷ ps) sep h = omega (
  arith,
  marks-append p (sep ++ join (q ∷ ps) sep),
  marks-append sep (join (q ∷ ps) sep),
  marks-join (q ∷ ps) sep h,
)

pub marks-concat : (ps : List Text) → marks (concat ps) ≡ all_marks ps
unfolding concat all_marks marks
marks-concat [] = refl
marks-concat (p ∷ ps) = omega (arith, marks-append p (concat ps), marks-concat ps)

-- Conditions that are to be joined by AND or OR, with the arguments of their placeholders.
pub record Clauses : Type 0 where
  pub clauses : List Text
  pub args : List Arg

abbrev pub no_clauses : Clauses
no_clauses = record { clauses = []; args = [] }

-- `clauses = append(clauses, c)` and `args = append(args, values...)`.
abbrev pub clause : Text → List Arg → Clauses
clause c values = record { clauses = c ∷ []; args = values }

infixr 60 ◌⊕◌
unfoldable pub ◌⊕◌ : Clauses → Clauses → Clauses
a ⊕ b = record { clauses = a.clauses ++ b.clauses; args = a.args ++ b.args }

-- The conditions have `extra` placeholders more than arguments.
abbrev pub Exceeds : Clauses → ℕ → Type 0
Exceeds a extra = all_marks a.clauses ≡ length a.args + extra

pub ⊕-Exceeds : (a b : Clauses) (m n : ℕ) → Exceeds a m → Exceeds b n → Exceeds (a ⊕ b) (m + n)
unfolding ◌⊕◌
⊕-Exceeds a b m n h k =
    omega (arith, all_marks-append a.clauses b.clauses, length-append a.args b.args, h, k)

pub ⊕-Exceeds_right : (a b : Clauses) (n : ℕ) → Exceeds a 0 → Exceeds b n → Exceeds (a ⊕ b) n
⊕-Exceeds_right a b n h k = ⊕-Exceeds a b 0 n h k ∙ omega arith

pub ⊕-Exceeds_left : (a b : Clauses) (n : ℕ) → Exceeds a n → Exceeds b 0 → Exceeds (a ⊕ b) n
⊕-Exceeds_left a b n h k = ⊕-Exceeds a b n 0 h k ∙ omega arith

-- `fmt.Sprintf` of a format whose only verbs are `%s`.
unfoldable pub sprintf : Text → List Text → Text
sprintf [] args = []
sprintf (c ∷ []) args = c ∷ []
sprintf (c ∷ d ∷ s) [] = c ∷ d ∷ s
sprintf (c ∷ d ∷ s) (a ∷ args) = elim (c == b'%' && d == b's') [
  | true ↦ a ++ sprintf s args
  | false ↦ c ∷ sprintf (d ∷ s) (a ∷ args)
]

-- A format without a placeholder adds none to its arguments.
pub sprintf-IsPlain :
    (format : Text) (args : List Text)
    → IsPlain format
    → All IsPlain args
    → IsPlain (sprintf format args)
unfolding sprintf marks
sprintf-IsPlain [] args h k = refl
sprintf-IsPlain (c ∷ []) args h k = h
sprintf-IsPlain (c ∷ d ∷ s) [] h k = h
sprintf-IsPlain (c ∷ d ∷ s) (a ∷ args) h k =
    let rest = sprintf-IsPlain (d ∷ s) (a ∷ args) (omega (arith, h)) k in
    let below = sprintf-IsPlain s args (omega (arith, h)) k.1 in
    elim (Bool-cases (c == b'%' && d == b's')) [
      | inl e ↦ rw (e, sprintf) (marks-append a (sprintf s args) ∙ omega (arith, k.0, below))
      | inr e ↦ rw (e, sprintf) (omega (arith, h, rest))
    ]
