-- ===== src/Server/Again.antt =====
-- A Query that Create has returned, sent once more.
use mathlib.Core.Path.{subst}
use kube_graphql.Common.{
  Bool-cases, Option-cases, Text, ◌≡◌, refl, sym, ap, ◌∙◌, inl, inr, Bool, true, Option, none,
}
use kube_graphql.Api.{Time, QuerySpec, QueryStatus}
use kube_graphql.Engine.Codec.{Codec}
use kube_graphql.Engine.Execute.{
  Database, Executed, answered, refused, no_answer, answer_generated, execute,
}
use kube_graphql.Engine.Relational.{generate}
use kube_graphql.Engine.Validate.{validate}
use kube_graphql.Engine.Validate.Bounds.{validate_idem}
use kube_graphql.Server.{Query, created, is_valid, with_status, create}

module _ (c : Codec) (dialect : Text) (format_time : Time → Text) (db : Database) where
  -- What is answered is a query that validation accepts.
  execute_accepted :
      (q : QuerySpec) (s : QueryStatus)
      → execute c dialect format_time db q ≡ answered s
      → (validate q).0 ≡ none
  unfolding execute
  execute_accepted q s h = elim (Option-cases (validate q).0) [
    | inl e ↦ e
    | inr (error, e) ↦ cc (rw (execute, e) at h)
  ]

  execute-answer_generated :
      (q : QuerySpec)
      → (validate q).0 ≡ none
      → execute c dialect format_time db q
        ≡ answer_generated c format_time (validate q).1 db (generate c dialect (validate q).1)
  unfolding execute
  execute-answer_generated q h = rw (execute, h) refl

  -- The defaults change no answer.
  execute-validate :
      (q : QuerySpec)
      → (validate q).0 ≡ none
      → execute c dialect format_time db (validate q).1 ≡ execute c dialect format_time db q
  execute-validate q h =
      let twice = validate_idem q h in
      execute-answer_generated (validate q).1 (ap (λ p. p.0) twice)
      ∙ ap (λ r. answer_generated c format_time r db (generate c dialect r)) (ap (λ p. p.1) twice)
      ∙ sym (execute-answer_generated q h)

  module _ {Meta : Type 0} where
    -- What Create returns is the query with the defaults and the status of its execution.
    with_status-created :
        (x y : Query Meta) (r : Executed)
        → with_status x r ≡ created y
        → (s : QueryStatus) × (r ≡ answered s)
          × (record x { spec = (validate x.spec).1; status = s } ≡ y)
    unfolding with_status
    with_status-created x y (answered s) h = (s, refl, cc h)
    with_status-created x y (refused e) h = cc h
    with_status-created x y no_answer h = cc h

    with_status_again :
        (x : Query Meta) (s : QueryStatus)
        → execute c dialect format_time db x.spec ≡ answered s
        → let y = record x { spec = (validate x.spec).1; status = s } in
          with_status y (execute c dialect format_time db y.spec) ≡ created y
    unfolding with_status
    with_status_again x s h =
        let valid = execute_accepted x.spec s h in
        rw (execute-validate x.spec valid, h)
          (ap (λ p. created (record x { spec = p.1; status = s })) (validate_idem x.spec valid))

    -- A Query that Create has returned is returned unchanged when it is sent once more, if the
    -- database answers the same and the API server accepts it.
    pub create-create :
        (create_validation : Option (Query Meta → Bool)) (x y : Query Meta)
        → create c dialect format_time db create_validation x ≡ created y
        → is_valid create_validation y ≡ true
        → create c dialect format_time db create_validation y ≡ created y
    unfolding create
    create-create create_validation x y h valid = elim (Bool-cases (is_valid create_validation x)) [
      | inl e ↦
          let (s, answered_s, same) =
            with_status-created x y (execute c dialect format_time db x.spec) (rw e at h) in
          rw valid (
            subst (λ z. with_status z (execute c dialect format_time db z.spec) ≡ created z) same
              (with_status_again x s answered_s))
      | inr e ↦ cc (rw e at h)
    ]
