-- ===== src/Engine/Codec.antt =====
-- Go's encoding/json and encoding/base64 as the sources call them: the operations, with no law.
-- A theorem that rests on one of their laws states it as a hypothesis.
use kube_graphql.Common.{Text, Bool, Option, List}

-- A decoded JSON value of type `any`: what a type switch on bool, map and default tells apart.
mutual
  pub data Json : Type 0 where
    boolean : Bool → Json
    object : JsonFields → Json
    scalar : Json

  pub data JsonFields : Type 0 where
    no_fields : JsonFields
    field : Text → Json → JsonFields → JsonFields

pub record Codec : Type 0 where
  -- `json.Marshal` of a map[string]string, and of a slice of such maps.
  pub marshal_map : List (Text × Text) → Text
  pub marshal_maps : List (List (Text × Text)) → Text
  -- `json.Marshal` and `json.Unmarshal` of a CursorData, given by its values.
  pub marshal_cursor : List (Text × Text) → Text
  pub unmarshal_cursor : Text → Option (List (Text × Text))
  -- `base64.StdEncoding`.
  pub base64_encode : Text → Text
  pub base64_decode : Text → Option Text
  -- `json.Unmarshal` into an `any`.
  pub unmarshal_any : Text → Option Json
