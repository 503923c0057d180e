-- ===== src/Tests/Paging.antt =====
-- A codec that decodes what it encodes, and a response with a cursor for a run of the paging theorem.
use kube_graphql.Common.{
  length, take, pos, Text, codes, is_empty, ℕ, zero, suc, ◌≡◌, refl, ap, true, false, Option, none,
  some, List, [], ◌∷◌, ◌++◌,
}
use kube_graphql.Api.{Time, PageSpec, absent, QuerySpec, CursorResult}
use kube_graphql.Engine.Codec.{Codec}
use kube_graphql.Engine.Execution.{
  last_root, row_values, extract_last_row_for_cursor, page_number, cursor_result,
}
use kube_graphql.Engine.Execution.Cursor.{IsLastRoot}
use kube_graphql.Engine.Execution.Paging.{RoundTrips, row_keys, build_cursor_filter-cursor_result}
use kube_graphql.Engine.Order.{cursor_operator, build_cursor_filter, build_cursor_token}
use kube_graphql.Engine.Order.Cursor.{row_comparison, key_columns}
use kube_graphql.Engine.Tree.{FlatRow}

-- A text with its length before it, and a list of pairs of texts with its length before it.
abbrev drop : ℕ → Text → Text
drop zero s = s
drop (suc n) [] = []
drop (suc n) (b ∷ s) = drop n s

take-append : (s t : Text) → take (length s) (s ++ t) ≡ s
take-append [] t = refl
take-append (b ∷ s) t = ap (λ r. b ∷ r) (take-append s t)

drop-append : (s t : Text) → drop (length s) (s ++ t) ≡ t
drop-append [] t = refl
drop-append (b ∷ s) t = drop-append s t

abbrev encode_pairs : List (Text × Text) → Text
encode_pairs [] = []
encode_pairs ((k, v) ∷ ps) = length k ∷ (k ++ (length v ∷ (v ++ encode_pairs ps)))

abbrev decode_text : Text → Text × Text
decode_text [] = ([], [])
decode_text (n ∷ s) = (take n s, drop n s)

abbrev decode_pairs : ℕ → Text → List (Text × Text)
decode_pairs zero s = []
decode_pairs (suc n) s =
    let k = decode_text s in let v = decode_text k.1 in (k.0, v.0) ∷ decode_pairs n v.1

abbrev encode : List (Text × Text) → Text
encode values = length values ∷ encode_pairs values

abbrev decode : Text → Option (List (Text × Text))
decode [] = none
decode (n ∷ s) = some (decode_pairs n s)

decode_pairs-encode_pairs :
    (ps : List (Text × Text)) → decode_pairs (length ps) (encode_pairs ps) ≡ ps
decode_pairs-encode_pairs [] = refl
decode_pairs-encode_pairs ((k, v) ∷ ps) =
    let tail = length v ∷ (v ++ encode_pairs ps) in
    rw (take-append k tail) (
      rw (drop-append k tail) (
        rw (take-append v (encode_pairs ps)) (
          rw (drop-append v (encode_pairs ps))
            (ap (λ rest. (k, v) ∷ rest) (decode_pairs-encode_pairs ps)))))

abbrev codec : Codec
codec = record {
  marshal_map = λ m. [];
  marshal_maps = λ ms. [];
  marshal_cursor = encode;
  unmarshal_cursor = decode;
  base64_encode = λ bytes. bytes;
  base64_decode = λ token. some token;
  unmarshal_any = λ raw. none;
}

round_trips : RoundTrips codec
round_trips = record {
  cursor = λ values. ap some (decode_pairs-encode_pairs values);
  base64 = λ bytes. refl;
}

abbrev format_time : Time → Text
format_time t = codes "2024-01-01T00:00:00Z"

abbrev last : FlatRow
last = record {
  id = codes "1";
  uid = codes "u";
  cluster = codes "one";
  api_group = [];
  api_version = codes "v1";
  kind = codes "Pod";
  resource = codes "pods";
  namespace = codes "default";
  name = codes "web";
  labels = none;
  annotations = none;
  owner_refs = none;
  conditions = none;
  creation_ts = some (pos 5);
  resource_version = codes "1";
  projected_object = none;
  path = codes ".pod.default/web";
  level = 0;
  relation_name = [];
}

abbrev query_at : Option PageSpec → QuerySpec
query_at page = record {
  cluster = none;
  filter = none;
  limit = pos 1;
  page = page;
  order = record { field = codes "kind"; direction = codes "Asc" } ∷ [];
  count = false;
  cursor = true;
  max_depth = pos 10;
  objects = absent;
}

abbrev given : CursorResult
given = record {
  next = build_cursor_token codec (row_values format_time last);
  page = pos 0;
  page_size = pos 1;
}

abbrev page : PageSpec
page = record { first = pos 0; cursor = given.next }

last_found : IsLastRoot last (last ∷ [])
last_found = record { before = []; behind = []; place = refl; root = refl; rest = tt }

cursor_given :
    cursor_result codec (query_at none) (extract_last_row_for_cursor format_time (last ∷ []))
    ≡ some given
unfolding cursor_result extract_last_row_for_cursor last_root page_number
cursor_given = refl

token_full : is_empty given.next ≡ false
unfolding build_cursor_token
token_full = refl

build_cursor_filter-cursor_result_example : build_cursor_filter codec (query_at (some page)) ≡ (
  row_comparison
      (key_columns (query_at (some page)).order)
      (cursor_operator (query_at (some page)).order),
  row_keys format_time (query_at (some page)).order last,
)
build_cursor_filter-cursor_result_example =
    build_cursor_filter-cursor_result codec format_time (query_at none) (query_at (some page))
      (last ∷ []) last given page round_trips last_found cursor_given refl refl token_full
