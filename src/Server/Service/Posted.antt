-- ===== src/Server/Service/Posted.antt =====
-- lib/endb_server/src/lib.rs, `EndbService::call`: a body of any kind that is posted to /sql.
use text.Mathlib.Text.{◌==◌ as str_eq}
use mathlib.Core.List.{reverse}
use endb.Prelude.{
  ℕ, String, true, false, ◌≢◌, ◌∙◌, Bool-cases, Option, none, some, List, [], ◌∷◌, ◌++◌, ◌≡◌, ◌⊎◌,
  inl, inr, refl, sym, subst, Option-cases,
}
use endb.Server.Params.Laws.{str_eq→eq}
use endb.Server.Http.{JsonValue, string, other, Request, Libraries, Mime, Bytes}
use endb.Server.Params.{Params, json_pairs, field_pairs, insert, insert_all, query_params}
use endb.Server.Response.{Answer, respond, empty_response, sql_response}
use endb.Server.Service.{
  ContentKind, json, sql, form, multipart, unsupported, content_type, content_kind, post_sql, route,
}
use endb.Server.Service.Form.{answer_from, insert_all-answer_from, is_same}

-- the text of a JSON value: a string is itself, any other value its JSON text
pub data Shows : JsonValue → String → Type 0 where
  a_string : {t : String} → Shows (string t) t
  a_value : {t : String} → Shows (other t) t

-- the members of a JSON object as names and texts, in their order
pub data Members : List (String × JsonValue) → List (String × String) → Type 0 where
  no_members : Members [] []
  member :
      {name : String} {value : JsonValue} {t : String} {object : List (String × JsonValue)}
      {pairs : List (String × String)}
      → Shows value t
      → Members object pairs
      → Members ((name, value) ∷ object) ((name, t) ∷ pairs)

-- the fields of a multipart form that have a name and a text, in their order
pub data Fields : List (Option String × Option String) → List (String × String) → Type 0 where
  no_fields : Fields [] []
  field :
      {name t : String} {fields : List (Option String × Option String)}
      {pairs : List (String × String)}
      → Fields fields pairs
      → Fields ((some name, some t) ∷ fields) ((name, t) ∷ pairs)
  without_text :
      {name : String} {fields : List (Option String × Option String)}
      {pairs : List (String × String)}
      → Fields fields pairs
      → Fields ((some name, none) ∷ fields) pairs
  without_name :
      {t : Option String} {fields : List (Option String × Option String)}
      {pairs : List (String × String)}
      → Fields fields pairs
      → Fields ((none, t) ∷ fields) pairs

-- What a body says by its content type: pairs of names and texts, or the status of an error.
pub data Says (lib : Libraries) (mime : Mime) (body : Bytes)
    : ℕ ⊎ List (String × String) → Type 0 where
  json_says :
      {object : List (String × JsonValue)} {pairs : List (String × String)}
      → (mime.essence_str ≡ "application/json") ⊎ (mime.essence_str ≡ "application/ld+json")
      → lib.json_object body ≡ some object
      → Members object pairs
      → Says lib mime body (inr pairs)
  no_json :
      (mime.essence_str ≡ "application/json") ⊎ (mime.essence_str ≡ "application/ld+json")
      → lib.json_object body ≡ none
      → Says lib mime body (inl 422)
  sql_says :
      {q : String}
      → mime.essence_str ≡ "application/sql"
      → lib.from_utf8 body ≡ some q
      → Says lib mime body (inr (("q", q) ∷ []))
  no_text :
      mime.essence_str ≡ "application/sql"
      → lib.from_utf8 body ≡ none
      → Says lib mime body (inl 422)
  form_says :
      mime.essence_str ≡ "application/x-www-form-urlencoded"
      → Says lib mime body (inr (lib.parse_form body))
  multipart_says :
      {boundary : String} {pairs : List (String × String)}
      → mime.essence_str ≡ "multipart/form-data"
      → mime.boundary ≡ some boundary
      → Fields (lib.multipart_fields boundary body) pairs
      → Says lib mime body (inr pairs)
  no_boundary :
      mime.essence_str ≡ "multipart/form-data" → mime.boundary ≡ none → Says lib mime body (inl 400)
  other_type :
      mime.essence_str ≢ "application/json"
      → mime.essence_str ≢ "application/ld+json"
      → mime.essence_str ≢ "application/sql"
      → mime.essence_str ≢ "application/x-www-form-urlencoded"
      → mime.essence_str ≢ "multipart/form-data"
      → Says lib mime body (inl 415)

json_pairs-Members : (object : List (String × JsonValue)) → Members object (json_pairs object)
json_pairs-Members [] = no_members
json_pairs-Members ((name, string t) ∷ object) = member a_string (json_pairs-Members object)
json_pairs-Members ((name, other t) ∷ object) = member a_value (json_pairs-Members object)

field_pairs-Fields :
    (fields : List (Option String × Option String)) → Fields fields (field_pairs fields)
field_pairs-Fields [] = no_fields
field_pairs-Fields ((some name, some t) ∷ fields) = field (field_pairs-Fields fields)
field_pairs-Fields ((some name, none) ∷ fields) = without_text (field_pairs-Fields fields)
field_pairs-Fields ((none, t) ∷ fields) = without_name (field_pairs-Fields fields)

-- the content types of each arm
data IsKind (essence : String) : ContentKind → Type 0 where
  is_json : (essence ≡ "application/json") ⊎ (essence ≡ "application/ld+json") → IsKind essence json
  is_sql : essence ≡ "application/sql" → IsKind essence sql
  is_form : essence ≡ "application/x-www-form-urlencoded" → IsKind essence form
  is_multipart : essence ≡ "multipart/form-data" → IsKind essence multipart
  is_other :
      essence ≢ "application/json"
      → essence ≢ "application/ld+json"
      → essence ≢ "application/sql"
      → essence ≢ "application/x-www-form-urlencoded"
      → essence ≢ "multipart/form-data"
      → IsKind essence unsupported

true≢false : true ≡ false → ⊥
true≢false e = cc

apart : (s t : String) → str_eq s t ≡ false → s ≢ t
apart s t e same = true≢false (sym (is_same same) ∙ e)

content_kind-IsKind : (essence : String) → IsKind essence (content_kind essence)
unfolding content_kind
content_kind-IsKind essence = elim (Bool-cases (str_eq essence "application/json")) [
  | inl a ↦ simp a (is_json (inl (str_eq→eq essence _ a)))
  | inr a ↦ elim (Bool-cases (str_eq essence "application/ld+json")) [
    | inl b ↦ simp (a, b) (is_json (inr (str_eq→eq essence _ b)))
    | inr b ↦ elim (Bool-cases (str_eq essence "application/sql")) [
      | inl c ↦ simp (a, b, c) (is_sql (str_eq→eq essence _ c))
      | inr c ↦ elim (Bool-cases (str_eq essence "application/x-www-form-urlencoded")) [
        | inl d ↦ simp (a, b, c, d) (is_form (str_eq→eq essence _ d))
        | inr d ↦ elim (Bool-cases (str_eq essence "multipart/form-data")) [
          | inl e ↦ simp (a, b, c, d, e) (is_multipart (str_eq→eq essence _ e))
          | inr e ↦
              simp (a, b, c, d, e)
                (is_other (apart essence _ a) (apart essence _ b) (apart essence _ c)
                  (apart essence _ d) (apart essence _ e))
        ]
      ]
    ]
  ]
]

-- the answer to it: the pairs before the query of the address
abbrev pub answer_posted : String → String → Params → ℕ ⊎ List (String × String) → Answer
answer_posted method media params (inl status) = respond (empty_response status)
answer_posted method media params (inr pairs) = answer_from method media (reverse pairs ++ params)

insert-answer_from :
    (method media q : String) (params : Params)
    → sql_response method media (insert "q" q params) ≡ answer_from method media (("q", q) ∷ params)
unfolding insert_all
insert-answer_from method media q params =
    insert_all-answer_from method media (("q", q) ∷ []) params

-- that an arm answers by what the body says
Answers : Libraries → Request → String → Params → Mime → Bytes → Answer → Type 0
Answers lib req media params mime body answer =
    (said : ℕ ⊎ List (String × String)) × Says lib mime body said
    × (answer ≡ answer_posted req.method media params said)

module _ (lib : Libraries) (req : Request) (media : String) (params : Params) (mime : Mime)
    (body : Bytes) (b : req.body ≡ some body) where
  post_sql-Answers :
      {kind : ContentKind}
      → IsKind mime.essence_str kind
      → Answers lib req media params mime body (post_sql lib req media params mime kind)
  unfolding Answers post_sql
  post_sql-Answers (is_json t) = elim (Option-cases (lib.json_object body)) [
    | inl n ↦ (inl 422, no_json t n, simp (b, n) refl)
    | inr (object, o) ↦ (
      inr (json_pairs object),
      json_says t o (json_pairs-Members object),
      simp (b, o) (insert_all-answer_from req.method media (json_pairs object) params),
    )
  ]
  post_sql-Answers (is_sql t) = elim (Option-cases (lib.from_utf8 body)) [
    | inl n ↦ (inl 422, no_text t n, simp (b, n) refl)
    | inr (q, o) ↦ (
      inr (("q", q) ∷ []),
      sql_says t o,
      simp (b, o) (insert-answer_from req.method media q params),
    )
  ]
  post_sql-Answers (is_form t) = (
    inr (lib.parse_form body),
    form_says t,
    simp b (insert_all-answer_from req.method media (lib.parse_form body) params),
  )
  post_sql-Answers (is_multipart t) = elim (Option-cases mime.boundary) [
    | inl n ↦ (inl 400, no_boundary t n, simp n refl)
    | inr (boundary, o) ↦ (
      inr (field_pairs (lib.multipart_fields boundary body)),
      multipart_says t o (field_pairs-Fields (lib.multipart_fields boundary body)),
      simp (o, b)
          (insert_all-answer_from req.method media
            (field_pairs (lib.multipart_fields boundary body)) params),
    )
  ]
  post_sql-Answers (is_other j l s f m) = (inl 415, other_type j l s f m, refl)

-- Whatever is posted to /sql with a content type is answered by what its body says: the members of a
-- JSON object for JSON and JSON-LD, the text as `q` for SQL, the pairs of a form, the fields with a
-- name and a text of a multipart form. The last pair of a name counts, and for a name that is not
-- among them the query of the address. A body that cannot be read is 422, a multipart form without a
-- boundary 400, any other content type 415.
pub route-posted :
    (lib : Libraries) (req : Request) (media : String) (mime : Mime) (body : Bytes)
    → req.path ≡ "/sql"
    → req.method ≡ "POST"
    → content_type lib req ≡ some mime
    → req.body ≡ some body
    → (said : ℕ ⊎ List (String × String)) × Says lib mime body said
      × (route lib req media ≡ answer_posted req.method media (query_params lib req.query) said)
unfolding route Answers
route-posted lib req media mime body path method type b =
    let get : str_eq req.method "GET" ≡ false =
      subst (λ u. str_eq u "GET" ≡ false) (sym method) refl in
    let (said, says, e) =
      post_sql-Answers lib req media (query_params lib req.query) mime body b
        (content_kind-IsKind mime.essence_str) in
    (said, says, simp (is_same path, get, is_same method, type) e)
