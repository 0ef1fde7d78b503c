-- ===== src/LocalFiles.antt =====
-- The similarity stores over a local file of JSON lines: local_file_similarity_jsonl_parser.cpp, and
-- local_file_item_similarity_store.cpp and local_file_user_similarity_store.cpp, which load and look up
-- alike. protobuf's JSON reader, which turns a line into a message, and what the code asks of a
-- `double` are arguments.
pub mod Rows
pub mod Lookups
use shooting_star.Base.{
  ℕ, suc, String, Bool, true, false, List, [], ◌∷◌, Option, none, some, if◌then◌else◌, ◌||◌, ◌==◌,
  not, take, Attempt, returned, thrown,
}
use shooting_star.Base.Int.{ℤ, pos, pos_part, leb_ℤ}
use shooting_star.Base.Text.{str_eq, is_empty, concat, to_string}
use shooting_star.Base.Decimal.{parse_uint64}
use shooting_star.Base.Sets.{lookup}
use shooting_star.Retrieval.Retrievers.Scores.{Scored}

-- google::protobuf::Value, with its objects and arrays; an object has each name once.
mutual
  pub data Value (R : Type 0) : Type 0 where
    null_value : Value R
    number_value : R → Value R
    string_value : String → Value R
    bool_value : Bool → Value R
    struct_value : Fields R → Value R
    list_value : Values R → Value R

  pub data Fields (R : Type 0) : Type 0 where
    no_fields : Fields R
    field : String → Value R → Fields R → Fields R

  pub data Values (R : Type 0) : Type 0 where
    no_values : Values R
    element : Value R → Values R → Values R

-- What the parser asks of a `double`: std::isfinite, `<= 0.0`, `>` the largest uint64_t as a double,
-- that it is its own floor, the conversion to uint64_t, and std::stod of a whole text.
pub record JsonNumber (R : Type 0) : Type 0 where
  pub is_finite : R → Bool
  pub is_nonpositive : R → Bool
  pub is_above_uint64 : R → Bool
  pub is_whole : R → Bool
  pub to_uint64 : R → ℕ
  pub parse_double : String → Option R

module _ {R : Type 0} where
  abbrev pub find_field : String → Fields R → Option (Value R)
  find_field name no_fields = none
  find_field name (field other v rest) = if str_eq name other then some v else find_field name rest

  abbrev pub required_field : Fields R → String → String → Attempt (Value R)
  required_field fields name context = elim (find_field name fields) [
    | none ↦ thrown (concat (context ∷ " is missing field " ∷ name ∷ []))
    | some v ↦ returned v
  ]

abbrev pub parse_positive_uint64 : String → String → Attempt ℕ
parse_positive_uint64 text context =
    let invalid = concat (context ∷ " contains invalid positive uint64: " ∷ text ∷ []) in
    elim (parse_uint64 text) [
      | none ↦ thrown invalid
      | some parsed ↦ if parsed == 0 then thrown invalid else returned parsed
    ]

module _ {R : Type 0} (number : JsonNumber R) where
  abbrev pub read_positive_uint64 : Value R → String → Attempt ℕ
  read_positive_uint64 (string_value text) context = parse_positive_uint64 text context
  read_positive_uint64 (number_value x) context =
      if not (number.is_finite x)
        || number.is_nonpositive x
        || number.is_above_uint64 x
        || not (number.is_whole x)
      then thrown (concat (context ∷ " contains invalid positive uint64" ∷ []))
      else returned (number.to_uint64 x)
  read_positive_uint64 _ context = thrown (concat (context ∷ " must be a number or string" ∷ []))

  abbrev pub read_double : Value R → String → Attempt R
  read_double (number_value x) context = returned x
  read_double (string_value text) context = elim (number.parse_double text) [
    | none ↦ thrown (concat (context ∷ " contains invalid double" ∷ []))
    | some x ↦
        if number.is_finite x
        then returned x
        else thrown (concat (context ∷ " contains invalid double" ∷ []))
  ]
  read_double _ context = thrown (concat (context ∷ " contains invalid double" ∷ []))

abbrev pub and_then : {A B : Type 0} → Attempt A → (A → Attempt B) → Attempt B
and_then (thrown message) k = thrown message
and_then (returned a) k = k a

module _ {R : Type 0} (number : JsonNumber R) where
  abbrev pub parse_neighbor : Value R → String → String → Attempt (Scored R)
  parse_neighbor (struct_value fields) id_field context =
      and_then (required_field fields id_field context) (λ id_value.
        and_then (read_positive_uint64 number id_value (concat (context ∷ "." ∷ id_field ∷ [])))
          (λ id. and_then (required_field fields "score" context) (λ score_value.
            and_then (read_double number score_value (concat (context ∷ ".score" ∷ [])))
              (λ score. returned record { id = id; score = score }))))
  parse_neighbor _ id_field context = thrown (concat (context ∷ " must be an object" ∷ []))

  -- The loop over the array, from position `i`.
  pub parse_elements : ℕ → Values R → String → String → Attempt (List (Scored R))
  parse_elements i no_values id_field context = returned []
  parse_elements i (element v rest) id_field context =
      and_then (parse_neighbor v id_field (concat (context ∷ " neighbor " ∷ to_string i ∷ [])))
        (λ n. and_then (parse_elements (suc i) rest id_field context) (λ ns. returned (n ∷ ns)))

  abbrev pub parse_neighbors : Value R → String → String → Attempt (List (Scored R))
  parse_neighbors (list_value vs) id_field context = parse_elements 0 vs id_field context
  parse_neighbors _ id_field context =
      thrown (concat (context ∷ " neighbors must be an array" ∷ []))

  -- The message of a line as a row: the id, and its neighbours.
  unfoldable pub parse_row : Fields R → String → String → String → Attempt (ℕ × List (Scored R))
  unfolding parse_elements
  parse_row fields entity_field id_field context =
      and_then (required_field fields entity_field context) (λ id_value.
        and_then (read_positive_uint64 number id_value (concat (context ∷ "." ∷ entity_field ∷ [])))
          (λ id.
            and_then (required_field fields "neighbors" context)
              (λ v. and_then (parse_neighbors v id_field context) (λ ns. returned (id, ns)))))

  -- ParseLocalFileSimilarityJsonlLine
  unfoldable pub parse_line :
      (String → Attempt (Fields R))
      → String
      → String
      → String
      → String
      → Attempt (ℕ × List (Scored R))
  unfolding parse_row
  parse_line json line entity_field id_field context = elim (json line) [
    | thrown message ↦
        thrown
          (concat ("ParseLocalFileSimilarityJsonlLine failed at " ∷ context ∷ ": " ∷ message ∷ []))
    | returned fields ↦ parse_row fields entity_field id_field context
  ]

  -- The loop of LoadFromJsonlFile over the lines after the first `read`; a row that stands later
  -- replaces an earlier one.
  pub load :
      (String → Attempt (Fields R))
      → String
      → String
      → ℕ
      → List String
      → List (ℕ × List (Scored R))
      → Attempt (List (ℕ × List (Scored R)))
  unfolding parse_line
  load json path id_field read [] loaded = returned loaded
  load json path id_field read (line ∷ lines) loaded =
      let context = concat (path ∷ ":" ∷ to_string (suc read) ∷ []) in
      elim (if is_empty line
        then returned loaded
        else and_then (parse_line json line id_field id_field context)
            (λ row. returned (row ∷ loaded))) [
              | thrown message ↦ thrown message
              | returned next ↦ load json path id_field (suc read) lines next
            ]

  -- LoadFromJsonlFile of the store with the given name; `none` is a file that cannot be opened.
  unfoldable pub load_from_jsonl_file :
      String
      → (String → Attempt (Fields R))
      → String
      → String
      → Option (List String)
      → Attempt (List (ℕ × List (Scored R)))
  unfolding load
  load_from_jsonl_file store json path id_field file = elim file [
    | none ↦ thrown (concat (store ∷ "::LoadFromJsonlFile failed: cannot open file " ∷ path ∷ []))
    | some lines ↦ load json path id_field 0 lines []
  ]

-- FindNeighborsByItemId, and FindNeighborsByUserId alike.
unfoldable pub find_neighbors : {R : Type 0} → List (ℕ × List (Scored R)) → ℕ → ℤ → List (Scored R)
find_neighbors loaded id max_neighbor_count =
    if id == 0 || leb_ℤ max_neighbor_count (pos 0) then [] else elim (lookup id loaded) [
      | none ↦ []
      | some neighbors ↦ take (pos_part max_neighbor_count) neighbors
    ]
