-- ===== src/Tests/Files.antt =====
-- Runs of the similarity store over a local file, with whole numbers as scores.
use shooting_star.Base.{
  ℕ, ◌≤◌, ◌<◌, String, true, List, [], ◌∷◌, Option, none, some, if◌then◌else◌, not, ◌≡◌, refl,
  arith, Attempt, returned, thrown,
}
use shooting_star.Base.Int.{ℤ, pos, pos_part, leb_ℤ}
use shooting_star.Base.Text.{str_eq, to_string}
use shooting_star.Base.Decimal.{uint64_max, parse_uint64}
use shooting_star.LocalFiles.{
  Value, number_value, string_value, struct_value, list_value, Fields, no_fields, field, no_values,
  element, JsonNumber, load_from_jsonl_file, find_neighbors,
}
use shooting_star.LocalFiles.Rows.{Row, SaysId, IsNeighbor, Says}
use shooting_star.LocalFiles.Lookups.{syntax_error, load_from_jsonl_file-last_row}

abbrev whole : JsonNumber ℤ
whole = record {
  is_finite = λ x. true;
  is_nonpositive = λ x. leb_ℤ x (pos 0);
  is_above_uint64 = λ x. not (leb_ℤ x (pos uint64_max));
  is_whole = λ x. true;
  to_uint64 = pos_part;
  parse_double = λ text. elim (parse_uint64 text) [ none ↦ none | some n ↦ some (pos n) ];
}

abbrev older : Row ℤ
older = (1, record { id = 2; score = pos 900 } ∷ [])

abbrev newer : Row ℤ
newer = (1, record { id = 3; score = pos 700 } ∷ record { id = 2; score = pos 500 } ∷ [])

abbrev rows : List (Option (Row ℤ))
rows = some older ∷ none ∷ some newer ∷ []

abbrev neighbor : ℕ → ℕ → Value ℤ
neighbor id score = struct_value (
    field "item_id" (number_value (pos id))
      (field "rank" (number_value (pos 1)) (field "score" (number_value (pos score)) no_fields)))

-- Rows as the offline tools write them, with numbers as ids and more fields than are read, and with a
-- text as the id.
abbrev older_message : Fields ℤ
older_message = field "item_id" (number_value (pos 1)) (
    field "title" (string_value "Heat")
      (field "neighbors" (list_value (element (neighbor 2 900) no_values)) no_fields))

abbrev newer_message : Fields ℤ
newer_message = field "item_id" (string_value "1") (
    field "neighbors" (list_value (element (neighbor 3 700) (element (neighbor 2 500) no_values)))
      no_fields)

abbrev json : String → Attempt (Fields ℤ)
json text =
    if str_eq text "older"
    then returned older_message
    else if str_eq text "newer"
    then returned newer_message
    else thrown "syntax error"

abbrev lines : List String
lines = "older" ∷ "" ∷ "newer" ∷ []

number-SaysId :
    (id : ℕ) → 0 < id → id ≤ uint64_max → SaysId whole "item_id" (number_value (pos id)) id
number-SaysId id h k = (refl, ground (arith, h), ground (arith, k), refl, refl)

neighbor-IsNeighbor :
    (id score : ℕ)
    → 0 < id
    → id ≤ uint64_max
    → IsNeighbor whole "item_id" (neighbor id score) (record { id = id; score = pos score })
neighbor-IsNeighbor id score h k =
    ((number_value (pos id), refl, number-SaysId id h k), (number_value (pos score), refl, refl))

lines-Says : Says whole "item_id" json lines rows
unfolding to_string
lines-Says = (
  refl,
  (
    older_message,
    refl,
    (
      (number_value (pos 1), refl, number-SaysId 1 (omega arith) (omega arith)),
      (
        element (neighbor 2 900) no_values,
        refl,
        (neighbor-IsNeighbor 2 900 (omega arith) (omega arith), tt),
      ),
    ),
  ),
  (
    refl,
    (
      refl,
      (
        newer_message,
        refl,
        (
          (string_value "1", refl, (refl, omega arith, omega arith)),
          (
            element (neighbor 3 700) (element (neighbor 2 500) no_values),
            refl,
            (
              neighbor-IsNeighbor 3 700 (omega arith) (omega arith),
              (neighbor-IsNeighbor 2 500 (omega arith) (omega arith), tt),
            ),
          ),
        ),
      ),
      tt,
    ),
  ),
)

load_from_jsonl_file-last_row_example :
    (load_from_jsonl_file whole "LocalFileItemSimilarityStore" json "items.jsonl" "item_id"
        (some ("older" ∷ "" ∷ "newer" ∷ "{" ∷ "older" ∷ []))
      ≡ thrown (syntax_error "items.jsonl" 4 "syntax error"))
    × ((loaded : List (Row ℤ)) × (load_from_jsonl_file whole "LocalFileItemSimilarityStore" json
            "items.jsonl" "item_id"
            (some ("older" ∷ "" ∷ "newer" ∷ []))
          ≡ returned loaded)
        × (find_neighbors loaded 1 (pos 1) ≡ record { id = 3; score = pos 700 } ∷ []))
load_from_jsonl_file-last_row_example =
    load_from_jsonl_file-last_row whole "item_id" json "LocalFileItemSimilarityStore" "items.jsonl"
      lines rows lines-Says 1 1 (omega arith) "{" "syntax error" ("older" ∷ []) refl refl

file-missing :
    load_from_jsonl_file whole "LocalFileItemSimilarityStore" json "items.jsonl" "item_id" none
    ≡ thrown "LocalFileItemSimilarityStore::LoadFromJsonlFile failed: cannot open file items.jsonl"
unfolding load_from_jsonl_file
file-missing = refl
