-- ===== src/LocalFiles/Rows.antt =====
-- What a line of a file says: a row, in one of the ways that JSON can write it.
use shooting_star.Base.{
  ℕ, suc, ◌≤◌, ◌<◌, String, true, false, List, [], ◌∷◌, Option, none, some, ◌≡◌, refl, ap, arith,
  Attempt, returned,
}
use shooting_star.Base.Text.{is_empty, concat, to_string}
use shooting_star.Base.Decimal.{uint64_max, parse_uint64-to_string}
use shooting_star.Retrieval.Retrievers.Scores.{Scored}
use shooting_star.LocalFiles.{
  Value, null_value, bool_value, read_positive_uint64, read_double, parse_neighbor, number_value,
  string_value, struct_value, list_value, Fields, Values, no_values, element, JsonNumber,
  required_field, parse_positive_uint64, find_field, parse_elements, parse_row,
}

abbrev pub Row : Type 0 → Type 0
Row R = ℕ × List (Scored R)

module _ {R : Type 0} (number : JsonNumber R) (id_field : String) where
  -- A JSON value that says an id: its decimal text, or a whole number in range that converts to it.
  abbrev pub SaysId : Value R → ℕ → Type 0
  SaysId (string_value text) id = (text ≡ to_string id) × (0 < id) × (id ≤ uint64_max)
  SaysId (number_value x) id =
      (number.is_finite x ≡ true)
      × (number.is_nonpositive x ≡ false)
      × (number.is_above_uint64 x ≡ false)
      × (number.is_whole x ≡ true)
      × (number.to_uint64 x ≡ id)
  SaysId _ id = ⊥

  -- A JSON value that says a score: the number, or a text of it.
  abbrev pub SaysScore : Value R → R → Type 0
  SaysScore (number_value x) score = x ≡ score
  SaysScore (string_value text) score =
      (number.parse_double text ≡ some score) × (number.is_finite score ≡ true)
  SaysScore _ score = ⊥

  abbrev pub HasField : Fields R → String → Value R → Type 0
  HasField message name v = find_field name message ≡ some v

  -- An object that says a neighbour, whatever other fields it has.
  abbrev pub IsNeighbor : Value R → Scored R → Type 0
  IsNeighbor (struct_value message) n =
      ((v : Value R) × HasField message id_field v × SaysId v n.id)
      × ((v : Value R) × HasField message "score" v × SaysScore v n.score)
  IsNeighbor _ n = ⊥

  abbrev pub AreNeighbors : Values R → List (Scored R) → Type 0
  AreNeighbors no_values [] = Unit
  AreNeighbors (element v vs) (n ∷ ns) = IsNeighbor v n × AreNeighbors vs ns
  AreNeighbors _ _ = ⊥

  -- A message that says a row, whatever other fields it has.
  abbrev pub IsRow : Fields R → Row R → Type 0
  IsRow message r =
      ((v : Value R) × HasField message id_field v × SaysId v r.0)
      × ((vs : Values R) × HasField message "neighbors" (list_value vs) × AreNeighbors vs r.1)

  -- Lines and what they say: nothing, if empty, or a row, if JSON reads them as a message of it.
  abbrev pub Says : (String → Attempt (Fields R)) → List String → List (Option (Row R)) → Type 0
  Says json [] [] = Unit
  Says json (l ∷ lines) (none ∷ rows) = (is_empty l ≡ true) × Says json lines rows
  Says json (l ∷ lines) (some r ∷ rows) =
      (is_empty l ≡ false)
      × ((message : Fields R) × (json l ≡ returned message) × IsRow message r)
      × Says json lines rows
  Says json _ _ = ⊥

  read_positive_uint64-id :
      (v : Value R) (id : ℕ) (context : String)
      → SaysId v id
      → read_positive_uint64 number v context ≡ returned id
  read_positive_uint64-id (string_value text) id context h =
      rw (h.0, parse_positive_uint64, parse_uint64-to_string id h.2) (ground (arith, h.1))
  read_positive_uint64-id (number_value x) id context h = ground (arith, h.0, h.1, h.2, h.3, h.4)
  read_positive_uint64-id null_value id context h = absurd h
  read_positive_uint64-id (bool_value b) id context h = absurd h
  read_positive_uint64-id (struct_value message) id context h = absurd h
  read_positive_uint64-id (list_value vs) id context h = absurd h

  read_double-score :
      (v : Value R) (score : R) (context : String)
      → SaysScore v score
      → read_double number v context ≡ returned score
  read_double-score (number_value x) score context h = ap returned h
  read_double-score (string_value text) score context h = ground (arith, h.0, h.1)
  read_double-score null_value score context h = absurd h
  read_double-score (bool_value b) score context h = absurd h
  read_double-score (struct_value message) score context h = absurd h
  read_double-score (list_value vs) score context h = absurd h

  required_field-found :
      (message : Fields R) (name context : String) (v : Value R)
      → HasField message name v
      → required_field message name context ≡ returned v
  required_field-found message name context v h = rw (required_field, h) refl

  parse_neighbor-IsNeighbor :
      (v : Value R) (n : Scored R) (context : String)
      → IsNeighbor v n
      → parse_neighbor number v id_field context ≡ returned n
  parse_neighbor-IsNeighbor (struct_value message) n context ((v, f, i), (w, g, s)) =
      rw
        (
          parse_neighbor,
          required_field-found message id_field context v f,
          read_positive_uint64-id v n.id (concat (context ∷ "." ∷ id_field ∷ [])) i,
          required_field-found message "score" context w g,
          read_double-score w n.score (concat (context ∷ ".score" ∷ [])) s,
        )
        refl
  parse_neighbor-IsNeighbor null_value n context h = absurd h
  parse_neighbor-IsNeighbor (bool_value b) n context h = absurd h
  parse_neighbor-IsNeighbor (string_value text) n context h = absurd h
  parse_neighbor-IsNeighbor (number_value x) n context h = absurd h
  parse_neighbor-IsNeighbor (list_value vs) n context h = absurd h

  parse_elements-AreNeighbors :
      (i : ℕ) (vs : Values R) (ns : List (Scored R)) (context : String)
      → AreNeighbors vs ns
      → parse_elements number i vs id_field context ≡ returned ns
  unfolding parse_elements
  parse_elements-AreNeighbors i no_values [] context h = refl
  parse_elements-AreNeighbors i (element v vs) (n ∷ ns) context h =
      rw
        (
          parse_elements,
          parse_neighbor-IsNeighbor v n (concat (context ∷ " neighbor " ∷ to_string i ∷ [])) h.0,
          parse_elements-AreNeighbors (suc i) vs ns context h.1,
        )
        refl
  parse_elements-AreNeighbors i no_values (n ∷ ns) context h = absurd h
  parse_elements-AreNeighbors i (element v vs) [] context h = absurd h

  pub parse_row-IsRow :
      (message : Fields R) (r : Row R) (context : String)
      → IsRow message r
      → parse_row number message id_field id_field context ≡ returned r
  unfolding parse_row
  parse_row-IsRow message r context ((v, f, i), (vs, g, ns)) =
      rw
        (
          parse_row,
          required_field-found message id_field context v f,
          read_positive_uint64-id v r.0 (concat (context ∷ "." ∷ id_field ∷ [])) i,
          required_field-found message "neighbors" context (list_value vs) g,
          parse_elements-AreNeighbors 0 vs r.1 context ns,
        )
        refl
