-- ===== src/LocalFiles/Lookups.antt =====
-- A file of rows: what loading it keeps, and what a look-up then returns.
use shooting_star.Base.{
  ℕ, zero, suc, ◌<◌, String, List, [], ◌∷◌, Option, none, some, ◌≡◌, refl, take, ◌∙◌, ap, arith,
  if◌then◌else◌, ◌==◌, Bool-cases, inl, inr, Attempt, returned, thrown, false, length, ◌++◌, ◌+◌,
}
use shooting_star.Base.Int.{pos}
use shooting_star.Base.Text.{is_empty, concat, to_string}
use shooting_star.Base.Sets.{lookup}
use shooting_star.Retrieval.Retrievers.Scores.{Scored}
use shooting_star.LocalFiles.{
  Fields, JsonNumber, parse_line, load, load_from_jsonl_file, find_neighbors,
}
use shooting_star.LocalFiles.Rows.{Row, Says, parse_row-IsRow}

-- The message of the exception at a line, from JSON's own.
abbrev pub syntax_error : String → ℕ → String → String
syntax_error path line_number why = concat (
    "ParseLocalFileSimilarityJsonlLine failed at "
    ∷ concat (path ∷ ":" ∷ to_string line_number ∷ [])
    ∷ ": "
    ∷ why
    ∷ [])

module _ {R : Type 0} where
  -- The neighbours in the last row for the id, if there is one.
  abbrev pub last_row : ℕ → List (Option (Row R)) → List (Scored R) → List (Scored R)
  last_row id [] before = before
  last_row id (none ∷ rows) before = last_row id rows before
  last_row id (some r ∷ rows) before = last_row id rows (if id == r.0 then r.1 else before)

module _ {R : Type 0} (number : JsonNumber R) (id_field : String)
    (json : String → Attempt (Fields R)) where
  abbrev recorded : List (Option (Row R)) → List (Row R) → List (Row R)
  recorded [] loaded = loaded
  recorded (none ∷ rows) loaded = recorded rows loaded
  recorded (some r ∷ rows) loaded = recorded rows (r ∷ loaded)

  load-recorded :
      (path : String) (read : ℕ) (lines : List String) (rows : List (Option (Row R)))
      (loaded : List (Row R))
      → Says number id_field json lines rows
      → load number json path id_field read lines loaded ≡ returned (recorded rows loaded)
  unfolding load
  load-recorded path read [] [] loaded h = refl
  load-recorded path read (l ∷ lines) (none ∷ rows) loaded h =
      rw (load, h.0) (load-recorded path (suc read) lines rows loaded h.1)
  load-recorded path read (l ∷ lines) (some r ∷ rows) loaded (e, (message, j, row), h) =
      rw
        (
          load,
          e,
          parse_line,
          j,
          parse_row-IsRow number id_field message r
              (concat (path ∷ ":" ∷ to_string (suc read) ∷ [])) row,
        )
        (load-recorded path (suc read) lines rows (r ∷ loaded) h)
  load-recorded path read [] (r ∷ rows) loaded h = absurd h
  load-recorded path read (l ∷ lines) [] loaded h = absurd h

  load-syntax_error :
      (path : String) (read : ℕ) (lines : List String) (rows : List (Option (Row R)))
      (loaded : List (Row R)) (bad why : String) (after : List String)
      → Says number id_field json lines rows
      → is_empty bad ≡ false
      → json bad ≡ thrown why
      → load number json path id_field read (lines ++ bad ∷ after) loaded
        ≡ thrown (syntax_error path (suc (read + length lines)) why)
  unfolding load
  load-syntax_error path read [] [] loaded bad why after h e j =
      rw (load, e, parse_line, j) (ap (λ n. thrown (syntax_error path (suc n) why)) (omega arith))
  load-syntax_error path read (l ∷ lines) (none ∷ rows) loaded bad why after h e j =
      rw (load, h.0)
        (load-syntax_error path (suc read) lines rows loaded bad why after h.1 e j
          ∙ ap (λ n. thrown (syntax_error path (suc n) why)) (omega arith))
  load-syntax_error path read (l ∷ lines) (some r ∷ rows) loaded bad why after
        (f, (message, k, row), h) e j =
      rw
        (
          load,
          f,
          parse_line,
          k,
          parse_row-IsRow number id_field message r
              (concat (path ∷ ":" ∷ to_string (suc read) ∷ [])) row,
        )
        (load-syntax_error path (suc read) lines rows (r ∷ loaded) bad why after h e j
          ∙ ap (λ n. thrown (syntax_error path (suc n) why)) (omega arith))
  load-syntax_error path read [] (r ∷ rows) loaded bad why after h e j = absurd h
  load-syntax_error path read (l ∷ lines) [] loaded bad why after h e j = absurd h

  kept : ℕ → List (Row R) → List (Scored R)
  kept id loaded = elim (lookup id loaded) [ none ↦ [] | some neighbors ↦ neighbors ]

  kept-recorded :
      (id : ℕ) (rows : List (Option (Row R))) (loaded : List (Row R))
      → kept id (recorded rows loaded) ≡ last_row id rows (kept id loaded)
  unfolding kept
  kept-recorded id [] loaded = refl
  kept-recorded id (none ∷ rows) loaded = kept-recorded id rows loaded
  kept-recorded id (some r ∷ rows) loaded = elim (Bool-cases (id == r.0)) [
    | inl t ↦ rw t (kept-recorded id rows (r ∷ loaded) ∙ ap (last_row id rows) (rw (kept, t) refl))
    | inr f ↦ rw f (kept-recorded id rows (r ∷ loaded) ∙ ap (last_row id rows) (rw (kept, f) refl))
  ]

  find_neighbors-kept :
      (loaded : List (Row R)) (id count : ℕ)
      → 0 < id
      → find_neighbors loaded id (pos count) ≡ take count (kept id loaded)
  unfolding find_neighbors kept
  find_neighbors-kept loaded id zero h = ground (arith, h)
  find_neighbors-kept loaded id (suc count) h = ground (arith, h)

  -- Let every line of a file be empty, or be read by JSON as a message of a row: under the id field
  -- and "neighbors", in an object that may have further fields, an id and a list of objects with an
  -- id and a score. An id is its decimal text, or a whole number in range that converts to it, and so
  -- only as exact as that number. Then the store loads the file, and a look-up of a positive id
  -- returns the first `count` neighbours of the last row for it, and none if there is no row for it.
  -- If such lines are followed by one that JSON does not read, then, whatever comes after it, the
  -- loading throws, with that line's number and the reason.
  pub load_from_jsonl_file-last_row :
      (store path : String) (lines : List String) (rows : List (Option (Row R)))
      → Says number id_field json lines rows
      → (id count : ℕ) → 0 < id
      → (bad why : String) (after : List String) → is_empty bad ≡ false
      → json bad ≡ thrown why
      → (load_from_jsonl_file number store json path id_field (some (lines ++ bad ∷ after))
          ≡ thrown (syntax_error path (suc (length lines)) why))
        × ((loaded : List (Row R)) × (load_from_jsonl_file number store json path id_field
                (some lines)
              ≡ returned loaded)
            × (find_neighbors loaded id (pos count) ≡ take count (last_row id rows [])))
  unfolding load_from_jsonl_file kept
  load_from_jsonl_file-last_row store path lines rows h id count low bad why after e j = (
    load-syntax_error path 0 lines rows [] bad why after h e j
        ∙ ap (λ n. thrown (syntax_error path (suc n) why)) (omega arith),
    (
      recorded rows [],
      load-recorded path 0 lines rows [] h,
      find_neighbors-kept (recorded rows []) id count low
          ∙ ap (take count) (kept-recorded id rows []),
    ),
  )
