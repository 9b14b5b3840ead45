-- ===== src/Reports/Csv/Reader.antt =====
-- A reader of quoted CSV (RFC 4180), and what it makes of an export.
use akabbo.Prelude.{
  ℕ, zero, suc, ◌==◌, ◌≡◌, refl, Bool, true, false, String, Option, none, some, List, [], ◌∷◌, map,
  or_else, arith, ap, ◌∙◌, Bool-cases, inl, inr, if◌then◌else◌,
}
use akabbo.Prelude.Lists.{length}
use akabbo.Reports.Contributors.{PageRow}
use akabbo.Reports.Csv.{doubled_onto, quoted_onto, fields_onto, row_fields, lines_onto}
use Prim.Native.Char.{Char, code}

-- Up to the quote that closes a field: two quotes stand for one.
read_quoted : String → Option (String × String)
read_quoted String.[] = none
read_quoted (String.◌∷◌ c String.[]) = if code c == 34 then some (String.[], String.[]) else none
read_quoted (String.◌∷◌ c (String.◌∷◌ d s)) =
    let after_pair = read_quoted s in
    let after_one = read_quoted (String.◌∷◌ d s) in
    if code c == 34
    then (if code d == 34
        then (elim after_pair [ none ↦ none | some (t, rest) ↦ some (String.◌∷◌ d t, rest) ])
        else some (String.[], String.◌∷◌ d s))
    else (elim after_one [ none ↦ none | some (t, rest) ↦ some (String.◌∷◌ c t, rest) ])

abbrev starts : ℕ → String → Bool
starts n String.[] = false
starts n (String.◌∷◌ c s) = code c == n

read_field : String → Option (String × String)
unfolding read_quoted
read_field String.[] = none
read_field (String.◌∷◌ c s) = if code c == 34 then read_quoted s else none

-- What a text holds after its first character, if this has the code.
expect : ℕ → String → Option String
expect n String.[] = none
expect n (String.◌∷◌ c s) = if code c == n then some s else none

abbrev put : Char → Option (String × String) → Option (String × String)
put c none = none
put c (some (t, rest)) = some (String.◌∷◌ c t, rest)

-- A character that is no quote stands for itself.
read_quoted-plain :
    (c : Char) (s : String)
    → (code c == 34) ≡ false
    → read_quoted (String.◌∷◌ c s) ≡ put c (read_quoted s)
unfolding read_quoted
read_quoted-plain c String.[] h = rw h refl
read_quoted-plain c (String.◌∷◌ d s) h = rw h (same (read_quoted (String.◌∷◌ d s)))
  where
    same :
        (o : Option (String × String))
        → (elim o [ none ↦ none | some (t, rest) ↦ some (String.◌∷◌ c t, rest) ]) ≡ put c o
    same none = refl
    same (some (t, rest)) = refl

-- Two quotes stand for one.
read_quoted-pair :
    (c : Char) (s : String)
    → (code c == 34) ≡ true
    → read_quoted (String.◌∷◌ c (String.◌∷◌ c s)) ≡ put c (read_quoted s)
unfolding read_quoted
read_quoted-pair c s h = ground (arith, h)

read_quoted-doubled :
    (s rest : String) → starts 34 rest ≡ false → read_quoted (doubled_onto s rest) ≡ some (s, rest)
unfolding doubled_onto
read_quoted-doubled String.[] String.[] h = unfold read_quoted in refl
read_quoted-doubled String.[] (String.◌∷◌ d rest) h = unfold read_quoted in rw h refl
read_quoted-doubled (String.◌∷◌ c s) rest h = elim (Bool-cases (code c == 34)) [
  | inl quote ↦
      rw quote
        (read_quoted-pair c (doubled_onto s rest) quote ∙ ap (put c) (read_quoted-doubled s rest h))
  | inr plain ↦
      rw plain (
        read_quoted-plain c (doubled_onto s rest) plain ∙ ap (put c) (read_quoted-doubled s rest h))
]

read_field-quoted :
    (s rest : String) → starts 34 rest ≡ false → read_field (quoted_onto s rest) ≡ some (s, rest)
unfolding read_field quoted_onto
read_field-quoted s rest h = read_quoted-doubled s rest h

-- A row of `n + 1` fields with commas between them.
read_row : ℕ → String → Option (List String × String)
unfolding read_field expect
read_row zero text = elim (read_field text) [ none ↦ none | some (s, rest) ↦ some (s ∷ [], rest) ]
read_row (suc n) text = elim (read_field text) [
  | none ↦ none
  | some (s, after) ↦ elim (expect 44 after) [
    | none ↦ none
    | some later ↦ elim (read_row n later) [ none ↦ none | some (ss, rest) ↦ some (s ∷ ss, rest) ]
  ]
]

read_row-fields_onto :
    (s : String) (ss : List String) (rest : String)
    → starts 34 rest ≡ false
    → read_row (length ss) (fields_onto (s ∷ ss) rest) ≡ some (s ∷ ss, rest)
unfolding read_row fields_onto length
read_row-fields_onto s [] rest h = rw (read_row, read_field-quoted s rest h) refl
read_row-fields_onto s (t ∷ ss) rest h =
    rw (read_row, read_field-quoted s (String.◌∷◌ "," (fields_onto (t ∷ ss) rest)) refl)
      (unfold expect in rw (read_row-fields_onto t ss rest h) refl)

-- So many rows of five fields, each after a line feed, up to the end of the text.
pub read_rows : ℕ → String → Option (List (List String))
unfolding read_row
read_rows zero String.[] = some []
read_rows zero (String.◌∷◌ c s) = none
read_rows (suc n) text = elim (expect 10 text) [
  | none ↦ none
  | some line ↦ elim (read_row 4 line) [
    | none ↦ none
    | some (row, rest) ↦ elim (read_rows n rest) [ none ↦ none | some rows ↦ some (row ∷ rows) ]
  ]
]

lines_onto-starts : (rs : List PageRow) → starts 34 (lines_onto rs) ≡ false
unfolding lines_onto
lines_onto-starts [] = refl
lines_onto-starts (r ∷ rs) = refl

-- Whatever the names and groups hold, quotes, commas and line feeds too, the lines of an export read
-- back as the very fields of its rows, in their order.
pub read_rows-lines_onto :
    (rs : List PageRow) → read_rows (length rs) (lines_onto rs) ≡ some (map row_fields rs)
unfolding read_rows lines_onto length row_fields
read_rows-lines_onto [] = refl
read_rows-lines_onto (r ∷ rs) =
    rw
      (
        read_rows,
        read_row-fields_onto r.name
            (or_else r.group "" ∷ r.amount ∷ or_else r.outstanding "" ∷ r.status ∷ [])
            (lines_onto rs) (lines_onto-starts rs),
        read_rows-lines_onto rs,
      )
      refl
