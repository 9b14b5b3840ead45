-- ===== src/Reports/Csv.antt =====
-- libs/ledger/src/report.service.ts, `exportCsv`. A text is written before the text that follows it.
pub mod Reader
use akabbo.Prelude.{◌==◌, Bool, String, none, List, [], ◌∷◌, or_else, if◌then◌else◌}
use akabbo.Prelude.Tx.{Tx, pure, ◌>>=◌}
use akabbo.Access.Gates.{OperationContext}
use akabbo.Book.Tables.{Db}
use akabbo.Reports.Contributors.{PageRow, get_paginated_contributors}
use akabbo.Reports.Rows.{ReportFilters}
use Prim.Native.Char.{code}
use Prim.Native.String.{◌++◌ as append}

-- `(s || '').replace(/"/g, '""')`, and the quote that closes it.
unfoldable pub doubled_onto : String → String → String
doubled_onto String.[] rest = String.◌∷◌ "\"" rest
doubled_onto (String.◌∷◌ c s) rest =
    let later = doubled_onto s rest in
    if code c == 34 then String.◌∷◌ c (String.◌∷◌ c later) else String.◌∷◌ c later

-- `q`
unfoldable pub quoted_onto : String → String → String
unfolding doubled_onto
quoted_onto s rest = String.◌∷◌ "\"" (doubled_onto s rest)

-- `[q(r.name), ...].join(',')`
unfoldable pub fields_onto : List String → String → String
unfolding quoted_onto
fields_onto [] rest = rest
fields_onto (s ∷ []) rest = quoted_onto s rest
fields_onto (s ∷ (t ∷ ss)) rest = quoted_onto s (String.◌∷◌ "," (fields_onto (t ∷ ss) rest))

unfoldable pub row_fields : PageRow → List String
row_fields r = r.name ∷ or_else r.group "" ∷ r.amount ∷ or_else r.outstanding "" ∷ r.status ∷ []

-- The lines after the first, each after the `\n` that joins it.
unfoldable pub lines_onto : List PageRow → String
unfolding fields_onto row_fields
lines_onto [] = String.[]
lines_onto (r ∷ rs) = String.◌∷◌ "\n" (fields_onto (row_fields r) (lines_onto rs))

abbrev csv_header : String
csv_header = "Name,Group,Amount,Outstanding,Status"

-- `exportCsv`
unfoldable pub export_csv :
    (String → String → Bool)
    → (String → String → Bool)
    → OperationContext
    → ReportFilters
    → Tx Db String
unfolding lines_onto get_paginated_contributors
export_csv contains earlier ctx filters = do
  page ← get_paginated_contributors contains earlier ctx filters 1 5000 none
  pure (append csv_header (lines_onto page.rows))
