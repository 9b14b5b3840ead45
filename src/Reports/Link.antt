-- ===== src/Reports/Link.antt =====
-- libs/ledger/src/report.service.ts, `generateReport`: the link to a report and its label. `encode` is
-- `URLSearchParams.toString`.
use akabbo.Prelude.{ℕ, ◌==◌, String, Option, none, some, List, [], ◌∷◌, ◌++◌, if◌then◌else◌}
use akabbo.Prelude.Int.{pos}
use akabbo.Ledger.Money.{money_to_string}
use akabbo.Book.Tables.{Group}
use akabbo.Reports.Rows.{
  ReportType, contributors, pledges, budget, payments, StatusFilter, all, unpaid, partial, complete,
  SortField, name, amount, SortDirection, ascending, descending, ReportFilters,
}
use Prim.Native.String.{◌++◌ as append}

-- `reportTypeToPath` and `reportTypeLabel`
unfoldable pub report_type_to_path : ReportType → String
report_type_to_path contributors = "contributors"
report_type_to_path ReportType.outstanding = "contributors"
report_type_to_path pledges = "contributors"
report_type_to_path budget = "budget"
report_type_to_path payments = "payments"

unfoldable pub report_type_label : ReportType → String
report_type_label contributors = "contributors"
report_type_label ReportType.outstanding = "contributors with outstanding balances"
report_type_label pledges = "pledge records"
report_type_label budget = "budget items"
report_type_label payments = "payments"

-- The text of a status other than `all`.
unfoldable pub status_text : Option StatusFilter → Option String
status_text none = none
status_text (some all) = none
status_text (some unpaid) = some "unpaid"
status_text (some partial) = some "partial"
status_text (some complete) = some "complete"
status_text (some StatusFilter.outstanding) = some "outstanding"

unfoldable pub sort_text : Option SortField → Option String
sort_text none = none
sort_text (some name) = some "name"
sort_text (some amount) = some "amount"

unfoldable pub direction_text : Option SortDirection → Option String
direction_text none = none
direction_text (some ascending) = some "asc"
direction_text (some descending) = some "desc"

-- `if (value) params.set(key, value)`
unfoldable pub param : String → Option String → List (String × String)
param key none = []
param key (some String.[]) = []
param key (some (String.◌∷◌ c s)) = (key, String.◌∷◌ c s) ∷ []

abbrev bound_text : ℕ → Option String
bound_text n = if n == 0 then none else some (money_to_string (pos n))

module _ (encode : List (String × String) → String) (id_text : ℕ → String) where
  -- The parameters of the link, in the order in which they are set.
  unfoldable pub params : ReportFilters → Option ℕ → List (String × String)
  unfolding param status_text sort_text direction_text
  params input group =
      param "status" (status_text input.status)
      ++ (param "groupId" (elim group [ none ↦ none | some g ↦ some (id_text g) ])
          ++ (param "minAmount" (bound_text input.min_amount)
              ++ (param "maxAmount" (bound_text input.max_amount)
                  ++ (param "search" input.search_term
                      ++ (param "sort" (sort_text input.sort_field)
                          ++ param "dir" (direction_text input.sort_direction))))))

  -- `qs ? `?${qs}` : ''`
  unfoldable pub query_string : String → String
  query_string String.[] = String.[]
  query_string (String.◌∷◌ c s) = append "?" (String.◌∷◌ c s)

  unfoldable pub filter_url : ℕ → ReportFilters → Option ℕ → String
  unfolding params query_string report_type_to_path
  filter_url ev input group = append "/events/" (
      append (id_text ev) (
        append "/report/" (
          append (report_type_to_path input.report_type)
            (query_string (encode (params input group))))))

  unfoldable pub label : ℕ → ReportFilters → Option Group → String
  unfolding report_type_label status_text
  label records input group = append (money_to_string (pos records)) (
      append " " (
        append (report_type_label input.report_type) (
          append (elim group [ none ↦ "" | some g ↦ append " (" (append g.name ")") ])
            (elim (status_text input.status) [
              | none ↦ ""
              | some s ↦ append " — " (append s " only")
            ]))))
