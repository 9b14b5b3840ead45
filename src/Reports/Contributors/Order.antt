-- ===== src/Reports/Contributors/Order.antt =====
-- The order of the rows of a report.
use akabbo.Prelude.{
  ℕ, ◌≡◌, ◌⊎◌, inl, inr, Bool, String, Option, none, some, List, [], ◌∷◌, arith, Bool-cases,
}
use akabbo.Prelude.Int.{◌≤ℤ◌, ltb_ℤ}
use akabbo.Book.Tables.{Db}
use akabbo.Reports.Contributors.{wanted_rows, query_contributors}
use akabbo.Reports.Rows.{
  ContributorRow, ReportFilters, amount, ascending, descending, goes_before, insert, sort,
}

-- From the least received, and from the most.
abbrev pub Rising : List ContributorRow → Type 0
Rising [] = Unit {0}
Rising (r ∷ []) = Unit {0}
Rising (r ∷ (q ∷ rs)) = (r.received ≤ℤ q.received) × Rising (q ∷ rs)

abbrev pub Falling : List ContributorRow → Type 0
Falling [] = Unit {0}
Falling (r ∷ []) = Unit {0}
Falling (r ∷ (q ∷ rs)) = (q.received ≤ℤ r.received) × Falling (q ∷ rs)

abbrev less : ContributorRow → ContributorRow → Bool
less a b = ltb_ℤ a.received b.received

abbrev more : ContributorRow → ContributorRow → Bool
more a b = ltb_ℤ b.received a.received

insert-Rising :
    (r : ContributorRow) (rs : List ContributorRow) → Rising rs → Rising (insert less r rs)
unfolding insert
insert-Rising r [] h = tt
insert-Rising r (q ∷ []) h = ground arith
insert-Rising r (q ∷ (p ∷ rs)) (first, h) =
    let ih = insert-Rising r (p ∷ rs) h in
    elim (Bool-cases (less q r)) [
      | inr here ↦ rw here (ground arith, (first, h))
      | inl beyond ↦ elim (Bool-cases (less p r)) [
        | inr next ↦ rw (beyond, next) (ground arith, (ground arith, h))
        | inl further ↦ rw (beyond, further) (first, rw further at ih)
      ]
    ]

insert-Falling :
    (r : ContributorRow) (rs : List ContributorRow) → Falling rs → Falling (insert more r rs)
unfolding insert
insert-Falling r [] h = tt
insert-Falling r (q ∷ []) h = ground arith
insert-Falling r (q ∷ (p ∷ rs)) (first, h) =
    let ih = insert-Falling r (p ∷ rs) h in
    elim (Bool-cases (more q r)) [
      | inr here ↦ rw here (ground arith, (first, h))
      | inl beyond ↦ elim (Bool-cases (more p r)) [
        | inr next ↦ rw (beyond, next) (ground arith, (ground arith, h))
        | inl further ↦ rw (beyond, further) (first, rw further at ih)
      ]
    ]

sort-Rising : (rs : List ContributorRow) → Rising (sort less rs)
unfolding sort
sort-Rising [] = tt
sort-Rising (r ∷ rs) = insert-Rising r (sort less rs) (sort-Rising rs)

sort-Falling : (rs : List ContributorRow) → Falling (sort more rs)
unfolding sort
sort-Falling [] = tt
sort-Falling (r ∷ rs) = insert-Falling r (sort more rs) (sort-Falling rs)

-- A report that is not sorted by name, be it by amount or by no field at all, has its rows in the
-- opposite of the order that is asked for: with no direction, or with the descending one, the least received comes first, and with the
-- ascending one the most received does.
pub sort_is_reversed :
    (contains earlier : String → String → Bool) (filters : ReportFilters) (group : Option ℕ)
    (ev : ℕ) (db : Db)
    → (filters.sort_field ≡ none) ⊎ (filters.sort_field ≡ some amount)
    → ((filters.sort_direction ≡ none) ⊎ (filters.sort_direction ≡ some descending)
        → Rising (query_contributors contains earlier filters group ev db))
      × (filters.sort_direction ≡ some ascending
          → Falling (query_contributors contains earlier filters group ev db))
unfolding query_contributors goes_before
sort_is_reversed contains earlier filters group ev db unsorted =
    let rows = wanted_rows contains earlier filters group db ev db.ledger.people in
    (
      λ way. elim unsorted [
        | inl no_field ↦ elim way [
          | inl no_way ↦ rw (no_field, no_way) (sort-Rising rows)
          | inr down ↦ rw (no_field, down) (sort-Rising rows)
        ]
        | inr by_amount ↦ elim way [
          | inl no_way ↦ rw (by_amount, no_way) (sort-Rising rows)
          | inr down ↦ rw (by_amount, down) (sort-Rising rows)
        ]
      ],
      λ up. elim unsorted [
        | inl no_field ↦ rw (no_field, up) (sort-Falling rows)
        | inr by_amount ↦ rw (by_amount, up) (sort-Falling rows)
      ],
    )
