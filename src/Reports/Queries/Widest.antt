-- ===== src/Reports/Queries/Widest.antt =====
-- The biggest gap of a budget.
use akabbo.Prelude.{
  ℕ, ◌==◌, ◌≡◌, inl, inr, true, false, Option, none, some, List, [], ◌∷◌, arith, refl, sym,
  Bool-cases, Option-cases,
}
use akabbo.Prelude.Int.{ℤ, pos, ◌≤ℤ◌, ◌<ℤ◌, ltb_ℤ}
use mathlib.Core.Path.{subst}
use akabbo.Book.Tables.{BudgetItem, Allocation}
use akabbo.Reports.Queries.{Gap, gap_of, widest, widest_gap, biggest_gap}

-- No line of the event lacks more than a bound.
abbrev pub AllWithin : ℕ → List Allocation → ℤ → List BudgetItem → Type 0
AllWithin ev rows v [] = Unit {0}
AllWithin ev rows v (i ∷ is) =
    ((i.event_id == ev) ≡ true → (gap_of ev rows i).gap ≤ℤ v) × AllWithin ev rows v is

AllWithin-rise :
    (ev : ℕ) (rows : List Allocation) (v w : ℤ) (is : List BudgetItem)
    → v ≤ℤ w
    → AllWithin ev rows v is
    → AllWithin ev rows w is
AllWithin-rise ev rows v w [] h all = tt
AllWithin-rise ev rows v w (i ∷ is) h (first, all) =
    (λ own. omega (arith, first own), AllWithin-rise ev rows v w is h all)

abbrev BoundedBy : ℕ → List Allocation → List BudgetItem → Option Gap → Type 0
BoundedBy ev rows is none = (v : ℤ) → AllWithin ev rows v is
BoundedBy ev rows is (some g) = AllWithin ev rows g.gap is

-- One more line.
widest_gap-own :
    (ev : ℕ) (rows : List Allocation) (i : BudgetItem) (is : List BudgetItem) (o : Option Gap)
    → BoundedBy ev rows is o
    → AllWithin ev rows (widest (gap_of ev rows i) o).gap (i ∷ is)
unfolding widest
widest_gap-own ev rows i is none all = (λ own. omega arith, all (gap_of ev rows i).gap)
widest_gap-own ev rows i is (some h) all = elim (Bool-cases (ltb_ℤ (gap_of ev rows i).gap h.gap)) [
  | inl wider ↦
      let same : widest (gap_of ev rows i) (some h) ≡ h = rw wider refl in
      subst (λ g. AllWithin ev rows g.gap (i ∷ is)) (sym same) (λ own. ground arith, all)
  | inr narrower ↦
      let same : widest (gap_of ev rows i) (some h) ≡ gap_of ev rows i = rw narrower refl in
      subst (λ g. AllWithin ev rows g.gap (i ∷ is)) (sym same)
        (
          λ own. omega arith,
          AllWithin-rise ev rows h.gap (gap_of ev rows i).gap is (ground arith) all,
        )
]

-- A line of another event.
widest_gap-other :
    (ev : ℕ) (rows : List Allocation) (i : BudgetItem) (is : List BudgetItem) (o : Option Gap)
    → (i.event_id == ev) ≡ false
    → BoundedBy ev rows is o
    → BoundedBy ev rows (i ∷ is) o
widest_gap-other ev rows i is none other all = λ v. (λ own. absurd (cc), all v)
widest_gap-other ev rows i is (some g) other all = (λ own. absurd (cc), all)

widest_gap-BoundedBy :
    (ev : ℕ) (rows : List Allocation) (is : List BudgetItem)
    → BoundedBy ev rows is (widest_gap ev rows is)
unfolding widest_gap
widest_gap-BoundedBy ev rows [] = λ v. tt
widest_gap-BoundedBy ev rows (i ∷ is) = elim (Bool-cases (i.event_id == ev)) [
  | inl own ↦
      rw own (widest_gap-own ev rows i is (widest_gap ev rows is) (widest_gap-BoundedBy ev rows is))
  | inr other ↦ rw other (
      widest_gap-other ev rows i is (widest_gap ev rows is) other (widest_gap-BoundedBy ev rows is))
]

-- The biggest gap that an event report names is one: no line of the event's budget lacks more, and
-- where the report names none, no line lacks anything.
pub biggest_gap_widest :
    (ev : ℕ) (rows : List Allocation) (is : List BudgetItem)
    → ((g : Gap) → biggest_gap ev rows is ≡ some g → (pos 0 <ℤ g.gap) × AllWithin ev rows g.gap is)
      × (biggest_gap ev rows is ≡ none → AllWithin ev rows (pos 0) is)
unfolding biggest_gap
biggest_gap_widest ev rows is = elim (Option-cases (widest_gap ev rows is)) [
  | inl no_line ↦
      (λ g e. absurd (ground arith), λ e. (rw no_line at (widest_gap-BoundedBy ev rows is)) (pos 0))
  | inr (h, line) ↦
      let bound = rw line at (widest_gap-BoundedBy ev rows is) in
      (
        λ g e.
            let same : h ≡ g = ground arith in
            (ground arith, subst (λ k. AllWithin ev rows k.gap is) same bound),
        λ e. AllWithin-rise ev rows h.gap (pos 0) is (ground arith) bound,
      )
]
