-- ===== src/Transparency/Page/Privacy.antt =====
-- What the public page does not depend on.
use akabbo.Prelude.{
  ℕ, ◌≡◌, refl, Bool, true, false, none, some, List, [], ◌∷◌, map, arith, ap, if◌then◌else◌,
}
use akabbo.Prelude.Int.{ℤ}
use akabbo.Ledger.Tables.{human_typed}
use akabbo.Ledger.Tables.{Pledge, Fulfillment}
use akabbo.Book.Tables.{BudgetItem, Allocation}
use akabbo.Transparency.Tables.{
  Db, Event, Announcement, PaymentInstruction, BudgetVisibility, partially_public,
  ContributorVisibility, names_and_amounts, names_only, aggregate_only,
}
use akabbo.Transparency.Instructions.{in_order}
use akabbo.Transparency.Contributors.{PersonRow, people_rows, build_contributors}
use akabbo.Transparency.Contributors.Private.{
  bare_pledge, bare_fulfillment, bare_ledger, people_rows-bare, build_contributors-bare,
  build_recent_activity-bare,
}
use akabbo.Transparency.Budget.{budget_rows, shown_rows, build_budget}
use akabbo.Transparency.Page.{
  total_pledged, total_received, published_of, public_announcements, public_instructions,
  activity_if, project, is_published,
}

bare_item : BudgetItem → BudgetItem
bare_item i = record i {
  budget_id = 0;
  source = human_typed;
  confidence = none;
  source_document_id = none;
  created_by = 0;
  version = 0;
}

-- The announcements that are published, and the instructions that are public.
unfoldable pub only_published : List Announcement → List Announcement
only_published [] = []
only_published (a ∷ rows) =
    let rest = only_published rows in if is_published a.status then a ∷ rest else rest

unfoldable pub only_public : List PaymentInstruction → List PaymentInstruction
only_public [] = []
only_public (p ∷ rows) = let rest = only_public rows in if p.is_public then p ∷ rest else rest

-- The tables without what is private: the columns of people, pledges, payments and budget lines that
-- no page has, the audit trail and the outbox, groups and files, drafts and archived announcements,
-- and instructions that are not public.
unfoldable pub public_part : Db → Db
unfolding bare_item only_published only_public bare_ledger
public_part db = record {
  book = record {
    ledger = bare_ledger db.book.ledger;
    groups = [];
    members = [];
    files = [];
    budgets = [];
    items = map bare_item db.book.items;
    allocations = db.book.allocations;
  };
  events = [];
  announcements = only_published db.announcements;
  instructions = only_public db.instructions;
}

total_pledged-bare :
    (ev : ℕ) (ps : List Pledge) → total_pledged ev (map bare_pledge ps) ≡ total_pledged ev ps
unfolding total_pledged bare_pledge
total_pledged-bare ev [] = refl
total_pledged-bare ev (p ∷ ps) = ground (arith, total_pledged-bare ev ps)

total_received-bare :
    (ev : ℕ) (fs : List Fulfillment)
    → total_received ev (map bare_fulfillment fs) ≡ total_received ev fs
unfolding total_received bare_fulfillment
total_received-bare ev [] = refl
total_received-bare ev (f ∷ fs) = ground (arith, total_received-bare ev fs)

budget_rows-bare :
    (ev : ℕ) (only : Bool) (rows : List Allocation) (is : List BudgetItem)
    → budget_rows ev only rows (map bare_item is) ≡ budget_rows ev only rows is
unfolding budget_rows bare_item
budget_rows-bare ev only rows [] = refl
budget_rows-bare ev only rows (i ∷ is) = ground (arith, budget_rows-bare ev only rows is)

build_budget-public :
    (ev : ℕ) (vis : BudgetVisibility) (db : Db)
    → build_budget ev vis (public_part db).book ≡ build_budget ev vis db.book
unfolding build_budget public_part shown_rows
build_budget-public ev BudgetVisibility.hidden db = refl
build_budget-public ev BudgetVisibility.public db =
    rw (budget_rows-bare ev false db.book.allocations db.book.items) refl
build_budget-public ev partially_public db =
    rw (budget_rows-bare ev true db.book.allocations db.book.items) refl

published_of-only :
    (ev : ℕ) (rows : List Announcement)
    → published_of ev (only_published rows) ≡ published_of ev rows
unfolding published_of only_published
published_of-only ev [] = refl
published_of-only ev (a ∷ rows) = ground (arith, published_of-only ev rows)

in_order-only :
    (ev : ℕ) (rows : List PaymentInstruction)
    → in_order ev (λ p. p.is_public) (only_public rows) ≡ in_order ev (λ p. p.is_public) rows
unfolding in_order only_public
in_order-only ev [] = refl
in_order-only ev (p ∷ rows) = ground (arith, in_order-only ev rows)

activity_if-public :
    (vis : ContributorVisibility) (ev : ℕ) (db : Db)
    → activity_if vis ev (public_part db) ≡ activity_if vis ev db
unfolding activity_if public_part
activity_if-public names_and_amounts ev db = ap some (build_recent_activity-bare ev db.book.ledger)
activity_if-public names_only ev db = refl
activity_if-public aggregate_only ev db = refl
activity_if-public ContributorVisibility.hidden ev db = refl

ledger-public :
    (ev : ℕ) (db : Db)
    → (total_pledged ev (public_part db).book.ledger.pledges
        ≡ total_pledged ev db.book.ledger.pledges)
      × (total_received ev (public_part db).book.ledger.fulfillments
          ≡ total_received ev db.book.ledger.fulfillments)
      × (people_rows ev (public_part db).book.ledger (public_part db).book.ledger.people
          ≡ people_rows ev db.book.ledger db.book.ledger.people)
      × ((people : List PersonRow) (vis : ContributorVisibility) (show : Bool)
          → build_contributors ev people vis show (public_part db).book.ledger
            ≡ build_contributors ev people vis show db.book.ledger)
unfolding public_part bare_ledger
ledger-public ev db = (
  total_pledged-bare ev db.book.ledger.pledges,
  total_received-bare ev db.book.ledger.fulfillments,
  people_rows-bare ev db.book.ledger db.book.ledger.people,
  λ people vis show. build_contributors-bare ev people vis show db.book.ledger,
)

texts-public :
    (ev : ℕ) (db : Db)
    → (public_announcements ev (public_part db).announcements
        ≡ public_announcements ev db.announcements)
      × (public_instructions ev (public_part db).instructions
          ≡ public_instructions ev db.instructions)
unfolding public_announcements public_instructions public_part
texts-public ev db =
    (rw (published_of-only ev db.announcements) refl, rw (in_order-only ev db.instructions) refl)

pub project-public_part :
    (percent : ℤ → ℤ → ℕ) (e : Event) (db : Db)
    → project percent e (public_part db) ≡ project percent e db
unfolding project
project-public_part percent e db =
    let (pledged, received, rows, contributors) = ledger-public e.id db in
    let (announcements, instructions) = texts-public e.id db in
    rw
      (
        project,
        pledged,
        received,
        rows,
        contributors (people_rows e.id db.book.ledger db.book.ledger.people)
            e.contributor_visibility e.show_outstanding,
        activity_if-public e.contributor_visibility e.id db,
        build_budget-public e.id e.budget_visibility db,
        announcements,
        instructions,
      )
      refl
