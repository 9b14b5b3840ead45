-- ===== src/Transparency/Contributors/Top.antt =====
-- The order and the length of the list of contributors.
use akabbo.Prelude.{ℕ, ◌≤◌, List, [], ◌∷◌, arith, Bool-cases, inl, inr}
use akabbo.Prelude.Int.{pos, ◌≤ℤ◌, ◌<ℤ◌, leb_ℤ, ltb_ℤ}
use akabbo.Prelude.Lists.{length, take, length-take-le}
use akabbo.Transparency.Contributors.{PersonRow, committed_rows, insert_row, by_received, top_rows}

-- `Sorted` from the most received.
abbrev pub Descending : List PersonRow → Type 0
Descending [] = Unit {0}
Descending (r ∷ []) = Unit {0}
Descending (r ∷ (q ∷ rs)) = (q.received ≤ℤ r.received) × Descending (q ∷ rs)

insert_row-Descending :
    (r : PersonRow) (rs : List PersonRow) → Descending rs → Descending (insert_row r rs)
unfolding insert_row
insert_row-Descending r [] h = tt
insert_row-Descending r (q ∷ []) h = ground arith
insert_row-Descending r (q ∷ (p ∷ rs)) (first, h) =
    let ih = insert_row-Descending r (p ∷ rs) h in
    elim (Bool-cases (leb_ℤ q.received r.received)) [
      | inl above ↦ rw above (ground arith, (first, h))
      | inr below ↦ elim (Bool-cases (leb_ℤ p.received r.received)) [
        | inl here ↦ rw (below, here) (ground arith, (ground arith, h))
        | inr further ↦ rw (below, further) (first, rw further at ih)
      ]
    ]

by_received-Descending : (rs : List PersonRow) → Descending (by_received rs)
unfolding by_received
by_received-Descending [] = tt
by_received-Descending (r ∷ rs) =
    insert_row-Descending r (by_received rs) (by_received-Descending rs)

take-Descending : (n : ℕ) (rs : List PersonRow) → Descending rs → Descending (take n rs)
unfolding take
take-Descending ℕ.zero rs h = tt
take-Descending (ℕ.suc n) [] h = tt
take-Descending (ℕ.suc n) (r ∷ []) h = take_one n
  where
    take_one : (n : ℕ) → Descending (r ∷ take n [])
    take_one ℕ.zero = tt
    take_one (ℕ.suc n) = tt
take-Descending (ℕ.suc ℕ.zero) (r ∷ (q ∷ rs)) h = tt
take-Descending (ℕ.suc (ℕ.suc n)) (r ∷ (q ∷ rs)) (first, h) =
    (first, take-Descending (ℕ.suc n) (q ∷ rs) h)

-- Everyone listed has promised something.
abbrev pub AllCommitted : List PersonRow → Type 0
AllCommitted [] = Unit {0}
AllCommitted (r ∷ rs) = (pos 0 <ℤ r.committed) × AllCommitted rs

committed_rows-AllCommitted : (rs : List PersonRow) → AllCommitted (committed_rows rs)
unfolding committed_rows
committed_rows-AllCommitted [] = tt
committed_rows-AllCommitted (r ∷ rs) = elim (Bool-cases (ltb_ℤ (pos 0) r.committed)) [
  | inl some_promise ↦ rw some_promise (ground arith, committed_rows-AllCommitted rs)
  | inr no_promise ↦ rw no_promise (committed_rows-AllCommitted rs)
]

insert_row-AllCommitted :
    (r : PersonRow) (rs : List PersonRow)
    → pos 0 <ℤ r.committed
    → AllCommitted rs
    → AllCommitted (insert_row r rs)
unfolding insert_row
insert_row-AllCommitted r [] h all = (h, tt)
insert_row-AllCommitted r (q ∷ rs) h (first, all) =
    elim (Bool-cases (leb_ℤ q.received r.received)) [
      | inl above ↦ rw above (h, (first, all))
      | inr below ↦ rw below (first, insert_row-AllCommitted r rs h all)
    ]

by_received-AllCommitted : (rs : List PersonRow) → AllCommitted rs → AllCommitted (by_received rs)
unfolding by_received
by_received-AllCommitted [] all = tt
by_received-AllCommitted (r ∷ rs) (h, all) =
    insert_row-AllCommitted r (by_received rs) h (by_received-AllCommitted rs all)

take-AllCommitted : (n : ℕ) (rs : List PersonRow) → AllCommitted rs → AllCommitted (take n rs)
unfolding take
take-AllCommitted ℕ.zero rs all = tt
take-AllCommitted (ℕ.suc n) [] all = tt
take-AllCommitted (ℕ.suc n) (r ∷ rs) (h, all) = (h, take-AllCommitted n rs all)

-- Whatever the people of an event are, the page lists at most a hundred of them, from whom most was
-- received down, and only people who have promised something.
pub top_rows_bounded :
    (people : List PersonRow)
    → (length (top_rows people) ≤ 100)
      × Descending (top_rows people)
      × AllCommitted (top_rows people)
unfolding top_rows
top_rows_bounded people =
    let kept = committed_rows people in
    (
      length-take-le 100 (by_received kept),
      take-Descending 100 (by_received kept) (by_received-Descending kept),
      take-AllCommitted 100 (by_received kept)
          (by_received-AllCommitted kept (committed_rows-AllCommitted people)),
    )
