-- ===== src/Access/Tests.antt =====
-- Runs of the role matrix.
use akabbo.Prelude.{◌≡◌, ◌≢◌, ◌⊎◌, inl, refl, true, false, arith}
use akabbo.Access.Permission.{
  owner, co_owner, finance, viewer, can, is_write, event_read, member_manage, ledger_read_amounts,
  fulfillment_write, owner-can, can_mono, viewer_blind, owner_tier,
}

finance_books : can finance fulfillment_write ≡ true
unfolding can
finance_books = refl

viewer_reads : can viewer event_read ≡ true
unfolding can
viewer_reads = refl

owner_manages : can co_owner member_manage ≡ true
unfolding can
owner_manages = refl

owner-can_example : (can owner member_manage ≡ true) × (can co_owner member_manage ≡ true)
owner-can_example = owner-can member_manage

can_mono_example : can owner fulfillment_write ≡ true
can_mono_example = can_mono finance owner fulfillment_write (omega arith) finance_books

viewer_blind_example : (is_write event_read ≡ false) × (event_read ≢ ledger_read_amounts)
viewer_blind_example = viewer_blind event_read viewer_reads

owner_tier_example : (co_owner ≡ owner) ⊎ (co_owner ≡ co_owner)
owner_tier_example = owner_tier co_owner (inl owner_manages)
