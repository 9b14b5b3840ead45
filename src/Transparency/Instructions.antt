-- ===== src/Transparency/Instructions.antt =====
-- libs/transparency/src/payment-instruction.service.ts: how a contributor sends money to the
-- organizers, and the order in which the page lists it.
use akabbo.Prelude.{
  ℕ, ◌==◌, Bool, true, ◌&&◌, ◌||◌, String, Option, none, some, List, [], ◌∷◌, map, or_else, leb,
  if◌then◌else◌,
}
use akabbo.Prelude.Int.{ℤ, pos, ltb_ℤ, leb_ℤ}
use akabbo.Prelude.Result.{not_found}
use akabbo.Prelude.Tx.{Tx, pure, gets, lift, found, modify, ◌>>=◌, ◌>>◌}
use akabbo.Access.Permission.{payment_instruction_read, payment_instruction_write, assert}
use akabbo.Access.Gates.{OperationContext}
use akabbo.Ledger.Tables.{PaymentMethod, method_name, human_typed, text, flag, ref}
use akabbo.Transparency.Tables.{
  Db, PaymentInstruction, find_instruction, map_instruction, delete_instruction, bump_revision, log,
}

-- `PaymentInstructionView`
pub record PaymentInstructionView : Type 0 where
  pub id : ℕ
  pub method : PaymentMethod
  pub label : String
  pub details : String
  pub display_order : ℤ
  pub is_public : Bool

-- `PaymentInstructionInput`
pub record PaymentInstructionInput : Type 0 where
  pub method : PaymentMethod
  pub label : String
  pub details : String
  pub display_order : Option ℤ
  pub is_public : Option Bool

-- `Partial<PaymentInstructionInput>`
pub record InstructionChanges : Type 0 where
  pub method : Option PaymentMethod
  pub label : Option String
  pub details : Option String
  pub display_order : Option ℤ
  pub is_public : Option Bool

-- `toView`
unfoldable pub to_view : PaymentInstruction → PaymentInstructionView
to_view r = record {
  id = r.id;
  method = r.method;
  label = r.label;
  details = r.details;
  display_order = r.display_order;
  is_public = r.is_public;
}

-- `create`; `id` is the id that the database draws, `now` its time.
unfoldable pub create :
    OperationContext → PaymentInstructionInput → ℕ → ℕ → Tx Db PaymentInstructionView
unfolding to_view log bump_revision
create ctx input id now = do
  lift (assert ctx.role payment_instruction_write)
  let row : PaymentInstruction = record {
    id = id;
    event_id = ctx.event_id;
    method = input.method;
    label = input.label;
    details = input.details;
    display_order = or_else input.display_order (pos 0);
    is_public = or_else input.is_public true;
    created_by = ctx.user_id;
    created_at = now;
  }
  modify (λ db. record db { instructions = row ∷ db.instructions })
  bump_revision ctx.event_id
  log ctx "payment_instruction:create" ("payment_instruction", id) human_typed none
      (some (("method", text (method_name input.method)) ∷ ("label", text input.label) ∷ []))
  pure (to_view row)

-- The row after an update: Prisma leaves a column alone that is `undefined`.
unfoldable pub changed : InstructionChanges → PaymentInstruction → PaymentInstruction
changed input r = record r {
  method = or_else input.method r.method;
  label = or_else input.label r.label;
  details = or_else input.details r.details;
  display_order = or_else input.display_order r.display_order;
  is_public = or_else input.is_public r.is_public;
}

-- `update`
unfoldable pub update : OperationContext → ℕ → InstructionChanges → Tx Db PaymentInstructionView
unfolding to_view log bump_revision changed find_instruction map_instruction
update ctx id input = do
  lift (assert ctx.role payment_instruction_write)
  current ← gets (λ db. find_instruction ctx.event_id id db.instructions)
  before ← found current not_found
  modify (λ db. record db {
    instructions = map_instruction ctx.event_id id (changed input) db.instructions;
  })
  bump_revision ctx.event_id
  let row = changed input before
  log ctx "payment_instruction:update" ("payment_instruction", id) human_typed none
      (some (
        ("method", text (method_name row.method))
        ∷ ("label", text row.label)
        ∷ ("isPublic", flag row.is_public)
        ∷ []))
  pure (to_view row)

-- `remove`
unfoldable pub remove : OperationContext → ℕ → Tx Db ℕ
unfolding log bump_revision find_instruction delete_instruction
remove ctx id = do
  lift (assert ctx.role payment_instruction_write)
  current ← gets (λ db. find_instruction ctx.event_id id db.instructions)
  found current not_found
  modify (λ db. record db { instructions = delete_instruction ctx.event_id id db.instructions })
  bump_revision ctx.event_id
  log ctx "payment_instruction:delete" ("payment_instruction", id) human_typed
      (some (("id", ref id) ∷ [])) none
  pure id

-- `orderBy: [{ displayOrder: 'asc' }, { createdAt: 'asc' }]`
abbrev pub comes_first : PaymentInstruction → PaymentInstruction → Bool
comes_first a b =
    ltb_ℤ a.display_order b.display_order
    || leb_ℤ a.display_order b.display_order && leb a.created_at b.created_at

unfoldable pub insert : PaymentInstruction → List PaymentInstruction → List PaymentInstruction
insert p [] = p ∷ []
insert p (q ∷ qs) = let rest = insert p qs in if comes_first p q then p ∷ q ∷ qs else q ∷ rest

-- The rows of the event that pass a test, in the order of the page.
unfoldable pub in_order :
    ℕ → (PaymentInstruction → Bool) → List PaymentInstruction → List PaymentInstruction
unfolding insert
in_order ev keep [] = []
in_order ev keep (p ∷ ps) =
    let rest = in_order ev keep ps in if (p.event_id == ev) && keep p then insert p rest else rest

-- `list`
unfoldable pub list : OperationContext → Tx Db (List PaymentInstructionView)
unfolding to_view in_order
list ctx = do
  lift (assert ctx.role payment_instruction_read)
  gets (λ db. map to_view (in_order ctx.event_id (λ _. true) db.instructions))
