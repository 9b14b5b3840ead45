-- ===== src/Lib.antt =====
-- Akabbo keeps the money of a shared event: who promised what, what was received, who may see and
-- change it, and what the event's plan pays for.
--
-- The parts, and the files that model them:
--
-- * Access (libs/access/src/permission.service.ts, actions.ts, event-status.ts, actor.ts).
--   Access/Permission.antt is the role matrix, Access/Gates.antt the two gates in the order in which
--   every mutation passes them, Access/Entitlement.antt the type of the entitlement gate.
-- * Ledger (libs/ledger/src). Ledger/Money.antt and Ledger/Status.antt are money.ts and
--   pledge-status.ts; Ledger/Tables.antt and Ledger/Store.antt are the tables and the statements on
--   them, with audit.writer.ts and outbox.writer.ts; Ledger/Pledges.antt is pledge.service.ts,
--   Ledger/Fulfillments.antt, Ledger/Payments.antt and Ledger/Contributions.antt are
--   fulfillment.service.ts. Ledger/Invariant.antt says what holds between requests, and
--   Ledger/Operations.antt puts the requests into one type with a step relation. The modules below these hold the proofs.
-- * Billing (libs/billing/src/billing.service.ts, libs/access/src/entitlement.service.ts).
--   Billing/Tables.antt, Billing/Entitlements.antt (balances, `check`), Billing/Credits.antt (the two
--   credit ledgers), Billing/Webhook.antt (`applyPaymentWebhook`, `reconcileInvoice`),
--   Billing/Catalog.antt (libs/config/src/plan-catalog.config.ts), Billing/Plans.antt
--   (`resolve`) and Billing/Trials.antt (the free trials and the start of a purchase).
-- * Team (event.service.ts, membership.service.ts and invitation.service.ts of libs/ledger/src):
--   Team/Tables.antt, Team/Events.antt, Team/Members.antt and Team/Invitations.antt, with their laws
--   below them. `acceptInvitation` marks an invitation as expired outside of any transaction, so its
--   model returns the tables also where it throws.
-- * Confirmation (libs/ai/src/confirmation.service.ts, amount.ts). Confirmation.antt has the life of a
--   proposal of the assistant, Confirmation/Edit.antt its edit, Confirmation/Amount.antt
--   `formatAmount`; the executor that runs the stored action is a parameter.
-- * Book (person.service.ts, group.service.ts, budget.service.ts and allocation.service.ts of
--   libs/ledger/src): Book/Tables.antt, Book/People.antt, Book/Groups.antt and Book/Budget.antt, and
--   Book/Operations.antt with the requests as one type and a step relation.
-- * Comms (libs/comms/src/sms.service.ts): Comms/Recipients.antt says who a campaign is for and what
--   each gets, Comms/Campaigns.antt has `dispatch` and `processCampaign`,
--   Comms/Delivery.antt the views. Below the campaigns are the cost of the
--   queue, of the worker's loop, and of a campaign from end to end.
-- * Identity (libs/identity/src): Identity/Otp.antt, Identity/Users.antt, Identity/Sessions.antt and
--   Identity/Challenges.antt are otp.util.ts, user.service.ts and local-auth.provider.ts. Nothing there
--   runs in a transaction, so its calls are in `Io`, which keeps what was written before a throw.
-- * Transparency (libs/transparency/src): Transparency/Tables.antt, Transparency/Settings.antt,
--   Transparency/Announcements.antt and Transparency/Instructions.antt are the public columns of an
--   event, public-settings.service.ts, announcement.service.ts and payment-instruction.service.ts.
--   public-view.service.ts is Transparency/Links.antt (`resolve`), Transparency/Contributors.antt,
--   Transparency/Activity.antt, Transparency/Budget.antt and Transparency/Page.antt
--   (`getPublicEventView`).
-- * Reports (libs/ledger/src): Reports/Rows.antt, Reports/Contributors.antt, Reports/Csv.antt,
--   Reports/Link.antt and Reports/Report.antt are report.service.ts, Reports/Queries.antt and
--   Reports/Funders.antt are ledger-query.service.ts. They read the book, and the queries use the
--   rollup of people that the public page has.
-- * Outbox (libs/ledger/src/outbox-drain.service.ts): Outbox.antt, the claim of a batch and its
--   dispatch to handlers, which are a parameter.
--
-- How they interact: an operation of the ledger takes the entitlement gate as an argument of
-- type `Check`, and Billing.Entitlements.entitlement_check is the code's own. The ceiling of
-- active events reads the grants of billing, and the context that membership resolves is what
-- every operation is given. A campaign reserves, commits and refunds with the credit ledger of
-- billing, under a key for each message, and reads the people and pledges of the ledger; the totals
-- of a person that a reminder compares are those that a merge of two people adds up. The worker runs
-- a campaign for a message of the outbox.
--
-- How code becomes definitions. Names are those of the source in another spelling
-- (`recordFulfillment` is record_fulfillment). A Prisma table is a list of rows, a row a record. A
-- transaction is `Tx`, a function from the tables to a result: a body that throws leaves no trace.
-- Row level security is the filter by event in every read and update. Identifiers and times are
-- natural numbers, a bigint is an integer. The ids that the database draws and the time of a call
-- come in a record `Env`, and a step asks that the ids are new. The statements that a service runs
-- before its transaction are in the same `Tx`, since nothing is written before it. A unique
-- constraint is a test of the insert. Billing's idempotency keys are a type with a constructor for
-- each prefix. Accounts stand oldest first. Every loop is over a list, but for the digits of a
-- number: `digits_onto` runs on fuel, the number and one, which the round trip of amounts shows to be
-- enough.
--
-- Parameters stand for what is not under this repository: the SMS gateway, the arithmetic of doubles,
-- `node:crypto` and `jsonwebtoken`, the collation of names in the database and in the runtime, its search
-- without regard to case, the encoding of a query string, and everything that is drawn at random.
--
-- Not modelled: concurrency inside one transaction, the plan cache, the slug of an event (it is
-- supplied with its random suffix), the schedule of the worker, the AI assistant, documents and budget
-- intelligence, and the HTTP layer.
pub mod Prelude
pub mod Access
pub mod Ledger
pub mod Billing
pub mod Team
pub mod Transparency
pub mod Identity
pub mod Book
pub mod Outbox
pub mod Comms
pub mod Confirmation
pub mod Reports
