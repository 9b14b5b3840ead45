-- ===== src/Billing/Plans/Laws.antt =====
-- Which grant decides.
use akabbo.Prelude.{ℕ, Option}
use akabbo.Billing.Tables.{Grant}

-- The period of a grant is rewritten.
abbrev pub with_period : (Grant → ℕ × Option ℕ) → Grant → Grant
with_period f g = record g { period_start = (f g).0; period_end = (f g).1 }
