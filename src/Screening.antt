-- ===== src/Screening.antt =====
-- The compliance verdicts and what they mean for a payment
-- (src/domain/compliance/screening-provider.ts).
use oscar_payment_gateway.Prelude.{Bool, true, false}
use oscar_payment_gateway.Store.{PaymentScreeningStatus}

pub data ScreeningVerdict : Type 0 where
  clear flagged blocked unavailable indeterminate : ScreeningVerdict

unfoldable pub screening_status_for_verdict : ScreeningVerdict → PaymentScreeningStatus
screening_status_for_verdict clear = PaymentScreeningStatus.clear
screening_status_for_verdict flagged = PaymentScreeningStatus.flagged
screening_status_for_verdict blocked = PaymentScreeningStatus.blocked
screening_status_for_verdict unavailable = PaymentScreeningStatus.pending
screening_status_for_verdict indeterminate = PaymentScreeningStatus.pending

-- `===` on two screening statuses.
abbrev pub same_screening : PaymentScreeningStatus → PaymentScreeningStatus → Bool
same_screening PaymentScreeningStatus.clear PaymentScreeningStatus.clear = true
same_screening PaymentScreeningStatus.flagged PaymentScreeningStatus.flagged = true
same_screening PaymentScreeningStatus.blocked PaymentScreeningStatus.blocked = true
same_screening PaymentScreeningStatus.pending PaymentScreeningStatus.pending = true
same_screening _ _ = false
