-- ===== src/Lifecycle/Loans.antt =====
-- The life of a loan as a step relation, apart from the code.
use production_library_manag.Prelude.{ℕ, ◌+◌, ◌*◌, ◌≡◌, ◌≤◌, ◌<◌, refl, true, false, arith}
use production_library_manag.Lifecycle.Tables.{Steps, here, later}
use production_library_manag.Enums.{BorrowStatus, is_returned, max_renewals}
use production_library_manag.Models.{BorrowRecord, borrow_key}

-- What identifies a loan, and never changes.
pub record IsSameLoan (r r' : BorrowRecord) : Type 0 where
  pub same_id : r'.id ≡ r.id
  pub same_member : r'.member_id ≡ r.member_id
  pub same_book : r'.book_id ≡ r.book_id
  pub same_start : r'.borrow_date ≡ r.borrow_date

-- One step of a loan that is not returned: a renewal, which moves the due date by `period` and
-- counts, or the return.
pub data LoanStep : (period : ℕ) → BorrowRecord → BorrowRecord → Type 0 where
  renewal :
      {period : ℕ} {r r' : BorrowRecord}
      → IsSameLoan r r'
      → is_returned r.status ≡ false
      → r.renewal_count < max_renewals
      → r'.status ≡ BorrowStatus.renewed
      → r'.renewal_count ≡ r.renewal_count + 1
      → r'.due_date ≡ r.due_date + period
      → LoanStep period r r'
  giving_back :
      {period : ℕ} {r r' : BorrowRecord}
      → IsSameLoan r r'
      → is_returned r.status ≡ false
      → r'.status ≡ BorrowStatus.returned
      → r'.renewal_count ≡ r.renewal_count
      → r'.due_date ≡ r.due_date
      → LoanStep period r r'

abbrev pub LoanPath : (period : ℕ) → BorrowRecord → BorrowRecord → Type 0
LoanPath period = Steps (LoanStep period)

-- A loan that is returned stays as it is.
pub LoanPath-returned :
    (period : ℕ) (r r' : BorrowRecord) → LoanPath period r r' → is_returned r.status ≡ true → r' ≡ r
LoanPath-returned period r r' here h = refl
LoanPath-returned period r r' (later {s} p (renewal _ unreturned _ _ _ _)) h =
    let same : s ≡ r = LoanPath-returned period r s p h in ground (arith, same, unreturned, h)
LoanPath-returned period r r' (later {s} p (giving_back _ unreturned _ _ _)) h =
    let same : s ≡ r = LoanPath-returned period r s p h in ground (arith, same, unreturned, h)

-- Renewals are counted, are at most two, and alone move the due date.
pub record IsRenewed (period : ℕ) (r r' : BorrowRecord) : Type 0 where
  pub bounded : r'.renewal_count ≤ max_renewals
  pub grows : r.renewal_count ≤ r'.renewal_count
  pub due : r'.due_date + r.renewal_count * period ≡ r.due_date + r'.renewal_count * period

pub LoanPath-IsRenewed :
    (period : ℕ) (r r' : BorrowRecord)
    → LoanPath period r r'
    → r.renewal_count ≤ max_renewals
    → IsRenewed period r r'
LoanPath-IsRenewed period r r' here h = record { bounded = h; grows = omega arith; due = refl }
LoanPath-IsRenewed period r r' (later {s} p (renewal _ _ room _ counted moved)) h =
    let before : IsRenewed period r s = LoanPath-IsRenewed period r s p h in
    record {
      bounded = omega arith;
      grows = omega (arith, before.grows);
      due = rw counted (rw moved (omega (arith, before.due)));
    }
LoanPath-IsRenewed period r r' (later {s} p (giving_back _ _ _ counted moved)) h =
    let before : IsRenewed period r s = LoanPath-IsRenewed period r s p h in
    record {
      bounded = omega (arith, before.bounded);
      grows = omega (arith, before.grows);
      due = rw counted (rw moved before.due);
    }
