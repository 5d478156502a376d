-- ===== src/Sale/Settle/Payment.antt =====
-- `createPayment` of src/sale/sale.service.ts: what a payment writes into the account of a customer.
use accurack_software_backen.Common.{ℕ, ◌≤◌, true, false, ◌∷◌, ◌≡◌, ◌⊎◌, ◌↔◌, Memᴰ, any, nat_eq}
use accurack_software_backen.Prisma.{Prisma}
use accurack_software_backen.Sale.Tables.{Amounts, PaymentStatus, Customer, BalanceSheet, Db}
use accurack_software_backen.Sale.Settle.{CreatePaymentDto, sheet_of}

module _ {N : Type 0} (n : Amounts N) (p : Prisma) (now : ℕ) where
  -- What a customer owes: the remaining amount of a newest entry, or zero where there is none.
  abbrev pub Owes : Db N → ℕ → N → Type 0
  Owes db customer_id amount =
      ((any (sheet_of n p now customer_id) db.balance_sheets ≡ false) × (amount ≡ n.zero))
      ⊎ ((b : BalanceSheet N) × Memᴰ b db.balance_sheets
          × (nat_eq b.customer_id customer_id ≡ true)
          × ((x : BalanceSheet N)
              → Memᴰ x db.balance_sheets
              → nat_eq x.customer_id customer_id ≡ true
              → x.created_at ≤ b.created_at)
          × (amount ≡ b.remaining_amount))

  pub record Paid (dto : CreatePaymentDto N) (db db' : Db N) (b : BalanceSheet N) : Type 0 where
    pub customer : Customer
    pub listed : Memᴰ customer db.customers
    pub owner : nat_eq customer.id dto.customer_id ≡ true
    pub entered : db' ≡ record db { balance_sheets = b ∷ db.balance_sheets }
    pub owed : N
    pub owes : Owes db dto.customer_id owed
    pub remaining : b.remaining_amount ≡ n.minus owed dto.amount_paid
    pub settled :
        (b.payment_status ≡ PaymentStatus.paid) ↔ (n.not_positive b.remaining_amount ≡ true)
