-- ===== src/Methods/Rows.antt =====
-- The rows of src/api/src/modules/payments/payments.service.ts and of
-- src/api/src/modules/wallet/account-verification.service.ts: where withdrawals are paid to (models
-- UserPaymentMethod and AccountVerification of src/api/prisma/schema.prisma).
use iron_loot.Common.{ℕ, ◌+◌, Bool, true, false, ◌&&◌, Option, List, [], ◌∷◌, ◌==◌}
use iron_loot.Exec.{ok, ⊤, Exec, gets, modify}
use iron_loot.Table.{Table, insert}
use iron_loot.Wallet.Rows.{Books}

-- The codes of a text's characters.
abbrev pub Text : Type 0
Text = List ℕ

pub data PaymentMethodType : Type 0 where
  clabe paypal : PaymentMethodType

pub record PaymentMethod : Type 0 where
  pub user_id : ℕ
  pub type : PaymentMethodType
  pub reference_id : Text
  pub holder_name : Option Text
  pub is_verified : Bool
  pub is_active : Bool

pub data VerificationStatus : Type 0 where
  pending sent verified failed blocked expired : VerificationStatus

pub record AccountVerification : Type 0 where
  pub payment_method_id : ℕ
  pub user_id : ℕ
  pub token : Text
  pub status : VerificationStatus
  pub attempts : ℕ
  pub movement_ref : Option ℕ
  pub expires_at : ℕ
  pub sent_at : Option ℕ
  pub verified_at : Option ℕ

-- The verifications, the newest first.
pub record Db : Type 0 where
  pub methods : Table PaymentMethod
  pub verifications : Table AccountVerification
  pub next_id : ℕ
  pub books : Books

abbrev pub now : Exec Db ℕ
now = gets (λ s. s.books.now)

abbrev pub fresh_id : Exec Db ℕ
fresh_id s = (ok s.next_id, record s { next_id = s.next_id + 1 })

abbrev pub on_books : {A : Type 0} → Exec Books A → Exec Db A
on_books m s = let (r, b) = m s.books in (r, record s { books = b })

abbrev pub method_update : ℕ → PaymentMethod → Exec Db ⊤
method_update id m = modify (λ s. record s { methods = insert id m s.methods })

abbrev pub verification_update : ℕ → AccountVerification → Exec Db ⊤
verification_update id v = modify (λ s. record s { verifications = insert id v s.verifications })

unfoldable pub same_text : Text → Text → Bool
same_text [] [] = true
same_text [] (b ∷ bs) = false
same_text (a ∷ rest) [] = false
same_text (a ∷ rest) (b ∷ bs) = (a == b) && same_text rest bs
