-- ===== src/Wallet/Rows.antt =====
-- The rows that src/api/src/modules/wallet keeps (models Wallet and Ledger of src/api/prisma/schema.prisma).
-- Amounts are in cents. A wallet is named by its user, whom `user_id` makes unique.
use iron_loot.Common.{ℕ, Bool, Option, none, some, List, ◌∷◌, ℤ, pos}
use iron_loot.Exec.{ok, ⊤, Exec, gets, or_raise, modify, ◌>>=◌, not_found}
use iron_loot.Table.{Table, lookup, insert}

pub data LedgerType : Type 0 where
  deposit withdrawal hold_bid release_bid debit_order credit_sale fee_platform : LedgerType
  refund adjustment settlement_release : LedgerType

pub data ReferenceType : Type 0 where
  payment withdrawal withdrawal_refund dispute_reversal dispute_refund : ReferenceType
  order fee auction_bid auction_release account_verification deposit : ReferenceType

pub record Wallet : Type 0 where
  pub balance : ℤ
  pub held_funds : ℤ
  pub pending_balance : ℤ
  pub is_active : Bool

pub record Ledger : Type 0 where
  pub wallet : ℕ
  pub type : LedgerType
  pub amount : ℤ
  pub balance_before : ℤ
  pub balance_after : ℤ
  pub reference_id : ℕ
  pub reference_type : ReferenceType
  pub created_at : ℕ

-- The wallets, the ledger with its newest entry first, and the time in milliseconds.
pub record Books : Type 0 where
  pub wallets : Table Wallet
  pub ledger : List Ledger
  pub now : ℕ

abbrev pub new_wallet : Bool → Wallet
new_wallet active = record {
  balance = pos 0;
  held_funds = pos 0;
  pending_balance = pos 0;
  is_active = active;
}

-- `createMany` with `skipDuplicates`, then `findUniqueOrThrow`: a wallet that exists stays as it is.
unfoldable pub asegurar_monedero : ℕ → Bool → Exec Books Wallet
asegurar_monedero user active s = elim (lookup user s.wallets) [
  | some w ↦ (ok w, s)
  | none ↦
      (ok (new_wallet active), record s { wallets = insert user (new_wallet active) s.wallets })
]

-- `SELECT … FOR UPDATE`: the row as it stands, which no other transaction changes from here on.
abbrev pub bloquear_monedero : ℕ → Exec Books (Option Wallet)
bloquear_monedero user = gets (λ s. lookup user s.wallets)

abbrev pub require_wallet : ℕ → Exec Books Wallet
require_wallet user = do or_raise (← bloquear_monedero user) not_found

abbrev pub ledger_create : Ledger → Exec Books ⊤
ledger_create e = modify (λ s. record s { ledger = e ∷ s.ledger })

abbrev pub wallet_update : ℕ → Wallet → Exec Books ⊤
wallet_update user w = modify (λ s. record s { wallets = insert user w s.wallets })

-- An entry that moves the available balance of `user` from `before` to `after`.
abbrev pub entry : ℕ → LedgerType → ℤ → ℤ → ℤ → ℕ → ReferenceType → ℕ → Ledger
entry user kind amount before after reference reference_kind at = record {
  wallet = user;
  type = kind;
  amount = amount;
  balance_before = before;
  balance_after = after;
  reference_id = reference;
  reference_type = reference_kind;
  created_at = at;
}
