-- ===== src/Methods/Tests.antt =====
-- Runs of the accounts that withdrawals are paid to.
use iron_loot.Common.{
  ℕ, ◌≡◌, refl, ◌⊎◌, true, false, none, some, List, [], ◌∷◌, ◌++◌, arith, find_first,
}
use iron_loot.Methods.Rows.{
  Text, PaymentMethodType, PaymentMethod, VerificationStatus, AccountVerification, Db,
}
use iron_loot.Methods.Clabe.{is_valid_clabe, check_from, weight, is_valid_clabe-changed}
use iron_loot.Methods.Verification.{is_of_method}
use iron_loot.Methods.Laws.{IsGuarded, Refuses, Verifies, confirm_cases}
use iron_loot.Methods.Guesses.{guess, guess-IsGuarded}

-- The account 032180000118359719; one of its digits is written wrong.
abbrev before : Text
before = 48 ∷ 51 ∷ 50 ∷ 49 ∷ 56 ∷ 48 ∷ 48 ∷ 48 ∷ 48 ∷ 49 ∷ []

abbrev after : Text
after = 56 ∷ 51 ∷ 53 ∷ 57 ∷ 55 ∷ 49 ∷ 57 ∷ []

account_valid : is_valid_clabe (before ++ 49 ∷ after) ≡ true
unfolding is_valid_clabe check_from weight
account_valid = refl

is_valid_clabe-changed_example : is_valid_clabe (before ++ 52 ∷ after) ≡ false
is_valid_clabe-changed_example =
    is_valid_clabe-changed before after 49 52 refl refl (omega arith) account_valid

abbrev method : PaymentMethod
method = record {
  user_id = 1;
  type = PaymentMethodType.clabe;
  reference_id = before ++ 49 ∷ after;
  holder_name = some (65 ∷ []);
  is_verified = false;
  is_active = true;
}

abbrev verification : AccountVerification
verification = record {
  payment_method_id = 2;
  user_id = 1;
  token = 65 ∷ 66 ∷ [];
  status = VerificationStatus.sent;
  attempts = 3;
  movement_ref = some 9;
  expires_at = 5000;
  sent_at = some 10;
  verified_at = none;
}

abbrev db : Db
db = record {
  methods = (2, method) ∷ [];
  verifications = (3, verification) ∷ [];
  next_id = 4;
  books = record { wallets = []; ledger = []; now = 1000 };
}

confirm_cases_example : Verifies 1 2 (97 ∷ 98 ∷ []) db ⊎ Refuses 1 2 (97 ∷ 98 ∷ []) db
confirm_cases_example = confirm_cases 1 2 (97 ∷ 98 ∷ []) db

-- Two wrong codes, and then the right one, too late.
abbrev codes : List (ℕ × Text)
codes = (10, 67 ∷ []) ∷ (10, 68 ∷ []) ∷ (10, 65 ∷ 66 ∷ []) ∷ []

guess-IsGuarded_example :
    (w : AccountVerification) × (find_first (is_of_method 2) (guess 1 2 codes db).verifications
      ≡ some (3, w))
    × IsGuarded w
guess-IsGuarded_example =
    guess-IsGuarded 1 2 codes db 3 verification refl
      (record { few = omega arith; blocks = λ q. absurd (omega arith) })
