-- ===== src/Methods/Accounts.antt =====
-- The accounts of src/api/src/modules/payments/payments.service.ts that withdrawals are paid to.
use iron_loot.Common.{
  ℕ, ◌+◌, Bool, true, false, ◌&&◌, ◌||◌, not, none, some, [], ◌∷◌, map, leb, ◌==◌, if◌then◌else◌,
  length, find_first,
}
use iron_loot.Exec.{Exec, pure, raise, gets, raise_if, ◌>>=◌, ◌>>◌, bad_request, unique_violation}
use iron_loot.Methods.Rows.{
  Text, PaymentMethodType, PaymentMethod, Db, fresh_id, method_update, same_text,
}
use iron_loot.Methods.Clabe.{trim, is_space, is_empty, is_valid_clabe}

abbrev pub is_of : ℕ → Text → ℕ × PaymentMethod → Bool
is_of user_id reference (id, m) = (m.user_id == user_id) && same_text m.reference_id reference

-- `@@unique([userId, referenceId])` is what the test before asks.
unfoldable pub add_bank_account : ℕ → Text → Text → Exec Db ℕ
add_bank_account user_id clabe holder_name = do
  raise_if (not (is_valid_clabe clabe)) bad_request
  raise_if (is_empty (trim holder_name)) bad_request
  existing ← gets (λ s. find_first (is_of user_id clabe) s.methods)
  elim existing [
    | some m ↦ raise bad_request
    | none ↦ do
      id ← fresh_id
      method_update id (record {
        user_id = user_id;
        type = PaymentMethodType.clabe;
        reference_id = clabe;
        holder_name = some (trim holder_name);
        is_verified = false;
        is_active = true;
      })
      pure id
  ]

abbrev to_lower : ℕ → ℕ
to_lower c = if leb 65 c && leb c 90 then c + 32 else c

abbrev lower : Text → Text
lower cs = map to_lower cs

abbrev is_at : ℕ → Bool
is_at c = c == 64

-- A dot with two characters or more after it.
abbrev has_dot : Text → Bool
has_dot [] = false
has_dot (c ∷ cs) = ((c == 46) && leb 2 (length cs)) || has_dot cs

abbrev is_plain : Text → Bool
is_plain [] = true
is_plain (c ∷ cs) = not (is_space c) && not (is_at c) && is_plain cs

abbrev is_domain : Text → Bool
is_domain [] = false
is_domain (c ∷ cs) = is_plain (c ∷ cs) && has_dot cs

-- `/^[^\s@]+@[^\s@]+\.[^\s@]{2,}$/`, after the first character.
abbrev is_email_after : Text → Bool
is_email_after [] = false
is_email_after (c ∷ cs) = if is_at c then is_domain cs else not (is_space c) && is_email_after cs

unfoldable pub is_email : Text → Bool
is_email [] = false
is_email (c ∷ cs) = not (is_space c) && not (is_at c) && is_email_after cs

abbrev pub is_paypal : PaymentMethodType → Bool
is_paypal PaymentMethodType.paypal = true
is_paypal PaymentMethodType.clabe = false

abbrev pub is_paypal_of : ℕ → ℕ × PaymentMethod → Bool
is_paypal_of user_id (id, m) = (m.user_id == user_id) && is_paypal m.type && m.is_active

unfoldable pub add_paypal_account : ℕ → Text → Exec Db ℕ
add_paypal_account user_id paypal_email = do
  let email = lower (trim paypal_email)
  raise_if (not (is_email email)) bad_request
  existing ← gets (λ s. find_first (is_paypal_of user_id) s.methods)
  elim existing [
    | some m ↦ raise bad_request
    | none ↦ do
      same ← gets (λ s. find_first (is_of user_id email) s.methods)
      elim same [
        | some m ↦ raise unique_violation
        | none ↦ do
          id ← fresh_id
          method_update id (record {
            user_id = user_id;
            type = PaymentMethodType.paypal;
            reference_id = email;
            holder_name = none;
            is_verified = false;
            is_active = true;
          })
          pure id
      ]
  ]
