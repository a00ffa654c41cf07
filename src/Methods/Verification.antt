-- ===== src/Methods/Verification.antt =====
-- src/api/src/modules/wallet/account-verification.service.ts: an account is verified by a code that only
-- its owner can read there.
use iron_loot.Common.{
  ℕ, ◌+◌, ◌-◌, ◌*◌, Bool, true, false, ◌&&◌, not, none, some, [], ◌∷◌, ltb, leb, ◌==◌,
  if◌then◌else◌, pos, ltb_ℤ, find_first,
}
use iron_loot.Exec.{
  Result, ok, err, ⊤, Exec, pure, raise, gets, or_raise, raise_if, modify, ◌>>=◌, ◌>>◌, not_found,
  bad_request,
}
use iron_loot.Table.{lookup}
use iron_loot.Wallet.{get_balance}
use iron_loot.Methods.Rows.{
  Text, PaymentMethod, VerificationStatus, AccountVerification, Db, now, fresh_id, on_books,
  method_update, verification_update, same_text,
}
use iron_loot.Methods.Clabe.{is_space}
use iron_loot.Methods.Accounts.{is_paypal}

-- Twenty pesos, five attempts, seven days.
abbrev importe : ℕ
importe = 2000

abbrev pub max_intentos : ℕ
max_intentos = 5

abbrev vigencia_ms : ℕ
vigencia_ms = 7 * 24 * 3600000

abbrev upper : ℕ → ℕ
upper c = if leb 97 c && leb c 122 then c - 32 else c

-- Without white space, in capitals.
unfoldable pub normalizar : Text → Text
normalizar [] = []
normalizar (c ∷ cs) = let rest = normalizar cs in if is_space c then rest else upper c ∷ rest

abbrev own_method : ℕ → ℕ → Exec Db PaymentMethod
own_method user_id method_id = do
  m ← or_raise (← gets (λ s. lookup method_id s.methods)) not_found
  raise_if (not (m.user_id == user_id)) not_found
  pure m

abbrev is_running : VerificationStatus → Bool
is_running VerificationStatus.pending = true
is_running VerificationStatus.sent = true
is_running _ = false

abbrev pub is_of_method : ℕ → ℕ × AccountVerification → Bool
is_of_method method_id (id, v) = v.payment_method_id == method_id

abbrev runs_for : ℕ → ℕ × AccountVerification → Bool
runs_for method_id (id, v) = (v.payment_method_id == method_id) && is_running v.status

abbrev create_verification : ℕ → ℕ → Text → Exec Db (ℕ × AccountVerification)
create_verification user_id method_id token = do
  at ← now
  id ← fresh_id
  let v : AccountVerification = record {
    payment_method_id = method_id;
    user_id = user_id;
    token = token;
    status = VerificationStatus.pending;
    attempts = 0;
    movement_ref = none;
    expires_at = at + vigencia_ms;
    sent_at = none;
    verified_at = none;
  }
  modify (λ s. record s { verifications = (id, v) ∷ s.verifications })
  pure (id, v)

abbrev charged : Result ℕ → ℕ → AccountVerification → Exec Db ℕ
charged (ok r) id v = do
  at ← now
  verification_update id
      (record v { status = VerificationStatus.sent; movement_ref = some r; sent_at = some at })
  pure id
charged (err e) id v = do
  verification_update id (record v { status = VerificationStatus.failed })
  raise bad_request

-- `charge` is PayPal's charge of the verification.
abbrev open_verification : (ℕ → Result ℕ) → ℕ → ℕ → PaymentMethod → Text → Exec Db ℕ
open_verification charge user_id method_id m token = do
  (id, v) ← create_verification user_id method_id token
  if is_paypal m.type then charged (charge method_id) id v else pure id

unfoldable pub start : (ℕ → Result ℕ) → ℕ → ℕ → Text → Exec Db ℕ
start charge user_id method_id token = do
  m ← own_method user_id method_id
  raise_if m.is_verified bad_request
  balance ← on_books (get_balance user_id)
  raise_if (ltb_ℤ balance.available (pos importe)) bad_request
  running ← gets (λ s. find_first (runs_for method_id) s.verifications)
  elim running [
    | some (id, v) ↦ pure id
    | none ↦ open_verification charge user_id method_id m token
  ]

abbrev pub is_pending : VerificationStatus → Bool
is_pending VerificationStatus.pending = true
is_pending _ = false

abbrev pub is_blocked : VerificationStatus → Bool
is_blocked VerificationStatus.blocked = true
is_blocked _ = false

-- One more attempt; the last one blocks the verification.
abbrev pub one_more : AccountVerification → AccountVerification
one_more v =
    let n = v.attempts + 1 in
    record v {
      attempts = n;
      status = if leb max_intentos n then VerificationStatus.blocked else v.status;
    }

abbrev pub accept : ℕ → AccountVerification → ℕ → PaymentMethod → Exec Db Bool
accept id v method_id m = do
  at ← now
  verification_update id (record v { status = VerificationStatus.verified; verified_at = some at })
  method_update method_id (record m { is_verified = true })
  pure true

abbrev answer_code : ℕ → AccountVerification → ℕ → PaymentMethod → Text → Exec Db Bool
answer_code id v method_id m token =
    if same_text (normalizar token) (normalizar v.token)
    then accept id v method_id m
    else (verification_update id (one_more v) >> pure false)

abbrev answer_sent : ℕ → AccountVerification → ℕ → PaymentMethod → Text → Exec Db Bool
answer_sent id v method_id m token = do
  raise_if (is_blocked v.status) bad_request
  at ← now
  if ltb v.expires_at at
      then (verification_update id (record v { status = VerificationStatus.expired }) >> pure false)
      else answer_code id v method_id m token

-- Whether the account is verified.
unfoldable pub confirm : ℕ → ℕ → Text → Exec Db Bool
confirm user_id method_id token = do
  m ← own_method user_id method_id
  (id, v) ← or_raise (← gets (λ s. find_first (is_of_method method_id) s.verifications)) not_found
  if is_pending v.status then pure false else answer_sent id v method_id m token

unfoldable pub mark_sent : ℕ → ℕ → Exec Db ⊤
mark_sent id movement_ref = do
  v ← or_raise (← gets (λ s. lookup id s.verifications)) not_found
  raise_if (not (is_pending v.status)) bad_request
  at ← now
  verification_update id (record v {
    status = VerificationStatus.sent;
    movement_ref = some movement_ref;
    sent_at = some at;
    expires_at = at + vigencia_ms;
  })
