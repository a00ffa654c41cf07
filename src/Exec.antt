-- ===== src/Exec.antt =====
-- Service methods: they read and write the database and may throw. What was written before an
-- exception stays written, unless a transaction takes it back.
use iron_loot.Common.{◌≡◌, refl, ◌⊎◌, inl, inr, Bool, Option, none, some, if◌then◌else◌}

-- The exceptions that the services throw, by their class.
pub data Error : Type 0 where
  not_found bad_request forbidden validation : Error
  insufficient_balance : Error
  auction_not_found auction_not_active bid_too_low bid_on_own_auction : Error
  order_not_found user_not_found : Error
  unique_violation record_missing connection_failed : Error
  invalid_credentials email_already_exists user_not_verified user_suspended user_banned : Error
  token_expired token_invalid conflict : Error
  service_unavailable not_implemented : Error

pub data Result {ℓ} (A : Type ℓ) : Type ℓ where
  ok : A → Result A
  err : Error → Result A

abbrev pub ⊤ : Type 0
⊤ = Unit

abbrev pub Exec : Type 0 → Type 0 → Type 0
Exec S A = S → Result A × S

module _ {S A : Type 0} where
  abbrev pub pure : A → Exec S A
  pure a s = (ok a, s)

  abbrev pub raise : Error → Exec S A
  raise e s = (err e, s)

  abbrev pub gets : (S → A) → Exec S A
  gets f s = (ok (f s), s)

  -- `if (!x) throw e`
  abbrev pub or_raise : Option A → Error → Exec S A
  or_raise none e s = (err e, s)
  or_raise (some a) e s = (ok a, s)

  -- `prisma.$transaction`: an exception takes back every write.
  abbrev pub settle : S → Result A × S → Result A × S
  settle before (ok a, s) = (ok a, s)
  settle before (err e, s) = (err e, before)

  abbrev pub transaction : Exec S A → Exec S A
  transaction m s = settle s (m s)

  -- `try { m } catch { handler }`
  abbrev pub recover : (Error → Exec S A) → Result A × S → Result A × S
  recover handler (ok a, s) = (ok a, s)
  recover handler (err e, s) = handler e s

  abbrev pub catch : Exec S A → (Error → Exec S A) → Exec S A
  catch m handler s = recover handler (m s)

module _ {S : Type 0} where
  abbrev pub raise_if : Bool → Error → Exec S ⊤
  raise_if c e s = (if c then err e else ok tt, s)

  abbrev pub modify : (S → S) → Exec S ⊤
  modify f s = (ok tt, f s)

module _ {S A B : Type 0} where
  abbrev pub continue : (A → Exec S B) → Result A × S → Result B × S
  continue f (ok a, s) = f a s
  continue f (err e, s) = (err e, s)

  infixl 5 ◌>>=◌ ◌>>◌
  abbrev pub ◌>>=◌ : Exec S A → (A → Exec S B) → Exec S B
  ◌>>=◌ m f s = continue f (m s)

  abbrev pub ◌>>◌ : Exec S A → Exec S B → Exec S B
  m >> n = m >>= λ _. n

module _ {S A : Type 0} where
  -- `try { m } catch { log }`: an exception is logged and the code goes on.
  abbrev pub attempt : Exec S A → Exec S ⊤
  attempt m s = (ok tt, (m s).1)

-- How a call has ended, with the equation.
module _ {S A : Type 0} where
  pub outcome_cases :
      (m : Result A × S)
      → ((a : A) × (s : S) × (m ≡ (ok a, s))) ⊎ ((e : Error) × (s : S) × (m ≡ (err e, s)))
  outcome_cases (ok a, s) = inl (a, s, refl)
  outcome_cases (err e, s) = inr (e, s, refl)
