-- ===== src/Payments/Registry.antt =====
-- src/api/src/modules/payments/payment-provider.registry.ts: the provider of a name. Names are their
-- characters' codes.
use iron_loot.Common.{
  ℕ, ◌-◌, Bool, true, false, ◌&&◌, Option, none, some, List, [], ◌∷◌, map, leb, ◌==◌, if◌then◌else◌,
  ℤ, select,
}
use iron_loot.Exec.{Result}
use iron_loot.Payments.Rows.{PaymentProvider, WebhookResult}

abbrev pub Name : Type 0
Name = List ℕ

-- What the code relies on of a provider. Its calls over the network return or throw.
pub record Adapter : Type 0 where
  pub provider : PaymentProvider
  pub key : Name
  pub aliases : List Name
  pub check_status : Bool
  pub create_payment : ℕ → ℤ → Result (Option ℕ)
  pub handle_webhook : ℕ → Result (Option WebhookResult)
  pub find_payment : Option (ℕ → Option ℕ → Result (Option WebhookResult))

abbrev underscore : ℕ
underscore = 95

abbrev to_upper : ℕ → ℕ
to_upper c = if leb 97 c && leb c 122 then c - 32 else c

-- `toUpperCase().replace(/_/g, '')`, of ASCII.
unfoldable pub normalize : Name → Name
normalize [] = []
normalize (c ∷ cs) =
    let rest = normalize cs in if to_upper c == underscore then rest else to_upper c ∷ rest

unfoldable pub same_name : Name → Name → Bool
same_name [] [] = true
same_name [] (b ∷ bs) = false
same_name (a ∷ rest) [] = false
same_name (a ∷ rest) (b ∷ bs) = (a == b) && same_name rest bs

abbrev pub Names : Type 0
Names = List (Name × Adapter)

-- The names of the enumeration's providers.
unfoldable pub provider_name : PaymentProvider → Name
provider_name PaymentProvider.mercado_pago =
    77 ∷ 69 ∷ 82 ∷ 67 ∷ 65 ∷ 68 ∷ 79 ∷ 95 ∷ 80 ∷ 65 ∷ 71 ∷ 79 ∷ []
provider_name PaymentProvider.paypal = 80 ∷ 65 ∷ 89 ∷ 80 ∷ 65 ∷ 76 ∷ []
provider_name PaymentProvider.stripe = 83 ∷ 84 ∷ 82 ∷ 73 ∷ 80 ∷ 69 ∷ []
provider_name PaymentProvider.hey_banco = 72 ∷ 69 ∷ 89 ∷ 95 ∷ 66 ∷ 65 ∷ 78 ∷ 67 ∷ 79 ∷ []

-- `Map.set`
abbrev put : Name → Adapter → Names → Names
put k p [] = (k, p) ∷ []
put k p ((j, q) ∷ m) = if same_name k j then (k, p) ∷ m else (j, q) ∷ put k p m

abbrev put_aliases : Adapter → List Name → Names → Names
put_aliases p [] m = m
put_aliases p (a ∷ rest) m = put_aliases p rest (put (normalize a) p m)

abbrev register_all : List Adapter → Names → Names
register_all [] m = m
register_all (p ∷ ps) m = register_all ps (put_aliases p p.aliases (put (normalize p.key) p m))

-- The constructor's map, of the providers in their order.
unfoldable pub by_key : List Adapter → Names
by_key providers = register_all providers []

abbrev pub at_name : Name → Names → Option Adapter
at_name k [] = none
at_name k ((j, p) ∷ m) = if same_name k j then some p else at_name k m

abbrev is_empty : Name → Bool
is_empty [] = true
is_empty (c ∷ cs) = false

unfoldable pub resolve : Names → Name → Option Adapter
resolve m name = if is_empty name then none else at_name (normalize name) m

unfoldable pub available_keys : List Adapter → List Name
available_keys providers = map (λ p. p.key) (select (λ p. p.check_status) providers)
