-- ===== src/Cfdi.antt =====
-- src/api/src/modules/cfdi: invoices, which no provider stamps yet.
pub mod Laws
mod Tests
use iron_loot.Common.{
  ℕ, zero, suc, ◌+◌, ◌-◌, ◌*◌, ◌/◌, ◌%◌, ◌≤◌, ◌<◌, ◌≡◌, refl, sym, ap, ◌∙◌, ◌≢◌, ◌⊎◌, inl, inr,
  Bool, true, false, ◌&&◌, ◌||◌, not, Option, none, some, List, [], ◌∷◌, ◌++◌, map, arith, ltb, leb,
  ◌==◌, if◌then◌else◌, ==_iff, Bool-cases, Option-cases, ℤ, pos, negsuc, pos_part, neg_part, sub_ℕ,
  ◌+ℤ◌, ◌-ℤ◌, ◌≤ℤ◌, ◌<ℤ◌, ltb_ℤ, leb_ℤ, min_ℤ, max_ℤ, +ℤ_parts, -ℤ_parts, eq_of_parts, int_laws,
  All, length, select, find_first,
}
use iron_loot.Exec.{
  Error, Result, ok, err, ⊤, Exec, pure, raise, gets, or_raise, settle, transaction, recover, catch,
  raise_if, modify, continue, ◌>>=◌, ◌>>◌, attempt, not_found, bad_request, forbidden, validation,
  insufficient_balance, auction_not_found, auction_not_active, bid_too_low, bid_on_own_auction,
  order_not_found, user_not_found, unique_violation, record_missing, outcome_cases,
  connection_failed, invalid_credentials, email_already_exists, user_not_verified, user_suspended,
  user_banned, token_expired, token_invalid, conflict, service_unavailable, not_implemented,
}
use iron_loot.Table.{
  Table, lookup, insert, lookup-insert, lookup-insert_self, lookup-insert_ne, find_first-insert,
  find_first_holds,
}
use iron_loot.Methods.Rows.{Text, same_text}
use iron_loot.Methods.Clabe.{trim}
use iron_loot.Config
use iron_loot.Config.{set}

-- The keys of the settings that are used here.
abbrev pub cfdi_enabled : ℕ
cfdi_enabled = 1

abbrev pub cfdi_rfc_emisor : ℕ
cfdi_rfc_emisor = 2

abbrev pub cfdi_pac_provider : ℕ
cfdi_pac_provider = 3

abbrev pub cfdi_pac_url : ℕ
cfdi_pac_url = 4

abbrev pub cfdi_pac_api_key : ℕ
cfdi_pac_api_key = 5

-- A certified provider that stamps invoices; whether it is configured is its own answer.
pub record CfdiPacProvider : Type 0 where
  pub clave : Text
  pub nombre : Text
  pub esta_configurado : Bool

abbrev lower : ℕ → ℕ
lower c = if leb 65 c && leb c 90 then c + 32 else c

-- Without `_` and `-`, in small letters, of ASCII.
unfoldable pub plain : Text → Text
plain [] = []
plain (c ∷ cs) = let rest = plain cs in if (c == 95) || (c == 45) then rest else lower c ∷ rest

abbrev normalizar : Text → Text
normalizar v = plain (trim v)

-- The map by key: a provider that is registered later replaces one of the same key.
unfoldable pub por_clave : List CfdiPacProvider → Text → Option CfdiPacProvider
por_clave [] k = none
por_clave (p ∷ ps) k =
    let later = por_clave ps k in
    elim later [
      | some q ↦ some q
      | none ↦ if same_text (normalizar p.clave) k then some p else none
    ]

abbrev is_empty : Text → Bool
is_empty [] = true
is_empty (c ∷ cs) = false

unfoldable pub resolve : List CfdiPacProvider → Text → Option CfdiPacProvider
resolve pacs clave = if is_empty clave then none else por_clave pacs (normalizar clave)

unfoldable pub available : List CfdiPacProvider → List CfdiPacProvider
available pacs = select (λ p. p.esta_configurado) pacs

pub data CfdiStatus : Type 0 where
  pending emitted cancelled error : CfdiStatus

pub data Motivo : Type 0 where
  falta_rfc sin_pac incompleto : Motivo

pub record CfdiRecord : Type 0 where
  pub status : CfdiStatus
  pub error_message : Option Motivo
  pub cancelled_at : Option ℕ

-- The invoices by their order, and the settings.
pub record Db : Type 0 where
  pub records : Table CfdiRecord
  pub config : Config.Db
  pub now : ℕ

abbrev pub on_config : {A : Type 0} → Exec Config.Db A → Exec Db A
on_config m s = let (r, c) = m s.config in (r, record s { config = c })

-- "true" and "false"
abbrev pub text_of : Bool → Text
text_of true = 116 ∷ 114 ∷ 117 ∷ 101 ∷ []
text_of false = 102 ∷ 97 ∷ 108 ∷ 115 ∷ 101 ∷ []

abbrev pub is_true : Option Text → Bool
is_true none = false
is_true (some t) = same_text t (text_of true)

abbrev pub or_nothing : Option Text → Text
or_nothing none = []
or_nothing (some t) = t

-- Why there is no invoice, or the provider that would stamp it.
abbrev pub motivo : Text → Option CfdiPacProvider → Option Motivo
motivo rfc pac = if is_empty rfc then some falta_rfc else elim pac [
  | none ↦ some sin_pac
  | some p ↦ if p.esta_configurado then none else some incompleto
]

abbrev pub failed_with : Motivo → Option CfdiRecord → CfdiRecord
failed_with m none = record { status = error; error_message = some m; cancelled_at = none }
failed_with m (some r) = record r { status = error; error_message = some m }

abbrev pub refuse : ℕ → Option Motivo → Exec Db ⊤
refuse order_id none = raise not_implemented
refuse order_id (some m) = do
  modify (λ s. record s {
    records = insert order_id (failed_with m (lookup order_id s.records)) s.records;
  })
  raise not_implemented

-- The stamping itself is not written: it throws in every case.
unfoldable pub generate : List CfdiPacProvider → ℕ → Exec Db ⊤
generate pacs order_id = do
  enabled ← on_config (Config.get cfdi_enabled)
  raise_if (not (is_true enabled)) service_unavailable
  rfc ← on_config (Config.get cfdi_rfc_emisor)
  clave ← on_config (Config.get cfdi_pac_provider)
  refuse order_id (motivo (or_nothing rfc) (resolve pacs (or_nothing clave)))

unfoldable pub cancel : ℕ → Exec Db ⊤
cancel order_id s = elim (lookup order_id s.records) [
  | none ↦ (err record_missing, s)
  | some r ↦ (
    ok tt,
    record s {
      records =
          insert order_id (record r { status = cancelled; cancelled_at = some s.now }) s.records;
    },
  )
]

-- What a request gives, `none` where it leaves a field out.
pub record UpdateConfig : Type 0 where
  pub enabled : Option Bool
  pub rfc_emisor : Option Text
  pub pac_provider : Option Text
  pub pac_url : Option Text
  pub pac_api_key : Option Text

abbrev pub is_unknown : List CfdiPacProvider → Option Text → Bool
is_unknown pacs none = false
is_unknown pacs (some []) = false
is_unknown pacs (some (c ∷ cs)) = elim (resolve pacs (c ∷ cs)) [ none ↦ true | some p ↦ false ]

abbrev pub asks : Option Bool → Bool
asks none = false
asks (some b) = b

abbrev pub is_none_available : List CfdiPacProvider → Bool
is_none_available pacs = elim (available pacs) [ [] ↦ true | p ∷ ps ↦ false ]

abbrev pub set_given : ℕ → Option Text → ℕ → Exec Db ⊤
set_given key none by = pure tt
set_given key (some t) by = on_config (set key t by)

unfoldable pub update_config : List CfdiPacProvider → UpdateConfig → ℕ → Exec Db ⊤
update_config pacs change admin = do
  raise_if (is_unknown pacs change.pac_provider) bad_request
  raise_if (asks change.enabled && is_none_available pacs) bad_request
  set_given cfdi_enabled (elim change.enabled [ none ↦ none | some b ↦ some (text_of b) ]) admin
  set_given cfdi_rfc_emisor change.rfc_emisor admin
  set_given cfdi_pac_provider change.pac_provider admin
  set_given cfdi_pac_url change.pac_url admin
  set_given cfdi_pac_api_key change.pac_api_key admin
