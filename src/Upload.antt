-- ===== src/Upload.antt =====
-- src/api/src/modules/upload/file-signature.ts: what an uploaded file is, by its bytes.
pub mod Laws
mod Tests
use iron_loot.Common.{
  ℕ, zero, suc, ◌+◌, ◌-◌, ◌*◌, ◌/◌, ◌%◌, ◌≤◌, ◌<◌, ◌≡◌, refl, sym, ap, ◌∙◌, ◌≢◌, ◌⊎◌, inl, inr,
  Bool, true, false, ◌&&◌, ◌||◌, not, Option, none, some, List, [], ◌∷◌, ◌++◌, map, arith, ltb, leb,
  ◌==◌, if◌then◌else◌, ==_iff, Bool-cases, Option-cases, ℤ, pos, negsuc, pos_part, neg_part, sub_ℕ,
  ◌+ℤ◌, ◌-ℤ◌, ◌≤ℤ◌, ◌<ℤ◌, ltb_ℤ, leb_ℤ, min_ℤ, max_ℤ, +ℤ_parts, -ℤ_parts, eq_of_parts, int_laws,
  All, length, select, find_first,
}
use iron_loot.Exec.{
  Error, Result, ok, err, ⊤, Exec, pure, raise, gets, or_raise, settle, transaction, recover, catch,
  raise_if, modify, continue, ◌>>=◌, ◌>>◌, attempt, not_found, bad_request, forbidden, validation,
  insufficient_balance, auction_not_found, auction_not_active, bid_too_low, bid_on_own_auction,
  order_not_found, user_not_found, unique_violation, record_missing, outcome_cases,
  connection_failed, invalid_credentials, email_already_exists, user_not_verified, user_suspended,
  user_banned, token_expired, token_invalid, conflict,
}
use iron_loot.Table.{
  Table, lookup, insert, lookup-insert, lookup-insert_self, lookup-insert_ne, find_first-insert,
  find_first_holds,
}
use Prim.Native.String.{String}

pub record TipoImagen : Type 0 where
  pub mime : String
  pub ext : String

-- `none` stands for any byte.
pub record Firma : Type 0 where
  pub tipo : TipoImagen
  pub bytes : List (Option ℕ)

unfoldable pub png : Firma
png = record {
  tipo = record { mime = "image/png"; ext = ".png" };
  bytes = some 137 ∷ some 80 ∷ some 78 ∷ some 71 ∷ some 13 ∷ some 10 ∷ some 26 ∷ some 10 ∷ [];
}

unfoldable pub jpeg : Firma
jpeg = record {
  tipo = record { mime = "image/jpeg"; ext = ".jpg" };
  bytes = some 255 ∷ some 216 ∷ some 255 ∷ [];
}

unfoldable pub gif : Firma
gif = record {
  tipo = record { mime = "image/gif"; ext = ".gif" };
  bytes = some 71 ∷ some 73 ∷ some 70 ∷ some 56 ∷ [];
}

-- The size of the file stands between the two texts.
unfoldable pub webp : Firma
webp = record {
  tipo = record { mime = "image/webp"; ext = ".webp" };
  bytes =
      some 82
      ∷ some 73
      ∷ some 70
      ∷ some 70
      ∷ none
      ∷ none
      ∷ none
      ∷ none
      ∷ some 87
      ∷ some 69
      ∷ some 66
      ∷ some 80
      ∷ [];
}

abbrev pub firmas : List Firma
firmas = png ∷ jpeg ∷ gif ∷ webp ∷ []

-- `bytes.every((b, i) => b === null || contenido[i] === b)`
unfoldable pub coincide : List (Option ℕ) → List ℕ → Bool
coincide [] contenido = true
coincide (none ∷ bs) [] = coincide bs []
coincide (some b ∷ bs) [] = false
coincide (none ∷ bs) (c ∷ cs) = coincide bs cs
coincide (some b ∷ bs) (c ∷ cs) = (c == b) && coincide bs cs

abbrev is_real : Firma → List ℕ → Bool
is_real f contenido = not (ltb (length contenido) (length f.bytes)) && coincide f.bytes contenido

unfoldable pub first_tipo : List Firma → List ℕ → Option TipoImagen
first_tipo [] contenido = none
first_tipo (f ∷ fs) contenido = if is_real f contenido then some f.tipo else first_tipo fs contenido

unfoldable pub detectar_tipo_real : List ℕ → Option TipoImagen
detectar_tipo_real contenido = first_tipo firmas contenido

-- The name that the client gives is not read.
unfoldable pub extension_segura : List ℕ → String → Result String
extension_segura contenido nombre_cliente = elim (detectar_tipo_real contenido) [
  | none ↦ err bad_request
  | some tipo ↦ ok tipo.ext
]
