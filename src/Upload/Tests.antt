-- ===== src/Upload/Tests.antt =====
-- Files that are uploaded.
use iron_loot.Common.{ℕ, ◌≡◌, refl, none, some, List, [], ◌∷◌, All}
use mathlib.Core.List.{Mem}
use iron_loot.Upload.{
  TipoImagen, Firma, png, jpeg, gif, webp, firmas, coincide, first_tipo, detectar_tipo_real,
}
use iron_loot.Upload.Laws.{Shows, detectar_tipo_real-Shows}

-- A sound has the container of an image.
abbrev wave : List ℕ
wave = 82 ∷ 73 ∷ 70 ∷ 70 ∷ 9 ∷ 0 ∷ 0 ∷ 0 ∷ 87 ∷ 65 ∷ 86 ∷ 69 ∷ []

sound_refused : detectar_tipo_real wave ≡ none
unfolding detectar_tipo_real first_tipo coincide png jpeg gif webp
sound_refused = refl

abbrev photo : List ℕ
photo = 255 ∷ 216 ∷ 255 ∷ 224 ∷ 0 ∷ []

photo_jpeg : detectar_tipo_real photo ≡ some jpeg.tipo
unfolding detectar_tipo_real first_tipo coincide png jpeg gif webp
photo_jpeg = refl

detectar_tipo_real-Shows_example :
    All (λ (f : Firma). Shows f.bytes photo → detectar_tipo_real photo ≡ some f.tipo) firmas
    × ((t : TipoImagen)
        → detectar_tipo_real photo ≡ some t
        → (f : Firma) × Mem f firmas × (f.tipo ≡ t) × Shows f.bytes photo)
detectar_tipo_real-Shows_example = detectar_tipo_real-Shows photo
