-- ===== src/Upload/Laws.antt =====
-- The signatures of images exclude each other.
use iron_loot.Common.{
  ℕ, ◌≡◌, refl, ap, ◌∙◌, inl, inr, Bool, true, false, ◌&&◌, not, Option, none, some, List, [], ◌∷◌,
  ◌++◌, arith, ltb, ◌==◌, Bool-cases, All, length,
}
use iron_loot.Upload.{
  TipoImagen, Firma, png, jpeg, gif, webp, firmas, coincide, is_real, first_tipo,
  detectar_tipo_real,
}
use mathlib.Core.List.{Mem, mem-cons_self, mem-cons_of_mem}

-- Bytes that a signature asks for, one by one.
unfoldable pub Fills : List (Option ℕ) → List ℕ → Type 0
Fills [] [] = Unit
Fills [] (c ∷ cs) = ⊥
Fills (b ∷ bs) [] = ⊥
Fills (none ∷ bs) (c ∷ cs) = Fills bs cs
Fills (some b ∷ bs) (c ∷ cs) = (c ≡ b) × Fills bs cs

-- The content starts with bytes that the signature asks for.
pub record Shows (bytes : List (Option ℕ)) (contenido : List ℕ) : Type 0 where
  pub start : List ℕ
  pub rest : List ℕ
  pub whole : contenido ≡ start ++ rest
  pub fills : Fills bytes start

fits : List (Option ℕ) → List ℕ → Bool
fits bs cs = not (ltb (length cs) (length bs)) && coincide bs cs

fits-Shows : (bs : List (Option ℕ)) (cs : List ℕ) → fits bs cs ≡ true → Shows bs cs
unfolding fits coincide Fills
fits-Shows [] cs h = record { start = []; rest = cs; whole = refl; fills = tt }
fits-Shows (b ∷ bs) [] h = absurd (ground arith)
fits-Shows (none ∷ bs) (c ∷ cs) h =
    let m = fits-Shows bs cs (ground arith) in
    record { start = c ∷ m.start; rest = m.rest; whole = ap (λ x. c ∷ x) m.whole; fills = m.fills }
fits-Shows (some b ∷ bs) (c ∷ cs) h =
    let m = fits-Shows bs cs (ground arith) in
    record {
      start = c ∷ m.start;
      rest = m.rest;
      whole = ap (λ x. c ∷ x) m.whole;
      fills = (ground arith, m.fills);
    }

fits_start : (bs : List (Option ℕ)) (cs rest : List ℕ) → Fills bs cs → fits bs (cs ++ rest) ≡ true
unfolding fits coincide Fills
fits_start [] [] rest h = ground arith
fits_start [] (c ∷ cs) rest h = absurd h
fits_start (b ∷ bs) [] rest h = absurd h
fits_start (none ∷ bs) (c ∷ cs) rest h = ground (arith, fits_start bs cs rest h)
fits_start (some b ∷ bs) (c ∷ cs) rest (e, h) = ground (arith, fits_start bs cs rest h)

Shows-fits : (bs : List (Option ℕ)) (cs : List ℕ) → Shows bs cs → fits bs cs ≡ true
Shows-fits bs cs m = rw m.whole (fits_start bs m.start m.rest m.fills)

first_byte :
    (a : ℕ) (bs : List (Option ℕ)) (c : ℕ) (cs : List ℕ)
    → fits (some a ∷ bs) (c ∷ cs) ≡ true
    → c ≡ a
unfolding fits coincide
first_byte a bs c cs h = ground arith

other_byte :
    (a : ℕ) (bs : List (Option ℕ)) (c : ℕ) (cs : List ℕ)
    → (c == a) ≡ false
    → fits (some a ∷ bs) (c ∷ cs) ≡ false
unfolding fits coincide
other_byte a bs c cs h = ground arith

first_tipo_skips :
    (f : Firma) (fs : List Firma) (c : List ℕ)
    → fits f.bytes c ≡ false
    → first_tipo (f ∷ fs) c ≡ first_tipo fs c
unfolding first_tipo fits
first_tipo_skips f fs c h = ground arith

first_tipo_takes :
    (f : Firma) (fs : List Firma) (c : List ℕ)
    → fits f.bytes c ≡ true
    → first_tipo (f ∷ fs) c ≡ some f.tipo
unfolding first_tipo fits
first_tipo_takes f fs c h = ground arith

first_tipo_shown :
    (fs : List Firma) (c : List ℕ) (t : TipoImagen)
    → first_tipo fs c ≡ some t
    → (f : Firma) × Mem f fs × (f.tipo ≡ t) × Shows f.bytes c
unfolding first_tipo fits
first_tipo_shown [] c t h = absurd (ground arith)
first_tipo_shown (f ∷ fs) c t h = elim (Bool-cases (is_real f c)) [
  | inl q ↦ (f, mem-cons_self, ground arith, fits-Shows f.bytes c q)
  | inr q ↦
      let (g, m, e, w) = first_tipo_shown fs c t (ground arith) in (g, mem-cons_of_mem f m, e, w)
]

starting :
    (a : ℕ) (bs : List (Option ℕ)) (c : List ℕ)
    → fits (some a ∷ bs) c ≡ true
    → (cs : List ℕ) × (c ≡ a ∷ cs)
unfolding fits coincide
starting a bs [] h = absurd (ground arith)
starting a bs (c ∷ cs) h = (cs, ap (λ x. x ∷ cs) (first_byte a bs c cs h))

-- A content that starts with another byte.
lacks :
    (a b : ℕ) (bs : List (Option ℕ)) (c cs : List ℕ)
    → c ≡ b ∷ cs
    → (b == a) ≡ false
    → fits (some a ∷ bs) c ≡ false
lacks a b bs c cs e n = rw e (other_byte a bs b cs n)

is_png : (c : List ℕ) → Shows png.bytes c → first_tipo firmas c ≡ some png.tipo
is_png c m = first_tipo_takes png _ c (Shows-fits png.bytes c m)

is_jpeg : (c : List ℕ) → Shows jpeg.bytes c → first_tipo firmas c ≡ some jpeg.tipo
unfolding png jpeg
is_jpeg c m =
    let h = Shows-fits jpeg.bytes c m in
    let (cs, e) = starting 255 _ c h in
    first_tipo_skips png _ c (lacks 137 255 _ c cs e refl) ∙ first_tipo_takes jpeg _ c h

is_gif : (c : List ℕ) → Shows gif.bytes c → first_tipo firmas c ≡ some gif.tipo
unfolding png jpeg gif
is_gif c m =
    let h = Shows-fits gif.bytes c m in
    let (cs, e) = starting 71 _ c h in
    first_tipo_skips png _ c (lacks 137 71 _ c cs e refl)
    ∙ first_tipo_skips jpeg _ c (lacks 255 71 _ c cs e refl)
    ∙ first_tipo_takes gif _ c h

is_webp : (c : List ℕ) → Shows webp.bytes c → first_tipo firmas c ≡ some webp.tipo
unfolding png jpeg gif webp
is_webp c m =
    let h = Shows-fits webp.bytes c m in
    let (cs, e) = starting 82 _ c h in
    first_tipo_skips png _ c (lacks 137 82 _ c cs e refl)
    ∙ first_tipo_skips jpeg _ c (lacks 255 82 _ c cs e refl)
    ∙ first_tipo_skips gif _ c (lacks 71 82 _ c cs e refl)
    ∙ first_tipo_takes webp _ c h

module _ (contenido : List ℕ) where
  -- The type that is found for a content is the one of a signature exactly if the content starts
  -- with the bytes that the signature asks for.
  pub detectar_tipo_real-Shows :
      All
        (λ (f : Firma). Shows f.bytes contenido → detectar_tipo_real contenido ≡ some f.tipo)
        firmas
      × ((t : TipoImagen)
          → detectar_tipo_real contenido ≡ some t
          → (f : Firma) × Mem f firmas × (f.tipo ≡ t) × Shows f.bytes contenido)
  unfolding detectar_tipo_real
  detectar_tipo_real-Shows = (
    (is_png contenido, (is_jpeg contenido, (is_gif contenido, (is_webp contenido, tt)))),
    first_tipo_shown firmas contenido,
  )
