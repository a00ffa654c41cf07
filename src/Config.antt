-- ===== src/Config.antt =====
-- src/api/src/modules/system-config/system-config.service.ts: the table of settings, over the environment.
pub mod Laws
use iron_loot.Common.{
  ℕ, zero, suc, ◌+◌, ◌-◌, ◌*◌, ◌/◌, ◌%◌, ◌≤◌, ◌<◌, ◌≡◌, refl, sym, ap, ◌∙◌, ◌≢◌, ◌⊎◌, inl, inr,
  Bool, true, false, ◌&&◌, ◌||◌, not, Option, none, some, List, [], ◌∷◌, ◌++◌, map, arith, ltb, leb,
  ◌==◌, if◌then◌else◌, ==_iff, Bool-cases, Option-cases, ℤ, pos, negsuc, pos_part, neg_part, sub_ℕ,
  ◌+ℤ◌, ◌-ℤ◌, ◌≤ℤ◌, ◌<ℤ◌, ltb_ℤ, leb_ℤ, min_ℤ, max_ℤ, +ℤ_parts, -ℤ_parts, eq_of_parts, int_laws,
  All, length, select, find_first,
}
use iron_loot.Exec.{ok, err, ⊤, Exec, pure, gets, modify, catch, ◌>>=◌, ◌>>◌, connection_failed}
use iron_loot.Table.{
  Table, lookup, insert, lookup-insert, lookup-insert_self, lookup-insert_ne, find_first-insert,
  find_first_holds,
}
use iron_loot.Methods.Rows.{Text, same_text}

-- The empty category is that of no category; the texts of descriptions are left out.
pub record SystemConfig : Type 0 where
  pub value : Text
  pub is_secret : Bool
  pub category : Text
  pub updated_by : Option ℕ

-- The settings by their key, what `process.env` holds, and, for each query to come, whether the
-- database fails it.
pub record Db : Type 0 where
  pub system_config : Table SystemConfig
  pub env : ℕ → Option Text
  pub outages : List Bool

abbrev pub with_outages : {A : Type 0} → List Bool → Exec Db A → Exec Db A
with_outages [] m s = m s
with_outages (true ∷ rest) m s = (err connection_failed, record s { outages = rest })
with_outages (false ∷ rest) m s = m (record s { outages = rest })

-- A query that the database may fail, and then nothing of it is written.
unfoldable pub query : {A : Type 0} → Exec Db A → Exec Db A
query m s = with_outages s.outages m s

pub record SeededKey : Type 0 where
  pub key : ℕ
  pub category : Text
  pub is_secret : Bool
  pub default_value : Text

abbrev pub or_text : Option Text → Text → Text
or_text none fallback = fallback
or_text (some t) fallback = t

abbrev pub seeded_row : (ℕ → Option Text) → SeededKey → SystemConfig
seeded_row env k = record {
  value = or_text (env k.key) k.default_value;
  is_secret = k.is_secret;
  category = k.category;
  updated_by = none;
}

abbrev pub insert_new : ℕ → SystemConfig → Table SystemConfig → Table SystemConfig
insert_new key row t = elim (lookup key t) [ none ↦ insert key row t | some old ↦ t ]

-- `createMany` with `skipDuplicates`.
unfoldable pub seed_rows :
    (ℕ → Option Text) → List SeededKey → Table SystemConfig → Table SystemConfig
seed_rows env [] t = t
seed_rows env (k ∷ ks) t = seed_rows env ks (insert_new k.key (seeded_row env k) t)

unfoldable pub seed : List SeededKey → Exec Db ⊤
seed keys = query (modify (λ s. record s { system_config = seed_rows s.env keys s.system_config }))

abbrev stored_value : ℕ → Exec Db (Option Text)
stored_value key =
    gets (λ s. elim (lookup key s.system_config) [ none ↦ s.env key | some r ↦ some r.value ])

-- A failure of the database falls through to the environment.
unfoldable pub get : ℕ → Exec Db (Option Text)
get key = catch (query (stored_value key)) (λ e. gets (λ s. s.env key))

-- "general"
abbrev general : Text
general = 103 ∷ 101 ∷ 110 ∷ 101 ∷ 114 ∷ 97 ∷ 108 ∷ []

abbrev pub set_value : Text → ℕ → Option SystemConfig → SystemConfig
set_value value by none = record {
  value = value;
  is_secret = false;
  category = general;
  updated_by = some by;
}
set_value value by (some r) = record r { value = value; updated_by = some by }

unfoldable pub set : ℕ → Text → ℕ → Exec Db ⊤
set key value updated_by = query (
    modify (λ s. record s {
      system_config =
          insert key (set_value value updated_by (lookup key s.system_config)) s.system_config;
    }))

-- "****"
abbrev hidden : Text
hidden = 42 ∷ 42 ∷ 42 ∷ 42 ∷ []

pub record Shown : Type 0 where
  pub key : ℕ
  pub value : Text
  pub is_secret : Bool
  pub category : Text

abbrev pub shown : ℕ × SystemConfig → Shown
shown (k, r) = record {
  key = k;
  value = if r.is_secret then hidden else r.value;
  is_secret = r.is_secret;
  category = r.category;
}

-- In the order of the table; the sorting by key is left out.
unfoldable pub shown_of : Text → Table SystemConfig → List Shown
shown_of category [] = []
shown_of category ((k, r) ∷ t) =
    let rest = shown_of category t in
    if same_text r.category category then shown (k, r) ∷ rest else rest

unfoldable pub get_by_category : Text → Exec Db (List Shown)
get_by_category category = query (gets (λ s. shown_of category s.system_config))

abbrev is_empty : Text → Bool
is_empty [] = true
is_empty (c ∷ cs) = false

abbrev pub is_within : Text → SystemConfig → Bool
is_within category r = same_text r.category category || is_empty r.category

abbrev pub write_key : Text → ℕ → Text → ℕ → Option SystemConfig → Exec Db ⊤
write_key category key value by none = pure tt
write_key category key value by (some r) =
    if is_within category r
    then query (
        modify (λ s. record s {
          system_config =
              insert key (record r { value = value; updated_by = some by }) s.system_config;
        }))
    else pure tt

-- One key after another: what was written before a failure stays.
unfoldable pub update_category : Text → List (ℕ × Text) → ℕ → Exec Db ⊤
update_category category [] by = pure tt
update_category category ((key, value) ∷ updates) by =
    (query (gets (λ s. lookup key s.system_config)) >>= write_key category key value by)
    >> update_category category updates by
