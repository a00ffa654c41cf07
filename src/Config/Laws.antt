-- ===== src/Config/Laws.antt =====
-- What the table of settings shows, and what seeding leaves alone.
use iron_loot.Common.{
  Bool, true, ℕ, ◌≡◌, refl, ap, inl, inr, false, Option, some, List, [], ◌∷◌, arith, if◌then◌else◌,
  Option-cases,
}
use iron_loot.Exec.{Exec, gets, ok}
use iron_loot.Table.{Table, lookup, lookup-insert}
use iron_loot.Methods.Rows.{Text}
use iron_loot.Config.{
  SystemConfig, Db, SeededKey, insert_new, seeded_row, seed_rows, shown_of, get_by_category, Shown,
  with_outages, query,
}

-- The table with other values for its secrets.
unfoldable pub with_secrets : (ℕ → Text) → Table SystemConfig → Table SystemConfig
with_secrets secret [] = []
with_secrets secret ((k, r) ∷ t) =
    let rest = with_secrets secret t in
    (k, record r { value = if r.is_secret then secret k else r.value }) ∷ rest

shown_of-with_secrets :
    (category : Text) (secret : ℕ → Text) (t : Table SystemConfig)
    → shown_of category (with_secrets secret t) ≡ shown_of category t
unfolding shown_of with_secrets
shown_of-with_secrets category secret [] = refl
shown_of-with_secrets category secret ((k, r) ∷ t) =
    ground (arith, shown_of-with_secrets category secret t)

-- What holds whatever the database fails holds after a query that keeps it.
module _ {A : Type 0} (P : Db → Type 0) (m : Exec Db A)
    (blind : (s : Db) (o : List Bool) → P s → P (record s { outages = o }))
    (keeps : (s : Db) → P s → P (m s).1) where
  with_outages_keeps : (o : List Bool) (s : Db) → P s → P (with_outages o m s).1
  with_outages_keeps [] s h = keeps s h
  with_outages_keeps (true ∷ o) s h = blind s o h
  with_outages_keeps (false ∷ o) s h = keeps (record s { outages = o }) (blind s o h)

  pub query_keeps : (s : Db) → P s → P (query m s).1
  unfolding query
  query_keeps s h = with_outages_keeps s.outages s h

shown_alike :
    (category : Text) (secret : ℕ → Text) (s : Db) (o : List Bool)
    → let ask : Exec Db (List Shown) = gets (λ x. shown_of category x.system_config) in
      (with_outages o ask (record s { system_config = with_secrets secret s.system_config })).0
      ≡ (with_outages o ask s).0
shown_alike category secret s [] = ap ok (shown_of-with_secrets category secret s.system_config)
shown_alike category secret s (true ∷ o) = refl
shown_alike category secret s (false ∷ o) =
    ap ok (shown_of-with_secrets category secret s.system_config)

-- The settings of a category are shown without their secrets: whatever the secrets are, the answer is
-- the same.
pub get_by_category-with_secrets :
    (category : Text) (secret : ℕ → Text) (s : Db)
    → (get_by_category category
        (record s { system_config = with_secrets secret s.system_config })).0
      ≡ (get_by_category category s).0
unfolding get_by_category query
get_by_category-with_secrets category secret s = shown_alike category secret s s.outages

-- Seeding writes over no setting that is there.
pub lookup-seed_rows :
    (env : ℕ → Option Text) (ks : List SeededKey) (t : Table SystemConfig) (k : ℕ)
    (r : SystemConfig)
    → lookup k t ≡ some r
    → lookup k (seed_rows env ks t) ≡ some r
unfolding seed_rows
lookup-seed_rows env [] t k r h = h
lookup-seed_rows env (x ∷ xs) t k r h =
    lookup-seed_rows env xs (insert_new x.key (seeded_row env x) t) k r
      (elim (Option-cases (lookup x.key t)) [
        | inl e ↦ ground (arith, lookup-insert k x.key (seeded_row env x) t)
        | inr (y, e) ↦ ground arith
      ])
