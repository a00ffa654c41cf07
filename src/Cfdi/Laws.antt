-- ===== src/Cfdi/Laws.antt =====
-- When invoices are switched on.
use iron_loot.Common.{
  ℕ, ◌≡◌, true, [], ◌∷◌, refl, ◌⊎◌, inl, inr, Bool, false, ◌&&◌, Option, none, some, List, arith,
  ◌==◌, Bool-cases,
}
use iron_loot.Exec.{Error, Exec, ⊤, raise_if, ◌>>◌, outcome_cases}
use iron_loot.Table.{lookup, insert, lookup-insert, lookup-insert_self}
use iron_loot.Methods.Rows.{Text, same_text}
use iron_loot.Config
use iron_loot.Config.{set_value}
use iron_loot.Config.Laws.{query_keeps}
use mathlib.Core.Path.{subst}
use iron_loot.Config.{SystemConfig, get, set}
use iron_loot.Cfdi.{
  CfdiPacProvider, Db, UpdateConfig, available, cfdi_enabled, cfdi_rfc_emisor, cfdi_pac_provider,
  cfdi_pac_url, cfdi_pac_api_key, is_true, text_of, is_unknown, asks, is_none_available, set_given,
  on_config, update_config,
}

abbrev value_of : Option SystemConfig → Option Text
value_of none = none
value_of (some r) = some r.value

-- What the table of settings holds of `CFDI_ENABLED`.
abbrev pub stored : Db → Option Text
stored s = value_of (lookup cfdi_enabled s.config.system_config)

-- The provider is one of these.
unfoldable pub Listed : CfdiPacProvider → List CfdiPacProvider → Type 0
Listed p [] = ⊥
Listed p (q ∷ qs) = (p ≡ q) ⊎ Listed p qs

-- Invoices are switched on only where a provider can stamp them.
abbrev Backs : List CfdiPacProvider → Option Text → Type 0
Backs pacs switch =
    is_true switch ≡ true → (p : CfdiPacProvider) × Listed p pacs × (p.esta_configurado ≡ true)

abbrev pub IsBacked : List CfdiPacProvider → Db → Type 0
IsBacked pacs s = Backs pacs (stored s)

set_value_lem : (t : Text) (by : ℕ) (o : Option SystemConfig) → (set_value t by o).value ≡ t
set_value_lem t by none = refl
set_value_lem t by (some r) = refl

module _ (P : Option Text → Type 0) where
  abbrev Keeps : {A : Type 0} → Exec Db A → Type 0
  Keeps m = (s : Db) → P (stored s) → P (stored (m s).1)

  raise_if-Keeps : (c : Bool) (e : Error) → Keeps (raise_if c e)
  raise_if-Keeps c e s h = h

  then-Keeps : (m f : Exec Db ⊤) → Keeps m → Keeps f → Keeps (m >> f)
  then-Keeps m f k l s h = elim (outcome_cases (m s)) [
    | inl (a, t, e) ↦ rw e (l t (subst (λ x. P (stored x.1)) e (k s h)))
    | inr (x, t, e) ↦ rw e (subst (λ x. P (stored x.1)) e (k s h))
  ]

  set-Keeps :
      (key : ℕ) (t : Text) (by : ℕ)
      → ((c : Config.Db)
          → P (value_of (lookup cfdi_enabled c.system_config))
          → P (
              value_of (
                lookup cfdi_enabled
                  (insert key (set_value t by (lookup key c.system_config)) c.system_config))))
      → Keeps (on_config (set key t by))
  unfolding set
  set-Keeps key t by k s h =
      query_keeps (λ c. P (value_of (lookup cfdi_enabled c.system_config))) _ (λ c o p. p) k
        s.config h

  other-Keeps :
      (key : ℕ) (t : Option Text) (by : ℕ)
      → (cfdi_enabled == key) ≡ false
      → Keeps (set_given key t by)
  other-Keeps key none by n = λ s h. h
  other-Keeps key (some t) by n = set-Keeps key t by (λ c p.
      rw
        (
          lookup-insert cfdi_enabled key (set_value t by (lookup key c.system_config))
              c.system_config,
          n,
        )
        p)

  set_enabled-Keeps :
      (b : Bool) (by : ℕ)
      → P (some (text_of b))
      → Keeps (on_config (set cfdi_enabled (text_of b) by))
  set_enabled-Keeps b by q = set-Keeps cfdi_enabled (text_of b) by (λ c p.
      rw
        (
          lookup-insert_self cfdi_enabled
              (set_value (text_of b) by (lookup cfdi_enabled c.system_config)) c.system_config,
          set_value_lem (text_of b) by (lookup cfdi_enabled c.system_config),
        )
        q)

abbrev set_others : UpdateConfig → ℕ → Exec Db ⊤
set_others change admin =
    set_given cfdi_rfc_emisor change.rfc_emisor admin
    >> (set_given cfdi_pac_provider change.pac_provider admin
        >> (set_given cfdi_pac_url change.pac_url admin
            >> set_given cfdi_pac_api_key change.pac_api_key admin))

set_others-Keeps :
    (P : Option Text → Type 0) (change : UpdateConfig) (admin : ℕ)
    → Keeps P (set_others change admin)
set_others-Keeps P change admin =
    let key : Exec Db ⊤ = set_given cfdi_pac_api_key change.pac_api_key admin in
    let url : Exec Db ⊤ = set_given cfdi_pac_url change.pac_url admin in
    let provider : Exec Db ⊤ = set_given cfdi_pac_provider change.pac_provider admin in
    then-Keeps P (set_given cfdi_rfc_emisor change.rfc_emisor admin) (provider >> (url >> key))
      (other-Keeps P cfdi_rfc_emisor change.rfc_emisor admin refl)
      (then-Keeps P provider (url >> key)
        (other-Keeps P cfdi_pac_provider change.pac_provider admin refl)
        (then-Keeps P url key (other-Keeps P cfdi_pac_url change.pac_url admin refl)
          (other-Keeps P cfdi_pac_api_key change.pac_api_key admin refl)))

available_one :
    (pacs : List CfdiPacProvider)
    → is_none_available pacs ≡ false
    → (p : CfdiPacProvider) × Listed p pacs × (p.esta_configurado ≡ true)
unfolding available Listed
available_one [] h = absurd (ground arith)
available_one (q ∷ qs) h = elim (Bool-cases q.esta_configurado) [
  | inl c ↦ (q, inl refl, c)
  | inr c ↦ let (p, l, k) = available_one qs (ground arith) in (p, inr l, k)
]

switch-Keeps :
    (pacs : List CfdiPacProvider) (e : Option Bool) (by : ℕ)
    → (asks e && is_none_available pacs) ≡ false
    → Keeps
        (Backs pacs)
        (set_given cfdi_enabled (elim e [ none ↦ none | some b ↦ some (text_of b) ]) by)
unfolding same_text
switch-Keeps pacs none by n = λ s h. h
switch-Keeps pacs (some true) by n =
    set_enabled-Keeps (Backs pacs) true by (λ t. available_one pacs n)
switch-Keeps pacs (some false) by n =
    set_enabled-Keeps (Backs pacs) false by (λ t. absurd (ground arith))

module _ (pacs : List CfdiPacProvider) (change : UpdateConfig) (admin : ℕ) (s : Db) where
  -- A change of the configuration of invoices, however it ends and whatever query the database
  -- fails, leaves invoices stored as switched on only where a registered provider can stamp them,
  -- if that held before.
  pub update_config-IsBacked : IsBacked pacs s → IsBacked pacs (update_config pacs change admin s).1
  unfolding update_config
  update_config-IsBacked h = elim (Bool-cases (is_unknown pacs change.pac_provider)) [
    | inl q ↦ rw q h
    | inr q ↦ elim (Bool-cases (asks change.enabled && is_none_available pacs)) [
      | inl w ↦ rw (q, w) h
      | inr w ↦
          rw (q, w)
            (then-Keeps (Backs pacs)
              (set_given cfdi_enabled
                (elim change.enabled [ none ↦ none | some b ↦ some (text_of b) ]) admin)
              (set_others change admin) (switch-Keeps pacs change.enabled admin w)
              (set_others-Keeps (Backs pacs) change admin) s h)
    ]
  ]
