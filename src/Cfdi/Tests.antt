-- ===== src/Cfdi/Tests.antt =====
-- A change of the configuration of invoices.
use iron_loot.Common.{arith, true, false, none, some, [], ◌∷◌}
use iron_loot.Cfdi.{CfdiPacProvider, Db, UpdateConfig, update_config}
use iron_loot.Cfdi.Laws.{IsBacked, update_config-IsBacked}

-- The provider "a-b", which is configured.
abbrev pac : CfdiPacProvider
pac = record { clave = 97 ∷ 45 ∷ 98 ∷ []; nombre = 65 ∷ []; esta_configurado = true }

-- Invoices are switched on with the provider "AB".
abbrev change : UpdateConfig
change = record {
  enabled = some true;
  rfc_emisor = none;
  pac_provider = some (65 ∷ 66 ∷ []);
  pac_url = none;
  pac_api_key = none;
}

-- The database fails the third query.
abbrev db : Db
db = record {
  records = [];
  config = record { system_config = []; env = λ k. none; outages = false ∷ false ∷ true ∷ [] };
  now = 100;
}

update_config-IsBacked_example : IsBacked (pac ∷ []) (update_config (pac ∷ []) change 9 db).1
update_config-IsBacked_example =
    update_config-IsBacked (pac ∷ []) change 9 db (λ h. absurd (ground arith))
