-- ===== src/Providers/Status.antt =====
-- The table of providers: list_provider_statuses of speechmeshd/src/providers.rs.
pub mod Table
use speechmesh.Common.{
  ◌≡◌, ◌==◌, ◌||◌, String, Bool, true, false, Option, none, some, List, [], ◌∷◌, ◌++◌,
  if◌then◌else◌, any, map, map_option, and_then, or_else, unwrap_or, is_some,
}
use speechmesh.Common.HashMap.{HashMap, get, insert}
use speechmesh.Common.Order.{text_leb}
use speechmesh.Common.Sorting.{sort_by}
use speechmesh.Providers.{
  InstalledAsrProvider, InstalledAsrProvidersConfig, AsrProviderCatalog, CatalogAsrProvider,
  ProviderInstallStatus, bridge_mode_name,
}

-- The `collect` into a `HashMap`: of equal ids the last.
unfoldable pub by_id :
    List InstalledAsrProvider → HashMap InstalledAsrProvider → HashMap InstalledAsrProvider
by_id [] m = m
by_id (p ∷ ps) m = by_id ps (insert p.provider_id p m)

abbrev pub catalog_row : Option InstalledAsrProvider → CatalogAsrProvider → ProviderInstallStatus
catalog_row installed_provider provider = record {
  provider_id = provider.provider_id;
  display_name =
      or_else (and_then installed_provider λ (p : InstalledAsrProvider). p.display_name)
        provider.display_name;
  description =
      or_else (and_then installed_provider λ (p : InstalledAsrProvider). p.description)
        provider.description;
  installed = is_some installed_provider;
  enabled =
      unwrap_or (map_option (λ (p : InstalledAsrProvider). p.enabled) installed_provider) false;
  bridge_mode = bridge_mode_name provider.bridge;
  download_required =
      unwrap_or
        (map_option (λ (p : InstalledAsrProvider). p.install.download_required) installed_provider)
        provider.install.download_required;
  artifact_hint =
      or_else (and_then installed_provider λ (p : InstalledAsrProvider). p.install.artifact_hint)
        provider.install.artifact_hint;
}

abbrev pub installed_row : InstalledAsrProvider → ProviderInstallStatus
installed_row provider = record {
  provider_id = provider.provider_id;
  display_name = provider.display_name;
  description = provider.description;
  installed = true;
  enabled = provider.enabled;
  bridge_mode = bridge_mode_name provider.bridge;
  download_required = provider.install.download_required;
  artifact_hint = provider.install.artifact_hint;
}

abbrev pub row_id : ProviderInstallStatus → String
row_id row = row.provider_id

-- The loop over the installed providers that have no row yet.
unfoldable pub add_rows :
    List InstalledAsrProvider → List ProviderInstallStatus → List ProviderInstallStatus
add_rows [] rows = rows
add_rows (p ∷ ps) rows = add_rows ps (
    if any (λ (row : ProviderInstallStatus). row.provider_id == p.provider_id) rows
    then rows
    else rows ++ installed_row p ∷ [])

abbrev pub first_rows :
    Option AsrProviderCatalog → List InstalledAsrProvider → List ProviderInstallStatus
first_rows (some catalog) providers =
    map (λ (p : CatalogAsrProvider). catalog_row (get p.provider_id (by_id providers [])) p)
      catalog.providers
first_rows none providers = map installed_row providers

abbrev pub row_leb : ProviderInstallStatus → ProviderInstallStatus → Bool
row_leb left right = text_leb left.provider_id right.provider_id

unfoldable pub list_provider_statuses :
    Option AsrProviderCatalog → InstalledAsrProvidersConfig → List ProviderInstallStatus
unfolding by_id add_rows bridge_mode_name
list_provider_statuses catalog state =
    sort_by row_leb (add_rows state.providers (first_rows catalog state.providers))
