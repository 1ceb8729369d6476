-- ===== src/Providers/Examples.antt =====
-- A catalog of one provider, and a state in which another is installed.
use speechmesh.Common.{◌≡◌, refl, String, true, false, none, some, List, [], ◌∷◌}
use speechmesh.Common.Sorting.{find_key, IsUnique, IsOrdered}
use speechmesh.Providers.{
  ok, InstalledAsrProvider, InstalledAsrProvidersConfig, AsrProviderCatalog, CatalogAsrProvider,
  AsrProviderInstallMetadata, mock,
}
use speechmesh.Providers.Files.{
  load_asr_provider_catalog, load_asr_provider_state_or_default, holding, succeeds,
  asr_provider_catalog_format,
}
use speechmesh.Providers.Store.{lookup, uninstall_asr_provider}
use speechmesh.Providers.Store.Contract.{install, uninstall, new_entry, entry_after, Follows}
use speechmesh.Providers.Store.Effect.{run, template_of, run-Follows, run-err}
use speechmesh.Providers.Store.Undo.{run_both, state_with, run-uninstall_install}
use speechmesh.Providers.Status.{row_id, list_provider_statuses}
use speechmesh.Providers.Status.Table.{row_of, in_catalog, list_provider_statuses-row_of}

abbrev no_download : AsrProviderInstallMetadata
no_download = record { download_required = false; artifact_hint = none; notes = [] }

abbrev mock_template : CatalogAsrProvider
mock_template = record {
  provider_id = "mock.asr";
  display_name = some "Mock";
  description = none;
  enabled_by_default = true;
  install = no_download;
  bridge = mock;
}

abbrev catalog : AsrProviderCatalog
catalog = record { format = some asr_provider_catalog_format; providers = mock_template ∷ [] }

abbrev zebra : InstalledAsrProvider
zebra = record {
  provider_id = "zebra.asr";
  display_name = none;
  description = none;
  enabled = false;
  installed_at_unix_secs = some 5;
  install = no_download;
  bridge = mock;
}

abbrev one_installed : InstalledAsrProvidersConfig
one_installed = state_with (zebra ∷ [])

mock_found :
    template_of "state.json" succeeds "catalog.json" 9 "mock.asr" (holding catalog)
    ≡ some mock_template
unfolding load_asr_provider_catalog
mock_found = refl

run-Follows_example :
    Follows succeeds "mock.asr"
      (zebra ∷ [])
      (holding one_installed)
      (entry_after 9
        (template_of "state.json" succeeds "catalog.json" 9 "mock.asr" (holding catalog))
        (install none)
        (lookup "mock.asr" (zebra ∷ [])))
      (run "state.json" succeeds "catalog.json" 9 "mock.asr"
        (holding catalog)
        (install none)
        (holding one_installed))
unfolding load_asr_provider_state_or_default
run-Follows_example =
    run-Follows "state.json" succeeds "catalog.json" 9 "mock.asr" (holding catalog) (install none)
      (holding one_installed) one_installed refl (refl, tt)

run-err_example : holding one_installed ≡ holding one_installed
unfolding run uninstall_asr_provider load_asr_provider_state_or_default
run-err_example =
    run-err "state.json" succeeds "catalog.json" 9 "other.asr" (holding catalog) uninstall
      (holding one_installed) (holding one_installed)
      "provider other.asr is not installed in state.json" refl refl

run-uninstall_install_example :
    (providers : List InstalledAsrProvider) × (run_both "state.json" "catalog.json" 9 "mock.asr"
        (some false)
        (holding catalog)
        (holding one_installed)
      ≡ (ok (new_entry 9 mock_template (some false) none), holding (state_with providers)))
    × ((k : String) → lookup k providers ≡ lookup k (zebra ∷ []))
unfolding load_asr_provider_state_or_default
run-uninstall_install_example =
    run-uninstall_install "state.json" "catalog.json" 9 "mock.asr" (holding catalog) mock_template
      (some false) (holding one_installed) one_installed mock_found refl (refl, tt) refl

list_provider_statuses-row_of_example :
    IsOrdered row_id (list_provider_statuses (some catalog) one_installed)
    × IsUnique row_id (list_provider_statuses (some catalog) one_installed)
    × ((k : String)
        → find_key row_id k (list_provider_statuses (some catalog) one_installed)
          ≡ row_of (in_catalog k (some catalog)) (lookup k (zebra ∷ [])))
list_provider_statuses-row_of_example =
    list_provider_statuses-row_of (some catalog) one_installed (refl, tt) (refl, tt)
