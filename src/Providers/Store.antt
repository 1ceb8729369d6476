-- ===== src/Providers/Store.antt =====
-- Installing, removing and enabling providers: speechmeshd/src/providers.rs.
pub mod Entries
pub mod Contract
pub mod Effect
pub mod Undo
use speechmesh.Common.{
  ℕ, ◌≡◌, ◌==◌, ◌⧺◌, String, Bool, not, true, false, ◌&&◌, ◌||◌, Option, none, some, List, [], ◌∷◌,
  ◌++◌, if◌then◌else◌, or_else,
}
use speechmesh.Common.Sorting.{find_key}
use speechmesh.Providers.{
  Result, ok, err, InstalledAsrProvider, InstalledAsrProvidersConfig, AsrProviderCatalog,
  CatalogAsrProvider, to_installed, InstallStateChange, installed, updated,
}
use speechmesh.Providers.Files.{
  File, load_asr_provider_catalog, load_asr_provider_state_or_default, Writing, Outcome,
  save_asr_provider_state,
}

-- The search of every operation: `find` by the id.
abbrev pub lookup : String → List InstalledAsrProvider → Option InstalledAsrProvider
lookup id providers = find_key (λ (p : InstalledAsrProvider). p.provider_id) id providers

-- A change of the item that `find` on `iter_mut` gives.
unfoldable pub update_first :
    String → InstalledAsrProvider → List InstalledAsrProvider → List InstalledAsrProvider
update_first id q [] = []
update_first id q (p ∷ ps) =
    let rest = update_first id q ps in if p.provider_id == id then q ∷ ps else p ∷ rest

-- `remove` at the `position`.
unfoldable pub remove_first : String → List InstalledAsrProvider → List InstalledAsrProvider
remove_first id [] = []
remove_first id (p ∷ ps) =
    let rest = remove_first id ps in if p.provider_id == id then ps else p ∷ rest

-- What replaces an existing provider: its time of installation stays.
unfoldable pub reinstalled :
    ℕ → CatalogAsrProvider → Option Bool → InstalledAsrProvider → InstalledAsrProvider
unfolding to_installed
reinstalled now template enabled_override existing =
    record (to_installed now template (or_else enabled_override (some existing.enabled))) {
      installed_at_unix_secs = or_else existing.installed_at_unix_secs (some now);
    }

module _ (state_path : String) (write : Writing) where
  -- `?` before the state is saved.
  abbrev pub with_state :
      {A : Type 0}
      → File InstalledAsrProvidersConfig
      → (InstalledAsrProvidersConfig → Outcome A)
      → Outcome A
  with_state file next = elim (load_asr_provider_state_or_default state_path file) [
    | ok state ↦ next state
    | err message ↦ (err message, file)
  ]

  abbrev pub install_template :
      ℕ
      → CatalogAsrProvider
      → String
      → Option Bool
      → InstalledAsrProvidersConfig
      → Outcome (InstallStateChange × InstalledAsrProvider)
  install_template now template id enabled_override state = elim (lookup id state.providers) [
    | some existing ↦
        let provider = reinstalled now template enabled_override existing in
        save_asr_provider_state write
          (record state { providers = update_first id provider state.providers })
          (updated, provider)
    | none ↦
        let provider = to_installed now template enabled_override in
        save_asr_provider_state write
          (record state { providers = state.providers ++ provider ∷ [] }) (installed, provider)
  ]

  unfoldable pub install_asr_provider :
      String
      → File AsrProviderCatalog
      → ℕ
      → String
      → Option Bool
      → File InstalledAsrProvidersConfig
      → Outcome (InstallStateChange × InstalledAsrProvider)
  install_asr_provider catalog_path catalog_file now id enabled_override file =
      elim (load_asr_provider_catalog catalog_path catalog_file) [
        | err message ↦ (err message, file)
        | ok catalog ↦
            elim (find_key (λ (p : CatalogAsrProvider). p.provider_id) id catalog.providers) [
              | none ↦ (err ("provider " ⧺ id ⧺ " is not present in " ⧺ catalog_path), file)
              | some template ↦ with_state file (install_template now template id enabled_override)
            ]
      ]

  abbrev not_installed : String → String
  not_installed id = "provider " ⧺ id ⧺ " is not installed in " ⧺ state_path

  unfoldable pub uninstall_asr_provider :
      String → File InstalledAsrProvidersConfig → Outcome InstalledAsrProvider
  uninstall_asr_provider id file = with_state file λ (state : InstalledAsrProvidersConfig).
      elim (lookup id state.providers) [
        | none ↦ (err (not_installed id), file)
        | some removed ↦
            save_asr_provider_state write
              (record state { providers = remove_first id state.providers }) removed
      ]

  unfoldable pub set_asr_provider_enabled :
      String → Bool → File InstalledAsrProvidersConfig → Outcome (Bool × InstalledAsrProvider)
  set_asr_provider_enabled id enabled file =
      with_state file λ (state : InstalledAsrProvidersConfig). elim (lookup id state.providers) [
        | none ↦ (err (not_installed id), file)
        | some provider ↦
            let provider' = record provider { enabled = enabled } in
            save_asr_provider_state write
              (record state { providers = update_first id provider' state.providers })
              (if enabled then not provider.enabled else provider.enabled, provider')
      ]
