-- ===== src/Providers/Store/Undo.antt =====
-- An installation and the removal after it: speechmeshd/src/providers.rs.
use speechmesh.Common.{
  ℕ, ◌≡◌, refl, subst, eq_refl, String, Bool, Option, none, some, List, arith, eq_iff,
}
use speechmesh.Providers.{
  Result, ok, InstalledAsrProvider, InstalledAsrProvidersConfig, AsrProviderCatalog,
  CatalogAsrProvider,
}
use speechmesh.Providers.Files.{
  File, holding, load_asr_provider_state_or_default, succeeds, asr_provider_state_format,
}
use speechmesh.Providers.Store.{lookup}
use speechmesh.Providers.Store.Contract.{install, uninstall, new_entry, entry_after, Follows}
use speechmesh.Providers.Store.Effect.{run, template_of, run-Follows}
use speechmesh.Providers.Store.Entries.{IsUniqueById}

abbrev pub state_with : List InstalledAsrProvider → InstalledAsrProvidersConfig
state_with providers = record { format = some asr_provider_state_format; providers = providers }

load_saved :
    (path : String) (providers : List InstalledAsrProvider)
    → load_asr_provider_state_or_default path (holding (state_with providers))
      ≡ ok (state_with providers)
unfolding load_asr_provider_state_or_default
load_saved path providers = refl

module _ (state_path catalog_path : String) (now : ℕ) (id : String) where
  abbrev pub run_both :
      Option Bool
      → File AsrProviderCatalog
      → File InstalledAsrProvidersConfig
      → Result InstalledAsrProvider × File InstalledAsrProvidersConfig
  run_both choice catalog_file file =
      run state_path succeeds catalog_path now id catalog_file uninstall
        (run state_path succeeds catalog_path now id catalog_file (install choice) file).1

  -- Installing a provider of the catalog that was not installed, in a state with unique ids, and
  -- removing it gives back the provider as it was installed, and leaves a file in which every id
  -- has what it had before.
  pub run-uninstall_install :
      (catalog_file : File AsrProviderCatalog) (t : CatalogAsrProvider) (choice : Option Bool)
      (file : File InstalledAsrProvidersConfig) (state : InstalledAsrProvidersConfig)
      → template_of state_path succeeds catalog_path now id catalog_file ≡ some t
      → load_asr_provider_state_or_default state_path file ≡ ok state
      → IsUniqueById state.providers
      → lookup id state.providers ≡ none
      → (providers : List InstalledAsrProvider) × (run_both choice catalog_file file
          ≡ (ok (new_entry now t choice none), holding (state_with providers)))
        × ((k : String) → lookup k providers ≡ lookup k state.providers)
  run-uninstall_install catalog_file t choice file state found loaded unique absent =
      let p = new_entry now t choice none in
      let before = state.providers in
      let catalog = template_of state_path succeeds catalog_path now id catalog_file in
      let done = run state_path succeeds catalog_path now id catalog_file (install choice) file in
      let installs : Follows succeeds id before file (some (p, some p)) done =
        subst
          (λ (e : Option InstalledAsrProvider).
            Follows succeeds id before file (entry_after now (some t) (install choice) e) done)
          absent
          (subst
            (λ (c : Option CatalogAsrProvider).
              Follows succeeds id before file
                (entry_after now c (install choice) (lookup id before)) done)
            found
            (run-Follows state_path succeeds catalog_path now id catalog_file (install choice) file
              state loaded unique)) in
      let (ok_first, (qs, file_eq, unique', ordered, same)) = installs in
      let there : lookup id qs ≡ some p = rw (same id, eq_refl id) refl in
      let undone =
        run state_path succeeds catalog_path now id catalog_file uninstall
          (holding (state_with qs)) in
      let removes : Follows succeeds id qs (holding (state_with qs)) (some (p, none)) undone =
        subst
          (λ (e : Option InstalledAsrProvider).
            Follows succeeds id qs (holding (state_with qs)) (entry_after now catalog uninstall e)
              undone)
          there
          (run-Follows state_path succeeds catalog_path now id catalog_file uninstall
            (holding (state_with qs)) (state_with qs) (load_saved state_path qs) unique') in
      let (ok_second, (rs, file_eq', unique'', ordered', same')) = removes in
      (
        rs,
        rw file_eq (λ i. (ok_second i, file_eq' i)),
        λ k. rw (same' k, same k) (ground (arith, eq_iff id k, absent)),
      )
