-- ===== src/Providers/Store/Effect.antt =====
-- The requests of speechmeshd/src/providers.rs against a map from ids to providers.
use speechmesh.Common.{
  ℕ, ◌≡◌, refl, String, Bool, Option, none, some, [], ◌∷◌, ◌++◌, arith, or_else, unwrap_or,
  Option-cases, inl, inr,
}
use speechmesh.Common.Sorting.{find_key, find_key-key}
use speechmesh.Providers.{
  ok, err, InstalledAsrProvider, InstalledAsrProvidersConfig, AsrProviderCatalog,
  CatalogAsrProvider, to_installed, Result-cases,
}
use speechmesh.Providers.Files.{
  File, load_asr_provider_catalog, load_asr_provider_state_or_default, Writing, succeeds, Outcome,
  save_asr_provider_state,
}
use speechmesh.Providers.Store.{
  lookup, update_first, remove_first, reinstalled, install_asr_provider, uninstall_asr_provider,
  set_asr_provider_enabled, with_state, install_template,
}
use speechmesh.Providers.Store.Contract.{
  Request, install, uninstall, set_enabled, provider_of, new_entry, entry_after, Follows, saved,
  provider_of-save,
}
use speechmesh.Providers.Store.Entries.{
  IsUniqueById, lookup-id, lookup-append, append-IsUnique, lookup-update_first,
  update_first-IsUnique, lookup-remove_first, remove_first-IsUnique,
}

to_installed-new_entry :
    (now : ℕ) (t : CatalogAsrProvider) (choice : Option Bool)
    → to_installed now t choice ≡ new_entry now t choice none
unfolding to_installed
to_installed-new_entry now t none = refl
to_installed-new_entry now t (some b) = refl

or_else-some : {A : Type 0} (o : Option A) (a : A) → or_else o (some a) ≡ some (unwrap_or o a)
or_else-some none a = refl
or_else-some (some b) a = refl

reinstalled-new_entry :
    (now : ℕ) (t : CatalogAsrProvider) (choice : Option Bool) (e : InstalledAsrProvider)
    → reinstalled now t choice e ≡ new_entry now t choice (some e)
unfolding reinstalled to_installed
reinstalled-new_entry now t none e =
    rw (reinstalled, or_else-some e.installed_at_unix_secs now) refl
reinstalled-new_entry now t (some b) e =
    rw (reinstalled, or_else-some e.installed_at_unix_secs now) refl

module _ (state_path : String) (write : Writing) (catalog_path : String) (now : ℕ)
    (id : String) where
  unfoldable pub run :
      File AsrProviderCatalog
      → Request
      → File InstalledAsrProvidersConfig
      → Outcome InstalledAsrProvider
  run catalog_file (install choice) file =
      provider_of
        (install_asr_provider state_path write catalog_path catalog_file now id choice file)
  run catalog_file uninstall file = uninstall_asr_provider state_path write id file
  run catalog_file (set_enabled b) file =
      provider_of (set_asr_provider_enabled state_path write id b file)

  -- The template that an installation finds.
  abbrev pub template_of : File AsrProviderCatalog → Option CatalogAsrProvider
  template_of catalog_file = elim (load_asr_provider_catalog catalog_path catalog_file) [
    | ok catalog ↦ find_key (λ (p : CatalogAsrProvider). p.provider_id) id catalog.providers
    | err message ↦ none
  ]

  replaced :
      {A : Type 0} (a : A) (file : File InstalledAsrProvidersConfig)
      (state : InstalledAsrProvidersConfig) (e q : InstalledAsrProvider)
      → IsUniqueById state.providers
      → lookup id state.providers ≡ some e
      → q.provider_id ≡ id
      → Follows write id state.providers file (some (q, some q)) (
          provider_of (
            save_asr_provider_state write
              (record state { providers = update_first id q state.providers })
              (a, q)))
  replaced a file state e q u present same =
      rw
        (provider_of-save write (record state { providers = update_first id q state.providers }) a
          q)
        (saved id state.providers file write
          (record state { providers = update_first id q state.providers }) q (some q)
          (update_first-IsUnique id q same state.providers e present u)
          (λ k. lookup-update_first id q same k state.providers e present))

  appended :
      {A : Type 0} (a : A) (file : File InstalledAsrProvidersConfig)
      (state : InstalledAsrProvidersConfig) (q : InstalledAsrProvider)
      → IsUniqueById state.providers
      → lookup id state.providers ≡ none
      → q.provider_id ≡ id
      → Follows write id state.providers file (some (q, some q)) (
          provider_of (
            save_asr_provider_state write
              (record state { providers = state.providers ++ q ∷ [] })
              (a, q)))
  appended a file state q u absent same =
      rw (provider_of-save write (record state { providers = state.providers ++ q ∷ [] }) a q) (
        saved id state.providers file write (record state { providers = state.providers ++ q ∷ [] })
          q (some q) (append-IsUnique q state.providers (rw same absent) u)
          (λ k. lookup-append id k q state.providers same absent))

  -- The file of installed providers implements a map from ids to providers. Where its ids are
  -- unique, a request is refused exactly if the map's contract refuses it, and then the file is as
  -- it was. Else, where the write succeeds, the request returns the provider that the contract
  -- says, and the file is in order, its ids unique, with the entry under the id as the contract
  -- says and the others as before; where the write fails, the request fails with its message.
  pub run-Follows :
      (catalog_file : File AsrProviderCatalog) (request : Request)
      (file : File InstalledAsrProvidersConfig) (state : InstalledAsrProvidersConfig)
      → load_asr_provider_state_or_default state_path file ≡ ok state
      → IsUniqueById state.providers
      → Follows write id state.providers file
          (entry_after now (template_of catalog_file) request (lookup id state.providers))
          (run catalog_file request file)
  unfolding run install_asr_provider uninstall_asr_provider set_asr_provider_enabled
  run-Follows catalog_file (install choice) file state h u =
      elim (Result-cases (load_asr_provider_catalog catalog_path catalog_file)) [
        | inr (message, broken) ↦ rw (template_of, install_asr_provider, broken) ((_, refl), refl)
        | inl (catalog, loaded) ↦
            elim (Option-cases
              (find_key (λ (p : CatalogAsrProvider). p.provider_id) id catalog.providers)) [
                | inl absent ↦
                    rw (template_of, install_asr_provider, loaded, absent) ((_, refl), refl)
                | inr (t, found) ↦ elim (Option-cases (lookup id state.providers)) [
                  | inl absent ↦
                      rw
                        (
                          template_of, install_asr_provider, loaded, found, with_state, h,
                          install_template, absent,
                        )
                        (rw (to_installed-new_entry now t choice) (
                          appended _ file state (new_entry now t choice none) u absent (
                            find_key-key (λ (p : CatalogAsrProvider). p.provider_id) id
                              catalog.providers t found)))
                  | inr (e, present) ↦
                      rw
                        (
                          template_of, install_asr_provider, loaded, found, with_state, h,
                          install_template, present,
                        )
                        (rw (reinstalled-new_entry now t choice e) (
                          replaced _ file state e (new_entry now t choice (some e)) u present (
                            find_key-key (λ (p : CatalogAsrProvider). p.provider_id) id
                              catalog.providers t found)))
                ]
              ]
      ]
  run-Follows catalog_file uninstall file state h u =
      elim (Option-cases (lookup id state.providers)) [
        | inl absent ↦ rw (uninstall_asr_provider, with_state, h, absent) ((_, refl), refl)
        | inr (e, present) ↦
            rw (uninstall_asr_provider, with_state, h, present)
              (saved id state.providers file write
                (record state { providers = remove_first id state.providers }) e none
                (remove_first-IsUnique id state.providers u)
                (λ k. lookup-remove_first id k state.providers u))
      ]
  run-Follows catalog_file (set_enabled b) file state h u =
      elim (Option-cases (lookup id state.providers)) [
        | inl absent ↦ rw (set_asr_provider_enabled, with_state, h, absent) ((_, refl), refl)
        | inr (e, present) ↦
            let q : InstalledAsrProvider = record e { enabled = b } in
            rw (set_asr_provider_enabled, with_state, h, present)
              (replaced _ file state e q u present (lookup-id id state.providers e present))
      ]

  -- Where a write would succeed, a request that fails leaves the file of the state as it was.
  pub run-err :
      (catalog_file : File AsrProviderCatalog) (request : Request)
      (file file' : File InstalledAsrProvidersConfig) (message : String)
      → write ≡ succeeds
      → run catalog_file request file ≡ (err message, file')
      → file' ≡ file
  unfolding run install_asr_provider uninstall_asr_provider set_asr_provider_enabled
      save_asr_provider_state
  run-err catalog_file (install choice) file file' message w h = ground (arith, w, h)
  run-err catalog_file uninstall file file' message w h = ground (arith, w, h)
  run-err catalog_file (set_enabled b) file file' message w h = ground (arith, w, h)
