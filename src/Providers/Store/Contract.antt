-- ===== src/Providers/Store/Contract.antt =====
-- What the requests of speechmeshd/src/providers.rs promise of a map from ids to providers.
use speechmesh.Common.{
  ℕ, ◌≡◌, refl, ◌==◌, String, Bool, true, false, Option, none, some, List, if◌then◌else◌, arith,
  eq_iff, unwrap_or,
}
use speechmesh.Common.Order.{text_leb, text_leb_same, text_leb_total}
use speechmesh.Common.Sorting.{
  IsOrdered, sort_by, find_key-sort_by, sort_by-IsUnique, sort_by-IsOrdered,
}
use speechmesh.Providers.{
  ok, err, InstalledAsrProvider, InstalledAsrProvidersConfig, CatalogAsrProvider,
}
use speechmesh.Providers.Files.{
  File, holding, Writing, succeeds, fails, Outcome, save_asr_provider_state,
  asr_provider_state_format, provider_leb,
}
use speechmesh.Providers.Store.{lookup}
use speechmesh.Providers.Store.Entries.{IsUniqueById}

pub data Request : Type 0 where
  install : Option Bool → Request
  uninstall : Request
  set_enabled : Bool → Request

-- Of what the request returns, the provider.
abbrev pub provider_of :
    {A : Type 0} → Outcome (A × InstalledAsrProvider) → Outcome InstalledAsrProvider
provider_of (ok (a, p), file) = (ok p, file)
provider_of (err message, file) = (err message, file)

-- The choice, else what the entry had, else the default.
abbrev pub enabled_after : Option Bool → Option InstalledAsrProvider → Bool → Bool
enabled_after (some b) entry default = b
enabled_after none (some e) default = e.enabled
enabled_after none none default = default

-- The entry's time, else the present.
abbrev pub time_after : Option InstalledAsrProvider → ℕ → ℕ
time_after none now = now
time_after (some e) now = unwrap_or e.installed_at_unix_secs now

abbrev pub new_entry :
    ℕ → CatalogAsrProvider → Option Bool → Option InstalledAsrProvider → InstalledAsrProvider
new_entry now t choice entry = record {
  provider_id = t.provider_id;
  display_name = t.display_name;
  description = t.description;
  enabled = enabled_after choice entry t.enabled_by_default;
  installed_at_unix_secs = some (time_after entry now);
  install = t.install;
  bridge = t.bridge;
}

-- What a request makes of the entry under its id: the provider that it returns and the entry after
-- it; `none` is a refusal.
abbrev pub entry_after :
    ℕ
    → Option CatalogAsrProvider
    → Request
    → Option InstalledAsrProvider
    → Option (InstalledAsrProvider × Option InstalledAsrProvider)
entry_after now none (install choice) entry = none
entry_after now (some t) (install choice) entry =
    some (new_entry now t choice entry, some (new_entry now t choice entry))
entry_after now t uninstall none = none
entry_after now t uninstall (some e) = some (e, none)
entry_after now t (set_enabled b) none = none
entry_after now t (set_enabled b) (some e) =
    some (record e { enabled = b }, some (record e { enabled = b }))

-- The file holds a map in which one entry is as given and the others are as before.
abbrev pub Holds :
    String
    → Option InstalledAsrProvider
    → List InstalledAsrProvider
    → File InstalledAsrProvidersConfig
    → Type 0
Holds id entry before file =
    (providers : List InstalledAsrProvider) × (file
      ≡ holding (record { format = some asr_provider_state_format; providers = providers }))
    × IsUniqueById providers
    × IsOrdered (λ (p : InstalledAsrProvider). p.provider_id) providers
    × ((k : String) → lookup k providers ≡ (if id == k then entry else lookup k before))

-- The file as it was, a failed write, or the entry's change.
abbrev pub Follows :
    Writing
    → String
    → List InstalledAsrProvider
    → File InstalledAsrProvidersConfig
    → Option (InstalledAsrProvider × Option InstalledAsrProvider)
    → Outcome InstalledAsrProvider
    → Type 0
Follows write id before file none (result, file') =
    ((message : String) × (result ≡ err message)) × (file' ≡ file)
Follows (fails message left) id before file (some (p, entry)) (result, file') =
    (result ≡ err message) × (file' ≡ left)
Follows succeeds id before file (some (p, entry)) (result, file') =
    (result ≡ ok p) × Holds id entry before file'

abbrev id_of : InstalledAsrProvider → String
id_of p = p.provider_id

provider_leb-true :
    (p q : InstalledAsrProvider)
    → provider_leb p q ≡ true
    → text_leb p.provider_id q.provider_id ≡ true
unfolding provider_leb
provider_leb-true p q h =
    ground (arith, eq_iff p.provider_id q.provider_id, text_leb_same p.provider_id q.provider_id)

provider_leb-false :
    (p q : InstalledAsrProvider)
    → provider_leb p q ≡ false
    → text_leb q.provider_id p.provider_id ≡ true
unfolding provider_leb
provider_leb-false p q h = ground (
  arith,
  text_leb_total p.provider_id q.provider_id,
  eq_iff p.provider_id q.provider_id,
  text_leb_same q.provider_id p.provider_id,
)

module _ (id : String) (before : List InstalledAsrProvider)
    (file : File InstalledAsrProvidersConfig) where
  pub saved :
      (write : Writing) (state : InstalledAsrProvidersConfig) (p : InstalledAsrProvider)
      (entry : Option InstalledAsrProvider)
      → IsUniqueById state.providers
      → ((k : String) → lookup k state.providers ≡ (if id == k then entry else lookup k before))
      → Follows write id before file (some (p, entry)) (save_asr_provider_state write state p)
  unfolding save_asr_provider_state
  saved succeeds state p entry u same = (
    refl,
    (
      sort_by provider_leb state.providers,
      refl,
      sort_by-IsUnique id_of provider_leb state.providers u,
      sort_by-IsOrdered id_of provider_leb provider_leb-true provider_leb-false state.providers,
      λ k. rw (find_key-sort_by id_of provider_leb k state.providers u) (same k),
    ),
  )
  saved (fails message left) state p entry u same = (refl, refl)

pub provider_of-save :
    {A : Type 0} (write : Writing) (state : InstalledAsrProvidersConfig) (a : A)
    (p : InstalledAsrProvider)
    → provider_of (save_asr_provider_state write state (a, p))
      ≡ save_asr_provider_state write state p
unfolding save_asr_provider_state
provider_of-save succeeds state a p = refl
provider_of-save (fails message left) state a p = refl
