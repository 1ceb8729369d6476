-- ===== src/Providers.antt =====
-- The installed recognition providers: the types of speechmeshd/src/providers.rs.
pub mod Files
pub mod Store
pub mod Status
pub mod Examples
use speechmesh.Common.{
  ℕ, ◌≡◌, refl, ◌⊎◌, inl, inr, String, Bool, not, ◌&&◌, Option, List, [], ◌∷◌, is_some, unwrap_or,
  some,
}
pub use speechmesh.Common.Fallible.{Result, ok, err, Result-cases}

pub record AsrProviderInstallMetadata : Type 0 where
  pub download_required : Bool
  pub artifact_hint : Option String
  pub notes : List String

pub data InstalledAsrBridgeKind : Type 0 where
  mock : InstalledAsrBridgeKind
  stdio : String → List String → InstalledAsrBridgeKind
  tcp : String → InstalledAsrBridgeKind
  agent : Option ℕ → InstalledAsrBridgeKind
  mini_max_http : String → Option String → Option String → InstalledAsrBridgeKind

pub record InstalledAsrProvider : Type 0 where
  pub provider_id : String
  pub display_name : Option String
  pub description : Option String
  pub enabled : Bool
  pub installed_at_unix_secs : Option ℕ
  pub install : AsrProviderInstallMetadata
  pub bridge : InstalledAsrBridgeKind

pub record InstalledAsrProvidersConfig : Type 0 where
  pub format : Option String
  pub providers : List InstalledAsrProvider

pub record CatalogAsrProvider : Type 0 where
  pub provider_id : String
  pub display_name : Option String
  pub description : Option String
  pub enabled_by_default : Bool
  pub install : AsrProviderInstallMetadata
  pub bridge : InstalledAsrBridgeKind

pub record AsrProviderCatalog : Type 0 where
  pub format : Option String
  pub providers : List CatalogAsrProvider

-- `now` is what `now_unix_secs` returns.
unfoldable pub to_installed : ℕ → CatalogAsrProvider → Option Bool → InstalledAsrProvider
to_installed now template enabled_override = record {
  provider_id = template.provider_id;
  display_name = template.display_name;
  description = template.description;
  enabled = unwrap_or enabled_override template.enabled_by_default;
  installed_at_unix_secs = some now;
  install = template.install;
  bridge = template.bridge;
}

pub data InstallStateChange : Type 0 where
  installed updated : InstallStateChange

pub record ProviderInstallStatus : Type 0 where
  pub provider_id : String
  pub display_name : Option String
  pub description : Option String
  pub installed : Bool
  pub enabled : Bool
  pub bridge_mode : String
  pub download_required : Bool
  pub artifact_hint : Option String

unfoldable pub bridge_mode_name : InstalledAsrBridgeKind → String
bridge_mode_name mock = "mock"
bridge_mode_name (stdio command args) = "stdio"
bridge_mode_name (tcp address) = "tcp"
bridge_mode_name (agent start_timeout_secs) = "agent"
bridge_mode_name (mini_max_http base_url model api_key_file) = "minimax_http"
