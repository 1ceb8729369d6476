-- ===== src/Providers/Files.antt =====
-- The files behind speechmeshd/src/providers.rs. A file is what a read and a parse of it give, since
-- serde's code is not here; a path is a text.
use speechmesh.Common.{
  ◌==◌, ◌⧺◌, String, Bool, true, false, ◌&&◌, ◌||◌, Option, none, some, [], if◌then◌else◌,
}
use speechmesh.Common.Order.{text_ltb}
use speechmesh.Common.Sorting.{sort_by}
use speechmesh.Providers.{
  Result, ok, err, InstalledAsrProvider, InstalledAsrProvidersConfig, AsrProviderCatalog,
}

pub data File (A : Type 0) : Type 0 where
  missing unreadable malformed : File A
  holding : A → File A

abbrev pub asr_provider_catalog_format : String
asr_provider_catalog_format = "speechmesh/asr-provider-catalog.v1"

abbrev pub asr_provider_state_format : String
asr_provider_state_format = "speechmesh/asr-provider-state.v1"

-- Validates, and passes the value on.
unfoldable pub validate_format : {A : Type 0} → String → Option String → String → A → Result A
validate_format path none expected a = ok a
validate_format path (some value) expected a =
    if value == expected
    then ok a
    else err (path ⧺ " uses format " ⧺ value ⧺ ", expected " ⧺ expected)

unfoldable pub load_asr_provider_catalog :
    String → File AsrProviderCatalog → Result AsrProviderCatalog
unfolding validate_format
load_asr_provider_catalog path missing = err ("failed to read ASR provider catalog " ⧺ path)
load_asr_provider_catalog path unreadable = err ("failed to read ASR provider catalog " ⧺ path)
load_asr_provider_catalog path malformed = err ("failed to parse ASR provider catalog " ⧺ path)
load_asr_provider_catalog path (holding catalog) =
    validate_format path catalog.format asr_provider_catalog_format catalog

unfoldable pub load_asr_provider_config :
    String → File InstalledAsrProvidersConfig → Result InstalledAsrProvidersConfig
unfolding validate_format
load_asr_provider_config path missing = err ("failed to read ASR provider config " ⧺ path)
load_asr_provider_config path unreadable = err ("failed to read ASR provider config " ⧺ path)
load_asr_provider_config path malformed = err ("failed to parse ASR provider config " ⧺ path)
load_asr_provider_config path (holding config) =
    validate_format path config.format asr_provider_state_format config

unfoldable pub load_asr_provider_state_or_default :
    String → File InstalledAsrProvidersConfig → Result InstalledAsrProvidersConfig
unfolding validate_format
load_asr_provider_state_or_default path missing =
    ok (record { format = some asr_provider_state_format; providers = [] })
load_asr_provider_state_or_default path unreadable =
    err ("failed to read ASR provider state " ⧺ path)
load_asr_provider_state_or_default path malformed =
    err ("failed to parse ASR provider state " ⧺ path)
load_asr_provider_state_or_default path (holding state) =
    validate_format path state.format asr_provider_state_format state

-- `Option<String>::cmp`, not greater
abbrev name_leb : Option String → Option String → Bool
name_leb none b = true
name_leb (some a) none = false
name_leb (some a) (some b) = text_ltb a b || (a == b)

-- The comparison of the sort, not greater.
unfoldable pub provider_leb : InstalledAsrProvider → InstalledAsrProvider → Bool
provider_leb left right =
    text_ltb left.provider_id right.provider_id
    || (left.provider_id == right.provider_id && name_leb left.display_name right.display_name)

-- How a write ends: it succeeds, or fails with a message and leaves some file behind.
pub data Writing : Type 0 where
  succeeds : Writing
  fails : String → File InstalledAsrProvidersConfig → Writing

-- A result, and the file of the state after it.
abbrev pub Outcome : Type 0 → Type 0
Outcome A = Result A × File InstalledAsrProvidersConfig

-- The last step of every change: the `?` of the saving, and the value returned.
unfoldable pub save_asr_provider_state :
    {A : Type 0} → Writing → InstalledAsrProvidersConfig → A → Outcome A
unfolding provider_leb
save_asr_provider_state succeeds state a = (
  ok a,
  holding (record {
    format = some asr_provider_state_format;
    providers = sort_by provider_leb state.providers;
  }),
)
save_asr_provider_state (fails message left) state a = (err message, left)
