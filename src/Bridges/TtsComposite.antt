-- ===== src/Bridges/TtsComposite.antt =====
-- The choice of a synthesis provider: bridges/src/tts/composite.rs.
pub mod Preferences
use speechmesh.Common.{
  ℕ, List, [], ◌∷◌, ◌++◌, if◌then◌else◌, length, keep, String, ◌⧺◌, Option, none, some, has_text,
}
use speechmesh.Common.Text.{trim, to_ascii_lowercase}
use speechmesh.Core.{ProviderDescriptor, ProviderSelector, ProviderSelectionMode, auto}
use speechmesh.Bridges.Error.{Result}
use speechmesh.Bridges.Binding.{BridgeProviderBinding, has_enabled_capability, Messages, select_by}

abbrev pub tts_messages : Messages
tts_messages = record {
  not_installed = λ id. "requested provider " ⧺ id ⧺ " is not available for TTS on this gateway";
  lacking = λ id. "requested provider " ⧺ id ⧺ " does not satisfy required TTS capabilities";
  nothing = "no configured TTS provider satisfies the requested capabilities";
}

unfoldable pub preferred_score : ProviderDescriptor → List String → ℕ
preferred_score descriptor preferred_capabilities =
    length (keep (has_enabled_capability descriptor) preferred_capabilities)

unfoldable pub select_binding :
    {B : Type 0}
    → List (BridgeProviderBinding B)
    → ProviderSelectionMode
    → Option String
    → List String
    → List String
    → Result (BridgeProviderBinding B)
unfolding preferred_score
select_binding bindings mode provider_id required_capabilities preferred_capabilities =
    select_by tts_messages required_capabilities mode provider_id
      (λ d. preferred_score d preferred_capabilities) bindings

-- The `match` on a route's name.
unfoldable pub route_capabilities : String → List String
route_capabilities route =
    if has_text ("realtime" ∷ "real_time" ∷ "low_latency" ∷ "low-latency" ∷ []) route
    then "realtime-low-latency" ∷ "cloud-managed" ∷ []
    else if has_text ("quality" ∷ "quality_first" ∷ "quality-first" ∷ "offline" ∷ "local" ∷ [])
        route
    then "quality-high" ∷ "local-inference" ∷ []
    else []

-- The loop that adds what is not there yet.
unfoldable pub add_missing : List String → List String → List String
add_missing [] existing = existing
add_missing (c ∷ cs) existing =
    add_missing cs (if has_text existing c then existing else existing ++ c ∷ [])

abbrev pub with_preferences :
    ProviderSelectionMode → Option String → Option String → ProviderSelector → ProviderSelector
with_preferences auto none (some route) s = record s {
  preferred_capabilities =
      add_missing (route_capabilities (to_ascii_lowercase (trim route))) s.preferred_capabilities;
}
with_preferences _ _ _ s = s

-- `route` is the text that the options have under that key, where they have one.
unfoldable pub apply_route_preferences : ProviderSelector → Option String → ProviderSelector
unfolding route_capabilities add_missing
apply_route_preferences selector route =
    with_preferences selector.mode selector.provider_id route selector
