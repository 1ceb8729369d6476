-- ===== src/Bridges/Examples.antt =====
-- Two recognition bridges, and a request for an on-device provider.
use speechmesh.Common.{ℕ, zero, suc, none, some, List, [], ◌∷◌}
use speechmesh.Core.{
  ProviderDescriptor, ProviderSelector, CapabilityDomain, RuntimeMode, auto, enabled_capability,
  new_descriptor, with_capability,
}
use speechmesh.Bridges.Binding.{BridgeProviderBinding, new, select_by}
use speechmesh.Bridges.Binding.Build.{Built, new-Built}
use speechmesh.Bridges.Binding.Choice.{Chooses, select_by-Chooses}
use speechmesh.Bridges.AsrComposite.{asr_messages}
use speechmesh.Bridges.TtsComposite.{preferred_score, apply_route_preferences}
use speechmesh.Bridges.TtsComposite.Preferences.{Adds, wanted, apply_route_preferences-Adds}

abbrev sensevoice : ProviderDescriptor
sensevoice =
    with_capability
      (new_descriptor "sensevoice.asr" "SenseVoice" CapabilityDomain.asr RuntimeMode.remote_gateway)
      (enabled_capability "streaming-input")

abbrev apple : ProviderDescriptor
apple =
    with_capability
      (new_descriptor "apple.asr" "Apple" CapabilityDomain.asr RuntimeMode.remote_gateway)
      (enabled_capability "on-device")

-- A bridge is named by a number.
abbrev descriptors : ℕ → List ProviderDescriptor
descriptors zero = sensevoice ∷ []
descriptors (suc n) = apple ∷ []

abbrev installed : List (BridgeProviderBinding ℕ)
installed =
    record { descriptor = sensevoice; bridge = 0 } ∷ record { descriptor = apple; bridge = 1 } ∷ []

new-Built_example : Built "ASR" descriptors (0 ∷ 1 ∷ []) [] [] (new "ASR" descriptors (0 ∷ 1 ∷ []))
new-Built_example = new-Built "ASR" descriptors (0 ∷ 1 ∷ [])

select_by-Chooses_example :
    Chooses []
      (λ d. preferred_score d ("on-device" ∷ []))
      auto
      none
      installed
      (select_by asr_messages [] auto none (λ d. preferred_score d ("on-device" ∷ [])) installed)
select_by-Chooses_example =
    select_by-Chooses [] (λ d. preferred_score d ("on-device" ∷ [])) asr_messages auto none
      installed

abbrev any_provider : ProviderSelector
any_provider = record {
  mode = auto;
  provider_id = none;
  required_capabilities = [];
  preferred_capabilities = "cloud-managed" ∷ [];
}

apply_route_preferences-Adds_example :
    Adds
      (wanted auto none (some " Realtime "))
      any_provider
      (apply_route_preferences any_provider (some " Realtime "))
apply_route_preferences-Adds_example = apply_route_preferences-Adds any_provider (some " Realtime ")
