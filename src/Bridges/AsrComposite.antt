-- ===== src/Bridges/AsrComposite.antt =====
-- The choice of a recognition provider: bridges/src/asr/composite.rs.
use speechmesh.Common.{ℕ, ◌+◌, List, if◌then◌else◌, ◌&&◌, length, keep, ◌⧺◌}
use speechmesh.Core.{ProviderDescriptor}
use speechmesh.Asr.{StreamRequest}
use speechmesh.Bridges.Error.{Result}
use speechmesh.Bridges.Binding.{BridgeProviderBinding, has_enabled_capability, Messages, select_by}

abbrev pub asr_messages : Messages
asr_messages = record {
  not_installed = λ id. "requested provider " ⧺ id ⧺ " is not installed on this gateway";
  lacking = λ id. "requested provider " ⧺ id ⧺ " does not satisfy required capabilities";
  nothing = "no installed ASR provider satisfies the requested capabilities";
}

module _ {V : Type 0} where
  unfoldable pub preferred_score : ProviderDescriptor → StreamRequest V → ℕ
  preferred_score descriptor request =
      length (keep (has_enabled_capability descriptor) request.provider.preferred_capabilities)
      + (if request.options.prefer_on_device && has_enabled_capability descriptor "on-device"
          then 1
          else 0)

  unfoldable pub select_binding :
      {B : Type 0}
      → List (BridgeProviderBinding B)
      → StreamRequest V
      → Result (BridgeProviderBinding B)
  unfolding preferred_score
  select_binding bindings request =
      select_by asr_messages request.provider.required_capabilities request.provider.mode
        request.provider.provider_id (λ d. preferred_score d request) bindings
