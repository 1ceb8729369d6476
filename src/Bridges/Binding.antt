-- ===== src/Bridges/Binding.antt =====
-- What the composite bridges of bridges/src/asr/composite.rs and bridges/src/tts/composite.rs share:
-- the bindings of providers to bridges, and the choice among them. A bridge is of any type `B`, and
-- `descriptors` is its method of that name.
pub mod Choice
pub mod Build
use speechmesh.Common.{
  ℕ, ◌+◌, String, Bool, true, false, Option, none, some, List, [], ◌∷◌, ◌++◌, if◌then◌else◌, ltb,
  all, any, length, keep, has_text, find, ◌==◌, ◌⧺◌, ◌&&◌, map, is_some,
}
use speechmesh.Core.{
  ProviderDescriptor, ProviderSelector, ProviderSelectionMode, Capability, auto, provider,
}
use speechmesh.Bridges.Error.{BridgeError, unavailable, Result, ok, err}

unfoldable pub has_enabled_capability : ProviderDescriptor → String → Bool
has_enabled_capability descriptor capability =
    any (λ (item : Capability). item.enabled && item.key == capability) descriptor.capabilities

pub record BridgeProviderBinding (B : Type 0) : Type 0 where
  pub descriptor : ProviderDescriptor
  pub bridge : B

-- `new` of both bridges. The set of seen ids is a list.
module _ {B : Type 0} (label : String) (descriptors : B → List ProviderDescriptor) where
  -- The inner loop, over one bridge's descriptors.
  unfoldable pub bind_descriptors :
      B
      → List ProviderDescriptor
      → List String × List (BridgeProviderBinding B)
      → Result (List String × List (BridgeProviderBinding B))
  bind_descriptors bridge [] s = ok s
  bind_descriptors bridge (d ∷ ds) (seen, bindings) =
      let rest =
        bind_descriptors bridge ds
          (d.id ∷ seen, bindings ++ record { descriptor = d; bridge = bridge } ∷ []) in
      if has_text seen d.id
      then err (unavailable ("duplicate " ⧺ label ⧺ " provider id registered: " ⧺ d.id))
      else rest

  abbrev pub is_nil : List ProviderDescriptor → Bool
  is_nil [] = true
  is_nil (d ∷ ds) = false

  -- The outer loop, over the bridges.
  unfoldable pub bind_bridges :
      List B
      → List String × List (BridgeProviderBinding B)
      → Result (List (BridgeProviderBinding B))
  unfolding bind_descriptors
  bind_bridges [] (seen, bindings) = ok bindings
  bind_bridges (b ∷ bs) s =
      if is_nil (descriptors b)
      then err (unavailable "bridge registered without any provider descriptors")
      else elim (bind_descriptors b (descriptors b) s) [
        | ok s' ↦ bind_bridges bs s'
        | err e ↦ err e
      ]

  unfoldable pub new : List B → Result (List (BridgeProviderBinding B))
  unfolding bind_bridges
  new bridges = bind_bridges bridges ([], [])

unfoldable pub descriptor_matches_required : ProviderDescriptor → List String → Bool
unfolding has_enabled_capability
descriptor_matches_required descriptor required_capabilities =
    all (has_enabled_capability descriptor) required_capabilities

module _ {ℓ} {A : Type ℓ} (key : A → ℕ) where
  -- `Iterator::max_by_key`: of equal keys the last.
  unfoldable pub max_from : A → List A → A
  max_from best [] = best
  max_from best (x ∷ xs) = max_from (if ltb (key x) (key best) then best else x) xs

  unfoldable pub max_by_key : List A → Option A
  unfolding max_from
  max_by_key [] = none
  max_by_key (x ∷ xs) = some (max_from x xs)

-- The messages in which the two bridges differ: of a provider that is not there, of one that lacks
-- a capability, and of a choice among none.
pub record Messages : Type 0 where
  pub not_installed : String → String
  pub lacking : String → String
  pub nothing : String

module _ {B : Type 0} (messages : Messages) (required_capabilities : List String) where
  -- The explicit choice of `select_binding`.
  unfoldable pub select_provider :
      String → List (BridgeProviderBinding B) → Result (BridgeProviderBinding B)
  select_provider provider_id bindings =
      elim (find (λ (b : BridgeProviderBinding B). b.descriptor.id == provider_id) bindings) [
        | none ↦ err (unavailable (messages.not_installed provider_id))
        | some b ↦
            if descriptor_matches_required b.descriptor required_capabilities
            then ok b
            else err (unavailable (messages.lacking provider_id))
      ]

  -- The automatic one, by a score.
  unfoldable pub select_best :
      (ProviderDescriptor → ℕ) → List (BridgeProviderBinding B) → Result (BridgeProviderBinding B)
  unfolding max_by_key
  select_best score bindings =
      elim (max_by_key (λ (b : BridgeProviderBinding B). score b.descriptor)
        (keep
          (λ (b : BridgeProviderBinding B).
            descriptor_matches_required b.descriptor required_capabilities)
          bindings)) [ none ↦ err (unavailable messages.nothing) | some b ↦ ok b ]

  unfoldable pub select_by :
      ProviderSelectionMode
      → Option String
      → (ProviderDescriptor → ℕ)
      → List (BridgeProviderBinding B)
      → Result (BridgeProviderBinding B)
  unfolding select_provider select_best
  select_by mode (some provider_id) score bindings = select_provider provider_id bindings
  select_by provider none score bindings =
      err (unavailable "provider mode requires a concrete provider_id")
  select_by auto none score bindings = select_best score bindings
