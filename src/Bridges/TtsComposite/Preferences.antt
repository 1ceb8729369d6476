-- ===== src/Bridges/TtsComposite/Preferences.antt =====
-- What the route that a request names adds to its preferences.
use speechmesh.Common.{
  String, true, ◌≡◌, refl, Option, none, some, List, [], ◌∷◌, ◌++◌, ◌||◌, arith, has_text, ◌==◌,
  Bool-cases, inl, inr, eq_iff, subst, ◌∙◌,
}
use speechmesh.Common.Text.{trim, to_ascii_lowercase}
use speechmesh.Core.{ProviderSelector, ProviderSelectionMode, auto, provider}
use speechmesh.Bridges.TtsComposite.{
  add_missing, route_capabilities, with_preferences, apply_route_preferences,
}

has_text-append :
    (xs ys : List String) (t : String) → has_text (xs ++ ys) t ≡ (has_text xs t || has_text ys t)
has_text-append [] ys t = refl
has_text-append (x ∷ xs) ys t = ground (arith, has_text-append xs ys t)

same_text :
    (xs : List String) (c t : String)
    → has_text xs c ≡ true
    → (c == t) ≡ true
    → has_text xs t ≡ true
same_text xs c t h e = subst (λ u. has_text xs u ≡ true) ((eq_iff c t).0 e) h

-- Adding what is missing makes a list hold what it held and what is added, and nothing else.
pub has_text-add_missing :
    (cs existing : List String) (t : String)
    → has_text (add_missing cs existing) t ≡ (has_text existing t || has_text cs t)
unfolding add_missing
has_text-add_missing [] existing t = ground arith
has_text-add_missing (c ∷ cs) existing t = elim (Bool-cases (has_text existing c)) [
  | inl old ↦
      rw old (has_text-add_missing cs existing t ∙ ground (arith, same_text existing c t old))
  | inr unseen ↦ rw unseen (
      has_text-add_missing cs (existing ++ c ∷ []) t
      ∙ ground (arith, has_text-append existing (c ∷ []) t))
]

-- What a route asks for: something in the automatic mode without a provider's id alone.
abbrev pub wanted : ProviderSelectionMode → Option String → Option String → List String
wanted auto none (some route) = route_capabilities (to_ascii_lowercase (trim route))
wanted _ _ _ = []

-- That a selector is another but for its preferences, which hold some capabilities more.
abbrev pub Adds : List String → ProviderSelector → ProviderSelector → Type 0
Adds cs s t =
    ((c : String)
      → has_text t.preferred_capabilities c
        ≡ (has_text s.preferred_capabilities c || has_text cs c))
    × (t.mode ≡ s.mode)
    × (t.provider_id ≡ s.provider_id)
    × (t.required_capabilities ≡ s.required_capabilities)

Adds-refl : (s : ProviderSelector) → Adds [] s s
Adds-refl s = (λ c. ground arith, refl, refl, refl)

with_preferences-Adds :
    (mode : ProviderSelectionMode) (id route : Option String) (s : ProviderSelector)
    → Adds (wanted mode id route) s (with_preferences mode id route s)
with_preferences-Adds provider id route s = Adds-refl s
with_preferences-Adds auto (some id) route s = Adds-refl s
with_preferences-Adds auto none none s = Adds-refl s
with_preferences-Adds auto none (some route) s =
    (λ c. has_text-add_missing _ s.preferred_capabilities c, refl, refl, refl)

-- A route that a synthesis request names adds the route's capabilities to the preferred ones, each
-- of which stays, if the mode is automatic and no provider is named, and nothing otherwise; mode,
-- provider and required capabilities stay.
pub apply_route_preferences-Adds :
    (s : ProviderSelector) (route : Option String)
    → Adds (wanted s.mode s.provider_id route) s (apply_route_preferences s route)
unfolding apply_route_preferences
apply_route_preferences-Adds s route = with_preferences-Adds s.mode s.provider_id route s
