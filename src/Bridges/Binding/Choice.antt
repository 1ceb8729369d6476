-- ===== src/Bridges/Binding/Choice.antt =====
-- What the choice of a provider promises.
use speechmesh.Common.{
  ℕ, ◌≤◌, String, Bool, true, false, ◌≡◌, refl, Option, none, some, List, [], ◌∷◌, arith,
  if◌then◌else◌, ltb, keep, find, find-some, find-none, ◌==◌, eq_iff, Memᴰ, Bool-cases,
  Option-cases, ◌⊎◌, ◌∙◌, ap, sym, inl, inr,
}
use speechmesh.Core.{ProviderDescriptor, ProviderSelectionMode, auto, provider}
use speechmesh.Bridges.Error.{Result, ok, err, unavailable}
use speechmesh.Bridges.Binding.{
  BridgeProviderBinding, descriptor_matches_required, max_from, max_by_key, Messages,
  select_provider, select_best, select_by,
}

module _ {ℓ} {A : Type ℓ} where
  pub not_in_nil : (a : A) → Memᴰ a [] → ⊥
  not_in_nil a m = elim m [ ]

  pub mem-cases : (a x : A) (xs : List A) → Memᴰ a (x ∷ xs) → (a ≡ x) ⊎ Memᴰ a xs
  mem-cases a x xs (Memᴰ.head e) = inl e
  mem-cases a x xs (Memᴰ.tail m) = inr m

  pub keep-mem :
      (p : A → Bool) (xs : List A) (a : A) → Memᴰ a (keep p xs) → Memᴰ a xs × (p a ≡ true)
  keep-mem p [] a m = elim m [ ]
  keep-mem p (x ∷ xs) a m = elim (Bool-cases (p x)) [
    | inl hit ↦ elim (mem-cases a x (keep p xs) (rw hit at m)) [
      | inl e ↦ (Memᴰ.head e, ap p e ∙ hit)
      | inr m' ↦ let (i, h) = keep-mem p xs a m' in (Memᴰ.tail i, h)
    ]
    | inr miss ↦ let (i, h) = keep-mem p xs a (rw miss at m) in (Memᴰ.tail i, h)
  ]

  pub mem-keep : (p : A → Bool) (xs : List A) (a : A) → Memᴰ a xs → p a ≡ true → Memᴰ a (keep p xs)
  mem-keep p [] a m h = elim m [ ]
  mem-keep p (x ∷ xs) a (Memᴰ.head e) h = rw (sym (ap p e) ∙ h) (Memᴰ.head e)
  mem-keep p (x ∷ xs) a (Memᴰ.tail m) h = elim (Bool-cases (p x)) [
    | inl hit ↦ rw hit (Memᴰ.tail (mem-keep p xs a m h))
    | inr miss ↦ rw miss (mem-keep p xs a m h)
  ]

  skip : (a b x : A) (xs : List A) → Memᴰ a (b ∷ xs) → Memᴰ a (b ∷ x ∷ xs)
  skip a b x xs (Memᴰ.head e) = Memᴰ.head e
  skip a b x xs (Memᴰ.tail m) = Memᴰ.tail (Memᴰ.tail m)

  module _ (key : A → ℕ) where
    pub max_from-mem : (best : A) (xs : List A) → Memᴰ (max_from key best xs) (best ∷ xs)
    unfolding max_from
    max_from-mem best [] = Memᴰ.head refl
    max_from-mem best (x ∷ xs) = elim (Bool-cases (ltb (key x) (key best))) [
      | inl less ↦ rw less (skip _ best x xs (max_from-mem best xs))
      | inr more ↦ rw more (Memᴰ.tail (max_from-mem x xs))
    ]

    pub best_max : (best : A) (xs : List A) → key best ≤ key (max_from key best xs)
    unfolding max_from
    best_max best [] = omega arith
    best_max best (x ∷ xs) = elim (Bool-cases (ltb (key x) (key best))) [
      | inl less ↦ rw less (best_max best xs)
      | inr more ↦ rw more (ground (arith, more, best_max x xs))
    ]

    pub max_from_max :
        (best : A) (xs : List A) (a : A) → Memᴰ a xs → key a ≤ key (max_from key best xs)
    unfolding max_from
    max_from_max best [] a m = elim m [ ]
    max_from_max best (x ∷ xs) a (Memᴰ.head e) = elim (Bool-cases (ltb (key x) (key best))) [
      | inl less ↦ rw less (ground (arith, less, ap key e, best_max best xs))
      | inr more ↦ rw more (ground (arith, more, ap key e, best_max x xs))
    ]
    max_from_max best (x ∷ xs) a (Memᴰ.tail m) = elim (Bool-cases (ltb (key x) (key best))) [
      | inl less ↦ rw less (max_from_max best xs a m)
      | inr more ↦ rw more (max_from_max x xs a m)
    ]

-- The best of a list that is not empty.
pub max_by_key-mem {ℓ} :
    {A : Type ℓ} (key : A → ℕ) (xs : List A) (b : A)
    → max_by_key key xs ≡ some b
    → Memᴰ b xs × ((a : A) → Memᴰ a xs → key a ≤ key b)
unfolding max_by_key
max_by_key-mem key [] b e = cc
max_by_key-mem key (x ∷ xs) b e =
    let q : max_from key x xs ≡ b = cc e in
    rw (sym q) (
      max_from-mem key x xs,
      λ a m. elim (mem-cases a x xs m) [
        | inl h ↦ ground (arith, ap key h, best_max key x xs)
        | inr i ↦ max_from_max key x xs a i
      ],
    )

pub max_by_key-none {ℓ} :
    {A : Type ℓ} (key : A → ℕ) (xs : List A) → max_by_key key xs ≡ none → xs ≡ []
unfolding max_by_key
max_by_key-none key [] e = refl
max_by_key-none key (x ∷ xs) e = cc

-- What the choice among bindings leads to. With an id, what is chosen is bound under it, and has
-- the required capabilities; without one, and in the automatic mode, it has them and no other
-- binding that has them scores higher. An error says that there is no such choice.
module _ {B : Type 0} (required : List String) (score : ProviderDescriptor → ℕ) where
  abbrev pub Qualifies : List (BridgeProviderBinding B) → BridgeProviderBinding B → Type 0
  Qualifies bindings b =
      Memᴰ b bindings × (descriptor_matches_required b.descriptor required ≡ true)

  abbrev pub Chooses :
      ProviderSelectionMode
      → Option String
      → List (BridgeProviderBinding B)
      → Result (BridgeProviderBinding B)
      → Type 0
  Chooses mode (some id) bindings (ok b) = Qualifies bindings b × (b.descriptor.id ≡ id)
  Chooses mode (some id) bindings (err e) =
      ((b : BridgeProviderBinding B) → Memᴰ b bindings → ¬ (b.descriptor.id ≡ id))
      ⊎ ((b : BridgeProviderBinding B) × Memᴰ b bindings
          × (b.descriptor.id ≡ id)
          × (descriptor_matches_required b.descriptor required ≡ false))
  Chooses auto none bindings (ok b) =
      Qualifies bindings b
      × ((c : BridgeProviderBinding B)
          → Qualifies bindings c
          → score c.descriptor ≤ score b.descriptor)
  Chooses auto none bindings (err e) =
      (b : BridgeProviderBinding B)
      → Memᴰ b bindings
      → descriptor_matches_required b.descriptor required ≡ false
  Chooses provider none bindings (ok b) = ⊥
  Chooses provider none bindings (err e) = Unit

  by_score :
      (messages : Messages) (bindings : List (BridgeProviderBinding B))
      → Chooses auto none bindings (select_best messages required score bindings)
  unfolding select_best
  by_score messages bindings =
      let p = λ (b : BridgeProviderBinding B). descriptor_matches_required b.descriptor required in
      let key = λ (b : BridgeProviderBinding B). score b.descriptor in
      elim (Option-cases (max_by_key key (keep p bindings))) [
        | inl e ↦
            let empty = max_by_key-none key (keep p bindings) e in
            rw (e, select_best)
              (λ b m. elim (Bool-cases (p b)) [
                | inl hit ↦ absurd (not_in_nil b (rw empty at (mem-keep p bindings b m hit)))
                | inr miss ↦ miss
              ])
        | inr (b, e) ↦
            let (m, best) = max_by_key-mem key (keep p bindings) b e in
            rw (e, select_best)
              (keep-mem p bindings b m, λ c q. best c (mem-keep p bindings c q.0 q.1))
      ]

  absent :
      (messages : Messages) (id : String) (bindings : List (BridgeProviderBinding B))
      → find (λ (b : BridgeProviderBinding B). b.descriptor.id == id) bindings ≡ none
      → select_provider messages required id bindings
        ≡ err (unavailable (messages.not_installed id))
  unfolding select_provider
  absent messages id bindings e = rw (e, select_provider) refl

  present :
      (messages : Messages) (id : String) (bindings : List (BridgeProviderBinding B))
      (b : BridgeProviderBinding B)
      → find (λ (c : BridgeProviderBinding B). c.descriptor.id == id) bindings ≡ some b
      → select_provider messages required id bindings ≡ (
          if descriptor_matches_required b.descriptor required
          then ok b
          else err (unavailable (messages.lacking id)))
  unfolding select_provider
  present messages id bindings b e = rw (e, select_provider) refl

  by_id :
      (messages : Messages) (mode : ProviderSelectionMode) (id : String)
      (bindings : List (BridgeProviderBinding B))
      → Chooses mode (some id) bindings (select_provider messages required id bindings)
  by_id messages mode id bindings =
      let p = λ (b : BridgeProviderBinding B). b.descriptor.id == id in
      elim (Option-cases (find p bindings)) [
        | inl e ↦ rw (absent messages id bindings e) (
            inl (λ b m same.
              ground (arith, find-none p bindings b e m, (eq_iff b.descriptor.id id).1 same)))
        | inr (b, e) ↦
            let (m, at) = find-some p bindings b e in
            let same = (eq_iff b.descriptor.id id).0 at in
            elim (Bool-cases (descriptor_matches_required b.descriptor required)) [
              | inl hit ↦ rw (present messages id bindings b e) (rw hit ((m, hit), same))
              | inr miss ↦ rw (present messages id bindings b e) (rw miss (inr (b, m, same, miss)))
            ]
      ]

  -- With a provider's id, what is chosen is bound under it and has the required capabilities, and
  -- an error says that no binding has the id or that one with it lacks a capability. Without an
  -- id, the automatic mode chooses a binding with the required capabilities than which none that
  -- has them scores higher, and fails only if none has them; the provider mode fails.
  pub select_by-Chooses :
      (messages : Messages) (mode : ProviderSelectionMode) (provider_id : Option String)
      (bindings : List (BridgeProviderBinding B))
      → Chooses mode provider_id bindings
          (select_by messages required mode provider_id score bindings)
  unfolding select_by
  select_by-Chooses messages provider none bindings = tt
  select_by-Chooses messages auto none bindings = by_score messages bindings
  select_by-Chooses messages mode (some id) bindings = by_id messages mode id bindings
