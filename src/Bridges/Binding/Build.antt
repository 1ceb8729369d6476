-- ===== src/Bridges/Binding/Build.antt =====
-- What building a composite bridge promises.
use speechmesh.Common.{
  String, Bool, true, false, ◌≡◌, refl, List, [], ◌∷◌, ◌++◌, arith, all, has_text, ◌&&◌, not, map,
  Bool-cases, inl, inr, ap, sym, subst, ◌∙◌,
}
use mathlib.Core.List.{append_assoc, append-nil}
use speechmesh.Core.{ProviderDescriptor}
use speechmesh.Bridges.Error.{BridgeError, Result, ok, err}
use speechmesh.Bridges.Binding.{BridgeProviderBinding, is_nil, bind_descriptors, bind_bridges, new}

-- Whether no text of a list stands in it twice, or among those seen before.
abbrev pub fresh : List String → List String → Bool
fresh seen [] = true
fresh seen (x ∷ xs) = not (has_text seen x) && fresh (x ∷ seen) xs

abbrev see : List String → List String → List String
see seen [] = seen
see seen (x ∷ xs) = see (x ∷ seen) xs

fresh-append :
    (seen xs ys : List String) → fresh seen (xs ++ ys) ≡ (fresh seen xs && fresh (see seen xs) ys)
fresh-append seen [] ys = refl
fresh-append seen (x ∷ xs) ys = ground (arith, fresh-append (x ∷ seen) xs ys)

module _ {B : Type 0} (label : String) (descriptors : B → List ProviderDescriptor) where
  abbrev pub bind_all : B → List ProviderDescriptor → List (BridgeProviderBinding B)
  bind_all bridge ds =
      map (λ (d : ProviderDescriptor). record { descriptor = d; bridge = bridge }) ds

  abbrev ids : List ProviderDescriptor → List String
  ids ds = map (λ (d : ProviderDescriptor). d.id) ds

  -- Every provider of every bridge, in order.
  abbrev pub all_bindings : List B → List (BridgeProviderBinding B)
  all_bindings [] = []
  all_bindings (b ∷ bs) = bind_all b (descriptors b) ++ all_bindings bs

  abbrev pub all_ids : List B → List String
  all_ids [] = []
  all_ids (b ∷ bs) = ids (descriptors b) ++ all_ids bs

  abbrev Bound :
      B
      → List ProviderDescriptor
      → List String
      → List (BridgeProviderBinding B)
      → Result (List String × List (BridgeProviderBinding B))
      → Type 0
  Bound b ds seen acc (ok s) =
      (fresh seen (ids ds) ≡ true) × (s ≡ (see seen (ids ds), acc ++ bind_all b ds))
  Bound b ds seen acc (err e) = fresh seen (ids ds) ≡ false

  Bound-cons :
      (b : B) (d : ProviderDescriptor) (ds : List ProviderDescriptor) (seen : List String)
      (acc : List (BridgeProviderBinding B))
      (r : Result (List String × List (BridgeProviderBinding B)))
      → has_text seen d.id ≡ false
      → Bound b ds (d.id ∷ seen) (acc ++ record { descriptor = d; bridge = b } ∷ []) r
      → Bound b (d ∷ ds) seen acc r
  Bound-cons b d ds seen acc (ok s) unseen (f, e) = (
    ground (arith, unseen, f),
    e ∙ ap (λ l. (see (d.id ∷ seen) (ids ds), l)) (append_assoc acc _ (bind_all b ds)),
  )
  Bound-cons b d ds seen acc (err e) unseen f = ground (arith, unseen, f)

  bind_descriptors-Bound :
      (b : B) (ds : List ProviderDescriptor) (seen : List String)
      (acc : List (BridgeProviderBinding B))
      → Bound b ds seen acc (bind_descriptors label descriptors b ds (seen, acc))
  unfolding bind_descriptors
  bind_descriptors-Bound b [] seen acc = (refl, ap (λ l. (seen, l)) (sym (append-nil acc)))
  bind_descriptors-Bound b (d ∷ ds) seen acc = elim (Bool-cases (has_text seen d.id)) [
    | inl old ↦ rw old (ground (arith, old))
    | inr unseen ↦
        rw unseen
          (Bound-cons b d ds seen acc _ unseen (bind_descriptors-Bound b ds (d.id ∷ seen) _))
  ]

  abbrev provides : B → Bool
  provides b = not (is_nil label descriptors (descriptors b))

  -- What a build leads to. It binds every provider of every bridge, in order, where each bridge has
  -- some and no id stands twice; it fails where that is not so.
  abbrev pub Built :
      List B
      → List String
      → List (BridgeProviderBinding B)
      → Result (List (BridgeProviderBinding B))
      → Type 0
  Built bs seen acc (ok bindings) =
      (all provides bs ≡ true)
      × (fresh seen (all_ids bs) ≡ true)
      × (bindings ≡ acc ++ all_bindings bs)
  Built bs seen acc (err e) = (all provides bs && fresh seen (all_ids bs)) ≡ false

  Built-cons :
      (b : B) (bs : List B) (seen : List String) (acc : List (BridgeProviderBinding B))
      (r : Result (List (BridgeProviderBinding B)))
      → provides b ≡ true
      → fresh seen (ids (descriptors b)) ≡ true
      → Built bs (see seen (ids (descriptors b))) (acc ++ bind_all b (descriptors b)) r
      → Built (b ∷ bs) seen acc r
  Built-cons b bs seen acc (ok bindings) some_here unseen (p, f, e) = (
    ground (arith, some_here, p),
    ground (arith, unseen, f, fresh-append seen (ids (descriptors b)) (all_ids bs)),
    e ∙ append_assoc acc (bind_all b (descriptors b)) (all_bindings bs),
  )
  Built-cons b bs seen acc (err e) some_here unseen f =
      ground (arith, some_here, unseen, f, fresh-append seen (ids (descriptors b)) (all_ids bs))

  Built-old :
      (b : B) (bs : List B) (seen : List String)
      → fresh seen (ids (descriptors b)) ≡ false
      → (all provides (b ∷ bs) && fresh seen (all_ids (b ∷ bs))) ≡ false
  Built-old b bs seen f = ground (arith, f, fresh-append seen (ids (descriptors b)) (all_ids bs))

  step_ok :
      (b : B) (bs : List B) (s s' : List String × List (BridgeProviderBinding B))
      → is_nil label descriptors (descriptors b) ≡ false
      → bind_descriptors label descriptors b (descriptors b) s ≡ ok s'
      → bind_bridges label descriptors (b ∷ bs) s ≡ bind_bridges label descriptors bs s'
  unfolding bind_bridges
  step_ok b bs s s' some_here h = rw (some_here, h, bind_bridges) refl

  step_err :
      (b : B) (bs : List B) (s : List String × List (BridgeProviderBinding B)) (e : BridgeError)
      → is_nil label descriptors (descriptors b) ≡ false
      → bind_descriptors label descriptors b (descriptors b) s ≡ err e
      → bind_bridges label descriptors (b ∷ bs) s ≡ err e
  unfolding bind_bridges
  step_err b bs s e some_here h = rw (some_here, h, bind_bridges) refl

  Built-next :
      (b : B) (bs : List B) (seen : List String) (acc : List (BridgeProviderBinding B))
      (r : Result (List String × List (BridgeProviderBinding B)))
      → is_nil label descriptors (descriptors b) ≡ false
      → bind_descriptors label descriptors b (descriptors b) (seen, acc) ≡ r
      → Bound b (descriptors b) seen acc r
      → ((s : List String) (l : List (BridgeProviderBinding B))
          → Built bs s l (bind_bridges label descriptors bs (s, l)))
      → Built (b ∷ bs) seen acc (bind_bridges label descriptors (b ∷ bs) (seen, acc))
  Built-next b bs seen acc (ok s) some_here q (f, e) rest =
      subst (Built (b ∷ bs) seen acc) (sym (step_ok b bs (seen, acc) _ some_here (q ∙ ap ok e)))
        (Built-cons b bs seen acc _ (ground (arith, some_here)) f (rest _ _))
  Built-next b bs seen acc (err e) some_here q f rest =
      subst (Built (b ∷ bs) seen acc) (sym (step_err b bs (seen, acc) e some_here q))
        (Built-old b bs seen f)

  bind_bridges-Built :
      (bs : List B) (seen : List String) (acc : List (BridgeProviderBinding B))
      → Built bs seen acc (bind_bridges label descriptors bs (seen, acc))
  unfolding bind_bridges
  bind_bridges-Built [] seen acc = (refl, refl, sym (append-nil acc))
  bind_bridges-Built (b ∷ bs) seen acc =
      elim (Bool-cases (is_nil label descriptors (descriptors b))) [
        | inl empty ↦ rw (empty, bind_bridges) (ground (arith, empty))
        | inr some_here ↦
            Built-next b bs seen acc _ some_here refl
              (bind_descriptors-Bound b (descriptors b) seen acc) (bind_bridges-Built bs)
      ]

  -- Building a composite bridge binds every provider of every bridge, in order, where each bridge
  -- has some and no id stands twice among them all; it fails where that is not so.
  pub new-Built : (bs : List B) → Built bs [] [] (new label descriptors bs)
  unfolding new
  new-Built bs = bind_bridges-Built bs [] []
