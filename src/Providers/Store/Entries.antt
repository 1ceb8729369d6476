-- ===== src/Providers/Store/Entries.antt =====
-- The list of installed providers as a map from ids: the changes of it in
-- speechmeshd/src/providers.rs.
use speechmesh.Common.{
  ◌≡◌, refl, ◌==◌, String, none, some, List, [], ◌∷◌, ◌++◌, if◌then◌else◌, arith, eq_iff,
}
use speechmesh.Common.Sorting.{IsUnique}
use speechmesh.Providers.{InstalledAsrProvider}
use speechmesh.Providers.Store.{lookup, update_first, remove_first}

abbrev pub IsUniqueById : List InstalledAsrProvider → Type 0
IsUniqueById ps = IsUnique (λ (p : InstalledAsrProvider). p.provider_id) ps

pub lookup-id :
    (id : String) (ps : List InstalledAsrProvider) (e : InstalledAsrProvider)
    → lookup id ps ≡ some e
    → e.provider_id ≡ id
lookup-id id [] e h = cc
lookup-id id (p ∷ ps) e h = ground (arith, eq_iff p.provider_id id, lookup-id id ps e)

pub lookup-append :
    (id k : String) (q : InstalledAsrProvider) (ps : List InstalledAsrProvider)
    → q.provider_id ≡ id
    → lookup id ps ≡ none
    → lookup k (ps ++ q ∷ []) ≡ (if id == k then some q else lookup k ps)
lookup-append id k q [] e h = rw e refl
lookup-append id k q (p ∷ ps) e h =
    ground (
      arith,
      eq_iff p.provider_id id,
      eq_iff p.provider_id k,
      eq_iff id k,
      lookup-append id k q ps e,
    )

pub append-IsUnique :
    (q : InstalledAsrProvider) (ps : List InstalledAsrProvider)
    → lookup q.provider_id ps ≡ none
    → IsUniqueById ps
    → IsUniqueById (ps ++ q ∷ [])
append-IsUnique q [] h u = (refl, tt)
append-IsUnique q (p ∷ ps) h u = ground (
  arith,
  eq_iff p.provider_id q.provider_id,
  eq_iff q.provider_id p.provider_id,
  lookup-append q.provider_id p.provider_id q ps refl,
  append-IsUnique q ps,
)

module _ (id : String) (q : InstalledAsrProvider) (same : q.provider_id ≡ id) where
  pub lookup-update_first :
      (k : String) (ps : List InstalledAsrProvider) (e : InstalledAsrProvider)
      → lookup id ps ≡ some e
      → lookup k (update_first id q ps) ≡ (if id == k then some q else lookup k ps)
  unfolding update_first
  lookup-update_first k [] e h = cc
  lookup-update_first k (p ∷ ps) e h = ground (
    arith,
    same,
    eq_iff p.provider_id id,
    eq_iff q.provider_id k,
    eq_iff p.provider_id k,
    eq_iff id k,
    lookup-update_first k ps e,
  )

  pub update_first-IsUnique :
      (ps : List InstalledAsrProvider) (e : InstalledAsrProvider)
      → lookup id ps ≡ some e
      → IsUniqueById ps
      → IsUniqueById (update_first id q ps)
  unfolding update_first
  update_first-IsUnique [] e h u = tt
  update_first-IsUnique (p ∷ ps) e h u = ground (
    arith,
    same,
    eq_iff p.provider_id id,
    eq_iff id p.provider_id,
    lookup-update_first p.provider_id ps e,
    update_first-IsUnique ps e,
  )

pub lookup-remove_first :
    (id k : String) (ps : List InstalledAsrProvider)
    → IsUniqueById ps
    → lookup k (remove_first id ps) ≡ (if id == k then none else lookup k ps)
unfolding remove_first
lookup-remove_first id k [] u = ground arith
lookup-remove_first id k (p ∷ ps) u = ground (
  arith,
  eq_iff p.provider_id id,
  eq_iff p.provider_id k,
  eq_iff id k,
  lookup-remove_first id k ps u.1,
)

pub remove_first-IsUnique :
    (id : String) (ps : List InstalledAsrProvider)
    → IsUniqueById ps
    → IsUniqueById (remove_first id ps)
unfolding remove_first
remove_first-IsUnique id [] u = tt
remove_first-IsUnique id (p ∷ ps) u = ground (
  arith,
  eq_iff p.provider_id id,
  eq_iff id p.provider_id,
  lookup-remove_first id p.provider_id ps u.1,
  remove_first-IsUnique id ps u.1,
)
