-- ===== src/Providers/Status/Table.antt =====
-- What the table of list_provider_statuses, of speechmeshd/src/providers.rs, says of an id.
use speechmesh.Common.{
  ◌≡◌, refl, ◌==◌, String, Option, none, some, List, [], ◌∷◌, ◌++◌, any, map, map_option, or_else,
  arith, eq_iff, is_some,
}
use speechmesh.Common.HashMap.{HashMap, get, insert, get-insert}
use speechmesh.Common.Order.{text_leb_total}
use speechmesh.Common.Sorting.{
  find_key, IsUnique, IsOrdered, find_key-sort_by, sort_by-IsUnique, sort_by-IsOrdered,
}
use speechmesh.Providers.{
  InstalledAsrProvider, InstalledAsrProvidersConfig, AsrProviderCatalog, CatalogAsrProvider,
  ProviderInstallStatus,
}
use speechmesh.Providers.Store.{lookup}
use speechmesh.Providers.Store.Entries.{IsUniqueById}
use speechmesh.Providers.Status.{
  by_id, catalog_row, installed_row, row_id, add_rows, first_rows, row_leb, list_provider_statuses,
}

get-by_id :
    (k : String) (ps : List InstalledAsrProvider) (m : HashMap InstalledAsrProvider)
    → IsUniqueById ps
    → get k (by_id ps m) ≡ or_else (lookup k ps) (get k m)
unfolding by_id
get-by_id k [] m u = refl
get-by_id k (p ∷ ps) m u = ground (
  arith,
  eq_iff p.provider_id k,
  get-by_id k ps (insert p.provider_id p m) u.1,
  get-insert p.provider_id k p m,
)

module _ {ℓ} {A : Type ℓ} (key : A → String) where
  find_key-append :
      (k : String) (xs ys : List A)
      → find_key key k (xs ++ ys) ≡ or_else (find_key key k xs) (find_key key k ys)
  find_key-append k [] ys = refl
  find_key-append k (x ∷ xs) ys = ground (arith, find_key-append k xs ys)

  any-find_key :
      (k : String) (xs : List A) → any (λ (x : A). key x == k) xs ≡ is_some (find_key key k xs)
  any-find_key k [] = refl
  any-find_key k (x ∷ xs) = ground (arith, any-find_key k xs)

  append-IsUnique :
      (xs : List A) (y : A)
      → find_key key (key y) xs ≡ none
      → IsUnique key xs
      → IsUnique key (xs ++ y ∷ [])
  append-IsUnique [] y h u = (refl, tt)
  append-IsUnique (x ∷ xs) y h u = ground (
    arith,
    eq_iff (key x) (key y),
    eq_iff (key y) (key x),
    find_key-append (key x) xs (y ∷ []),
    append-IsUnique xs y,
  )

add_rows-IsUnique :
    (ps : List InstalledAsrProvider) (rows : List ProviderInstallStatus)
    → IsUnique row_id rows
    → IsUnique row_id (add_rows ps rows)
unfolding add_rows
add_rows-IsUnique [] rows u = u
add_rows-IsUnique (p ∷ ps) rows u = add_rows-IsUnique ps _ (
    ground (
      arith,
      u,
      any-find_key row_id p.provider_id rows,
      append-IsUnique row_id rows (installed_row p),
    ))

find_key-add_rows :
    (k : String) (ps : List InstalledAsrProvider) (rows : List ProviderInstallStatus)
    → find_key row_id k (add_rows ps rows)
      ≡ or_else (find_key row_id k rows) (map_option installed_row (lookup k ps))
unfolding add_rows
find_key-add_rows k [] rows = ground arith
find_key-add_rows k (p ∷ ps) rows = ground (
  arith,
  any-find_key row_id p.provider_id rows,
  find_key-append row_id k rows (installed_row p ∷ []),
  eq_iff p.provider_id k,
  find_key-add_rows k ps rows,
  find_key-add_rows k ps (rows ++ installed_row p ∷ []),
)

abbrev id_of : CatalogAsrProvider → String
id_of p = p.provider_id

-- The row that an id should have.
abbrev pub row_of :
    Option CatalogAsrProvider → Option InstalledAsrProvider → Option ProviderInstallStatus
row_of (some c) installed = some (catalog_row installed c)
row_of none (some p) = some (installed_row p)
row_of none none = none

abbrev pub in_catalog : String → Option AsrProviderCatalog → Option CatalogAsrProvider
in_catalog k none = none
in_catalog k (some catalog) = find_key id_of k catalog.providers

abbrev pub IsUniqueCatalog : Option AsrProviderCatalog → Type 0
IsUniqueCatalog none = Unit
IsUniqueCatalog (some catalog) = IsUnique id_of catalog.providers

catalog_rows :
    (k : String) (ps : List InstalledAsrProvider) (cs : List CatalogAsrProvider)
    → IsUniqueById ps
    → find_key row_id k
        (map (λ (p : CatalogAsrProvider). catalog_row (get p.provider_id (by_id ps [])) p) cs)
      ≡ map_option (catalog_row (lookup k ps)) (find_key id_of k cs)
unfolding get
catalog_rows k ps [] u = refl
catalog_rows k ps (c ∷ cs) u =
    ground (arith, eq_iff c.provider_id k, get-by_id c.provider_id ps [] u, catalog_rows k ps cs u)

installed_rows :
    (k : String) (ps : List InstalledAsrProvider)
    → find_key row_id k (map installed_row ps) ≡ map_option installed_row (lookup k ps)
installed_rows k [] = refl
installed_rows k (p ∷ ps) = ground (arith, installed_rows k ps)

catalog_rows-IsUnique :
    (ps : List InstalledAsrProvider) (cs : List CatalogAsrProvider)
    → IsUniqueById ps
    → IsUnique id_of cs
    → IsUnique row_id
        (map (λ (p : CatalogAsrProvider). catalog_row (get p.provider_id (by_id ps [])) p) cs)
catalog_rows-IsUnique ps [] u v = tt
catalog_rows-IsUnique ps (c ∷ cs) u v =
    (rw (catalog_rows c.provider_id ps cs u, v.0) refl, catalog_rows-IsUnique ps cs u v.1)

installed_rows-IsUnique :
    (ps : List InstalledAsrProvider) → IsUniqueById ps → IsUnique row_id (map installed_row ps)
installed_rows-IsUnique [] u = tt
installed_rows-IsUnique (p ∷ ps) u =
    (rw (installed_rows p.provider_id ps, u.0) refl, installed_rows-IsUnique ps u.1)

add_rows-first_rows :
    (k : String) (catalog : Option AsrProviderCatalog) (ps : List InstalledAsrProvider)
    → IsUniqueById ps
    → IsUniqueCatalog catalog
    → IsUnique row_id (add_rows ps (first_rows catalog ps))
      × (find_key row_id k (add_rows ps (first_rows catalog ps))
          ≡ row_of (in_catalog k catalog) (lookup k ps))
add_rows-first_rows k none ps u v = (
  add_rows-IsUnique ps _ (installed_rows-IsUnique ps u),
  ground (arith, find_key-add_rows k ps (map installed_row ps), installed_rows k ps),
)
add_rows-first_rows k (some catalog) ps u v = (
  add_rows-IsUnique ps _ (catalog_rows-IsUnique ps catalog.providers u v),
  rw (find_key-add_rows k ps (first_rows (some catalog) ps), catalog_rows k ps catalog.providers u)
      (ground arith),
)

-- Where the ids of the state are unique, and those of the catalog if there is one, the table is in
-- the order of the ids, each of which has one row at most. An id has a row exactly if it stands in
-- the catalog or is installed, and the row is that of the catalog's provider with what is
-- installed, or else that of the installed one.
pub list_provider_statuses-row_of :
    (catalog : Option AsrProviderCatalog) (state : InstalledAsrProvidersConfig)
    → IsUniqueById state.providers
    → IsUniqueCatalog catalog
    → IsOrdered row_id (list_provider_statuses catalog state)
      × IsUnique row_id (list_provider_statuses catalog state)
      × ((k : String)
          → find_key row_id k (list_provider_statuses catalog state)
            ≡ row_of (in_catalog k catalog) (lookup k state.providers))
unfolding list_provider_statuses
list_provider_statuses-row_of catalog state u v =
    let all_rows = add_rows state.providers (first_rows catalog state.providers) in
    let unique = (add_rows-first_rows "" catalog state.providers u v).0 in
    (
      sort_by-IsOrdered row_id row_leb (λ x y h. h)
          (λ x y h. text_leb_total (row_id x) (row_id y) h) all_rows,
      sort_by-IsUnique row_id row_leb all_rows unique,
      λ k.
          rw (find_key-sort_by row_id row_leb k all_rows unique)
            (add_rows-first_rows k catalog state.providers u v).1,
    )
