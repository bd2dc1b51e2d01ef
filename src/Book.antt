-- ===== src/Book.antt =====
-- `BTreeMap`: an association list in the order of its keys. `insert` replaces the entry of a key or
-- adds one in order. The laws hold of every association list.
pub mod Sorted
use lightning_mesh.Prelude.{
  lt, eq, gt, arith, ◌≡◌, ◌≢◌, refl, List, [], ◌∷◌, Option, none, some, if◌then◌else◌,
}
use lightning_mesh.Order.{Ord, ◌==◌}

abbrev pub Book {ℓ κ} : Type ℓ → Type κ → Type (ℓ ⊔ κ)
Book K V = List (K × V)

module _ {ℓ κ} {K : Type ℓ} {V : Type κ} ⦃o : Ord K⦄ where
  unfoldable pub get : Book K V → K → Option V
  get [] k = none
  get ((j, v) ∷ m) k = if j == k then some v else get m k

  unfoldable pub insert : Book K V → K → V → Book K V
  insert [] k v = (k, v) ∷ []
  insert ((j, w) ∷ m) k v = elim (o.cmp k j) [
    | lt ↦ (k, v) ∷ (j, w) ∷ m
    | eq ↦ (k, v) ∷ m
    | gt ↦ (j, w) ∷ insert m k v
  ]

  unfoldable pub remove : Book K V → K → Book K V
  remove [] k = []
  remove ((j, w) ∷ m) k = let rest = remove m k in if j == k then rest else (j, w) ∷ rest

  pub get-insert :
      (m : Book K V) (k q : K) (v : V) → get (insert m k v) q ≡ (if k == q then some v else get m q)
  unfolding get insert
  get-insert [] k q v = refl
  get-insert ((j, w) ∷ m) k q v = ground (
    arith,
    get-insert m k q v,
    o.same_of_eq k j,
    o.same_of_eq k q,
    o.same_of_eq j q,
    o.cmp_self k,
    o.cmp_self q,
  )

  pub get-remove :
      (m : Book K V) (k q : K) → get (remove m k) q ≡ (if k == q then none else get m q)
  unfolding get remove
  get-remove [] k q = ground arith
  get-remove ((j, w) ∷ m) k q = ground (
    arith,
    get-remove m k q,
    o.same_of_eq j k,
    o.same_of_eq k q,
    o.same_of_eq j q,
    o.cmp_self q,
    o.cmp_self k,
  )

  pub get-insert_self : (m : Book K V) (k : K) (v : V) → get (insert m k v) k ≡ some v
  get-insert_self m k v = ground (arith, get-insert m k k v, o.cmp_self k)

  pub get-insert_ne : (m : Book K V) (k q : K) (v : V) → k ≢ q → get (insert m k v) q ≡ get m q
  get-insert_ne m k q v h = ground (arith, get-insert m k q v, o.same_of_eq k q)
