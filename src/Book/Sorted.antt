-- ===== src/Book/Sorted.antt =====
-- The invariant of a `BTreeMap`: its keys ascend strictly, so that an entry is in the map exactly if
-- a lookup of its key finds it.
use lightning_mesh.Prelude.{
  lt, arith, ◌≡◌, inl, inr, refl, ap, [], ◌∷◌, none, some, In, ◌⊎◌, Ordering-cases,
}
use lightning_mesh.Order.{Ord}
use lightning_mesh.Book.{Book, get, insert, remove}

module _ {ℓ κ} {K : Type ℓ} {V : Type κ} ⦃o : Ord K⦄ where
  -- Every key of the book lies above `k`.
  abbrev pub Above : K → Book K V → Type 0
  Above k [] = Unit
  Above k (e ∷ m) = (o.cmp k e.0 ≡ lt) × Above k m

  abbrev pub IsSorted : Book K V → Type 0
  IsSorted [] = Unit
  IsSorted (e ∷ m) = Above e.0 m × IsSorted m

  Above-trans : (j k : K) (m : Book K V) → o.cmp j k ≡ lt → Above k m → Above j m
  Above-trans j k [] h a = tt
  Above-trans j k (e ∷ m) h a = (o.cmp_trans j k e.0 h a.0, Above-trans j k m h a.1)

  pub get-Above : (k : K) (m : Book K V) → Above k m → get m k ≡ none
  unfolding get
  get-Above k [] a = refl
  get-Above k ((j, w) ∷ m) a = ground (arith, get-Above k m a.1, o.above_of_lt k j a.0)

  insert-Above :
      (j k : K) (v : V) (m : Book K V) → o.cmp j k ≡ lt → Above j m → Above j (insert m k v)
  unfolding insert
  insert-Above j k v [] h a = (h, tt)
  insert-Above j k v ((i, w) ∷ m) h a = ground (arith, insert-Above j k v m h a.1)

  pub insert-IsSorted : (m : Book K V) (k : K) (v : V) → IsSorted m → IsSorted (insert m k v)
  unfolding insert
  insert-IsSorted [] k v s = (tt, tt)
  insert-IsSorted ((j, w) ∷ m) k v s = ground (
    arith,
    insert-IsSorted m k v s.1,
    insert-Above j k v m,
    Above-trans k j m,
    o.below_of_gt k j,
    o.same_of_eq k j,
  )

  remove-Above : (j k : K) (m : Book K V) → Above j m → Above j (remove m k)
  unfolding remove
  remove-Above j k [] a = tt
  remove-Above j k ((i, w) ∷ m) a = ground (arith, remove-Above j k m a.1)

  pub remove-IsSorted : (m : Book K V) (k : K) → IsSorted m → IsSorted (remove m k)
  unfolding remove
  remove-IsSorted [] k s = tt
  remove-IsSorted ((j, w) ∷ m) k s = ground (arith, remove-IsSorted m k s.1, remove-Above j k m s.0)

  pub In-get : (m : Book K V) (k : K) (v : V) → get m k ≡ some v → In {A = K × V} (k, v) m
  unfolding get
  In-get [] k v h = cc
  In-get ((j, w) ∷ m) k v h = ground (arith, In-get m k v, o.same_of_eq j k)

  Above-In : (j k : K) (v : V) (m : Book K V) → Above j m → In {A = K × V} (k, v) m → o.cmp j k ≡ lt
  Above-In j k v [] a i = elim i [ ]
  Above-In j k v (e ∷ m) a (inl p) = rw (ap (λ (x : K × V). x.0) p) a.0
  Above-In j k v (e ∷ m) a (inr i) = Above-In j k v m a.1 i

  pub get-In :
      (m : Book K V) (k : K) (v : V) → IsSorted m → In {A = K × V} (k, v) m → get m k ≡ some v
  unfolding get
  get-In [] k v s i = elim i [ ]
  get-In ((j, w) ∷ m) k v s (inl p) = ground (arith, o.cmp_self j)
  get-In ((j, w) ∷ m) k v s (inr i) = ground (arith, get-In m k v s.1 i, Above-In j k v m s.0 i)

  -- An entry of a book after an insert is the new one, or stood there before.
  pub In-insert :
      (m : Book K V) (k q : K) (v w : V)
      → In {A = K × V} (q, w) (insert m k v)
      → ((q ≡ k) × (w ≡ v)) ⊎ In {A = K × V} (q, w) m
  unfolding insert
  In-insert [] k q v w (inl e) = inl (ap (λ (x : K × V). x.0) e, ap (λ (x : K × V). x.1) e)
  In-insert [] k q v w (inr i) = elim i [ ]
  In-insert ((j, u) ∷ m) k q v w i = elim (Ordering-cases (o.cmp k j)) [
    | inl g ↦
        let split : In {A = K × V} (q, w) ((j, u) ∷ insert m k v) = rw (insert, g) at i in
        elim split [
          | inl e ↦ inr (inl e)
          | inr r ↦ elim (In-insert m k q v w r) [ inl x ↦ inl x | inr y ↦ inr (inr y) ]
        ]
    | inr (inl g) ↦
        let split : In {A = K × V} (q, w) ((k, v) ∷ m) = rw (insert, g) at i in
        elim split [
          | inl e ↦ inl (ap (λ (x : K × V). x.0) e, ap (λ (x : K × V). x.1) e)
          | inr r ↦ inr (inr r)
        ]
    | inr (inr g) ↦
        let split : In {A = K × V} (q, w) ((k, v) ∷ (j, u) ∷ m) = rw (insert, g) at i in
        elim split [
          | inl e ↦ inl (ap (λ (x : K × V). x.0) e, ap (λ (x : K × V). x.1) e)
          | inr r ↦ inr r
        ]
  ]
