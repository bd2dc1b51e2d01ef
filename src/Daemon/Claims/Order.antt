-- ===== src/Daemon/Claims/Order.antt =====
-- The order that `sort_by` leaves: the head bears the least stamp, and no element is lost.
use lightning_mesh.Prelude.{List, [], ◌∷◌, ◌≡◌, ◌≢◌, ◌↔◌, inl, inr, arith, In, Ordering-cases, gt}
use lightning_mesh.Order.{text_ord, nat_ord}
use lightning_mesh.Crdt.Hlc.{Hlc, hlc_cmp, hlc_cmp-IsTotalOrder}
use lightning_mesh.Crdt.Register.{IsRanking, IsRanking-by}
use lightning_mesh.Daemon.Claims.Own.{insert_by, sort_by}

module _ {A : Type 0} (stamp : A → Hlc) where
  rank_laws : IsRanking {V = A} (λ a b. hlc_cmp (stamp a) (stamp b))
  rank_laws = IsRanking-by stamp hlc_cmp-IsTotalOrder

  In-insert_by : (x y : A) (ys : List A) → In y (insert_by stamp x ys) → In y (x ∷ ys)
  unfolding insert_by
  In-insert_by x y [] h = h
  In-insert_by x y (z ∷ ys) h = elim (Ordering-cases (hlc_cmp (stamp x) (stamp z))) [
    | inl over ↦ elim (rw (insert_by, over) at h) [
      | inl e ↦ inr (inl e)
      | inr i ↦ elim (In-insert_by x y ys i) [ inl e ↦ inl e | inr j ↦ inr (inr j) ]
    ]
    | inr (inl tie) ↦ rw (insert_by, tie) at h
    | inr (inr under) ↦ rw (insert_by, under) at h
  ]

  insert_by-In : (x y : A) (ys : List A) → In y (x ∷ ys) → In y (insert_by stamp x ys)
  unfolding insert_by
  insert_by-In x y [] h = h
  insert_by-In x y (z ∷ ys) h = elim (Ordering-cases (hlc_cmp (stamp x) (stamp z))) [
    | inl over ↦
        rw (insert_by, over)
          (elim h [
            | inl e ↦ inr (insert_by-In x y ys (inl e))
            | inr (inl e) ↦ inl e
            | inr (inr i) ↦ inr (insert_by-In x y ys (inr i))
          ])
    | inr (inl tie) ↦ rw (insert_by, tie) h
    | inr (inr under) ↦ rw (insert_by, under) h
  ]

  -- No element of the list has a lower stamp than its head.
  abbrev pub HeadIsLeast : List A → Type 0
  HeadIsLeast [] = Unit
  HeadIsLeast (x ∷ xs) = (y : A) → In y (x ∷ xs) → hlc_cmp (stamp x) (stamp y) ≢ gt

  insert_by-HeadIsLeast :
      (x : A) (ys : List A) → HeadIsLeast ys → HeadIsLeast (insert_by stamp x ys)
  unfolding insert_by
  insert_by-HeadIsLeast x [] least =
      λ y h. elim h [ inl e ↦ rw (e) (ground (arith, rank_laws.rank_refl x)) | inr i ↦ elim i [ ] ]
  insert_by-HeadIsLeast x (z ∷ ys) least = elim (Ordering-cases (hlc_cmp (stamp x) (stamp z))) [
    | inl over ↦ rw (insert_by, over) (above over)
    | inr (inl tie) ↦ rw (insert_by, tie) (below (ground (arith, tie)))
    | inr (inr under) ↦ rw (insert_by, under) (below (ground (arith, under)))
  ]
    where
      above :
          hlc_cmp (stamp x) (stamp z) ≡ gt
          → (y : A) → In y (z ∷ insert_by stamp x ys)
          → hlc_cmp (stamp z) (stamp y) ≢ gt
      above over y (inl e) = rw (e) (ground (arith, rank_laws.rank_refl z))
      above over y (inr i) = elim (In-insert_by x y ys i) [
        | inl e ↦ rw (e) (ground (arith, rank_laws.below_of_gt x z))
        | inr j ↦ least y (inr j)
      ]

      below :
          hlc_cmp (stamp x) (stamp z) ≢ gt
          → (y : A) → In y (x ∷ z ∷ ys)
          → hlc_cmp (stamp x) (stamp y) ≢ gt
      below le y (inl e) = rw (e) (ground (arith, rank_laws.rank_refl x))
      below le y (inr i) = rank_laws.le_trans x z y le (least y i)

  pub sort_by-HeadIsLeast : (xs : List A) → HeadIsLeast (sort_by stamp xs)
  unfolding sort_by
  sort_by-HeadIsLeast [] = tt
  sort_by-HeadIsLeast (x ∷ xs) = insert_by-HeadIsLeast x (sort_by stamp xs) (sort_by-HeadIsLeast xs)

  pub In-sort_by : (y : A) (xs : List A) → In y (sort_by stamp xs) ↔ In y xs
  unfolding sort_by
  In-sort_by y [] = (λ i. i, λ i. i)
  In-sort_by y (x ∷ xs) = (
    λ h. elim (In-insert_by x y (sort_by stamp xs) h) [
      | inl e ↦ inl e
      | inr i ↦ inr ((In-sort_by y xs).0 i)
    ],
    λ h.
        insert_by-In x y (sort_by stamp xs)
          (elim h [ inl e ↦ inl e | inr i ↦ inr ((In-sort_by y xs).1 i) ]),
  )
