-- ===== src/Bootstrap/Ranks.antt =====
-- Which nodes are candidates, and how many.
use lightning_mesh.Prelude.{
  ℕ, true, false, ◌||◌, List, [], ◌∷◌, ◌++◌, ◌≡◌, ◌≢◌, ◌≤◌, ◌<◌, refl, ap, sym, ◌∙◌, arith, inl,
  inr, ◌⊎◌, length, Bool-cases, suc,
}
use lightning_mesh.Order.{Text, ◌==◌, leb, nat_ord, text_ord, eq_of_==, ==_of_eq, ==_refl}
use lightning_mesh.Bootstrap.{has_id, take_ids}

-- No id stands twice.
abbrev pub Distinct : List Text → Type 0
Distinct [] = Unit
Distinct (id ∷ ids) = (has_id id ids ≡ false) × Distinct ids

pub has_id-append :
    (q : Text) (xs ys : List Text) → has_id q (xs ++ ys) ≡ has_id q xs || has_id q ys
has_id-append q [] ys = refl
has_id-append q (x ∷ xs) ys = ground (arith, has_id-append q xs ys)

length-snoc : (xs : List Text) (x : Text) → length (xs ++ x ∷ []) ≡ suc (length xs)
length-snoc [] x = refl
length-snoc (y ∷ xs) x = ap suc (length-snoc xs x)

Distinct-snoc :
    (xs : List Text) (x : Text) → Distinct xs → has_id x xs ≡ false → Distinct (xs ++ x ∷ [])
Distinct-snoc [] x d h = (refl, tt)
Distinct-snoc (y ∷ xs) x (n, d) h = (
  ground (arith, has_id-append y xs (x ∷ []), eq_of_== x y, ==_refl y),
  Distinct-snoc xs x d (ground arith),
)

-- What the loop takes: the ids that it had, and others of the tiers.
module _ (self_id : Text) (cap : ℕ) where
  -- The loop's invariant: the ids taken are those seen.
  abbrev pub Same : List Text → List Text → Type 0
  Same seen ordered = (q : Text) → has_id q seen ≡ has_id q ordered

  Same-step :
      (seen ordered : List Text) (id : Text)
      → Same seen ordered
      → Same (id ∷ seen) (ordered ++ id ∷ [])
  Same-step seen ordered id same q = ground (arith, same q, has_id-append q ordered (id ∷ []))

  pub take_ids-Distinct :
      (seen ordered tiers : List Text)
      → Same seen ordered
      → Distinct ordered
      → Distinct (take_ids self_id cap seen ordered tiers)
  unfolding take_ids
  take_ids-Distinct seen ordered [] same d = d
  take_ids-Distinct seen ordered (id ∷ tiers) same d =
      elim (Bool-cases (id == self_id || has_id id seen)) [
        | inl t ↦ rw (take_ids, t) (take_ids-Distinct seen ordered tiers same d)
        | inr t ↦
            let fresh : has_id id ordered ≡ false = ground (arith, same id) in
            let d' = Distinct-snoc ordered id d fresh in
            elim (Bool-cases (leb cap (length (ordered ++ id ∷ [])))) [
              | inl u ↦ rw (take_ids, t, u) d'
              | inr u ↦
                  rw (take_ids, t, u)
                    (take_ids-Distinct (id ∷ seen) (ordered ++ id ∷ []) tiers
                      (Same-step seen ordered id same) d')
            ]
      ]

  pub take_ids-length :
      (seen ordered tiers : List Text)
      → length ordered < cap
      → length (take_ids self_id cap seen ordered tiers) ≤ cap
  unfolding take_ids
  take_ids-length seen ordered [] h = omega arith
  take_ids-length seen ordered (id ∷ tiers) h =
      elim (Bool-cases (id == self_id || has_id id seen)) [
        | inl t ↦ rw (take_ids, t) (take_ids-length seen ordered tiers h)
        | inr t ↦ elim (Bool-cases (leb cap (length (ordered ++ id ∷ [])))) [
          | inl u ↦ rw (take_ids, t, u) (omega (arith, length-snoc ordered id))
          | inr u ↦
              rw (take_ids, t, u)
                (take_ids-length (id ∷ seen) (ordered ++ id ∷ []) tiers (ground arith))
        ]
      ]

  -- An id that is taken was taken before, or is another node's of the tiers.
  pub take_ids_sound :
      (seen ordered tiers : List Text) (q : Text)
      → has_id q (take_ids self_id cap seen ordered tiers) ≡ true
      → (has_id q ordered ≡ true) ⊎ ((has_id q tiers ≡ true) × (q ≢ self_id))
  unfolding take_ids
  take_ids_sound seen ordered [] q h = inl h
  take_ids_sound seen ordered (id ∷ tiers) q h =
      elim (Bool-cases (id == self_id || has_id id seen)) [
        | inl t ↦ elim (take_ids_sound seen ordered tiers q (rw (take_ids, t) at h)) [
          | inl old ↦ inl old
          | inr (new, ne) ↦ inr (ground arith, ne)
        ]
        | inr t ↦
            let here : (has_id q (ordered ++ id ∷ []) ≡ true)
                → (has_id q ordered ≡ true) ⊎ ((has_id q (id ∷ tiers) ≡ true) × (q ≢ self_id)) =
              λ k. elim (Bool-cases (has_id q ordered)) [
                | inl o ↦ inl o
                | inr o ↦
                    let same : id ≡ q =
                      ground (arith, has_id-append q ordered (id ∷ []), eq_of_== id q) in
                    inr (
                      ground (arith, ==_of_eq id q same),
                      λ z. ground (arith, ==_of_eq id self_id (same ∙ z)),
                    )
              ] in
            elim (Bool-cases (leb cap (length (ordered ++ id ∷ [])))) [
              | inl u ↦ here (rw (take_ids, t, u) at h)
              | inr u ↦
                  elim (take_ids_sound (id ∷ seen) (ordered ++ id ∷ []) tiers q
                    (rw (take_ids, t, u) at h)) [
                      | inl old ↦ here old
                      | inr (new, ne) ↦ inr (ground arith, ne)
                    ]
            ]
      ]

  -- Below the bound, every other node of the tiers is taken.
  pub take_ids_complete :
      (seen ordered tiers : List Text) (q : Text)
      → Same seen ordered
      → (has_id q ordered ≡ true) ⊎ ((has_id q tiers ≡ true) × (q ≢ self_id))
      → (has_id q (take_ids self_id cap seen ordered tiers) ≡ true)
        ⊎ (cap ≤ length (take_ids self_id cap seen ordered tiers))
  unfolding take_ids
  take_ids_complete seen ordered [] q same (inl o) = inl o
  take_ids_complete seen ordered [] q same (inr (h, ne)) = absurd (cc h)
  take_ids_complete seen ordered (id ∷ tiers) q same w =
      elim (Bool-cases (id == self_id || has_id id seen)) [
        | inl t ↦
            rw (take_ids, t)
              (take_ids_complete seen ordered tiers q same (elim w [
                | inl o ↦ inl o
                | inr (h, ne) ↦ elim (Bool-cases (id == q)) [
                  | inr n ↦ inr (ground arith, ne)
                  | inl e ↦
                      let e' : id ≡ q = eq_of_== id q e in
                      inl (ground (arith, same q, eq_of_== id self_id, sym e', ne))
                ]
              ]))
        | inr t ↦ elim (Bool-cases (leb cap (length (ordered ++ id ∷ [])))) [
          | inl u ↦ inr (rw (take_ids, t, u) (ground arith))
          | inr u ↦
              rw (take_ids, t, u)
                (take_ids_complete (id ∷ seen) (ordered ++ id ∷ []) tiers q
                  (Same-step seen ordered id same)
                  (elim w [
                    | inl o ↦ inl (ground (arith, has_id-append q ordered (id ∷ [])))
                    | inr (h, ne) ↦ elim (Bool-cases (id == q)) [
                      | inr n ↦ inr (ground arith, ne)
                      | inl e ↦ inl (ground (arith, has_id-append q ordered (id ∷ [])))
                    ]
                  ]))
        ]
      ]
