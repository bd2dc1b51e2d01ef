-- ===== src/Crdt/Register.antt =====
-- A register that keeps the best of the values that it receives, for any comparison with the laws
-- of a preorder: what the books hold at one key.
use lightning_mesh.Prelude.{
  Ordering, lt, eq, gt, ◌≡◌, ◌≢◌, ◌⊎◌, ◌↔◌, inl, inr, refl, sym, ap, ◌∙◌, List, [], ◌∷◌, Option,
  none, some, arith, In, Ordering-cases,
}
use lightning_mesh.Order.{IsTotalOrder, and_then}

-- The laws of a comparison that does not tell all values apart.
pub record IsRanking {ℓ} {V : Type ℓ} (rank : V → V → Ordering) : Type ℓ where
  pub rank_refl : (a : V) → rank a a ≡ eq
  pub below_of_gt : (a b : V) → rank a b ≡ gt → rank b a ≡ lt
  pub above_of_lt : (a b : V) → rank a b ≡ lt → rank b a ≡ gt
  pub le_trans : (a b c : V) → rank a b ≢ gt → rank b c ≢ gt → rank a c ≢ gt

-- A lawful comparison of a part of the values ranks them.
pub IsRanking-by {ℓ κ} :
    {V : Type ℓ} {K : Type κ} {cmp : K → K → Ordering} (f : V → K)
    → IsTotalOrder cmp
    → IsRanking {V = V} (λ a b. cmp (f a) (f b))
IsRanking-by f l = record {
  rank_refl = λ a. l.cmp_self (f a);
  below_of_gt = λ a b. l.below_of_gt (f a) (f b);
  above_of_lt = λ a b. l.above_of_lt (f a) (f b);
  le_trans = λ a b c h k.
      ground
        (arith, l.same_of_eq (f a) (f b), l.same_of_eq (f b) (f c), l.cmp_trans (f a) (f b) (f c));
}

module _ {ℓ} {V : Type ℓ} {rank : V → V → Ordering} (l : IsRanking rank) where
  -- The lower value ranks higher.
  pub IsRanking-flip : IsRanking {V = V} (λ a b. rank b a)
  IsRanking-flip = record {
    rank_refl = l.rank_refl;
    below_of_gt = λ a b. l.below_of_gt b a;
    above_of_lt = λ a b. l.above_of_lt b a;
    le_trans = λ a b c h k. l.le_trans c b a k h;
  }

  -- Values of equal rank are told apart by a second ranking.
  pub IsRanking-then :
      {next : V → V → Ordering}
      → IsRanking next
      → IsRanking {V = V} (λ a b. and_then (rank a b) (next a b))
  IsRanking-then {next} n = record {
    rank_refl = λ a. ground (arith, l.rank_refl a, n.rank_refl a);
    below_of_gt = λ a b.
        ground (arith, l.below_of_gt a b, l.below_of_gt b a, l.above_of_lt b a, n.below_of_gt a b);
    above_of_lt = λ a b.
        ground (arith, l.above_of_lt a b, l.below_of_gt b a, l.above_of_lt b a, n.above_of_lt a b);
    le_trans = λ a b c h k. ground (
      arith,
      l.le_trans a b c,
      l.le_trans b c a,
      l.le_trans c a b,
      l.below_of_gt a b,
      l.above_of_lt a b,
      l.below_of_gt b c,
      l.above_of_lt b c,
      l.below_of_gt c a,
      l.above_of_lt c a,
      n.le_trans a b c,
    );
  }

module _ {ℓ} {V : Type ℓ} (rank : V → V → Ordering) where
  -- The new value replaces the old one only if it ranks strictly higher.
  abbrev pub keep : V → V → V
  keep old new = elim (rank new old) [ gt ↦ new | _ ↦ old ]

  abbrev pub offer : Option V → V → Option V
  offer none new = some new
  offer (some old) new = some (keep old new)

  unfoldable pub settle : Option V → List V → Option V
  settle o [] = o
  settle o (v ∷ vs) = settle (offer o v) vs

  -- Values that rank equal are the same value.
  abbrev pub AreDistinct : List V → Type ℓ
  AreDistinct vs = (a b : V) → In a vs → In b vs → rank a b ≡ eq → a ≡ b

  abbrev pub IsBest : V → List V → Type ℓ
  IsBest best vs = In best vs × ((v : V) → In v vs → rank v best ≢ gt)

module _ {ℓ} {V : Type ℓ} {rank : V → V → Ordering} (lawful : IsRanking rank) where
  keep_le : (old new : V) → rank old (keep rank old new) ≢ gt
  keep_le old new = ground (arith, lawful.rank_refl old, lawful.below_of_gt new old)

  keep_ge : (old new : V) → rank new (keep rank old new) ≢ gt
  keep_ge old new = ground (arith, lawful.rank_refl new)

  -- What is kept is the old value or the new one.
  keep-cases : (old new : V) → (keep rank old new ≡ old) ⊎ (keep rank old new ≡ new)
  keep-cases old new = elim (Ordering-cases (rank new old)) [
    | inl e ↦ inr (rw (e, keep))
    | inr (inl e) ↦ inl (rw (e, keep))
    | inr (inr e) ↦ inl (rw (e, keep))
  ]

  pub In-keep :
      (old new v : V) (vs : List V) → In v (keep rank old new ∷ vs) → In v (old ∷ new ∷ vs)
  In-keep old new v vs (inl e) = elim (keep-cases old new) [
    | inl o ↦ inl (e ∙ o)
    | inr n ↦ inr (inl (e ∙ n))
  ]
  In-keep old new v vs (inr i) = inr (inr i)

  keep-top :
      (old new best : V) (vs : List V)
      → ((v : V) → In v (keep rank old new ∷ vs) → rank v best ≢ gt)
      → (v : V) → In v (old ∷ new ∷ vs)
      → rank v best ≢ gt
  keep-top old new best vs top v (inl e) =
      rw e (lawful.le_trans old (keep rank old new) best (keep_le old new) (top _ (inl refl)))
  keep-top old new best vs top v (inr (inl e)) =
      rw e (lawful.le_trans new (keep rank old new) best (keep_ge old new) (top _ (inl refl)))
  keep-top old new best vs top v (inr (inr i)) = top v (inr i)

  -- From a held value the register ends with the best of it and of the values received.
  pub settle-IsBest :
      (old : V) (vs : List V)
      → (best : V) × (settle rank (some old) vs ≡ some best) × IsBest rank best (old ∷ vs)
  unfolding settle
  settle-IsBest old [] = (old, refl, (inl refl, top))
    where
      top : (v : V) → In v (old ∷ []) → rank v old ≢ gt
      top v (inl e) = rw e (ground (arith, lawful.rank_refl old))
      top v (inr i) = elim i [ ]
  settle-IsBest old (new ∷ vs) =
      let (best, e, (mem, top)) = settle-IsBest (keep rank old new) vs in
      (best, e, (In-keep old new best vs mem, keep-top old new best vs top))

  -- Two of the best are one, where values that rank equal are the same.
  IsBest-unique :
      (a b : V) (vs : List V) → AreDistinct rank vs → IsBest rank a vs → IsBest rank b vs → a ≡ b
  IsBest-unique a b vs d (ma, ta) (mb, tb) =
      d a b ma mb (ground (arith, lawful.above_of_lt a b, ta b mb, tb a ma))

  settle-none-IsBest :
      (v : V) (vs : List V)
      → (best : V) × (settle rank none (v ∷ vs) ≡ some best) × IsBest rank best (v ∷ vs)
  unfolding settle
  settle-none-IsBest v vs = settle-IsBest v vs

  -- The register depends on the set of values received, and not on their order or repetition.
  pub settle_converges :
      (vs ws : List V)
      → AreDistinct rank vs
      → ((v : V) → In v vs ↔ In v ws)
      → settle rank none vs ≡ settle rank none ws
  settle_converges [] [] d same = refl
  settle_converges [] (w ∷ ws) d same = elim ((same w).1 (inl refl)) [ ]
  settle_converges (v ∷ vs) [] d same = elim ((same v).0 (inl refl)) [ ]
  settle_converges (v ∷ vs) (w ∷ ws) d same =
      let (a, ea, (ma, ta)) = settle-none-IsBest v vs in
      let (b, eb, (mb, tb)) = settle-none-IsBest w ws in
      let b_best : IsBest rank b (v ∷ vs) = ((same b).1 mb, λ x i. tb x ((same x).0 i)) in
      ea ∙ ap some (IsBest-unique a b (v ∷ vs) d (ma, ta) b_best) ∙ sym eb
