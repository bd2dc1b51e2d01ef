-- ===== src/Order.antt =====
-- Rust's `Ord`: a three-way comparison with its laws, `Ordering::then`, and the comparisons derived
-- from it. A Rust `String` is its sequence of bytes, ordered lexicographically.
use lightning_mesh.Prelude.{
  ℕ, compare, Ordering, lt, eq, gt, Bool, true, false, arith, ◌≡◌, ◌≢◌, List, [], ◌∷◌, refl,
}
use Prim.Native.Char.{code}
use Prim.Native.String.{String}

-- What Rust asks of `Ord::cmp`, where `Equal` means the same value.
pub record IsTotalOrder {ℓ} {K : Type ℓ} (cmp : K → K → Ordering) : Type ℓ where
  pub cmp_trans : (a b c : K) → cmp a b ≡ lt → cmp b c ≡ lt → cmp a c ≡ lt
  pub same_of_eq : (a b : K) → cmp a b ≡ eq → a ≡ b
  pub cmp_self : (a : K) → cmp a a ≡ eq
  pub above_of_lt : (a b : K) → cmp a b ≡ lt → cmp b a ≡ gt
  pub below_of_gt : (a b : K) → cmp a b ≡ gt → cmp b a ≡ lt

pub record Ord {ℓ} (K : Type ℓ) : Type ℓ where
  pub cmp : K → K → Ordering
  pub laws : IsTotalOrder cmp
  pub open laws use *

-- `Ordering::then`
abbrev pub and_then : Ordering → Ordering → Ordering
and_then eq second = second
and_then first _ = first

module _ {ℓ} {K : Type ℓ} ⦃o : Ord K⦄ where
  infix 50 ◌==◌
  abbrev pub ◌==◌ : K → K → Bool
  a == b = elim (o.cmp a b) [ eq ↦ true | _ ↦ false ]

  -- `a < b`, `a <= b` and `a > b`
  abbrev pub ltb : K → K → Bool
  ltb a b = elim (o.cmp a b) [ lt ↦ true | _ ↦ false ]

  abbrev pub leb : K → K → Bool
  leb a b = elim (o.cmp a b) [ gt ↦ false | _ ↦ true ]

  abbrev pub gtb : K → K → Bool
  gtb a b = elim (o.cmp a b) [ gt ↦ true | _ ↦ false ]

  pub eq_of_== : (a b : K) → (a == b) ≡ true → a ≡ b
  eq_of_== a b h = ground (arith, o.same_of_eq a b)

  pub ==_refl : (a : K) → (a == a) ≡ true
  ==_refl a = ground (arith, o.cmp_self a)

  pub ==_of_eq : (a b : K) → a ≡ b → (a == b) ≡ true
  ==_of_eq a b h = rw h (==_refl b)

  pub ==-false_of_ne : (a b : K) → a ≢ b → (a == b) ≡ false
  ==-false_of_ne a b h = ground (arith, o.same_of_eq a b)

pub compare-IsTotalOrder : IsTotalOrder compare
compare-IsTotalOrder = ground arith

instance abbrev pub nat_ord : Ord ℕ
nat_ord = record { cmp = compare; laws = compare-IsTotalOrder }

abbrev pub Text : Type 0
Text = List ℕ

-- The bytes of an ASCII literal.
abbrev pub bytes : String → Text
bytes String.[] = []
bytes (String.◌∷◌ c s) = code c ∷ bytes s

unfoldable pub text_cmp : Text → Text → Ordering
text_cmp [] [] = eq
text_cmp [] (y ∷ ys) = lt
text_cmp (x ∷ xs) [] = gt
text_cmp (x ∷ xs) (y ∷ ys) = and_then (compare x y) (text_cmp xs ys)

text_cmp_refl : (a : Text) → text_cmp a a ≡ eq
unfolding text_cmp
text_cmp_refl [] = refl
text_cmp_refl (x ∷ xs) = ground (arith, text_cmp_refl xs)

text_cmp-eq : (a b : Text) → text_cmp a b ≡ eq → a ≡ b
unfolding text_cmp
text_cmp-eq [] [] h = refl
text_cmp-eq [] (y ∷ ys) h = cc
text_cmp-eq (x ∷ xs) [] h = cc
text_cmp-eq (x ∷ xs) (y ∷ ys) h = ground (arith, text_cmp-eq xs ys)

text_cmp-gt : (a b : Text) → text_cmp a b ≡ gt → text_cmp b a ≡ lt
unfolding text_cmp
text_cmp-gt [] [] h = cc
text_cmp-gt [] (y ∷ ys) h = cc
text_cmp-gt (x ∷ xs) [] h = refl
text_cmp-gt (x ∷ xs) (y ∷ ys) h = ground (arith, text_cmp-gt xs ys)

text_cmp-lt : (a b : Text) → text_cmp a b ≡ lt → text_cmp b a ≡ gt
unfolding text_cmp
text_cmp-lt [] [] h = cc
text_cmp-lt [] (y ∷ ys) h = refl
text_cmp-lt (x ∷ xs) [] h = cc
text_cmp-lt (x ∷ xs) (y ∷ ys) h = ground (arith, text_cmp-lt xs ys)

text_cmp_trans : (a b c : Text) → text_cmp a b ≡ lt → text_cmp b c ≡ lt → text_cmp a c ≡ lt
unfolding text_cmp
text_cmp_trans [] [] c h k = cc
text_cmp_trans [] (y ∷ ys) [] h k = cc
text_cmp_trans [] (y ∷ ys) (z ∷ zs) h k = refl
text_cmp_trans (x ∷ xs) [] c h k = cc
text_cmp_trans (x ∷ xs) (y ∷ ys) [] h k = cc
text_cmp_trans (x ∷ xs) (y ∷ ys) (z ∷ zs) h k = ground (arith, text_cmp_trans xs ys zs)

pub text_cmp-IsTotalOrder : IsTotalOrder text_cmp
text_cmp-IsTotalOrder = record {
  cmp_self = text_cmp_refl;
  same_of_eq = text_cmp-eq;
  below_of_gt = text_cmp-gt;
  above_of_lt = text_cmp-lt;
  cmp_trans = text_cmp_trans;
}

instance abbrev pub text_ord : Ord Text
text_ord = record { cmp = text_cmp; laws = text_cmp-IsTotalOrder }
