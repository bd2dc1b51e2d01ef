-- ===== src/Str/Trim.antt =====
-- A text with no white space at its ends is its own trimming.
use lightning_mesh.Prelude.{
  ℕ, zero, suc, none, List, [], ◌∷◌, ◌≡◌, ◌≢◌, ◌≤◌, ◌<◌, refl, arith, length, map, reverse,
  reverse-reverse, sym, ap, ◌∙◌,
}
use lightning_mesh.Order.{Text, nat_ord}
use lightning_mesh.Str.{strip_prefix, strip_any, strip_all, white_space, trim_start, trim_end, trim}

-- None of the texts begins with the byte.
abbrev NoneStarts : ℕ → List Text → Type 0
NoneStarts c [] = Unit
NoneStarts c ([] ∷ ps) = ⊥
NoneStarts c ((d ∷ p) ∷ ps) = (d ≢ c) × NoneStarts c ps

strip_any-none : (ps : List Text) (c : ℕ) (s : Text) → NoneStarts c ps → strip_any ps (c ∷ s) ≡ none
unfolding strip_any strip_prefix
strip_any-none [] c s h = refl
strip_any-none ([] ∷ ps) c s h = elim h [ ]
strip_any-none ((d ∷ p) ∷ ps) c s h = ground (arith, strip_any-none ps c s h.1)

strip_all_same :
    (fuel : ℕ) (ps : List Text) (c : ℕ) (s : Text)
    → NoneStarts c ps
    → strip_all fuel ps (c ∷ s) ≡ c ∷ s
unfolding strip_all
strip_all_same zero ps c s h = refl
strip_all_same (suc fuel) ps c s h = rw (strip_all, strip_any-none ps c s h) refl

white_space_not_start : (c : ℕ) → 33 ≤ c → c < 128 → NoneStarts c white_space
white_space_not_start c low high = omega arith

white_space_not_end : (c : ℕ) → 33 ≤ c → c < 128 → NoneStarts c (map reverse white_space)
white_space_not_end c low high = omega arith

-- A printable ASCII character.
abbrev pub Visible : ℕ → Type 0
Visible c = (33 ≤ c) × (c < 128)

trim_start_same : (c : ℕ) (s : Text) → Visible c → trim_start (c ∷ s) ≡ c ∷ s
unfolding trim_start
trim_start_same c s v =
    strip_all_same (length (c ∷ s)) white_space c s (white_space_not_start c v.0 v.1)

trim_end_same : (s : Text) (c : ℕ) (r : Text) → reverse s ≡ c ∷ r → Visible c → trim_end s ≡ s
unfolding trim_end
trim_end_same s c r e v =
    rw (e, strip_all_same (length s) (map reverse white_space) c r (white_space_not_end c v.0 v.1))
      (ap reverse (sym e) ∙ reverse-reverse s)

pub trim_same :
    (c d : ℕ) (s r : Text) → Visible c → Visible d → reverse (c ∷ s) ≡ d ∷ r → trim (c ∷ s) ≡ c ∷ s
unfolding trim
trim_same c d s r v w e = rw (trim_start_same c s v) (trim_end_same (c ∷ s) d r e w)
