-- ===== src/Tun/Mcast.antt =====
-- The classification of packets off the overlay TUN (tun/mcast.rs). A packet is the list of its bytes.
use lightning_mesh.Prelude.{
  ℕ, zero, suc, Bool, true, false, ◌||◌, not, Option, none, some, List, [], ◌∷◌, length, ◌≡◌, ◌⊎◌,
  inl, inr, refl, ◌+◌, ◌/◌, ◌≤◌, ◌<◌, if◌then◌else◌, arith, Bool-cases, Option-cases,
}
use lightning_mesh.Order.{◌==◌, nat_ord, text_ord, eq_of_==}

-- `ff02::1:6`, in bytes.
abbrev pub babel_mcast : List ℕ
babel_mcast = 0xff ∷ 0x02 ∷ 0 ∷ 0 ∷ 0 ∷ 0 ∷ 0 ∷ 0 ∷ 0 ∷ 0 ∷ 0 ∷ 0 ∷ 0 ∷ 1 ∷ 0 ∷ 6 ∷ []

pub data OverlayDest : Type 0 where
  multicast : OverlayDest
  unicast : OverlayDest

-- `pkt.first()`
abbrev pub first : List ℕ → Option ℕ
first [] = none
first (b ∷ bs) = some b

-- The first `n` bytes, if there are as many.
unfoldable pub prefix_of : ℕ → List ℕ → Option (List ℕ)
prefix_of zero bs = some []
prefix_of (suc n) [] = none
prefix_of (suc n) (b ∷ bs) = elim (prefix_of n bs) [ none ↦ none | some rest ↦ some (b ∷ rest) ]

-- `pkt.get(from..from + n)`
unfoldable pub slice : ℕ → ℕ → List ℕ → Option (List ℕ)
unfolding prefix_of
slice zero n bs = prefix_of n bs
slice (suc from) n [] = none
slice (suc from) n (b ∷ bs) = slice from n bs

-- The first byte of a slice that is not empty.
abbrev pub head : List ℕ → ℕ
head [] = 0
head (b ∷ bs) = b

abbrev pub classify_v6 : List ℕ → OverlayDest
classify_v6 dst = if head dst == 0xff then multicast else unicast

abbrev pub classify_v4 : List ℕ → OverlayDest
classify_v4 dst =
    if head dst / 16 == 14 || dst == 255 ∷ 255 ∷ 255 ∷ 255 ∷ [] then multicast else unicast

unfoldable pub classify : List ℕ → Option OverlayDest
classify pkt = elim (first pkt) [
  | none ↦ none
  | some b ↦
      if b / 16 == 6
      then elim (slice 24 16 pkt) [ none ↦ none | some dst ↦ some (classify_v6 dst) ]
      else if b / 16 == 4
      then elim (slice 16 4 pkt) [ none ↦ none | some dst ↦ some (classify_v4 dst) ]
      else none
]

unfoldable pub is_babel_multicast : List ℕ → Bool
is_babel_multicast pkt = elim (first pkt) [
  | none ↦ false
  | some b ↦
      if not (b / 16 == 6)
      then false
      else elim (slice 24 16 pkt) [ none ↦ false | some dst ↦ dst == babel_mcast ]
]

prefix_of-length :
    (n : ℕ) (bs : List ℕ) → n ≤ length bs → (xs : List ℕ) × (prefix_of n bs ≡ some xs)
unfolding prefix_of
prefix_of-length zero bs h = ([], refl)
prefix_of-length (suc n) [] h = absurd (omega arith)
prefix_of-length (suc n) (b ∷ bs) h =
    let (xs, e) = prefix_of-length n bs (omega arith) in (b ∷ xs, ground (arith, e))

prefix_of_short : (n : ℕ) (bs : List ℕ) → length bs < n → prefix_of n bs ≡ none
unfolding prefix_of
prefix_of_short zero bs h = absurd (omega arith)
prefix_of_short (suc n) [] h = refl
prefix_of_short (suc n) (b ∷ bs) h = let e = prefix_of_short n bs (omega arith) in ground (arith, e)

slice-length :
    (from n : ℕ) (bs : List ℕ) → from + n ≤ length bs → (xs : List ℕ) × (slice from n bs ≡ some xs)
unfolding slice
slice-length zero n bs h = prefix_of-length n bs (omega arith)
slice-length (suc from) n [] h = absurd (omega arith)
slice-length (suc from) n (b ∷ bs) h = slice-length from n bs (omega arith)

slice_short : (from n : ℕ) (bs : List ℕ) → length bs < from + n → 0 < n → slice from n bs ≡ none
unfolding slice
slice_short zero n bs h pos = prefix_of_short n bs (omega arith)
slice_short (suc from) n [] h pos = refl
slice_short (suc from) n (b ∷ bs) h pos = slice_short from n bs (omega arith) pos

-- A packet is classified exactly if it is of version 6 and has at least 40 bytes, or of version 4 and
-- at least 20.
pub classify_total :
    (b : ℕ) (bs : List ℕ)
    → (((b / 16 ≡ 6) × (40 ≤ length (b ∷ bs))) ⊎ ((b / 16 ≡ 4) × (20 ≤ length (b ∷ bs)))
        → (d : OverlayDest) × (classify (b ∷ bs) ≡ some d))
      × ((b / 16 ≡ 6 → length (b ∷ bs) < 40)
          → (b / 16 ≡ 4 → length (b ∷ bs) < 20)
          → classify (b ∷ bs) ≡ none)
unfolding classify
classify_total b bs = (sorted, refused)
  where
    sorted :
        ((b / 16 ≡ 6) × (40 ≤ length (b ∷ bs))) ⊎ ((b / 16 ≡ 4) × (20 ≤ length (b ∷ bs)))
        → (d : OverlayDest) × (classify (b ∷ bs) ≡ some d)
    sorted (inl (six, long)) =
        let (dst, e) = slice-length 24 16 (b ∷ bs) long in (classify_v6 dst, rw (six, e) refl)
    sorted (inr (four, long)) =
        let (dst, e) = slice-length 16 4 (b ∷ bs) long in (classify_v4 dst, rw (four, e) refl)

    refused :
        (b / 16 ≡ 6 → length (b ∷ bs) < 40)
        → (b / 16 ≡ 4 → length (b ∷ bs) < 20)
        → classify (b ∷ bs) ≡ none
    refused six four = elim (Bool-cases (b / 16 == 6)) [
      | inl is_six ↦
          let e = slice_short 24 16 (b ∷ bs) (six (eq_of_== (b / 16) 6 is_six)) (omega arith) in
          rw (is_six, e) refl
      | inr not_six ↦ elim (Bool-cases (b / 16 == 4)) [
        | inl is_four ↦
            let e = slice_short 16 4 (b ∷ bs) (four (eq_of_== (b / 16) 4 is_four)) (omega arith) in
            rw (not_six, is_four, e) refl
        | inr not_four ↦ rw (not_six, not_four) refl
      ]
    ]

-- What is flooded for babel is multicast: every packet that is taken for babel's multicast is
-- classified as multicast.
pub is_babel_multicast-classify :
    (pkt : List ℕ) → is_babel_multicast pkt ≡ true → classify pkt ≡ some multicast
unfolding classify is_babel_multicast
is_babel_multicast-classify [] h = cc
is_babel_multicast-classify (b ∷ bs) h = elim (Bool-cases (b / 16 == 6)) [
  | inr not_six ↦ absurd (cc (not_six, h))
  | inl is_six ↦ elim (Option-cases (slice 24 16 (b ∷ bs))) [
    | inl short ↦ absurd (cc (is_six, short, h))
    | inr (dst, found) ↦
        let babel : (dst == babel_mcast) ≡ true = rw (is_babel_multicast, is_six, found) at h in
        rw (is_six, found, eq_of_== dst babel_mcast babel) refl
  ]
]
