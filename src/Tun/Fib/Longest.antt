-- ===== src/Tun/Fib/Longest.antt =====
-- What the longest-prefix match finds.
use lightning_mesh.Prelude.{
  ℕ, true, false, Option, none, some, [], ◌∷◌, ◌≡◌, ◌↔◌, ◌≤◌, inl, inr, refl, sym, ap, ◌∙◌, arith,
  In, subst, some≢none, Bool-cases, Option-cases, if◌then◌else◌,
}
use lightning_mesh.Order.{leb, nat_ord, eq_of_==}
use lightning_mesh.Book.{get}
use lightning_mesh.Book.Sorted.{IsSorted, In-get, get-In}
use lightning_mesh.Tun.Fib.{Prefix, masked, contains, prefix_ord, Fib, longest, lookup}

-- No prefix of the table that contains the address is longer than `p`.
abbrev pub IsLongest : Fib → ℕ → Prefix → Type 0
IsLongest routes dest p =
    (q : Prefix) (h : ℕ)
    → In {A = Prefix × ℕ} (q, h) routes
    → contains q dest ≡ true
    → q.len ≤ p.len

-- What the scan returns: nothing where no prefix contains the address, or the longest that does.
abbrev DidScan : Fib → ℕ → Option (Prefix × ℕ) → Type 0
DidScan routes dest none =
    (q : Prefix) (h : ℕ) → In {A = Prefix × ℕ} (q, h) routes → contains q dest ≡ false
DidScan routes dest (some (p, h)) =
    In {A = Prefix × ℕ} (p, h) routes × (contains p dest ≡ true) × IsLongest routes dest p

-- The body of the scan, at an entry and what the scan of the rest returned.
abbrev scan_step : Prefix → ℕ → ℕ → Option (Prefix × ℕ) → Option (Prefix × ℕ)
scan_step p h dest rest =
    if contains p dest
    then elim rest [
      | none ↦ some (p, h)
      | some (q, other) ↦ if leb p.len q.len then some (q, other) else some (p, h)
    ]
    else rest

-- The longest of the rest stays the longest where the new entry does not contain the address or is no
-- longer.
IsLongest-cons :
    (p q : Prefix) (h dest : ℕ) (routes : Fib)
    → IsLongest routes dest q
    → (contains p dest ≡ true → p.len ≤ q.len)
    → IsLongest ((p, h) ∷ routes) dest q
IsLongest-cons p q h dest routes top new r g (inl e) held =
    let same : r ≡ p = ap (λ (x : Prefix × ℕ). x.0) e in rw (same) (new (rw (same) at held))
IsLongest-cons p q h dest routes top new r g (inr i) held = top r g i held

scan_step-DidScan :
    (p : Prefix) (h dest : ℕ) (routes : Fib) (rest : Option (Prefix × ℕ))
    → DidScan routes dest rest
    → DidScan ((p, h) ∷ routes) dest (scan_step p h dest rest)
scan_step-DidScan p h dest routes none missed = elim (Bool-cases (contains p dest)) [
  | inl holds ↦ rw (holds) (
    inl refl,
    holds,
    IsLongest-cons p p h dest routes (λ q g i held. absurd (cc (missed q g i))) (λ _. omega arith),
  )
  | inr lacks ↦ rw (lacks) (none_holds lacks)
]
  where
    none_holds : contains p dest ≡ false → DidScan ((p, h) ∷ routes) dest none
    none_holds lacks q g (inl e) =
        let same : q ≡ p = ap (λ (x : Prefix × ℕ). x.0) e in rw (same) lacks
    none_holds lacks q g (inr i) = missed q g i
scan_step-DidScan p h dest routes (some (q, g)) (there, held, top) =
    elim (Bool-cases (contains p dest)) [
      | inl holds ↦ elim (Bool-cases (leb p.len q.len)) [
        | inl shorter ↦
            rw (holds, shorter)
              (inr there, held, IsLongest-cons p q h dest routes top (λ _. ground (arith, shorter)))
        | inr longer ↦
            rw (holds, longer)
              (
                inl refl,
                holds,
                IsLongest-cons p p h dest routes
                    (λ r f i on.
                      let below : q.len ≤ p.len = ground (arith, longer) in
                      omega (arith, top r f i on))
                    (λ _. omega arith),
              )
      ]
      | inr lacks ↦
          rw (lacks) (inr there, held, IsLongest-cons p q h dest routes top (λ holds. absurd (cc)))
    ]

longest-DidScan : (routes : Fib) (dest : ℕ) → DidScan routes dest (longest routes dest)
unfolding longest
longest-DidScan [] dest = λ q h i. elim i [ ]
longest-DidScan ((p, h) ∷ routes) dest =
    scan_step-DidScan p h dest routes (longest routes dest) (longest-DidScan routes dest)

-- Two prefixes of one length that contain an address are the same prefix.
contains_same :
    (p q : Prefix) (dest : ℕ)
    → contains p dest ≡ true
    → contains q dest ≡ true
    → p.len ≡ q.len
    → p ≡ q
unfolding contains
contains_same p q dest hp hq same =
    let at_p : masked p.len dest ≡ p.net = eq_of_== _ _ hp in
    let at_q : masked q.len dest ≡ q.net = eq_of_== _ _ hq in
    let nets : p.net ≡ q.net = sym at_p ∙ ap (λ (n : ℕ). masked n dest) same ∙ at_q in
    ground (arith, nets, same)

-- In a table whose prefixes ascend, a lookup finds a next hop exactly if it is the next hop of a prefix
-- that contains the address and than which no prefix that contains it is longer.
pub lookup_iff :
    (routes : Fib) (dest next_hop : ℕ)
    → IsSorted routes
    → (lookup routes dest ≡ some next_hop) ↔ (
        (p : Prefix) × (get routes p ≡ some next_hop)
        × (contains p dest ≡ true)
        × ((q : Prefix) (h : ℕ) → get routes q ≡ some h → contains q dest ≡ true → q.len ≤ p.len))
unfolding lookup
lookup_iff routes dest next_hop sorted = (forth, back)
  where
    forth :
        lookup routes dest ≡ some next_hop
        → (p : Prefix) × (get routes p ≡ some next_hop)
          × (contains p dest ≡ true)
          × ((q : Prefix) (h : ℕ) → get routes q ≡ some h → contains q dest ≡ true → q.len ≤ p.len)
    forth found = elim (Option-cases (longest routes dest)) [
      | inl missed ↦
          let nothing : none ≡ some next_hop = rw (lookup, missed) at found in
          absurd (some≢none (sym nothing))
      | inr ((p, h), best) ↦
          let (there, held, top) = subst (DidScan routes dest) best (longest-DidScan routes dest) in
          let same : some h ≡ some next_hop = rw (lookup, best) at found in
          (
            p,
            get-In routes p h sorted there ∙ same,
            held,
            λ q g at on. top q g (In-get routes q g at) on,
          )
    ]

    back :
        ((p : Prefix) × (get routes p ≡ some next_hop)
          × (contains p dest ≡ true)
          × ((q : Prefix) (h : ℕ) → get routes q ≡ some h → contains q dest ≡ true → q.len ≤ p.len))
        → lookup routes dest ≡ some next_hop
    back (p, at, on, top) = elim (Option-cases (longest routes dest)) [
      | inl missed ↦
          let scanned = subst (DidScan routes dest) missed (longest-DidScan routes dest) in
          cc (scanned p next_hop (In-get routes p next_hop at), on)
      | inr ((q, h), best) ↦
          let (there, held, beats) =
            subst (DidScan routes dest) best (longest-DidScan routes dest) in
          let held_at = get-In routes q h sorted there in
          let low : p.len ≤ q.len = beats p next_hop (In-get routes p next_hop at) on in
          let high : q.len ≤ p.len = top q h held_at held in
          let same : q ≡ p = contains_same q p dest held on (omega arith) in
          rw (lookup, best) (sym held_at ∙ ap (get routes) same ∙ at)
    ]
