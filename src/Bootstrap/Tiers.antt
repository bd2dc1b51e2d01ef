-- ===== src/Bootstrap/Tiers.antt =====
-- Who stands in the tiers, and what the ranking returns.
use lightning_mesh.Prelude.{
  ℕ, Bool, true, false, ◌||◌, ◌&&◌, not, List, [], ◌∷◌, ◌++◌, ◌≡◌, ◌≤◌, refl, arith, inl, inr, ◌⊎◌,
  length, Bool-cases,
}
use lightning_mesh.Order.{Text, ◌==◌, nat_ord, text_ord, eq_of_==, ==_of_eq}
use lightning_mesh.Crdt.Entries.{AddrBook}
use lightning_mesh.Crdt.Liveness.{LivenessTracker, is_hard_expired}
use lightning_mesh.Bootstrap.{
  Seen, goes_before, place, sort_recent, recently_seen, disk_known, claim_owners, ids_of, has_id,
  tiers_of, rank_bootstrap_candidates,
}
use lightning_mesh.Bootstrap.Ranks.{
  Distinct, has_id-append, take_ids-Distinct, take_ids-length, take_ids_sound, take_ids_complete,
}

-- Whether the address book has the id.
abbrev pub has_addr : Text → AddrBook → Bool
has_addr q [] = false
has_addr q ((id, entry) ∷ book) = id == q || has_addr q book

has_id-place :
    (q : Text) (a : Seen) (l : List Seen)
    → has_id q (ids_of (place a l)) ≡ a.0 == q || has_id q (ids_of l)
unfolding place
has_id-place q (x, m) [] = refl
has_id-place q (x, m) ((y, n) ∷ l) = elim (Bool-cases (goes_before (x, m) (y, n))) [
  | inl t ↦ rw (place, t) refl
  | inr t ↦ rw (place, t) (ground (arith, has_id-place q (x, m) l))
]

has_id-sort : (q : Text) (l : List Seen) → has_id q (ids_of (sort_recent l)) ≡ has_id q (ids_of l)
unfolding sort_recent
has_id-sort q [] = refl
has_id-sort q ((x, m) ∷ l) = ground (arith, has_id-place q (x, m) (sort_recent l), has_id-sort q l)

module _ (liveness : LivenessTracker) (now_ms : ℕ) where
  abbrev alive : Text → Bool
  alive q = not (is_hard_expired liveness q now_ms)

  addresses :
      (q : Text) (book : AddrBook)
      → has_id q (ids_of (recently_seen liveness now_ms book))
          || has_id q (ids_of (disk_known liveness now_ms book))
        ≡ has_addr q book && alive q
  unfolding recently_seen disk_known
  addresses q [] = refl
  addresses q ((id, entry) ∷ book) = ground (arith, addresses q book, eq_of_== id q)

  owners :
      (q : Text) (ids : List Text)
      → has_id q (ids_of (claim_owners liveness now_ms ids)) ≡ has_id q ids && alive q
  unfolding claim_owners
  owners q [] = refl
  owners q (id ∷ ids) = ground (arith, owners q ids, eq_of_== id q)

  has_id-tiers :
      (roster : List Text) (book : AddrBook) (claims : List Text) (q : Text)
      → has_id q (tiers_of roster book claims liveness now_ms)
        ≡ has_id q roster || (has_addr q book || has_id q claims) && alive q
  unfolding tiers_of
  has_id-tiers roster book claims q =
      let recent = ids_of (sort_recent (recently_seen liveness now_ms book)) in
      let disk = ids_of (sort_recent (disk_known liveness now_ms book)) in
      let claimed = ids_of (sort_recent (claim_owners liveness now_ms claims)) in
      ground (
        arith,
        has_id-append q roster (recent ++ (disk ++ claimed)),
        has_id-append q recent (disk ++ claimed),
        has_id-append q disk claimed,
        has_id-sort q (recently_seen liveness now_ms book),
        has_id-sort q (disk_known liveness now_ms book),
        has_id-sort q (claim_owners liveness now_ms claims),
        addresses q book,
        owners q claims,
      )

-- Another node that is on the roster, or is not hard-expired and is in the address book or owns a claim.
abbrev pub is_candidate :
    List Text → AddrBook → List Text → LivenessTracker → Text → ℕ → Text → Bool
is_candidate roster book claims liveness self_id now_ms q =
    not (q == self_id)
    && (has_id q roster
        || (has_addr q book || has_id q claims) && not (is_hard_expired liveness q now_ms))

-- The ranking returns at most `cap` ids, none of them twice, and each of them is a candidate: not this node's own id,
-- and on the roster, or not hard-expired and known from the address book or from a claim. Where it returns fewer than
-- `cap`, it returns every candidate.
pub rank_bootstrap_candidates_lem :
    (roster : List Text) (book : AddrBook) (claims : List Text) (liveness : LivenessTracker)
    (self_id : Text) (now_ms cap : ℕ)
    → let ranked = rank_bootstrap_candidates roster book claims liveness self_id now_ms cap in
      (length ranked ≤ cap)
      × Distinct ranked
      × ((q : Text)
          → has_id q ranked ≡ true
          → is_candidate roster book claims liveness self_id now_ms q ≡ true)
      × ((q : Text)
          → is_candidate roster book claims liveness self_id now_ms q ≡ true
          → (has_id q ranked ≡ true) ⊎ (cap ≤ length ranked))
unfolding rank_bootstrap_candidates
rank_bootstrap_candidates_lem roster book claims liveness self_id now_ms cap =
    elim (Bool-cases (cap == 0)) [
      | inl z ↦
          rw (rank_bootstrap_candidates, z) (omega arith, tt, λ q h. cc, λ q h. inr (ground arith))
      | inr z ↦
          let tiers = tiers_of roster book claims liveness now_ms in
          rw (rank_bootstrap_candidates, z)
            (
              take_ids-length self_id cap [] [] tiers (ground arith),
              take_ids-Distinct self_id cap [] [] tiers (λ q. refl) tt,
              λ q h. elim (take_ids_sound self_id cap [] [] tiers q h) [
                | inl o ↦ absurd (cc o)
                | inr (t, ne) ↦
                    ground
                      (arith, has_id-tiers liveness now_ms roster book claims q, eq_of_== q self_id)
              ],
              λ q h.
                  take_ids_complete self_id cap [] [] tiers q (λ x. refl)
                    (inr (
                      ground (arith, has_id-tiers liveness now_ms roster book claims q),
                      λ e. ground (arith, ==_of_eq q self_id e),
                    )),
            )
    ]
