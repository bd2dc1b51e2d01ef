-- ===== src/Meshctl/Inventory/Laws.antt =====
-- What the checks of an inventory (inventory.rs of meshctl) establish.
use lightning_mesh.Prelude.{
  false, none, some, List, [], ◌∷◌, ◌≡◌, ◌≢◌, ◌↔◌, refl, sym, subst, ◌∙◌, some≢none, inl, inr,
  arith, All, In, Option-cases, Bool-cases,
}
use lightning_mesh.Order.{Text, ◌==◌, text_ord, eq_of_==, ==_of_eq, ==-false_of_ne}
use lightning_mesh.Meshctl.Inventory.{
  Router, Inventory, find_router, peer_of, is_seen, check_names, check_peer, check_peers, validate,
}

-- No two routers have the same name.
abbrev pub HasDistinctNames : List Router → Type 0
HasDistinctNames [] = Unit
HasDistinctNames (r ∷ rs) = All (λ q. r.name ≢ q.name) rs × HasDistinctNames rs

-- The peer that the router names, if it names one, is in the inventory, and is not the router itself by its name.
abbrev pub HasPeer : Inventory → Router → Type 0
HasPeer inv r =
    (p : Text)
    → r.peer ≡ some p
    → (q : Router) × (peer_of inv r ≡ some q) × In q inv.routers × (q.name ≡ p) × (q.name ≢ r.name)

find_router-some :
    (rs : List Router) (name : Text) (q : Router)
    → find_router rs name ≡ some q
    → In q rs × (q.name ≡ name)
unfolding find_router
find_router-some [] name q h = cc
find_router-some (r ∷ rs) name q h = elim (Bool-cases (r.name == name)) [
  | inl e ↦
      let same : r ≡ q = ground arith in
      (inl (sym same), subst (λ x. x.name ≡ name) same (eq_of_== r.name name e))
  | inr e ↦ let (i, n) = find_router-some rs name q (ground arith) in (inr i, n)
]

check_names-none :
    (seen : List Text) (rs : List Router)
    → check_names seen rs ≡ none
    → All (λ r. is_seen r.name seen ≡ false) rs × HasDistinctNames rs
unfolding check_names
check_names-none seen [] h = (_, _)
check_names-none seen (r ∷ rs) h =
    let (a, d) = check_names-none (r.name ∷ seen) rs (ground arith) in
    ((ground arith, unseen rs a), (apart rs a, d))
  where
    unseen :
        (qs : List Router)
        → All (λ q. is_seen q.name (r.name ∷ seen) ≡ false) qs
        → All (λ q. is_seen q.name seen ≡ false) qs
    unseen [] a = _
    unseen (q ∷ qs) (a, bs) = (ground arith, unseen qs bs)

    apart :
        (qs : List Router)
        → All (λ q. is_seen q.name (r.name ∷ seen) ≡ false) qs
        → All (λ q. r.name ≢ q.name) qs
    apart [] a = _
    apart (q ∷ qs) (a, bs) = ((λ e. ground (arith, ==_of_eq r.name q.name e)), apart qs bs)

check_names-none_of :
    (seen : List Text) (rs : List Router)
    → All (λ r. is_seen r.name seen ≡ false) rs
    → HasDistinctNames rs
    → check_names seen rs ≡ none
unfolding check_names
check_names-none_of seen [] a d = refl
check_names-none_of seen (r ∷ rs) (a, bs) (n, d) =
    ground (arith, check_names-none_of (r.name ∷ seen) rs (both rs bs n) d)
  where
    both :
        (qs : List Router)
        → All (λ q. is_seen q.name seen ≡ false) qs
        → All (λ q. r.name ≢ q.name) qs
        → All (λ q. is_seen q.name (r.name ∷ seen) ≡ false) qs
    both [] a n = _
    both (q ∷ qs) (a, bs) (n, ns) = (ground (arith, ==-false_of_ne r.name q.name n), both qs bs ns)

check_peer-HasPeer : (inv : Inventory) (r : Router) → check_peer inv r ≡ none → HasPeer inv r
check_peer-HasPeer inv r h p e = elim (Option-cases (find_router inv.routers p)) [
  | inl e' ↦ ground arith
  | inr (q, e') ↦
      let (i, n) = find_router-some inv.routers p q e' in
      (q, ground arith, i, n, λ s. ground (arith, ==_of_eq p r.name (sym n ∙ s)))
]

HasPeer-check_peer : (inv : Inventory) (r : Router) → HasPeer inv r → check_peer inv r ≡ none
HasPeer-check_peer inv r h = elim (Option-cases r.peer) [
  | inl e ↦ ground arith
  | inr (p, e) ↦
      let (q, f, i, n, d) = h p e in ground (arith, ==-false_of_ne p r.name (λ s. d (n ∙ s)))
]

check_peers-HasPeer :
    (inv : Inventory) (rs : List Router) → check_peers inv rs ≡ none → All (HasPeer inv) rs
unfolding check_peers
check_peers-HasPeer inv [] h = _
check_peers-HasPeer inv (r ∷ rs) h = elim (Option-cases (check_peer inv r)) [
  | inl e ↦ (check_peer-HasPeer inv r e, check_peers-HasPeer inv rs (rw (check_peers, e) at h))
  | inr (x, e) ↦ elim (some≢none (rw (check_peers, e) at h)) [ ]
]

HasPeer-check_peers :
    (inv : Inventory) (rs : List Router) → All (HasPeer inv) rs → check_peers inv rs ≡ none
unfolding check_peers
HasPeer-check_peers inv [] h = refl
HasPeer-check_peers inv (r ∷ rs) (h, hs) =
    rw (check_peers, HasPeer-check_peer inv r h) (HasPeer-check_peers inv rs hs)

no_name_seen : (rs : List Router) → All (λ r. is_seen r.name [] ≡ false) rs
no_name_seen [] = _
no_name_seen (r ∷ rs) = (refl, no_name_seen rs)

-- validate finds no error exactly when no two routers of the inventory have the same name and, for each router that
-- names a peer, peer_of answers with a router of the inventory that has the name and not the router's own.
pub validate_iff :
    (inv : Inventory)
    → (validate inv ≡ none) ↔ (HasDistinctNames inv.routers × All (HasPeer inv) inv.routers)
unfolding validate
validate_iff inv = (
  (λ h. elim (Option-cases (check_names [] inv.routers)) [
    | inl e ↦ (
      (check_names-none [] inv.routers e).1,
      check_peers-HasPeer inv inv.routers (rw (validate, e) at h),
    )
    | inr (x, e) ↦ elim (some≢none (rw (validate, e) at h)) [ ]
  ]),
  λ (d, a).
      rw (validate, check_names-none_of [] inv.routers (no_name_seen inv.routers) d)
        (HasPeer-check_peers inv inv.routers a),
)
