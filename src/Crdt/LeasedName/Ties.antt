-- ===== src/Crdt/LeasedName/Ties.antt =====
-- Where the order of arrival decides who holds a leased name.
use lightning_mesh.Prelude.{◌≡◌, ◌≢◌, ◌≤◌, ◌<◌, some, [], arith, lt, ◌^◌, sym, ap, ◌∙◌, subst}
use lightning_mesh.Order.{Text, text_cmp-IsTotalOrder, text_ord}
use lightning_mesh.Book.{get}
use lightning_mesh.Crdt.Hlc.{Hlc, hlc_cmp, hlc_cmp-IsTotalOrder}
use lightning_mesh.Crdt.Entries.{LeasedName, LeasedNameBook}
use lightning_mesh.Crdt.Merge.{inserted}
use lightning_mesh.Crdt.LeasedName.{
  lease_expiry_ms, cross_owner_winner, merge_leased_name, apply_leased_name,
}
use lightning_mesh.Crdt.LeasedName.Laws.{get-store, cross_owner_winner_symm}

-- The record held under the name after two, or three, records arrive at a node that knows none.
abbrev pub after_two : Text → LeasedName → LeasedName → LeasedNameBook
after_two name a b = (apply_leased_name (apply_leased_name [] name a).0 name b).0

abbrev pub after_three : Text → LeasedName → LeasedName → LeasedName → LeasedNameBook
after_three name a b c = (apply_leased_name (after_two name a b) name c).0

-- The first record to arrive is stored.
get-first : (name : Text) (a : LeasedName) → get (apply_leased_name [] name a).0 name ≡ some a
unfolding apply_leased_name merge_leased_name get
get-first name a =
    ground (arith, get-store [] name name a inserted, text_cmp-IsTotalOrder.cmp_self name)

-- A record of another key leaves the winner of the two under the name.
get-contest :
    (book : LeasedNameBook) (name : Text) (a b : LeasedName)
    → get book name ≡ some a
    → a.owner_pubkey ≢ b.owner_pubkey
    → get (apply_leased_name book name b).0 name ≡ some (cross_owner_winner a b).0
unfolding apply_leased_name merge_leased_name
get-contest book name a b held_now ne = ground (
  arith,
  get-store book name name b (merge_leased_name (get book name) b),
  text_cmp-IsTotalOrder.cmp_self name,
  text_cmp-IsTotalOrder.same_of_eq a.owner_pubkey b.owner_pubkey,
)

-- Two keys whose first claims bear different stamps: both orders of arrival leave the same record
-- under the name.
pub two_claims_agree :
    (name : Text) (a b : LeasedName)
    → a.owner_pubkey ≢ b.owner_pubkey
    → a.first_claimed_at ≢ b.first_claimed_at
    → get (after_two name a b) name ≡ get (after_two name b a) name
two_claims_agree name a b ne distinct =
    get-contest _ name a b (get-first name a) ne
    ∙ ap (λ (w : LeasedName × LeasedName). some w.0) (cross_owner_winner_symm a b distinct)
    ∙ sym (get-contest _ name b a (get-first name b) (λ e. ne (sym e)))

tied_winner :
    (a b : LeasedName)
    → a.first_claimed_at ≡ b.first_claimed_at
    → a.first_claimed_at.wall_clock ≤ a.renewed_at.wall_clock
    → a.first_claimed_at.wall_clock < 2 ^ 64
    → (cross_owner_winner a b).0 ≡ a
unfolding cross_owner_winner lease_expiry_ms
tied_winner a b tie la bound =
    ground
      (arith, hlc_cmp-IsTotalOrder.cmp_self a.first_claimed_at, ap (λ (h : Hlc). h.wall_clock) tie)

live_winner :
    (a b : LeasedName)
    → hlc_cmp a.first_claimed_at b.first_claimed_at ≡ lt
    → b.first_claimed_at.wall_clock ≤ lease_expiry_ms a
    → (cross_owner_winner a b).0 ≡ a
unfolding cross_owner_winner
live_winner a b earlier live = ground arith

lapsed_winner :
    (a b : LeasedName)
    → hlc_cmp a.first_claimed_at b.first_claimed_at ≡ lt
    → lease_expiry_ms a < b.first_claimed_at.wall_clock
    → (cross_owner_winner a b).0 ≡ b
unfolding cross_owner_winner
lapsed_winner a b earlier lapsed = ground arith

-- Two keys whose first claims bear the same stamp, each renewed no earlier than it was claimed:
-- whichever record arrives first holds the name, so two nodes that receive them in different
-- orders disagree.
pub tied_claims_disagree :
    (name : Text) (a b : LeasedName)
    → a.owner_pubkey ≢ b.owner_pubkey
    → a.first_claimed_at ≡ b.first_claimed_at
    → a.first_claimed_at.wall_clock ≤ a.renewed_at.wall_clock
    → b.first_claimed_at.wall_clock ≤ b.renewed_at.wall_clock
    → a.first_claimed_at.wall_clock < 2 ^ 64
    → (get (after_two name a b) name ≡ some a) × (get (after_two name b a) name ≡ some b)
tied_claims_disagree name a b ne tie la lb bound = (
  get-contest _ name a b (get-first name a) ne ∙ ap some (tied_winner a b tie la bound),
  get-contest _ name b a (get-first name b) (λ e. ne (sym e))
      ∙ ap some
          (tied_winner b a (sym tie) lb (subst (λ (h : Hlc). h.wall_clock < 2 ^ 64) tie bound)),
)

ne_of_earlier :
    (a b : LeasedName)
    → hlc_cmp a.first_claimed_at b.first_claimed_at ≡ lt
    → b.first_claimed_at ≢ a.first_claimed_at
ne_of_earlier a b h e = cc (
  hlc_cmp-IsTotalOrder.cmp_self a.first_claimed_at,
  subst (λ t. hlc_cmp a.first_claimed_at t ≡ lt) e h,
)

-- Three keys in a cycle: `b` claims within the lease of `a`, `c` claims after the lease of `a` has
-- lapsed but within that of `b`. The order of arrival decides between `a` and `c`.
pub cyclic_claims_disagree :
    (name : Text) (a b c : LeasedName)
    → a.owner_pubkey ≢ b.owner_pubkey
    → b.owner_pubkey ≢ c.owner_pubkey
    → a.owner_pubkey ≢ c.owner_pubkey
    → hlc_cmp a.first_claimed_at b.first_claimed_at ≡ lt
    → hlc_cmp b.first_claimed_at c.first_claimed_at ≡ lt
    → b.first_claimed_at.wall_clock ≤ lease_expiry_ms a
    → c.first_claimed_at.wall_clock ≤ lease_expiry_ms b
    → lease_expiry_ms a < c.first_claimed_at.wall_clock
    → (get (after_three name a b c) name ≡ some c) × (get (after_three name b c a) name ≡ some a)
cyclic_claims_disagree name a b c nab nbc nac ab bc a_live b_live a_lapsed =
    let ac = hlc_cmp-IsTotalOrder.cmp_trans _ _ _ ab bc in
    let first =
      get-contest _ name a b (get-first name a) nab ∙ ap some (live_winner a b ab a_live) in
    let second =
      get-contest _ name b c (get-first name b) nbc ∙ ap some (live_winner b c bc b_live) in
    (
      get-contest _ name a c first nac ∙ ap some (lapsed_winner a c ac a_lapsed),
      get-contest _ name b a second (λ e. nab (sym e))
          ∙ ap some (
              ap (λ (w : LeasedName × LeasedName). w.0)
                (cross_owner_winner_symm b a (ne_of_earlier a b ab))
              ∙ live_winner a b ab a_live),
    )
