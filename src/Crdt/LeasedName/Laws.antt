-- ===== src/Crdt/LeasedName/Laws.antt =====
-- What a merge of leased names decides, and what the book holds afterwards.
use lightning_mesh.Prelude.{
  true, Option, none, some, ◌≡◌, ◌≢◌, inl, inr, refl, ap, ◌≤◌, ◌<◌, arith, lt, gt, if◌then◌else◌,
  Bool-cases, Ordering-cases, sym,
}
use native.Mathlib.Nat.{le_refl}
use lightning_mesh.Order.{Text, text_cmp-IsTotalOrder, ◌==◌, nat_ord, text_ord, eq_of_==}
use lightning_mesh.Book.{get, insert, get-insert}
use lightning_mesh.Crdt.Hlc.{Hlc, hlc_cmp, hlc_ord, hlc_cmp-IsTotalOrder}
use lightning_mesh.Crdt.Entries.{IpAddr, v4, v6, LeasedName, LeasedNameBook}
use lightning_mesh.Crdt.Merge.{MergeResult, inserted, updated, unchanged, conflict}
use lightning_mesh.Crdt.LeasedName.{
  lease_expiry_ms, cross_owner_winner, merge_leased_name, option_eq, ip_eq, leased_eq, store,
  apply_leased_name,
}

option_eq_sound : (a b : Option Text) → option_eq a b ≡ true → a ≡ b
option_eq_sound none none h = refl
option_eq_sound none (some b) h = cc
option_eq_sound (some a) none h = cc
option_eq_sound (some a) (some b) h = ap some (eq_of_== a b h)

ip_eq_sound : (a b : IpAddr) → ip_eq a b ≡ true → a ≡ b
ip_eq_sound (v4 a) (v4 b) h = ap v4 (eq_of_== a b h)
ip_eq_sound (v4 a) (v6 b) h = cc
ip_eq_sound (v6 a) (v4 b) h = cc
ip_eq_sound (v6 a) (v6 b) h = ap v6 (eq_of_== a b h)

leased_eq_sound : (a b : LeasedName) → leased_eq a b ≡ true → a ≡ b
unfolding leased_eq
leased_eq_sound a b h = ground (
  arith,
  text_cmp-IsTotalOrder.same_of_eq a.owner_pubkey b.owner_pubkey,
  text_cmp-IsTotalOrder.same_of_eq a.sig b.sig,
  text_cmp-IsTotalOrder.same_of_eq a.challenge b.challenge,
  ip_eq_sound a.ip b.ip,
  option_eq_sound a.scheme b.scheme,
  hlc_cmp-IsTotalOrder.same_of_eq a.first_claimed_at b.first_claimed_at,
  hlc_cmp-IsTotalOrder.same_of_eq a.renewed_at b.renewed_at,
)

-- Which record a verdict puts under the name, if any.
abbrev pub held : LeasedName → Option LeasedName → MergeResult LeasedName → Option LeasedName
held incoming existing inserted = some incoming
held incoming existing updated = some incoming
held incoming existing unchanged = existing
held incoming existing (conflict winner loser) = some winner

pub insert-winner :
    (book : LeasedNameBook) (name : Text) (incoming winner loser : LeasedName)
    → store book name incoming (conflict winner loser) ≡ insert book name winner
unfolding store
insert-winner book name incoming winner loser = elim (Bool-cases (leased_eq winner incoming)) [
  | inl same ↦ rw (leased_eq_sound winner incoming same) (ground arith)
  | inr other ↦ rw other (ground arith)
]

pub get-store :
    (book : LeasedNameBook) (name q : Text) (incoming : LeasedName) (r : MergeResult LeasedName)
    → get (store book name incoming r) q
      ≡ (if name == q then held incoming (get book q) r else get book q)
get-store book name q incoming inserted = unfold store in get-insert book name q incoming
get-store book name q incoming updated = unfold store in get-insert book name q incoming
get-store book name q incoming unchanged = unfold store in ground arith
get-store book name q incoming (conflict winner loser) =
    rw insert-winner (get-insert book name q winner)

-- The verdict on two records of different owners does not depend on which of them is the local
-- one, if their first claims bear different stamps.
pub cross_owner_winner_symm :
    (a b : LeasedName)
    → a.first_claimed_at ≢ b.first_claimed_at
    → cross_owner_winner a b ≡ cross_owner_winner b a
unfolding cross_owner_winner
cross_owner_winner_symm a b h = ground (
  arith,
  hlc_cmp-IsTotalOrder.same_of_eq a.first_claimed_at b.first_claimed_at,
  hlc_cmp-IsTotalOrder.below_of_gt a.first_claimed_at b.first_claimed_at,
  hlc_cmp-IsTotalOrder.above_of_lt a.first_claimed_at b.first_claimed_at,
)

-- A contest for a held name by a different key whose first claim is the later one: while the
-- incumbent's lease covers that first claim the incumbent keeps the name, and if the lease had
-- lapsed before it the challenger holds the name. No other name changes.
pub apply_leased_name_contest :
    (book : LeasedNameBook) (name : Text) (incumbent challenger : LeasedName)
    → get book name ≡ some incumbent
    → incumbent.owner_pubkey ≢ challenger.owner_pubkey
    → hlc_cmp incumbent.first_claimed_at challenger.first_claimed_at ≡ lt
    → (challenger.first_claimed_at.wall_clock ≤ lease_expiry_ms incumbent
        → get (apply_leased_name book name challenger).0 name ≡ some incumbent)
      × (lease_expiry_ms incumbent < challenger.first_claimed_at.wall_clock
          → get (apply_leased_name book name challenger).0 name ≡ some challenger)
      × ((q : Text) → name ≢ q → get (apply_leased_name book name challenger).0 q ≡ get book q)
unfolding apply_leased_name merge_leased_name cross_owner_winner
apply_leased_name_contest book name incumbent challenger held_now ne later = (
  λ covered. ground (
    arith,
    get-store book name name challenger (merge_leased_name (get book name) challenger),
    text_cmp-IsTotalOrder.cmp_self name,
    text_cmp-IsTotalOrder.same_of_eq incumbent.owner_pubkey challenger.owner_pubkey,
  ),
  λ lapsed. ground (
    arith,
    get-store book name name challenger (merge_leased_name (get book name) challenger),
    text_cmp-IsTotalOrder.cmp_self name,
    text_cmp-IsTotalOrder.same_of_eq incumbent.owner_pubkey challenger.owner_pubkey,
  ),
  λ q other. ground (
    arith,
    get-store book name q challenger (merge_leased_name (get book name) challenger),
    text_cmp-IsTotalOrder.same_of_eq name q,
  ),
)

hlc_wall_le : (a b : Hlc) → hlc_cmp a b ≡ gt → b.wall_clock ≤ a.wall_clock
unfolding hlc_cmp
hlc_wall_le a b h = ground arith

lease_expiry_mono :
    (a b : LeasedName)
    → hlc_cmp a.renewed_at b.renewed_at ≡ gt
    → lease_expiry_ms b ≤ lease_expiry_ms a
unfolding lease_expiry_ms
lease_expiry_mono a b h = omega (arith, hlc_wall_le a.renewed_at b.renewed_at h)

-- A record of the key that holds the name never shortens its lease and never hands the name to
-- another key: afterwards a record of that key holds it, which is the old one or the received
-- one, and it expires no earlier.
pub renewal_extends :
    (book : LeasedNameBook) (name : Text) (old incoming : LeasedName)
    → get book name ≡ some old
    → old.owner_pubkey ≡ incoming.owner_pubkey
    → (now : LeasedName) × (get (apply_leased_name book name incoming).0 name ≡ some now)
      × (now.owner_pubkey ≡ old.owner_pubkey)
      × (lease_expiry_ms old ≤ lease_expiry_ms now)
unfolding apply_leased_name merge_leased_name cross_owner_winner
renewal_extends book name old incoming held_now same =
    elim (Ordering-cases (hlc_cmp incoming.renewed_at old.renewed_at)) [
      | inl newer ↦ (
        incoming,
        ground (
          arith,
          get-store book name name incoming (merge_leased_name (get book name) incoming),
          text_cmp-IsTotalOrder.cmp_self name,
          text_cmp-IsTotalOrder.cmp_self incoming.owner_pubkey,
        ),
        sym same,
        lease_expiry_mono incoming old newer,
      )
      | inr stale ↦ (
        old,
        ground (
          arith,
          get-store book name name incoming (merge_leased_name (get book name) incoming),
          text_cmp-IsTotalOrder.cmp_self name,
          text_cmp-IsTotalOrder.cmp_self incoming.owner_pubkey,
        ),
        refl,
        le_refl _,
      )
    ]
