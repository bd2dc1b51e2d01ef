-- ===== src/Crdt/LeasedName.antt =====
-- Leased names owned by a key (crdt/leased_name.rs).
pub mod Laws
pub mod Ties
use lightning_mesh.Prelude.{
  ℕ, Bool, true, false, ◌&&◌, not, Option, none, some, [], ◌∷◌, if◌then◌else◌, ◌+◌, ◌*◌, ◌-◌, ◌^◌,
}
use Prim.Native.Nat.{min}
use lightning_mesh.Order.{Ord, Text, ◌==◌, leb, gtb, nat_ord, text_ord}
use lightning_mesh.Book.{Book, get, insert}
use lightning_mesh.Crdt.Hlc.{Hlc, hlc_ord}
use lightning_mesh.Crdt.Entries.{IpAddr, v4, v6, LeasedName, LeasedNameBook}
use lightning_mesh.Crdt.Merge.{MergeResult, inserted, updated, unchanged, conflict}

abbrev pub lease_ttl_ms : ℕ
lease_ttl_ms = 60 * 60 * 1000

-- `u64::saturating_add`
abbrev pub saturating_add : ℕ → ℕ → ℕ
saturating_add a b = min (a + b) (2 ^ 64 - 1)

unfoldable pub lease_expiry_ms : LeasedName → ℕ
lease_expiry_ms e = saturating_add e.renewed_at.wall_clock lease_ttl_ms

unfoldable pub is_expired : LeasedName → ℕ → Bool
is_expired e now_ms = gtb now_ms (lease_expiry_ms e)

-- The winner and the loser.
unfoldable pub cross_owner_winner : LeasedName → LeasedName → LeasedName × LeasedName
cross_owner_winner a b =
    let (incumbent, challenger) : LeasedName × LeasedName =
      if leb a.first_claimed_at b.first_claimed_at then (a, b) else (b, a) in
    if gtb challenger.first_claimed_at.wall_clock (lease_expiry_ms incumbent)
    then (challenger, incumbent)
    else (incumbent, challenger)

unfoldable pub merge_leased_name : Option LeasedName → LeasedName → MergeResult LeasedName
merge_leased_name none incoming = inserted
merge_leased_name (some existing) incoming =
    if existing.owner_pubkey == incoming.owner_pubkey
    then if gtb incoming.renewed_at existing.renewed_at then updated else unchanged
    else let (winner, loser) = cross_owner_winner existing incoming in conflict winner loser

-- The derived equality of the record, field by field.
abbrev pub option_eq : Option Text → Option Text → Bool
option_eq none none = true
option_eq none (some b) = false
option_eq (some a) none = false
option_eq (some a) (some b) = a == b

abbrev pub ip_eq : IpAddr → IpAddr → Bool
ip_eq (v4 a) (v4 b) = a == b
ip_eq (v4 a) (v6 b) = false
ip_eq (v6 a) (v4 b) = false
ip_eq (v6 a) (v6 b) = a == b

unfoldable pub leased_eq : LeasedName → LeasedName → Bool
leased_eq a b =
    a.owner_pubkey == b.owner_pubkey
    && (a.sig == b.sig
        && (a.challenge == b.challenge
            && (ip_eq a.ip b.ip
                && (a.port == b.port
                    && (option_eq a.scheme b.scheme
                        && (a.first_claimed_at == b.first_claimed_at
                            && a.renewed_at == b.renewed_at))))))

-- The `match` of `apply_leased_name`: what the verdict does to the book.
unfoldable pub store : LeasedNameBook → Text → LeasedName → MergeResult LeasedName → LeasedNameBook
unfolding leased_eq
store book name incoming inserted = insert book name incoming
store book name incoming updated = insert book name incoming
store book name incoming unchanged = book
store book name incoming (conflict winner loser) =
    if winner.owner_pubkey == incoming.owner_pubkey && leased_eq winner incoming
    then insert book name incoming
    else insert book name winner

-- The book afterwards and the verdict.
unfoldable pub apply_leased_name :
    LeasedNameBook → Text → LeasedName → LeasedNameBook × MergeResult LeasedName
unfolding store merge_leased_name cross_owner_winner
apply_leased_name book name incoming =
    let result = merge_leased_name (get book name) incoming in
    (store book name incoming result, result)

-- The one name that a key holds now: the first live lease of the key, in the order of the book.
unfoldable pub name_owned_by : LeasedNameBook → Text → ℕ → Option Text
unfolding is_expired
name_owned_by [] pubkey now_ms = none
name_owned_by ((name, e) ∷ book) pubkey now_ms =
    if e.owner_pubkey == pubkey && not (is_expired e now_ms)
    then some name
    else name_owned_by book pubkey now_ms
