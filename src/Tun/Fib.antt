-- ===== src/Tun/Fib.antt =====
-- The forwarding table (tun/fib.rs): longest-prefix match. A `HashMap` is a book; its order does not
-- matter, since two prefixes of one length that contain an address are the same prefix.
pub mod Longest
pub mod Upsert
use lightning_mesh.Prelude.{
  ℕ, Bool, true, false, Option, none, some, List, [], ◌∷◌, ◌≡◌, ◌+◌, ◌-◌, ◌*◌, ◌/◌, ◌^◌, compare,
  Ordering, if◌then◌else◌, arith,
}
use Prim.Native.Nat.{min}
use mathlib.Core.Option
use lightning_mesh.Order.{Ord, IsTotalOrder, and_then, ◌==◌, leb, nat_ord}
use lightning_mesh.Book.{Book, get, insert, remove}

pub record Prefix : Type 0 where
  pub net : ℕ
  pub len : ℕ

-- `a & mask_of(len)`: the top bits of a 32-bit address.
abbrev pub masked : ℕ → ℕ → ℕ
masked len a = a / 2 ^ (32 - min len 32) * 2 ^ (32 - min len 32)

-- `Prefix::new`
unfoldable pub new_prefix : ℕ → ℕ → Prefix
new_prefix addr len = record { net = masked len addr; len = min len 32 }

unfoldable pub contains : Prefix → ℕ → Bool
contains p addr = masked p.len addr == p.net

abbrev pub prefix_cmp : Prefix → Prefix → Ordering
prefix_cmp a b = and_then (compare a.net b.net) (compare a.len b.len)

pub prefix_cmp-IsTotalOrder : IsTotalOrder prefix_cmp
prefix_cmp-IsTotalOrder = record {
  cmp_trans = λ a b c. ground arith;
  same_of_eq = λ a b. ground arith;
  cmp_self = λ a. ground arith;
  above_of_lt = λ a b. ground arith;
  below_of_gt = λ a b. ground arith;
}

instance abbrev pub prefix_ord : Ord Prefix
prefix_ord = record { cmp = prefix_cmp; laws = prefix_cmp-IsTotalOrder }

-- `Fib`: the next hop of each prefix.
abbrev pub Fib : Type 0
Fib = Book Prefix ℕ

unfoldable pub upsert : Fib → ℕ → ℕ → ℕ → Fib
unfolding new_prefix
upsert routes addr len next_hop = insert routes (new_prefix addr len) next_hop

unfoldable pub remove_route : Fib → ℕ → ℕ → Fib
unfolding new_prefix
remove_route routes addr len = remove routes (new_prefix addr len)

-- The last of the entries with the longest prefix among those that contain the address.
unfoldable pub longest : Fib → ℕ → Option (Prefix × ℕ)
unfolding contains
longest [] dest = none
longest ((p, next_hop) ∷ routes) dest =
    let rest = longest routes dest in
    if contains p dest
    then elim rest [
      | none ↦ some (p, next_hop)
      | some (q, other) ↦ if leb p.len q.len then some (q, other) else some (p, next_hop)
    ]
    else rest

unfoldable pub lookup : Fib → ℕ → Option ℕ
unfolding longest
lookup routes dest = elim (longest routes dest) [ none ↦ none | some (p, next_hop) ↦ some next_hop ]
