-- ===== src/Tests/Tunnels.antt =====
-- Link addresses, routes and packets at concrete inputs.
use lightning_mesh.Prelude.{ℕ, true, false, some, List, [], ◌∷◌, ◌++◌, ◌≡◌, ◌↔◌, refl, ◌+◌, ◌≤◌}
use lightning_mesh.Order.{Text, text_ord, nat_ord, text_cmp}
use lightning_mesh.Book.{get}
use lightning_mesh.Book.Sorted.{IsSorted}
use lightning_mesh.Tun.Link.{ipv4}
use lightning_mesh.Tun.Fib.{Prefix, new_prefix, contains, Fib, upsert, lookup, prefix_ord}
use lightning_mesh.Tun.Fib.Longest.{lookup_iff}
use lightning_mesh.Tun.Fib.Upsert.{lookup-upsert}
use lightning_mesh.Tun.Mcast.{babel_mcast, is_babel_multicast, slice, prefix_of}

abbrev hash16 : Text → ℕ
hash16 t = 65535

abbrev decimal : ℕ → Text
decimal n = (48 + n) ∷ []

abbrev wide : Prefix
wide = record { net = ipv4 10 42 0 0; len = 16 }

abbrev narrow : Prefix
narrow = record { net = ipv4 10 42 1 0; len = 24 }

abbrev routes : Fib
routes = (wide, 1) ∷ (narrow, 2) ∷ []

routes-IsSorted : IsSorted routes
routes-IsSorted = ((refl, tt), (tt, tt))

lookup_iff_example : (lookup routes (ipv4 10 42 1 99) ≡ some 2) ↔ (
    (p : Prefix) × (get routes p ≡ some 2)
    × (contains p (ipv4 10 42 1 99) ≡ true)
    × ((q : Prefix) (h : ℕ)
        → get routes q ≡ some h
        → contains q (ipv4 10 42 1 99) ≡ true
        → q.len ≤ p.len))
lookup_iff_example = lookup_iff routes (ipv4 10 42 1 99) 2 routes-IsSorted

lookup-upsert_example :
    (contains (new_prefix (ipv4 10 42 1 7) 32) (ipv4 10 42 1 7) ≡ true
      → ((q : Prefix) (h : ℕ)
          → get routes q ≡ some h
          → contains q (ipv4 10 42 1 7) ≡ true
          → q.len ≤ (new_prefix (ipv4 10 42 1 7) 32).len)
      → lookup (upsert routes (ipv4 10 42 1 7) 32 9) (ipv4 10 42 1 7) ≡ some 9)
    × (contains (new_prefix (ipv4 10 42 1 7) 32) (ipv4 10 42 1 7) ≡ false
        → lookup (upsert routes (ipv4 10 42 1 7) 32 9) (ipv4 10 42 1 7)
          ≡ lookup routes (ipv4 10 42 1 7))
lookup-upsert_example = lookup-upsert routes (ipv4 10 42 1 7) 32 9 (ipv4 10 42 1 7) routes-IsSorted

looked_up : lookup routes (ipv4 10 42 1 99) ≡ some 2
unfolding lookup
looked_up = refl

-- Version 6, and the bytes up to the destination.
abbrev before_dst : List ℕ
before_dst =
    0 ∷ 0 ∷ 0 ∷ 0 ∷ 0 ∷ 0 ∷ 0 ∷ 0 ∷ 0 ∷ 0 ∷ 0 ∷ 0 ∷ 0 ∷ 0 ∷ 0 ∷ 0 ∷ 0 ∷ 0 ∷ 0 ∷ 0 ∷ 0 ∷ 0 ∷ 0 ∷ []

abbrev hello : List ℕ
hello = 0x60 ∷ before_dst ++ babel_mcast

hello_babel : is_babel_multicast hello ≡ true
unfolding is_babel_multicast slice prefix_of text_cmp
hello_babel = refl
