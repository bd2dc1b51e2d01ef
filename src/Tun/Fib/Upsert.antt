-- ===== src/Tun/Fib/Upsert.antt =====
-- What a route that is put into the table changes.
use lightning_mesh.Prelude.{
  ℕ, true, false, some, ◌≡◌, ◌≢◌, ◌≤◌, ◌⊎◌, inl, inr, sym, ◌∙◌, arith, some≢none, Option-cases,
}
use lightning_mesh.Order.{nat_ord}
use lightning_mesh.Book.{get, insert, get-insert, get-insert_self, get-insert_ne}
use lightning_mesh.Book.Sorted.{IsSorted, insert-IsSorted}
use lightning_mesh.Tun.Fib.{
  Prefix, new_prefix, contains, prefix_cmp-IsTotalOrder, prefix_ord, Fib, upsert, lookup,
}
use lightning_mesh.Tun.Fib.Longest.{lookup_iff}

-- A route that is put into a table whose prefixes ascend takes every address of its prefix for which
-- the table has no longer prefix, also where it replaces a route of the same prefix; the lookup of an
-- address outside its prefix does not change.
pub lookup-upsert :
    (routes : Fib) (addr len next_hop dest : ℕ)
    → IsSorted routes
    → (contains (new_prefix addr len) dest ≡ true
        → ((q : Prefix) (h : ℕ)
            → get routes q ≡ some h
            → contains q dest ≡ true
            → q.len ≤ (new_prefix addr len).len)
        → lookup (upsert routes addr len next_hop) dest ≡ some next_hop)
      × (contains (new_prefix addr len) dest ≡ false
          → lookup (upsert routes addr len next_hop) dest ≡ lookup routes dest)
unfolding upsert
lookup-upsert routes addr len next_hop dest sorted = (taken, outside)
  where
    new : Prefix
    new = new_prefix addr len

    after : Fib
    after = insert routes new next_hop

    sorted_after : IsSorted after
    sorted_after = insert-IsSorted routes new next_hop sorted

    -- A prefix other than the new one that the new table holds was held before.
    before : (q : Prefix) (h : ℕ) → get after q ≡ some h → (q ≡ new) ⊎ (get routes q ≡ some h)
    before q h at =
        ground (arith, get-insert routes new q next_hop, prefix_cmp-IsTotalOrder.same_of_eq new q)

    taken :
        contains new dest ≡ true
        → ((q : Prefix) (h : ℕ) → get routes q ≡ some h → contains q dest ≡ true → q.len ≤ new.len)
        → lookup after dest ≡ some next_hop
    taken on top = (lookup_iff after dest next_hop sorted_after).1 (
      new,
      get-insert_self routes new next_hop,
      on,
      λ q h at held. elim (before q h at) [
        | inl same ↦ rw (same) (omega arith)
        | inr old ↦ top q h old held
      ],
    )

    outside : contains new dest ≡ false → lookup after dest ≡ lookup routes dest
    outside off = elim (Option-cases (lookup routes dest)) [
      | inl vacant ↦ elim (Option-cases (lookup after dest)) [
        | inl still ↦ still ∙ sym vacant
        | inr (h, found) ↦ absurd (some≢none (sym (back h found) ∙ vacant))
      ]
      | inr (h, found) ↦ forth h found ∙ sym found
    ]
      where
        other : (q : Prefix) → contains q dest ≡ true → new ≢ q
        other q held same = cc

        forth : (h : ℕ) → lookup routes dest ≡ some h → lookup after dest ≡ some h
        forth h found =
            let (p, at, held, top) = (lookup_iff routes dest h sorted).0 found in
            (lookup_iff after dest h sorted_after).1 (
              p,
              get-insert_ne routes new p next_hop (other p held) ∙ at,
              held,
              λ q g at' on.
                  top q g (sym (get-insert_ne routes new q next_hop (other q on)) ∙ at') on,
            )

        back : (h : ℕ) → lookup after dest ≡ some h → lookup routes dest ≡ some h
        back h found =
            let (p, at, held, top) = (lookup_iff after dest h sorted_after).0 found in
            (lookup_iff routes dest h sorted).1 (
              p,
              sym (get-insert_ne routes new p next_hop (other p held)) ∙ at,
              held,
              λ q g at' on. top q g (get-insert_ne routes new q next_hop (other q on) ∙ at') on,
            )
