-- ===== src/Crdt/Hlc.antt =====
-- The hybrid logical clock (crdt/hlc.rs): wall clock, then counter, then node id.
use lightning_mesh.Prelude.{ℕ, compare, Ordering, arith}
use lightning_mesh.Order.{IsTotalOrder, Ord, Text, text_cmp, text_cmp-IsTotalOrder, and_then}

pub record Hlc : Type 0 where
  pub wall_clock : ℕ
  pub counter : ℕ
  pub node_id : Text

unfoldable pub hlc_cmp : Hlc → Hlc → Ordering
hlc_cmp a b =
    and_then (and_then (compare a.wall_clock b.wall_clock) (compare a.counter b.counter))
      (text_cmp a.node_id b.node_id)

-- The clock is a total order: two stamps compare equal only if they are the same stamp, the
-- comparison is antisymmetric, and it is transitive.
pub hlc_cmp-IsTotalOrder : IsTotalOrder hlc_cmp
unfolding hlc_cmp
hlc_cmp-IsTotalOrder = record {
  cmp_self = λ a. ground (arith, text_cmp-IsTotalOrder.cmp_self a.node_id);
  same_of_eq = λ a b. ground (arith, text_cmp-IsTotalOrder.same_of_eq a.node_id b.node_id);
  below_of_gt = λ a b. ground (arith, text_cmp-IsTotalOrder.below_of_gt a.node_id b.node_id);
  above_of_lt = λ a b. ground (arith, text_cmp-IsTotalOrder.above_of_lt a.node_id b.node_id);
  cmp_trans =
      λ a b c. ground (arith, text_cmp-IsTotalOrder.cmp_trans a.node_id b.node_id c.node_id);
}

instance abbrev pub hlc_ord : Ord Hlc
hlc_ord = record { cmp = hlc_cmp; laws = hlc_cmp-IsTotalOrder }
