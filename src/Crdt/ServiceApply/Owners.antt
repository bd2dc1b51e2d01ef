-- ===== src/Crdt/ServiceApply/Owners.antt =====
-- Convergence of the owner-bound services, and where the order of messages decides.
use lightning_mesh.Prelude.{
  Ordering, true, false, none, some, ◌≡◌, ◌↔◌, inl, inr, refl, sym, ◌∙◌, arith, gt, List, [], ◌∷◌,
  In,
}
use lightning_mesh.Order.{Text, text_cmp, text_cmp-IsTotalOrder, text_ord, and_then}
use lightning_mesh.Book.{get, insert, get-insert_self, get-remove}
use lightning_mesh.Crdt.Hlc.{Hlc, hlc_cmp, hlc_cmp-IsTotalOrder}
use lightning_mesh.Crdt.Entries.{
  ServiceEntryV2, ServiceBookV2, ServiceTombstone, ServiceTombstoneBook,
}
use lightning_mesh.Crdt.Merge.{
  ok, reserved_service_name, is_reserved_service_name, merge_service_v2,
}
use lightning_mesh.Crdt.Register.{
  IsRanking, IsRanking-by, IsRanking-flip, IsRanking-then, keep, settle, AreDistinct, In-keep,
  settle_converges,
}
use lightning_mesh.Crdt.ServiceApply.{revived, apply_service_publish_v2, apply_service_unpublish_v2}

-- The order by which services compete for a name: the earlier first claim, then the lower owner,
-- then the newer refresh.
abbrev pub seniority : ServiceEntryV2 → ServiceEntryV2 → Ordering
seniority a b =
    and_then (hlc_cmp b.first_claimed_at a.first_claimed_at)
      (and_then (text_cmp b.owner_node_id a.owner_node_id) (hlc_cmp a.updated_at b.updated_at))

seniority-IsRanking : IsRanking seniority
seniority-IsRanking =
    IsRanking-then (IsRanking-flip (IsRanking-by (λ e. e.first_claimed_at) hlc_cmp-IsTotalOrder)) (
      IsRanking-then (IsRanking-flip (IsRanking-by (λ e. e.owner_node_id) text_cmp-IsTotalOrder))
        (IsRanking-by (λ e. e.updated_at) hlc_cmp-IsTotalOrder))

-- What the dispatch loop keeps of a received publish: on an error the book stays.
abbrev pub receive_publish :
    ServiceTombstoneBook → Text → ServiceBookV2 → ServiceEntryV2 → ServiceBookV2
receive_publish tombstones name book incoming =
    elim (apply_service_publish_v2 book tombstones name incoming) [
      | ok (book', _) ↦ book'
      | reserved_service_name _ ↦ book
    ]

unfoldable pub receive_all :
    ServiceTombstoneBook → Text → ServiceBookV2 → List ServiceEntryV2 → ServiceBookV2
receive_all tombstones name book [] = book
receive_all tombstones name book (e ∷ es) =
    receive_all tombstones name (receive_publish tombstones name book e) es

-- An owner never changes the stamp of its first claim.
abbrev pub HaveFixedClaims : List ServiceEntryV2 → Type 0
HaveFixedClaims es =
    (a b : ServiceEntryV2)
    → In a es
    → In b es
    → a.owner_node_id ≡ b.owner_node_id
    → a.first_claimed_at ≡ b.first_claimed_at

module _ (tombstones : ServiceTombstoneBook) (name : Text)
    (free : is_reserved_service_name name ≡ false) (unburied : get tombstones name ≡ none) where
  get-receive_vacant :
      (book : ServiceBookV2) (e : ServiceEntryV2)
      → get book name ≡ none
      → get (receive_publish tombstones name book e) name ≡ some e
  unfolding apply_service_publish_v2 merge_service_v2
  get-receive_vacant book e vacant = ground (arith, get-insert_self book name e)

  get-receive_held :
      (book : ServiceBookV2) (old e : ServiceEntryV2)
      → get book name ≡ some old
      → (old.owner_node_id ≡ e.owner_node_id → old.first_claimed_at ≡ e.first_claimed_at)
      → get (receive_publish tombstones name book e) name ≡ some (keep seniority old e)
  unfolding apply_service_publish_v2 merge_service_v2
  get-receive_held book old e held fixed = ground (
    arith,
    get-insert_self book name e,
    get-insert_self book name old,
    text_cmp-IsTotalOrder.same_of_eq old.owner_node_id e.owner_node_id,
    text_cmp-IsTotalOrder.cmp_self old.owner_node_id,
    text_cmp-IsTotalOrder.cmp_self e.owner_node_id,
    text_cmp-IsTotalOrder.below_of_gt old.owner_node_id e.owner_node_id,
    text_cmp-IsTotalOrder.above_of_lt old.owner_node_id e.owner_node_id,
    hlc_cmp-IsTotalOrder.cmp_self e.first_claimed_at,
    hlc_cmp-IsTotalOrder.same_of_eq old.first_claimed_at e.first_claimed_at,
  )

  HaveFixedClaims-keep :
      (old e : ServiceEntryV2) (es : List ServiceEntryV2)
      → HaveFixedClaims (old ∷ e ∷ es)
      → HaveFixedClaims (keep seniority old e ∷ es)
  HaveFixedClaims-keep old e es fixed a b ia ib =
      fixed a b (In-keep seniority-IsRanking old e a es ia)
        (In-keep seniority-IsRanking old e b es ib)

  get-receive_all :
      (es : List ServiceEntryV2) (book : ServiceBookV2) (old : ServiceEntryV2)
      → get book name ≡ some old
      → HaveFixedClaims (old ∷ es)
      → get (receive_all tombstones name book es) name ≡ settle seniority (some old) es
  unfolding receive_all settle
  get-receive_all [] book old held fixed = held
  get-receive_all (e ∷ es) book old held fixed =
      get-receive_all es (receive_publish tombstones name book e) (keep seniority old e)
        (get-receive_held book old e held (fixed old e (inl refl) (inr (inl refl))))
        (HaveFixedClaims-keep old e es fixed)

  get-receive_from_vacant :
      (es : List ServiceEntryV2) (book : ServiceBookV2)
      → get book name ≡ none
      → HaveFixedClaims es
      → get (receive_all tombstones name book es) name ≡ settle seniority none es
  unfolding receive_all settle
  get-receive_from_vacant [] book vacant fixed = vacant
  get-receive_from_vacant (e ∷ es) book vacant fixed =
      get-receive_all es (receive_publish tombstones name book e) e
        (get-receive_vacant book e vacant) fixed

-- Two nodes at which a name is vacant and carries no tombstone receive the same publishes of it,
-- each in its own order and as often as it happens. If no owner ever changes its first claim, and
-- an owner's entries with the same refresh stamp are the same entry, both end with the same entry
-- under the name.
pub receive_all_converges :
    (graves graves' : ServiceTombstoneBook) (name : Text) (book book' : ServiceBookV2)
    (es es' : List ServiceEntryV2)
    → is_reserved_service_name name ≡ false
    → get graves name ≡ none
    → get graves' name ≡ none
    → get book name ≡ none
    → get book' name ≡ none
    → HaveFixedClaims es
    → ((a b : ServiceEntryV2)
        → In a es
        → In b es
        → a.owner_node_id ≡ b.owner_node_id
        → a.updated_at ≡ b.updated_at
        → a ≡ b)
    → ((e : ServiceEntryV2) → In e es ↔ In e es')
    → get (receive_all graves name book es) name ≡ get (receive_all graves' name book' es') name
receive_all_converges graves graves' name book book' es es' free un un' vac vac' fixed distinct
      same =
    get-receive_from_vacant graves name free un es book vac fixed
    ∙ settle_converges seniority-IsRanking es es' apart same
    ∙ sym (
        get-receive_from_vacant graves' name free un' es' book' vac'
          (λ a b ia ib. fixed a b ((same a).1 ia) ((same b).1 ib)))
  where
    apart : AreDistinct seniority es
    apart a b ia ib e =
        distinct a b ia ib
          (ground (
            arith,
            text_cmp-IsTotalOrder.same_of_eq b.owner_node_id a.owner_node_id,
            hlc_cmp-IsTotalOrder.same_of_eq b.first_claimed_at a.first_claimed_at,
          ))
          (hlc_cmp-IsTotalOrder.same_of_eq a.updated_at b.updated_at (ground arith))

-- A reserved name can be served: where it is vacant and carries no tombstone, an unpublish of it
-- leaves a tombstone, and a publish by the same node with a newer stamp is then taken for a revival
-- and puts the entry under the reserved name.
pub reserved_name_revived :
    (book : ServiceBookV2) (tombstones : ServiceTombstoneBook) (name : Text) (at : Hlc)
    (incoming : ServiceEntryV2)
    → is_reserved_service_name name ≡ true
    → get book name ≡ none
    → get tombstones name ≡ none
    → hlc_cmp incoming.updated_at at ≡ gt
    → let (book', tombstones', _) =
        apply_service_unpublish_v2 book tombstones name incoming.owner_node_id at in
      (apply_service_publish_v2 book' tombstones' name incoming
        ≡ ok (insert book name incoming, revived))
      × (get (insert book name incoming) name ≡ some incoming)
      × (apply_service_publish_v2 book tombstones name incoming ≡ reserved_service_name name)
unfolding apply_service_publish_v2 apply_service_unpublish_v2 merge_service_v2
reserved_name_revived book tombstones name at incoming taken vacant unburied newer =
    let grave : ServiceTombstone = record { owner_node_id = incoming.owner_node_id; hlc = at } in
    (
      ground (
        arith,
        text_cmp-IsTotalOrder.cmp_self incoming.owner_node_id,
        get-insert_self tombstones name grave,
      ),
      get-insert_self book name incoming,
      ground arith,
    )

-- An unpublish that is older than the publish of the same owner still takes the service down where
-- it arrives second, while the publish brings the service back where the unpublish arrives first:
-- two nodes that receive the two messages in different orders disagree.
pub stale_unpublish_disagrees :
    (name : Text) (at : Hlc) (e : ServiceEntryV2)
    → is_reserved_service_name name ≡ false
    → hlc_cmp e.updated_at at ≡ gt
    → let first = receive_publish [] name [] e in
      let (_, grave, _) = apply_service_unpublish_v2 [] [] name e.owner_node_id at in
      (get (apply_service_unpublish_v2 first [] name e.owner_node_id at).0 name ≡ none)
      × (get (receive_publish grave name [] e) name ≡ some e)
unfolding apply_service_publish_v2 apply_service_unpublish_v2 merge_service_v2 get
stale_unpublish_disagrees name at e free newer =
    let grave : ServiceTombstone = record { owner_node_id = e.owner_node_id; hlc = at } in
    let book : ServiceBookV2 = [] in
    let graves : ServiceTombstoneBook = [] in
    (
      ground (
        arith,
        text_cmp-IsTotalOrder.cmp_self e.owner_node_id,
        text_cmp-IsTotalOrder.cmp_self name,
        get-insert_self book name e,
        get-remove (insert book name e) name name,
      ),
      ground (
        arith,
        text_cmp-IsTotalOrder.cmp_self e.owner_node_id,
        get-insert_self graves name grave,
        get-insert_self book name e,
      ),
    )
