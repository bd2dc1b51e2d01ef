-- ===== src/Daemon/Dispatch/Losses.antt =====
-- A name that this node has lost to a peer, over the messages that the dispatch handles later.
use lightning_mesh.Prelude.{
  Bool, true, false, some, List, [], ◌∷◌, ◌≡◌, ◌≢◌, ◌⊎◌, inl, inr, refl, arith, lt, sym, ap, ◌∙◌,
  subst, Option-cases,
}
use lightning_mesh.Order.{Text, text_ord}
use lightning_mesh.Book.{get}
use lightning_mesh.Net.{Ipnet}
use lightning_mesh.Crdt.Hlc.{hlc_cmp}
use lightning_mesh.Crdt.Entries.{ServiceEntryV2, ServiceBookV2, LostNameMap}
use lightning_mesh.Crdt.Merge.{
  conflict, ok, Checked, reserved_service_name, is_reserved_service_name,
}
use lightning_mesh.Crdt.ServiceApply.{
  PublishOutcome, merged, apply_service_publish_v2, apply_service_publish_v2_tracking_loss,
  Published, lost_to_peer, publish_service_v2,
}
use lightning_mesh.Crdt.ServiceApply.Laws.{publish-after_loss}
use lightning_mesh.Crdt.ServiceApply.Losses.{IsLost, track-IsLost}
use lightning_mesh.Crdt.Gossip.{GossipMessage, service_publish_v2}
use lightning_mesh.Daemon.Dispatch.{
  Arrival, Node, Step, running, exited, dispatch, deliver, deliver_all, learn_claim, learn_user,
  learn_peer_addr, learn_node_name, learn_service,
}
use lightning_mesh.Daemon.Dispatch.Files.{node_of, dispatch-self_id}

Checked-cases :
    {A : Type 0} (r : Checked A)
    → ((a : A) × (r ≡ ok a)) ⊎ ((n : Text) × (r ≡ reserved_service_name n))
Checked-cases (ok a) = inl (a, refl)
Checked-cases (reserved_service_name n) = inr (n, refl)

module _ (i : Ipnet) where
  abbrev HasLost : Node i → Text → Type 0
  HasLost n q = IsLost n.service_v2.lost_names n.self_id q

  publish-HasLost :
      (n : Node i) (at : Arrival) (name q : Text) (e : ServiceEntryV2)
      → HasLost n q
      → HasLost (node_of i (dispatch i n at (service_publish_v2 name e))) q
  unfolding dispatch apply_service_publish_v2_tracking_loss
  publish-HasLost n at name q e h =
      let s = n.service_v2 in
      elim (Checked-cases (apply_service_publish_v2 s.book s.tombstones name e)) [
        | inl ((book', outcome), p) ↦
            rw (dispatch, apply_service_publish_v2_tracking_loss, p)
              (track-IsLost s.book book' s.tombstones s.lost_names n.self_id name q e outcome p h)
        | inr (x, p) ↦ rw (dispatch, apply_service_publish_v2_tracking_loss, p) h
      ]

  abbrev is_service_publish : GossipMessage i.IpNet → Bool
  is_service_publish (service_publish_v2 name e) = true
  is_service_publish _ = false

  same_losses :
      (n : Node i) (at : Arrival) (msg : GossipMessage i.IpNet)
      → is_service_publish msg ≡ false
      → (node_of i (dispatch i n at msg)).service_v2.lost_names ≡ n.service_v2.lost_names
  unfolding dispatch learn_claim learn_user learn_peer_addr learn_node_name learn_service
  same_losses n at msg h = ground arith

  dispatch-HasLost :
      (n : Node i) (at : Arrival) (msg : GossipMessage i.IpNet) (q : Text)
      → HasLost n q
      → HasLost (node_of i (dispatch i n at msg)) q
  dispatch-HasLost n at (service_publish_v2 name e) q h = publish-HasLost n at name q e h
  dispatch-HasLost n at msg q (l, held, ne) = (
    l,
    ap (λ m. get m q) (same_losses n at msg refl) ∙ held,
    λ e. ne (e ∙ dispatch-self_id i n at msg),
  )

  deliver-HasLost :
      (s : Step i) (m : Arrival × GossipMessage i.IpNet) (q : Text)
      → HasLost (node_of i s) q
      → HasLost (node_of i (deliver i s m)) q
  unfolding deliver
  deliver-HasLost (running n) (at, msg) q h = dispatch-HasLost n at msg q h
  deliver-HasLost (exited n) (at, msg) q h = h

  deliver_all-HasLost :
      (msgs : List (Arrival × GossipMessage i.IpNet)) (s : Step i) (q : Text)
      → HasLost (node_of i s) q
      → HasLost (node_of i (deliver_all i s msgs)) q
  unfolding deliver_all
  deliver_all-HasLost [] s q h = h
  deliver_all-HasLost (m ∷ msgs) s q h =
      deliver_all-HasLost msgs (deliver i s m) q (deliver-HasLost s m q h)

  deliver-self_id :
      (s : Step i) (m : Arrival × GossipMessage i.IpNet)
      → (node_of i (deliver i s m)).self_id ≡ (node_of i s).self_id
  unfolding deliver
  deliver-self_id (running n) (at, msg) = dispatch-self_id i n at msg
  deliver-self_id (exited n) (at, msg) = refl

  deliver_all-self_id :
      (msgs : List (Arrival × GossipMessage i.IpNet)) (s : Step i)
      → (node_of i (deliver_all i s msgs)).self_id ≡ (node_of i s).self_id
  unfolding deliver_all
  deliver_all-self_id [] s = refl
  deliver_all-self_id (m ∷ msgs) s = deliver_all-self_id msgs (deliver i s m) ∙ deliver-self_id s m

  -- A publish of the name by this node.
  abbrev pub publish_at :
      Node i → Text → ServiceEntryV2 → Published (ServiceBookV2 × LostNameMap × PublishOutcome)
  publish_at n name e =
      publish_service_v2 n.service_v2.book n.service_v2.tombstones n.service_v2.lost_names n.self_id
        name e

  lost_refuses :
      (n : Node i) (name : Text) (e : ServiceEntryV2)
      → is_reserved_service_name name ≡ false
      → HasLost n name
      → (winner : Text) × (winner ≢ n.self_id) × (publish_at n name e ≡ lost_to_peer winner)
  unfolding publish_service_v2
  lost_refuses n name e free (l, held, ne) = (l.winner_node_id, ne, ground arith)

  keeps_loss :
      (n : Node i) (at : Arrival) (name : Text) (theirs again : ServiceEntryV2)
      (book' : ServiceBookV2) (lost' : LostNameMap) (outcome : PublishOutcome)
      → let s = n.service_v2 in
        apply_service_publish_v2_tracking_loss s.book s.tombstones s.lost_names n.self_id name
            theirs
          ≡ ok (book', lost', outcome)
        → get book' name ≡ some theirs
        → publish_service_v2 book' n.service_v2.tombstones lost' n.self_id name again
          ≡ lost_to_peer theirs.owner_node_id
        → let n' = node_of i (dispatch i n at (service_publish_v2 name theirs)) in
          (get n'.service_v2.book name ≡ some theirs)
          × (publish_at n' name again ≡ lost_to_peer theirs.owner_node_id)
  unfolding dispatch
  keeps_loss n at name theirs again book' lost' outcome p taken refused =
      (rw (dispatch, p) taken, rw (dispatch, p) refused)

  -- What the dispatch keeps of an earlier claim of a peer.
  first_loss :
      (n : Node i) (at : Arrival) (name : Text) (ours theirs again : ServiceEntryV2)
      → is_reserved_service_name name ≡ false
      → get n.service_v2.book name ≡ some ours
      → ours.owner_node_id ≡ n.self_id
      → theirs.owner_node_id ≢ n.self_id
      → hlc_cmp theirs.first_claimed_at ours.first_claimed_at ≡ lt
      → let n' = node_of i (dispatch i n at (service_publish_v2 name theirs)) in
        (get n'.service_v2.book name ≡ some theirs)
        × (publish_at n' name again ≡ lost_to_peer theirs.owner_node_id)
  first_loss n at name ours theirs again free held own ne earlier =
      let s = n.service_v2 in
      let (book', lost', p, taken, refused) =
        subst
          (λ self.
            (book' : ServiceBookV2) × (lost' : LostNameMap)
            × (apply_service_publish_v2_tracking_loss s.book s.tombstones s.lost_names self name
                  theirs
                ≡ ok (book', lost', merged (conflict theirs ours)))
            × (get book' name ≡ some theirs)
            × (publish_service_v2 book' s.tombstones lost' self name again
                ≡ lost_to_peer theirs.owner_node_id))
          own
          (publish-after_loss s.book s.tombstones s.lost_names name ours theirs again free held
            (λ e. ne (sym e ∙ own)) earlier) in
      keeps_loss n at name theirs again book' lost' (merged (conflict theirs ours)) p taken refused

  refused-HasLost :
      (n : Node i) (name peer : Text) (e : ServiceEntryV2)
      → is_reserved_service_name name ≡ false
      → peer ≢ n.self_id
      → publish_at n name e ≡ lost_to_peer peer
      → HasLost n name
  unfolding publish_service_v2
  refused-HasLost n name peer e free ne h =
      let s = n.service_v2 in
      elim (Option-cases (get s.lost_names name)) [
        | inl v ↦
            elim (Checked-cases (
              apply_service_publish_v2_tracking_loss s.book s.tombstones s.lost_names n.self_id name
                e)) [ inl (a, q) ↦ ground arith | inr (x, q) ↦ ground arith ]
        | inr (l, v) ↦ (l, v, λ q. ne (ground arith))
      ]

  -- This node holds a name that is not reserved, and a peer's earlier claim on it arrives. Then the peer's entry is in
  -- the book under the name, and a publish of the name by this node fails and names the peer. After whatever
  -- messages the dispatch handles next, a publish of the name by this node still fails, and names another node.
  pub loss_lasts :
      (n : Node i) (at : Arrival) (name : Text) (ours theirs again : ServiceEntryV2)
      (msgs : List (Arrival × GossipMessage i.IpNet))
      → is_reserved_service_name name ≡ false
      → get n.service_v2.book name ≡ some ours
      → ours.owner_node_id ≡ n.self_id
      → theirs.owner_node_id ≢ n.self_id
      → hlc_cmp theirs.first_claimed_at ours.first_claimed_at ≡ lt
      → let s = dispatch i n at (service_publish_v2 name theirs) in
        let later = node_of i (deliver_all i s msgs) in
        (get (node_of i s).service_v2.book name ≡ some theirs)
        × (publish_at (node_of i s) name again ≡ lost_to_peer theirs.owner_node_id)
        × ((winner : Text) × (winner ≢ n.self_id)
            × (publish_at later name again ≡ lost_to_peer winner))
  loss_lasts n at name ours theirs again msgs free held own ne earlier =
      let s = dispatch i n at (service_publish_v2 name theirs) in
      let me = dispatch-self_id i n at (service_publish_v2 name theirs) in
      let (taken, refused) = first_loss n at name ours theirs again free held own ne earlier in
      let lost =
        refused-HasLost (node_of i s) name theirs.owner_node_id again free (λ e. ne (e ∙ me))
          refused in
      let (winner, other, later) =
        lost_refuses (node_of i (deliver_all i s msgs)) name again free
          (deliver_all-HasLost msgs s name lost) in
      (taken, refused, (winner, (λ e. other (e ∙ sym (deliver_all-self_id msgs s ∙ me))), later))
