-- ===== src/Daemon/Claims/Laws.antt =====
-- Who holds a subnet after claims on it have been received.
use lightning_mesh.Prelude.{none, some, ◌≡◌, ◌≢◌, sym, ap, ◌∙◌, arith, lt, gt, []}
use lightning_mesh.Order.{Text, text_ord, text_cmp-IsTotalOrder}
use lightning_mesh.Book.{get, get-insert_self}
use lightning_mesh.Net.{Ipnet}
use lightning_mesh.Crdt.Hlc.{hlc_cmp, hlc_cmp-IsTotalOrder}
use lightning_mesh.Crdt.Merge.{resolve_subnet_conflict, merge_subnet_claim}
use lightning_mesh.Crdt.Gossip.{subnet_claim_update}
use lightning_mesh.Daemon.Claims.{Claim, ClaimStore, apply_subnet_message}

module _ (i : Ipnet) where
  -- The verdict on two claims of different owners does not depend on which of them is local.
  pub resolve_subnet_conflict_symm :
      (a b : Claim i)
      → a.owner_node_id ≢ b.owner_node_id
      → resolve_subnet_conflict a b ≡ resolve_subnet_conflict b a
  unfolding resolve_subnet_conflict
  resolve_subnet_conflict_symm a b ne = ground (
    arith,
    hlc_cmp-IsTotalOrder.same_of_eq a.claimed_at b.claimed_at,
    hlc_cmp-IsTotalOrder.below_of_gt a.claimed_at b.claimed_at,
    hlc_cmp-IsTotalOrder.above_of_lt a.claimed_at b.claimed_at,
    hlc_cmp-IsTotalOrder.cmp_self a.claimed_at,
    text_cmp-IsTotalOrder.same_of_eq a.owner_node_id b.owner_node_id,
    text_cmp-IsTotalOrder.below_of_gt a.owner_node_id b.owner_node_id,
    text_cmp-IsTotalOrder.above_of_lt a.owner_node_id b.owner_node_id,
  )

  -- A claim of another node arrives on a net that this node holds. If it was made earlier it takes the
  -- net, and this node is told that it lost its net, where that is one of IPv4; if it was made later,
  -- this node keeps the net and loses nothing.
  pub apply_subnet_message_contest :
      (store : ClaimStore i) (cidr self_id : Text) (ours theirs : Claim i)
      → get store cidr ≡ some ours
      → ours.owner_node_id ≡ self_id
      → theirs.owner_node_id ≢ self_id
      → let (after, lost) =
          apply_subnet_message i store (subnet_claim_update cidr theirs) self_id in
        (hlc_cmp theirs.claimed_at ours.claimed_at ≡ lt
          → (get after cidr ≡ some theirs) × (lost ≡ i.as_v4 ours.cidr))
        × (hlc_cmp theirs.claimed_at ours.claimed_at ≡ gt
            → (get after cidr ≡ some ours) × (lost ≡ none))
  unfolding apply_subnet_message merge_subnet_claim
  apply_subnet_message_contest store cidr self_id ours theirs held own other = (
    λ earlier. ground (
      arith,
      get-insert_self store cidr theirs,
      text_cmp-IsTotalOrder.same_of_eq ours.owner_node_id theirs.owner_node_id,
      text_cmp-IsTotalOrder.same_of_eq theirs.owner_node_id self_id,
      text_cmp-IsTotalOrder.cmp_self self_id,
      hlc_cmp-IsTotalOrder.above_of_lt theirs.claimed_at ours.claimed_at,
    ),
    λ later. ground (
      arith,
      get-insert_self store cidr ours,
      text_cmp-IsTotalOrder.same_of_eq ours.owner_node_id theirs.owner_node_id,
      text_cmp-IsTotalOrder.same_of_eq theirs.owner_node_id self_id,
      text_cmp-IsTotalOrder.cmp_self self_id,
      hlc_cmp-IsTotalOrder.below_of_gt theirs.claimed_at ours.claimed_at,
    ),
  )

  -- A claim received by a node of the given id.
  abbrev pub receive_claim : Text → Text → ClaimStore i → Claim i → ClaimStore i
  receive_claim self_id cidr store c =
      (apply_subnet_message i store (subnet_claim_update cidr c) self_id).0

  get-receive_first :
      (self_id cidr : Text) (a : Claim i) → get (receive_claim self_id cidr [] a) cidr ≡ some a
  unfolding apply_subnet_message merge_subnet_claim get
  get-receive_first self_id cidr a =
      let store : ClaimStore i = [] in ground (arith, get-insert_self store cidr a)

  get-receive_newer :
      (self_id cidr : Text) (store : ClaimStore i) (a b : Claim i)
      → get store cidr ≡ some a
      → a.owner_node_id ≡ b.owner_node_id
      → hlc_cmp b.claimed_at a.claimed_at ≡ gt
      → get (receive_claim self_id cidr store b) cidr ≡ some b
  unfolding apply_subnet_message merge_subnet_claim
  get-receive_newer self_id cidr store a b held same newer =
      ground (arith, get-insert_self store cidr b, text_cmp-IsTotalOrder.cmp_self b.owner_node_id)

  get-receive_contest :
      (self_id cidr : Text) (store : ClaimStore i) (a b : Claim i)
      → get store cidr ≡ some a
      → a.owner_node_id ≢ b.owner_node_id
      → get (receive_claim self_id cidr store b) cidr ≡ some (resolve_subnet_conflict a b).0
  unfolding apply_subnet_message merge_subnet_claim
  get-receive_contest self_id cidr store a b held ne = ground (
    arith,
    get-insert_self store cidr (resolve_subnet_conflict a b).0,
    text_cmp-IsTotalOrder.same_of_eq a.owner_node_id b.owner_node_id,
  )

  senior_first :
      (a b : Claim i)
      → hlc_cmp a.claimed_at b.claimed_at ≡ lt
      → (resolve_subnet_conflict a b).0 ≡ a × (resolve_subnet_conflict b a).0 ≡ a
  unfolding resolve_subnet_conflict
  senior_first a b earlier =
      ground (arith, hlc_cmp-IsTotalOrder.above_of_lt a.claimed_at b.claimed_at)

  -- Two claims of different owners on one net: both orders of arrival leave the same claim.
  pub two_subnet_claims_agree :
      (self_id self_id' cidr : Text) (a b : Claim i)
      → a.owner_node_id ≢ b.owner_node_id
      → get (receive_claim self_id cidr (receive_claim self_id cidr [] a) b) cidr
        ≡ get (receive_claim self_id' cidr (receive_claim self_id' cidr [] b) a) cidr
  two_subnet_claims_agree self_id self_id' cidr a b ne =
      get-receive_contest self_id cidr _ a b (get-receive_first self_id cidr a) ne
      ∙ ap (λ (w : Claim i × Claim i). some w.0) (resolve_subnet_conflict_symm a b ne)
      ∙ sym (
          get-receive_contest self_id' cidr _ b a (get-receive_first self_id' cidr b)
            (λ e. ne (sym e)))

  -- A node claims a net, and claims it again after another node has claimed it. Whether the other claim
  -- arrives before or after the second one decides who holds the net.
  pub renewed_claim_disagrees :
      (self_id cidr : Text) (a b again : Claim i)
      → a.owner_node_id ≢ b.owner_node_id
      → a.owner_node_id ≡ again.owner_node_id
      → hlc_cmp a.claimed_at b.claimed_at ≡ lt
      → hlc_cmp b.claimed_at again.claimed_at ≡ lt
      → let first = receive_claim self_id cidr [] a in
        (get (receive_claim self_id cidr (receive_claim self_id cidr first b) again) cidr
          ≡ some again)
        × (get (receive_claim self_id cidr (receive_claim self_id cidr first again) b) cidr
            ≡ some b)
  renewed_claim_disagrees self_id cidr a b again ne same ab bc =
      let first = receive_claim self_id cidr [] a in
      let held = get-receive_first self_id cidr a in
      let ac = hlc_cmp-IsTotalOrder.cmp_trans _ _ _ ab bc in
      let newer = hlc_cmp-IsTotalOrder.above_of_lt a.claimed_at again.claimed_at ac in
      let kept =
        get-receive_contest self_id cidr first a b held ne ∙ ap some (senior_first a b ab).0 in
      let moved = get-receive_newer self_id cidr first a again held same newer in
      (
        get-receive_newer self_id cidr _ a again kept same newer,
        get-receive_contest self_id cidr _ again b moved (λ e. ne (same ∙ e))
            ∙ ap some (senior_first b again bc).1,
      )
