-- ===== src/Tests/Claims.antt =====
-- Claims on subnets at concrete inputs.
use lightning_mesh.Prelude.{
  ℕ, none, some, [], ◌∷◌, ◌++◌, ◌≡◌, ◌≢◌, ◌⊎◌, refl, sym, arith, In, lt, gt,
}
use lightning_mesh.Order.{Text, text_ord, text_cmp}
use lightning_mesh.Book.{get}
use lightning_mesh.Alloc.{returned, pick_subnet_or_smaller}
use lightning_mesh.Crdt.Hlc.{hlc_cmp}
use lightning_mesh.Crdt.Entries.{PeerAddrEntry, NodeNameEntry, NodeNameBook, AddrBook}
use lightning_mesh.Crdt.Gossip.{subnet_claim_update}
use lightning_mesh.Daemon.Apply.Forged.{hear_addr, hear_name, forged_addr_displaces}
use lightning_mesh.Daemon.Claims.{Claim, ClaimStore, apply_subnet_message}
use lightning_mesh.Daemon.Claims.Own.{
  client_net, owned, sort_by, partition_claims, Claiming, claim_and_publish, fresh_claim,
}
use lightning_mesh.Daemon.Claims.Partition.{partition_claims_senior}
use lightning_mesh.Daemon.Claims.Fresh.{IsFree, claim_and_publish_fresh}
use lightning_mesh.Daemon.Claims.Laws.{
  apply_subnet_message_contest, receive_claim, renewed_claim_disagrees,
}
use lightning_mesh.Tests.Common.{
  nets, nets-IsIpnet, stamp, alpha, beta, gamma, alpha_ne_beta, beta_ne_gamma,
}

-- 10.42.1.0/24, and a claim on it.
abbrev net : ℕ × ℕ
net = (170524928, 24)

abbrev claim_of : Text → ℕ → Claim nets
claim_of owner at = record {
  cidr = some net;
  owner_node_id = owner;
  site_name = none;
  claimed_at = stamp at;
}

abbrev cidr : Text
cidr = nets.to_text (some net)

earlier : hlc_cmp (stamp 10) (stamp 20) ≡ lt
unfolding hlc_cmp
earlier = refl

later : hlc_cmp (stamp 20) (stamp 30) ≡ lt
unfolding hlc_cmp
later = refl

beta_ne_alpha : beta ≢ alpha
beta_ne_alpha e = alpha_ne_beta (sym e)

abbrev store : ClaimStore nets
store = (cidr, claim_of alpha 20) ∷ []

get-store_ours : get store cidr ≡ some (claim_of alpha 20)
unfolding get text_cmp
get-store_ours = refl

apply_subnet_message_contest_example :
    let (after, lost) =
      apply_subnet_message nets store (subnet_claim_update cidr (claim_of beta 10)) alpha in
    (hlc_cmp (stamp 10) (stamp 20) ≡ lt
      → (get after cidr ≡ some (claim_of beta 10)) × (lost ≡ some net))
    × (hlc_cmp (stamp 10) (stamp 20) ≡ gt
        → (get after cidr ≡ some (claim_of alpha 20)) × (lost ≡ none))
apply_subnet_message_contest_example =
    apply_subnet_message_contest nets store cidr alpha (claim_of alpha 20) (claim_of beta 10)
      get-store_ours refl beta_ne_alpha

renewed_claim_disagrees_example :
    let first = receive_claim nets gamma cidr [] (claim_of alpha 10) in
    (get
        (receive_claim nets gamma cidr
          (receive_claim nets gamma cidr first (claim_of beta 20))
          (claim_of alpha 30))
        cidr
      ≡ some (claim_of alpha 30))
    × (get
          (receive_claim nets gamma cidr
            (receive_claim nets gamma cidr first (claim_of alpha 30))
            (claim_of beta 20))
          cidr
        ≡ some (claim_of beta 20))
renewed_claim_disagrees_example =
    renewed_claim_disagrees nets gamma cidr (claim_of alpha 10) (claim_of beta 20)
      (claim_of alpha 30) alpha_ne_beta refl earlier later

partition_claims_senior_example :
    ((n : ℕ × ℕ) (c : Claim nets)
      → (partition_claims nets store alpha).0 ≡ some (n, c)
      → ((k : Text) × In {A = Text × Claim nets} (k, c) store)
        × (c.owner_node_id ≡ alpha)
        × (client_net nets c ≡ some n)
        × ((k : Text) (d : Claim nets) (m : ℕ × ℕ)
            → In {A = Text × Claim nets} (k, d) store
            → d.owner_node_id ≡ alpha
            → client_net nets d ≡ some m
            → hlc_cmp c.claimed_at d.claimed_at ≢ gt))
    × ((partition_claims nets store alpha).0 ≡ none
        → (k : Text) (d : Claim nets) → In {A = Text × Claim nets} (k, d) store
        → d.owner_node_id ≡ alpha
        → client_net nets d ≡ none)
partition_claims_senior_example = partition_claims_senior nets store alpha

-- 10.42.0.0/16
abbrev space : ℕ × ℕ
space = (170524672, 16)

abbrev start : Claiming nets
start = record { store = store; published = []; assigned = []; retracted = []; gateway = none }

beta_holds_none : (partition_claims nets store beta).0 ≡ none
unfolding partition_claims owned sort_by text_cmp
beta_holds_none = refl

abbrev hash : Text → ℕ
hash t = 1

claim_and_publish_fresh_example :
    ((claim_and_publish nets hash space beta (stamp 40) start ≡ returned start)
      × (pick_subnet_or_smaller nets hash beta (partition_claims nets store beta).2 space 24
          ≡ returned none))
    ⊎ ((n : ℕ × ℕ) × (after : Claiming nets) × (claim_and_publish nets hash space beta
            (stamp 40)
            start
          ≡ returned after)
        × IsFree nets nets-IsIpnet store beta space n
        × (after.assigned ≡ [] ++ n ∷ [])
        × (get after.store (nets.to_text (some n)) ≡ some (fresh_claim nets beta n (stamp 40))))
claim_and_publish_fresh_example =
    claim_and_publish_fresh nets nets-IsIpnet hash space beta (stamp 40) start (omega arith)
      (omega arith) beta_holds_none

abbrev addr_at : Text → ℕ → PeerAddrEntry
addr_at node at = record {
  node_id = node;
  direct_addrs = [];
  relay_url = none;
  announced_at = stamp at;
}

abbrev name_at : Text → ℕ → NodeNameEntry
name_at node at = record { node_id = node; name = []; announced_at = stamp at }

abbrev no_addrs : AddrBook
no_addrs = []

abbrev no_names : NodeNameBook
no_names = []

addr_unknown : get no_addrs beta ≡ none
unfolding get
addr_unknown = refl

name_unknown : get no_names beta ≡ none
unfolding get
name_unknown = refl

gamma_ne_beta : gamma ≢ beta
gamma_ne_beta e = beta_ne_gamma (sym e)

after_four : hlc_cmp (stamp 5) (stamp 4) ≡ gt
unfolding hlc_cmp
after_four = refl

forged_addr_displaces_example :
    let hear = hear_addr nets.IpNet alpha in
    let hear' = hear_name nets.IpNet alpha in
    (get (hear (hear no_addrs beta (addr_at beta 4)) beta (addr_at gamma 5)) beta
      ≡ some (addr_at gamma 5))
    × (get (hear (hear no_addrs beta (addr_at gamma 5)) beta (addr_at beta 4)) beta
        ≡ some (addr_at gamma 5))
    × (get (hear' (hear' no_names beta (name_at beta 4)) beta (name_at gamma 5)) beta
        ≡ some (name_at beta 4))
    × (get (hear' (hear' no_names beta (name_at gamma 5)) beta (name_at beta 4)) beta
        ≡ some (name_at beta 4))
forged_addr_displaces_example =
    forged_addr_displaces nets.IpNet alpha no_addrs no_names beta (addr_at beta 4) (addr_at gamma 5)
      (name_at beta 4) (name_at gamma 5) beta_ne_alpha addr_unknown name_unknown refl refl
      gamma_ne_beta gamma_ne_beta after_four after_four
