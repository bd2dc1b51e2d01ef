-- ===== src/Tests/Nodes.antt =====
-- The dispatch at concrete nodes and messages.
use lightning_mesh.Prelude.{
  ℕ, false, true, none, some, ◌≢◌, lt, List, [], ◌∷◌, ◌≡◌, refl, ap, sym, ◌∙◌, In, All, inl, inr,
}
use lightning_mesh.Order.{Text, text_ord, text_cmp}
use lightning_mesh.Book.{get, insert}
use lightning_mesh.Crdt.Hlc.{Hlc, hlc_cmp}
use lightning_mesh.Crdt.Entries.{UserEntry, ServiceEntryV2}
use lightning_mesh.Crdt.Gossip.{GossipMessage, user_update, service_publish_v2}
use lightning_mesh.Crdt.Merge.{merge_user, is_reserved_service_name}
use lightning_mesh.Crdt.ServiceApply.{lost_to_peer}
use lightning_mesh.Daemon.Apply.{apply_user_message}
use lightning_mesh.Daemon.Dispatch.{
  ServiceStateV2, Arrival, Node, running, dispatch, deliver, deliver_all, learn_user,
}
use lightning_mesh.Daemon.Dispatch.Files.{IsMirrored, IsBehind, node_of, deliver_all-IsMirrored}
use lightning_mesh.Daemon.Dispatch.Losses.{publish_at, loss_lasts}
use lightning_mesh.Daemon.Dispatch.Converge.{lane_converges}
use lightning_mesh.Daemon.Dispatch.Converge.Lanes.{users, user_offered}
use lightning_mesh.Tests.Common.{
  nets, alpha, beta, gamma, user_of, service_of, wiki, alpha_ne_beta, alpha_ne_gamma, beta_ne_gamma,
}

abbrev no_state : ServiceStateV2
no_state = record { book = []; tombstones = []; lost_names = [] }

abbrev fresh : Text → Node nets
fresh self = record {
  self_id = self;
  liveness = record { seen = []; stale_threshold_ms = 30; hard_expiry_ms = 300 };
  addr_book = [];
  user_book = [];
  node_name_book = [];
  service_book = [];
  service_v2 = no_state;
  leased_names = [];
  claims = [];
  disk = record {
    addr_book = [];
    user_book = [];
    node_name_book = [];
    service_book = [];
    service_v2 = no_state;
    leased_names = [];
    claims = [];
  };
  has_lookup = false;
  fed = [];
  reclaims = [];
}

abbrev old_user : UserEntry
old_user = user_of gamma 10

abbrev new_user : UserEntry
new_user = user_of gamma 20

abbrev Msg : Type 0
Msg = GossipMessage nets.IpNet

abbrev at_ms : ℕ → Arrival
at_ms t = record { now_ms = t; written = true }

abbrev msgs : List (Arrival × Msg)
msgs = (at_ms 1, user_update gamma old_user) ∷ (at_ms 2, user_update gamma new_user) ∷ []

abbrev msgs_back : List (Arrival × Msg)
msgs_back = (at_ms 5, user_update gamma new_user) ∷ (at_ms 6, user_update gamma old_user) ∷ []

fresh-IsMirrored : IsMirrored nets (fresh alpha)
fresh-IsMirrored = record {
  addr_book = refl;
  user_book = refl;
  node_name_book = refl;
  service_book = refl;
  service_v2 = refl;
  leased_names = refl;
}

deliver_all-IsMirrored_example :
    IsBehind nets (running (fresh alpha)) msgs
    × (All (λ m. m.0.written ≡ true) msgs
        → IsMirrored nets (node_of nets (deliver_all nets (running (fresh alpha)) msgs)))
deliver_all-IsMirrored_example =
    deliver_all-IsMirrored nets msgs (running (fresh alpha)) fresh-IsMirrored

-- The second write fails: the file keeps the first user, and memory has the second.
write_fails :
    let n = node_of nets (
      deliver_all nets (running (fresh alpha)) (
        (at_ms 1, user_update gamma old_user)
        ∷ (record { now_ms = 2; written = false }, user_update gamma new_user)
        ∷ [])) in
    (n.disk.user_book ≡ (gamma, old_user) ∷ []) × (n.user_book ≡ (gamma, new_user) ∷ [])
unfolding deliver_all deliver dispatch learn_user apply_user_message merge_user hlc_cmp get insert
    text_cmp
write_fails = (refl, refl)

abbrev knowing : Text → Node nets
knowing self = record (fresh self) {
  user_book = (gamma, new_user) ∷ [];
  disk = record ((fresh self).disk) { user_book = (gamma, new_user) ∷ [] };
}

ran : deliver_all nets (running (fresh alpha)) msgs ≡ running (knowing alpha)
unfolding deliver_all deliver dispatch learn_user apply_user_message merge_user hlc_cmp get insert
    text_cmp
ran = refl

ran_back : deliver_all nets (running (fresh beta)) msgs_back ≡ running (knowing beta)
unfolding deliver_all deliver dispatch learn_user apply_user_message merge_user hlc_cmp get insert
    text_cmp
ran_back = refl

nobody : (self : Text) → get (fresh self).user_book gamma ≡ none
unfolding get
nobody self = refl

forth :
    (msg : Msg)
    → ((t : Arrival) × In {A = Arrival × Msg} (t, msg) msgs)
    → (t : Arrival) × In {A = Arrival × Msg} (t, msg) msgs_back
forth msg (t, inl e) = (at_ms 6, inr (inl (ap (λ (m : Arrival × Msg). (at_ms 6, m.1)) e)))
forth msg (t, inr (inl e)) = (at_ms 5, inl (ap (λ (m : Arrival × Msg). (at_ms 5, m.1)) e))
forth msg (t, inr (inr i)) = elim i [ ]

back :
    (msg : Msg)
    → ((t : Arrival) × In {A = Arrival × Msg} (t, msg) msgs_back)
    → (t : Arrival) × In {A = Arrival × Msg} (t, msg) msgs
back msg (t, inl e) = (at_ms 2, inr (inl (ap (λ (m : Arrival × Msg). (at_ms 2, m.1)) e)))
back msg (t, inr (inl e)) = (at_ms 1, inl (ap (λ (m : Arrival × Msg). (at_ms 1, m.1)) e))
back msg (t, inr (inr i)) = elim i [ ]

by_clock :
    (e : UserEntry) → In e (old_user ∷ new_user ∷ []) → e ≡ user_of gamma e.updated_at.wall_clock
by_clock e (inl p) = rw p refl
by_clock e (inr (inl p)) = rw p refl
by_clock e (inr (inr i)) = elim i [ ]

-- Two users of one stamp that are one of the two are the same.
told_apart :
    (e e' : UserEntry)
    → In e (old_user ∷ new_user ∷ [])
    → In e' (old_user ∷ new_user ∷ [])
    → e.updated_at ≡ e'.updated_at
    → e ≡ e'
told_apart e e' i i' same =
    by_clock e i ∙ ap (λ (h : Hlc). user_of gamma h.wall_clock) same ∙ sym (by_clock e' i')

lane_converges_example : get (knowing alpha).user_book gamma ≡ get (knowing beta).user_book gamma
unfolding user_offered text_cmp
lane_converges_example =
    lane_converges nets (users nets) (fresh alpha) (knowing alpha) (fresh beta) (knowing beta) msgs
      msgs_back gamma ran ran_back (nobody alpha) (nobody beta) (λ e. alpha_ne_gamma (sym e))
      (λ e. beta_ne_gamma (sym e)) (λ msg. (forth msg, back msg)) told_apart

abbrev ours : ServiceEntryV2
ours = service_of alpha 20 20

abbrev theirs : ServiceEntryV2
theirs = service_of beta 10 10

abbrev serving : Node nets
serving = record (fresh alpha) {
  service_v2 = record { book = (wiki, ours) ∷ []; tombstones = []; lost_names = [] };
}

wiki_free : is_reserved_service_name wiki ≡ false
unfolding is_reserved_service_name text_cmp
wiki_free = refl

serving_ours : get serving.service_v2.book wiki ≡ some ours
unfolding get text_cmp
serving_ours = refl

theirs_earlier : hlc_cmp theirs.first_claimed_at ours.first_claimed_at ≡ lt
unfolding hlc_cmp
theirs_earlier = refl

loss_lasts_example :
    let s = dispatch nets serving (at_ms 1) (service_publish_v2 wiki theirs) in
    let later = node_of nets (deliver_all nets s msgs) in
    (get (node_of nets s).service_v2.book wiki ≡ some theirs)
    × (publish_at nets (node_of nets s) wiki ours ≡ lost_to_peer beta)
    × ((winner : Text) × (winner ≢ alpha) × (publish_at nets later wiki ours ≡ lost_to_peer winner))
loss_lasts_example =
    loss_lasts nets serving (at_ms 1) wiki ours theirs ours msgs wiki_free serving_ours refl
      (λ e. alpha_ne_beta (sym e)) theirs_earlier
