-- ===== src/Tests/Spools.antt =====
-- The spools and the sweep of stale lanes at concrete inputs.
use lightning_mesh.Prelude.{
  ℕ, true, false, none, some, Option, List, [], ◌∷◌, ◌≡◌, inl, inr, refl, ap, sym, subst, ◌∙◌,
  arith, if◌then◌else◌,
}
use lightning_mesh.Order.{Text, text_cmp, text_ord, nat_ord}
use lightning_mesh.Str.{trim}
use lightning_mesh.Book.{get}
use lightning_mesh.Crdt.Hlc.{Hlc}
use lightning_mesh.Crdt.Entries.{v4, LeasedName, LeasedNameBook, UserBook, ServiceTombstone}
use lightning_mesh.Daemon.Dispatch.{ServiceStateV2}
use lightning_mesh.Daemon.Spool.{
  NameClaimSpool, SpoolSubmission, SpoolFile, usable_label, ingest_name_claim_spool,
  ingest_identity_spool,
}
use lightning_mesh.Daemon.Spool.OneName.{HasOneName}
use lightning_mesh.Daemon.Spool.Sweep.{last_time, ingest_name_claim_spool-HasOneName}
use lightning_mesh.Daemon.Spool.Identity.{Shows, Unlabelled, ingest_identity_spool_keeps_name}
use lightning_mesh.Daemon.Sweep.{Swept, has, sweep_stale_lanes}
use lightning_mesh.Daemon.Sweep.Rounds.{Round}
use lightning_mesh.Daemon.Sweep.Laws.{
  kept_service, kept_tombstone, first_seen, sweep_stale_lanes_lem,
}
use lightning_mesh.Tests.Common.{stamp, name_of, user_of, service_of, alpha, beta, wiki}
use lightning_mesh.Tests.Dns.{tracker}

abbrev claim : NameClaimSpool
claim = record {
  pubkey = alpha;
  sig = [];
  challenge = [];
  name = wiki;
  port = 80;
  ip = some (v4 7);
  scheme = none;
}

-- Every file that is not empty is that claim.
abbrev read_claim : Text → Option NameClaimSpool
read_claim [] = none
read_claim (b ∷ bs) = some claim

abbrev files : List SpoolFile
files =
    record { is_json = true; contents = some (1 ∷ []); now = stamp 100 }
    ∷ record { is_json = true; contents = some []; now = stamp 200 }
    ∷ []

abbrev leases : LeasedNameBook
leases = (wiki, name_of beta 10 20) ∷ []

one_lease : HasOneName leases 50
one_lease n m e f (inl p) (inl q) same a b =
    ap (λ (x : Text × LeasedName). x.0) p ∙ sym (ap (λ (x : Text × LeasedName). x.0) q)
one_lease n m e f (inr i) j same a b = elim i [ ]
one_lease n m e f (inl p) (inr j) same a b = elim j [ ]

ingest_name_claim_spool-HasOneName_example :
    HasOneName (ingest_name_claim_spool read_claim leases files).0 (last_time 50 files)
ingest_name_claim_spool-HasOneName_example =
    ingest_name_claim_spool-HasOneName read_claim leases files 50 (omega arith) one_lease

-- A submission of `alpha` with a blank label.
abbrev submission : SpoolSubmission
submission = record { pubkey = alpha; sig = []; challenge = []; label = some (32 ∷ []) }

abbrev read_submission : Text → Option SpoolSubmission
read_submission text = some submission

abbrev users : UserBook
users = (alpha, user_of alpha 10) ∷ []

known : Shows users alpha alpha
unfolding get text_cmp
known = (user_of alpha 10, refl, refl)

blank : usable_label submission.label ≡ none
unfolding trim text_cmp
blank = refl

unlabelled :
    (now : Hlc)
    → Unlabelled read_submission alpha alpha alpha
        (record { is_json = true; contents = some []; now = now })
unlabelled now text sub c r same =
    let is_it : submission ≡ sub = cc in
    subst (λ (x : SpoolSubmission). usable_label x.label ≡ none) is_it blank

ingest_identity_spool_keeps_name_example :
    Shows
      (ingest_identity_spool read_submission alpha users
        (record { is_json = true; contents = some []; now = stamp 30 } ∷ [])).0
      alpha
      alpha
ingest_identity_spool_keeps_name_example =
    ingest_identity_spool_keeps_name read_submission alpha alpha alpha users
      (record { is_json = true; contents = some []; now = stamp 30 } ∷ [])
      (unlabelled (stamp 30), tt) known

abbrev grave : ServiceTombstone
grave = record { owner_node_id = beta; hlc = stamp 5 }

abbrev lane : ServiceStateV2
lane = record {
  book = (wiki, service_of alpha 10 10) ∷ [];
  tombstones = (beta, grave) ∷ [];
  lost_names = [];
}

abbrev unswept : Swept
unswept = record { lane = lane; tombstone_observed = []; file = lane }

sweep_stale_lanes_lem_example :
    let s' = sweep_stale_lanes unswept tracker false 700 50 in
    (get s'.lane.book wiki ≡ kept_service tracker 700 (get unswept.lane.book wiki))
    × (get s'.lane.tombstones wiki
        ≡ kept_tombstone 700 50 (first_seen unswept 700 wiki) (get unswept.lane.tombstones wiki))
    × (get s'.tombstone_observed wiki
        ≡ (if has s'.lane.tombstones wiki then some (first_seen unswept 700 wiki) else none))
    × (s'.lane.lost_names ≡ unswept.lane.lost_names)
sweep_stale_lanes_lem_example = sweep_stale_lanes_lem unswept tracker false 700 50 wiki (tt, tt)

-- A sweep that finds the lane at a time, and whose write succeeds.
abbrev round_at : ℕ → Round
round_at t = record { lane = lane; liveness = tracker; written = true; now_ms = t }
