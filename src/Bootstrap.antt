-- ===== src/Bootstrap.antt =====
-- The candidates for joining the gossip again (bootstrap.rs).
pub mod Ranks
pub mod Tiers
pub mod Roster
use lightning_mesh.Prelude.{
  ℕ, Bool, true, false, ◌||◌, Option, none, some, List, [], ◌∷◌, ◌++◌, if◌then◌else◌, length,
}
use lightning_mesh.Order.{Text, ◌==◌, leb, gtb, nat_ord, text_ord}
use lightning_mesh.Crdt.Entries.{AddrBook, PeerAddrEntry}
use lightning_mesh.Crdt.Liveness.{LivenessTracker, is_hard_expired, last_seen_ms}

-- A node id with the time of its last sign.
abbrev pub Seen : Type 0
Seen = Text × ℕ

-- Whether the first goes before the second: the later time first, then the lower id.
abbrev pub goes_before : Seen → Seen → Bool
goes_before a b = if gtb a.1 b.1 then true else if a.1 == b.1 then leb a.0 b.0 else false

unfoldable pub place : Seen → List Seen → List Seen
place a [] = a ∷ []
place a (b ∷ bs) = if goes_before a b then a ∷ b ∷ bs else b ∷ place a bs

-- `sort_by`, most recent first.
unfoldable pub sort_recent : List Seen → List Seen
unfolding place
sort_recent [] = []
sort_recent (a ∷ rest) = place a (sort_recent rest)

-- The addresses heard of in this run.
unfoldable pub recently_seen : LivenessTracker → ℕ → AddrBook → List Seen
recently_seen liveness now_ms [] = []
recently_seen liveness now_ms ((id, entry) ∷ book) =
    let rest = recently_seen liveness now_ms book in
    if is_hard_expired liveness id now_ms
    then rest
    else elim (last_seen_ms liveness id) [ some seen_ms ↦ (id, seen_ms) ∷ rest | none ↦ rest ]

-- Those known from the disk alone.
unfoldable pub disk_known : LivenessTracker → ℕ → AddrBook → List Seen
disk_known liveness now_ms [] = []
disk_known liveness now_ms ((id, entry) ∷ book) =
    let rest = disk_known liveness now_ms book in
    if is_hard_expired liveness id now_ms then rest else elim (last_seen_ms liveness id) [
      | some _ ↦ rest
      | none ↦ (id, entry.announced_at.wall_clock) ∷ rest
    ]

unfoldable pub claim_owners : LivenessTracker → ℕ → List Text → List Seen
claim_owners liveness now_ms [] = []
claim_owners liveness now_ms (id ∷ ids) =
    let rest = claim_owners liveness now_ms ids in
    if is_hard_expired liveness id now_ms then rest else elim (last_seen_ms liveness id) [
      | some seen_ms ↦ (id, seen_ms) ∷ rest
      | none ↦ (id, 0) ∷ rest
    ]

abbrev pub ids_of : List Seen → List Text
ids_of [] = []
ids_of ((id, seen_ms) ∷ rest) = id ∷ ids_of rest

abbrev pub has_id : Text → List Text → Bool
has_id id [] = false
has_id id (s ∷ seen) = s == id || has_id id seen

-- The loop over the tiers, with the ids seen and the ids taken so far.
unfoldable pub take_ids : Text → ℕ → List Text → List Text → List Text → List Text
take_ids self_id cap seen ordered [] = ordered
take_ids self_id cap seen ordered (id ∷ tiers) = elim (id == self_id || has_id id seen) [
  | true ↦ take_ids self_id cap seen ordered tiers
  | false ↦ elim (leb cap (length (ordered ++ id ∷ []))) [
    | true ↦ ordered ++ id ∷ []
    | false ↦ take_ids self_id cap (id ∷ seen) (ordered ++ id ∷ []) tiers
  ]
]

-- The four tiers, in their order.
unfoldable pub tiers_of : List Text → AddrBook → List Text → LivenessTracker → ℕ → List Text
unfolding sort_recent recently_seen disk_known claim_owners
tiers_of roster addr_book claim_owner_ids liveness now_ms =
    roster
    ++ (ids_of (sort_recent (recently_seen liveness now_ms addr_book))
        ++ (ids_of (sort_recent (disk_known liveness now_ms addr_book))
            ++ ids_of (sort_recent (claim_owners liveness now_ms claim_owner_ids))))

unfoldable pub rank_bootstrap_candidates :
    List Text → AddrBook → List Text → LivenessTracker → Text → ℕ → ℕ → List Text
unfolding tiers_of take_ids
rank_bootstrap_candidates roster addr_book claim_owner_ids liveness self_id now_ms cap =
    if cap == 0
    then []
    else take_ids self_id cap [] [] (tiers_of roster addr_book claim_owner_ids liveness now_ms)
