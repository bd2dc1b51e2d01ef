-- ===== src/Daemon/Sweep/Laws.antt =====
-- What a sweep leaves.
use lightning_mesh.Prelude.{
  ℕ, Bool, true, false, ◌&&◌, ◌||◌, Option, none, some, List, [], ◌∷◌, ◌≡◌, refl, inl, inr, arith,
  if◌then◌else◌, ◌-◌, Bool-cases,
}
use lightning_mesh.Order.{Text, ◌==◌, gtb, nat_ord, text_ord, eq_of_==}
use lightning_mesh.Book.{Book, get, remove, get-insert, get-remove}
use lightning_mesh.Book.Sorted.{IsSorted, get-Above}
use lightning_mesh.Crdt.Entries.{
  ServiceEntryV2, ServiceBookV2, ServiceTombstone, ServiceTombstoneBook,
}
use lightning_mesh.Crdt.Liveness.{LivenessTracker, is_hard_expired}
use lightning_mesh.Daemon.Sweep.{
  expired_names, remove_all, keys, or_insert, stamp_all, seen_at, aged_names, has, retain_held,
  is_empty, Swept, sweep_stale_lanes,
}

-- Whether a name stands in a list.
abbrev mem : Text → List Text → Bool
mem q [] = false
mem q (name ∷ names) = name == q || mem q names

get-remove_all {ℓ} :
    {V : Type ℓ} (book : Book Text V) (names : List Text) (q : Text)
    → get (remove_all book names) q ≡ (if mem q names then none else get book q)
unfolding remove_all
get-remove_all book [] q = refl
get-remove_all book (name ∷ names) q =
    ground (arith, get-remove_all (remove book name) names q, get-remove book name q)

mem-keys : {V : Type 0} (book : Book Text V) (q : Text) → mem q (keys book) ≡ has book q
unfolding get
mem-keys [] q = refl
mem-keys ((name, v) ∷ book) q = ground (arith, mem-keys book q)

get-or_insert :
    (observed : Book Text ℕ) (name q : Text) (now_ms : ℕ)
    → get (or_insert observed name now_ms) q
      ≡ (if name == q then some (seen_at (get observed q) now_ms) else get observed q)
unfolding or_insert
get-or_insert observed name q now_ms =
    ground (arith, get-insert observed name q now_ms, eq_of_== name q)

get-stamp_all :
    (observed : Book Text ℕ) (names : List Text) (now_ms : ℕ) (q : Text)
    → get (stamp_all observed names now_ms) q
      ≡ (if mem q names then some (seen_at (get observed q) now_ms) else get observed q)
unfolding stamp_all
get-stamp_all observed [] now_ms q = refl
get-stamp_all observed (name ∷ names) now_ms q = ground (
  arith,
  get-stamp_all (or_insert observed name now_ms) names now_ms q,
  get-or_insert observed name q now_ms,
)

mem-aged_names :
    (observed : Book Text ℕ) (now_ms retention_ms : ℕ) (names : List Text) (q : Text)
    → mem q (aged_names observed now_ms retention_ms names)
      ≡ (mem q names && gtb (now_ms - seen_at (get observed q) now_ms) retention_ms)
unfolding aged_names
mem-aged_names observed now_ms retention_ms [] q = refl
mem-aged_names observed now_ms retention_ms (name ∷ names) q =
    ground (arith, mem-aged_names observed now_ms retention_ms names q, eq_of_== name q)

get-retain_held :
    (tombstones : ServiceTombstoneBook) (observed : Book Text ℕ) (q : Text)
    → get (retain_held tombstones observed) q ≡ (if has tombstones q then get observed q else none)
unfolding retain_held get
get-retain_held tombstones [] q = ground arith
get-retain_held tombstones ((name, seen) ∷ observed) q =
    ground (arith, get-retain_held tombstones observed q, eq_of_== name q)

mem-expired_names :
    (tracker : LivenessTracker) (now_ms : ℕ) (book : ServiceBookV2) (q : Text)
    → IsSorted book
    → mem q (expired_names tracker now_ms book)
      ≡ elim (get book q) [ none ↦ false | some e ↦ is_hard_expired tracker e.owner_node_id now_ms ]
unfolding expired_names get
mem-expired_names tracker now_ms [] q s = refl
mem-expired_names tracker now_ms ((name, e) ∷ book) q s =
    ground
      (arith, mem-expired_names tracker now_ms book q s.1, get-Above name book s.0, eq_of_== name q)

-- A service that a sweep leaves, of what a lookup found before.
abbrev pub kept_service : LivenessTracker → ℕ → Option ServiceEntryV2 → Option ServiceEntryV2
kept_service tracker now_ms none = none
kept_service tracker now_ms (some e) =
    if is_hard_expired tracker e.owner_node_id now_ms then none else some e

-- The time at which a sweep has first seen a tombstone.
abbrev pub first_seen : Swept → ℕ → Text → ℕ
first_seen s now_ms q = seen_at (get s.tombstone_observed q) now_ms

-- A tombstone that a sweep leaves, of what a lookup found before.
abbrev pub kept_tombstone : ℕ → ℕ → ℕ → Option ServiceTombstone → Option ServiceTombstone
kept_tombstone now_ms retention_ms seen none = none
kept_tombstone now_ms retention_ms seen (some t) =
    if gtb (now_ms - seen) retention_ms then none else some t

pub get-swept_tombstones :
    (s : Swept) (liveness : LivenessTracker) (written : Bool) (now_ms retention_ms : ℕ) (q : Text)
    → get (sweep_stale_lanes s liveness written now_ms retention_ms).lane.tombstones q
      ≡ kept_tombstone now_ms retention_ms (first_seen s now_ms q) (get s.lane.tombstones q)
unfolding sweep_stale_lanes
get-swept_tombstones s liveness written now_ms retention_ms q =
    let names = keys s.lane.tombstones in
    let observed = stamp_all s.tombstone_observed names now_ms in
    ground (
      arith,
      get-remove_all s.lane.tombstones (aged_names observed now_ms retention_ms names) q,
      mem-aged_names observed now_ms retention_ms names q,
      get-stamp_all s.tombstone_observed names now_ms q,
      mem-keys s.lane.tombstones q,
    )

pub get-swept_stamps :
    (s : Swept) (liveness : LivenessTracker) (written : Bool) (now_ms retention_ms : ℕ) (q : Text)
    → let s' = sweep_stale_lanes s liveness written now_ms retention_ms in
      get s'.tombstone_observed q
      ≡ (if has s'.lane.tombstones q then some (first_seen s now_ms q) else none)
unfolding sweep_stale_lanes
get-swept_stamps s liveness written now_ms retention_ms q =
    let names = keys s.lane.tombstones in
    let observed = stamp_all s.tombstone_observed names now_ms in
    let gc = aged_names observed now_ms retention_ms names in
    ground (
      arith,
      get-retain_held (remove_all s.lane.tombstones gc) observed q,
      get-remove_all s.lane.tombstones gc q,
      get-stamp_all s.tombstone_observed names now_ms q,
      mem-keys s.lane.tombstones q,
    )

-- A sweep drops exactly the services whose owner has been silent beyond the hard expiry, and exactly
-- the tombstones that were first seen longer ago than the retention; of each tombstone that it leaves it
-- keeps the time at which a sweep first saw it, and of no other name; the losses of names stay. All this is so whether
-- or not the write of the file succeeds.
pub sweep_stale_lanes_lem :
    (s : Swept) (liveness : LivenessTracker) (written : Bool) (now_ms retention_ms : ℕ) (q : Text)
    → IsSorted s.lane.book
    → let s' = sweep_stale_lanes s liveness written now_ms retention_ms in
      (get s'.lane.book q ≡ kept_service liveness now_ms (get s.lane.book q))
      × (get s'.lane.tombstones q
          ≡ kept_tombstone now_ms retention_ms (first_seen s now_ms q) (get s.lane.tombstones q))
      × (get s'.tombstone_observed q
          ≡ (if has s'.lane.tombstones q then some (first_seen s now_ms q) else none))
      × (s'.lane.lost_names ≡ s.lane.lost_names)
unfolding sweep_stale_lanes
sweep_stale_lanes_lem s liveness written now_ms retention_ms q sorted = (
  ground (
    arith,
    get-remove_all s.lane.book (expired_names liveness now_ms s.lane.book) q,
    mem-expired_names liveness now_ms s.lane.book q sorted,
  ),
  get-swept_tombstones s liveness written now_ms retention_ms q,
  get-swept_stamps s liveness written now_ms retention_ms q,
  refl,
)

remove_all_nothing {ℓ} :
    {V : Type ℓ} (book : Book Text V) (names : List Text)
    → is_empty names ≡ true
    → remove_all book names ≡ book
unfolding remove_all
remove_all_nothing book [] h = refl
remove_all_nothing book (name ∷ names) h = absurd (cc h)

-- The file follows the lane: where the file holds the lane before a sweep and the write succeeds, it does so after it.
sweep-keeps_file :
    (s : Swept) (liveness : LivenessTracker) (written : Bool) (now_ms retention_ms : ℕ)
    → written ≡ true
    → s.file ≡ s.lane
    → let s' = sweep_stale_lanes s liveness written now_ms retention_ms in s'.file ≡ s'.lane
unfolding sweep_stale_lanes remove_all
sweep-keeps_file s liveness written now_ms retention_ms w same =
    let names = keys s.lane.tombstones in
    let gc = aged_names (stamp_all s.tombstone_observed names now_ms) now_ms retention_ms names in
    let expired = expired_names liveness now_ms s.lane.book in
    elim (Bool-cases (is_empty expired)) [
      | inr e ↦ ground arith
      | inl e ↦ elim (Bool-cases (is_empty gc)) [
        | inr g ↦ ground arith
        | inl g ↦
            rw
              (
                e,
                g,
                remove_all_nothing s.lane.book expired e,
                remove_all_nothing s.lane.tombstones gc g,
              )
              same
      ]
    ]
