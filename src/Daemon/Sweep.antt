-- ===== src/Daemon/Sweep.antt =====
-- The sweep of stale lanes (meshd, `sweep_stale_lanes`): services of owners long silent, and tombstones
-- that were first observed long ago.
pub mod Laws
pub mod Rounds
use lightning_mesh.Prelude.{
  ℕ, Bool, true, false, ◌||◌, ◌&&◌, not, Option, none, some, List, [], ◌∷◌, if◌then◌else◌, ◌-◌,
}
use lightning_mesh.Order.{Text, gtb, nat_ord, text_ord}
use lightning_mesh.Book.{Book, get, insert, remove}
use lightning_mesh.Crdt.Entries.{ServiceBookV2, ServiceTombstoneBook}
use lightning_mesh.Crdt.Liveness.{LivenessTracker, is_hard_expired}
use lightning_mesh.Daemon.Dispatch.{ServiceStateV2, persist}

-- The names of the services whose owner is hard-expired.
unfoldable pub expired_names : LivenessTracker → ℕ → ServiceBookV2 → List Text
expired_names tracker now_ms [] = []
expired_names tracker now_ms ((name, e) ∷ book) =
    let rest = expired_names tracker now_ms book in
    if is_hard_expired tracker e.owner_node_id now_ms then name ∷ rest else rest

-- `for name in names { book.remove(name) }`
unfoldable pub remove_all {ℓ} : {V : Type ℓ} → Book Text V → List Text → Book Text V
remove_all book [] = book
remove_all book (name ∷ names) = remove_all (remove book name) names

abbrev pub keys {ℓ} : {V : Type ℓ} → Book Text V → List Text
keys [] = []
keys ((name, v) ∷ book) = name ∷ keys book

-- `entry(name).or_insert(now_ms)`
unfoldable pub or_insert : Book Text ℕ → Text → ℕ → Book Text ℕ
or_insert observed name now_ms = elim (get observed name) [
  | none ↦ insert observed name now_ms
  | some _ ↦ observed
]

unfoldable pub stamp_all : Book Text ℕ → List Text → ℕ → Book Text ℕ
unfolding or_insert
stamp_all observed [] now_ms = observed
stamp_all observed (name ∷ names) now_ms = stamp_all (or_insert observed name now_ms) names now_ms

-- `unwrap_or(now_ms)`
abbrev pub seen_at : Option ℕ → ℕ → ℕ
seen_at none now_ms = now_ms
seen_at (some seen) now_ms = seen

-- The tombstones that the sweep drops.
unfoldable pub aged_names : Book Text ℕ → ℕ → ℕ → List Text → List Text
aged_names observed now_ms retention_ms [] = []
aged_names observed now_ms retention_ms (name ∷ names) =
    let rest = aged_names observed now_ms retention_ms names in
    if gtb (now_ms - seen_at (get observed name) now_ms) retention_ms then name ∷ rest else rest

abbrev pub has {ℓ} : {V : Type ℓ} → Book Text V → Text → Bool
has book name = elim (get book name) [ none ↦ false | some _ ↦ true ]

-- `retain(|name, _| tombstones.contains_key(name))`
unfoldable pub retain_held : ServiceTombstoneBook → Book Text ℕ → Book Text ℕ
retain_held tombstones [] = []
retain_held tombstones ((name, seen) ∷ observed) =
    let rest = retain_held tombstones observed in
    if has tombstones name then (name, seen) ∷ rest else rest

abbrev pub is_empty : List Text → Bool
is_empty [] = true
is_empty (name ∷ names) = false

-- The lane in memory, the stamps of its tombstones, and its file.
pub record Swept : Type 0 where
  pub lane : ServiceStateV2
  pub tombstone_observed : Book Text ℕ
  pub file : ServiceStateV2

-- Whether the write of the file succeeds is an argument.
unfoldable pub sweep_stale_lanes : Swept → LivenessTracker → Bool → ℕ → ℕ → Swept
unfolding expired_names remove_all stamp_all aged_names retain_held
sweep_stale_lanes s liveness written now_ms tombstone_retention_ms =
    let expired = expired_names liveness now_ms s.lane.book in
    let observed = stamp_all s.tombstone_observed (keys s.lane.tombstones) now_ms in
    let gc = aged_names observed now_ms tombstone_retention_ms (keys s.lane.tombstones) in
    let tombstones = remove_all s.lane.tombstones gc in
    let lane : ServiceStateV2 = record (s.lane) {
      book = remove_all s.lane.book expired;
      tombstones = tombstones;
    } in
    record {
      lane = lane;
      tombstone_observed = retain_held tombstones observed;
      file = if is_empty expired && is_empty gc then s.file else persist written s.file lane;
    }
