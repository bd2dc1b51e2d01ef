-- ===== src/Meshctl/Plan.antt =====
-- `observe_router` (plan.rs) and `plan_changes` (apply.rs). The router's answer to a query over SSH is a parameter:
-- a function of the menu path, the filter and the fields that are asked for, none for a query that fails.
use lightning_mesh.Prelude.{
  ℕ, Bool, true, false, Option, none, some, ◌>>=◌, List, [], ◌∷◌, ◌++◌, if◌then◌else◌, map, lt, eq,
  gt,
}
use lightning_mesh.Order.{Text, bytes, ◌==◌, text_ord}
use lightning_mesh.Book.{get}
use lightning_mesh.Str.{join}
use lightning_mesh.Meshctl.{
  Record, Desired, Observed, PruneEntry, FieldDiff, missing, converged, drifted, conflict, classify,
  find, field_keys, add_args, set_args, own_prefix_re, decimal,
}

-- `BTreeSet::insert` of texts.
unfoldable pub insert_path : Text → List Text → List Text
insert_path p [] = p ∷ []
insert_path p (q ∷ qs) =
    let rest = insert_path p qs in
    elim (text_ord.cmp p q) [ lt ↦ p ∷ q ∷ qs | eq ↦ q ∷ qs | gt ↦ q ∷ rest ]

unfoldable pub owned_paths : List Desired → List Text
owned_paths [] = []
owned_paths (d ∷ ds) =
    let rest = owned_paths ds in if d.comment_owned then insert_path d.path rest else rest

-- Whether a resource under a path has the value as its identity.
unfoldable pub is_wanted : List Desired → Text → Text → Bool
is_wanted [] path c = false
is_wanted (d ∷ ds) path c =
    let rest = is_wanted ds path c in
    if d.path == path then (if d.identity.1 == c then true else rest) else rest

-- The kind of the first resource under a path.
unfoldable pub kind_of : List Desired → Text → Text
kind_of [] path = bytes "?"
kind_of (d ∷ ds) path = let rest = kind_of ds path in if d.path == path then d.kind else rest

-- The leftovers in the answer to the prune scan of a path.
unfoldable pub leftovers : List Desired → Text → List Record → List PruneEntry
leftovers desired path [] = []
leftovers desired path (rec ∷ recs) =
    let rest = leftovers desired path recs in
    elim (get rec (bytes "comment")) [
      | none ↦ rest
      | some c ↦
          if is_wanted desired path c
          then rest
          else record { kind = kind_of desired path; path = path; comment = c } ∷ rest
    ]

module _ (query : Text → Text → List Text → Option (List Record)) where
  unfoldable pub observe_all : List Desired → Option (List Observed)
  unfolding find field_keys
  observe_all [] = some []
  observe_all (d ∷ ds) = query d.path (find d) (field_keys d) >>= λ recs. observe_all ds >>= λ rest.
      some (record { desired = d; status = classify d.fields recs } ∷ rest)

  unfoldable pub prune_scan : List Desired → List Text → Option (List PruneEntry)
  prune_scan desired [] = some []
  prune_scan desired (path ∷ paths) = query path own_prefix_re (bytes "comment" ∷ []) >>= λ recs.
      prune_scan desired paths >>= λ rest. some (leftovers desired path recs ++ rest)

  -- From the desired resources on.
  unfoldable pub observe_router : List Desired → Option (List Observed × List PruneEntry)
  observe_router desired = observe_all desired >>= λ observed.
      prune_scan desired (owned_paths desired) >>= λ prunes. some (observed, prunes)

pub record Change : Type 0 where
  pub kind : Text
  pub id : Text
  pub verb : Text
  pub cmd : Text
  pub reason : Text

pub record Skipped : Type 0 where
  pub kind : Text
  pub id : Text
  pub why : Text

abbrev pub add_of : Desired → Change
unfolding add_args
add_of d = record {
  kind = d.kind;
  id = d.id;
  verb = bytes "add";
  cmd = d.path ++ bytes "/add " ++ add_args d;
  reason = bytes "missing";
}

abbrev pub set_of : Desired → List FieldDiff → Change
unfolding find set_args
set_of d ds = record {
  kind = d.kind;
  id = d.id;
  verb = bytes "set";
  cmd = d.path ++ bytes "/set [find where " ++ find d ++ bytes "] " ++ set_args d;
  reason = bytes "drift: " ++ join b',' (map (λ x. x.field) ds);
}

-- The three bytes are a dash in UTF-8.
abbrev pub skip_of : Desired → ℕ → Skipped
skip_of d n = record {
  kind = d.kind;
  id = d.id;
  why =
      decimal n ++ bytes " live matches " ++ 226 ∷ 128 ∷ 148 ∷ bytes " ambiguous, resolve by hand";
}

abbrev pub remove_of : PruneEntry → Change
remove_of p = record {
  kind = p.kind;
  id = p.comment;
  verb = bytes "remove";
  cmd = p.path ++ bytes "/remove [find where comment=\"" ++ p.comment ++ bytes "\"]";
  reason = bytes "prune leftover";
}

-- The loop over what was observed, and the prunes after it.
unfoldable pub changes_of : List Observed → List PruneEntry → List Change × List Skipped
changes_of [] prunes = (map remove_of prunes, [])
changes_of (o ∷ os) prunes =
    let (changes, skipped) = changes_of os prunes in
    elim o.status [
      | missing ↦ (add_of o.desired ∷ changes, skipped)
      | drifted ds ↦ (set_of o.desired ds ∷ changes, skipped)
      | converged ↦ (changes, skipped)
      | conflict n ↦ (changes, skip_of o.desired n ∷ skipped)
    ]

-- From the desired resources on.
unfoldable pub plan_changes :
    (Text → Text → List Text → Option (List Record))
    → List Desired
    → Option (List Change × List Skipped)
unfolding observe_router changes_of
plan_changes query desired =
    observe_router query desired >>= λ seen. some (changes_of seen.0 seen.1)
