-- ===== src/Meshctl/Changes.antt =====
-- When plan_changes (apply.rs) has nothing to do.
use lightning_mesh.Prelude.{
  true, Option, some, List, [], ◌∷◌, ◌++◌, ◌&&◌, ◌≡◌, ◌≢◌, ◌⊎◌, ◌↔◌, refl, sym, ap, subst, ◌∙◌, inl,
  inr, arith, All, In, Option-cases, Bool-cases, List-cases,
}
use lightning_mesh.Order.{Text, bytes, ◌==◌, text_ord, eq_of_==, ==_of_eq}
use lightning_mesh.Book.{get}
use lightning_mesh.Meshctl.{
  Record, Desired, Observed, PruneEntry, Status, missing, converged, drifted, conflict, or_empty,
  diffs, classify, find, field_keys, own_prefix_re,
}
use lightning_mesh.Meshctl.Plan.{
  owned_paths, is_wanted, leftovers, observe_all, prune_scan, observe_router, changes_of,
  plan_changes,
}

-- Every field of the item has the value wanted.
abbrev pub HasFields : Record → List (Text × Text) → Type 0
HasFields obs fields = All (λ f. or_empty (get obs f.0) ≡ f.1) fields

diffs_nil :
    (fields : List (Text × Text)) (obs : Record) → diffs fields obs ≡ [] → HasFields obs fields
unfolding diffs
diffs_nil [] obs h = _
diffs_nil (f ∷ fields) obs h = elim (Bool-cases (or_empty (get obs f.0) == f.1)) [
  | inl e ↦ (eq_of_== (or_empty (get obs f.0)) f.1 e, diffs_nil fields obs (grind arith))
  | inr e ↦ ground arith
]

diffs_nil_of :
    (fields : List (Text × Text)) (obs : Record) → HasFields obs fields → diffs fields obs ≡ []
unfolding diffs
diffs_nil_of [] obs h = refl
diffs_nil_of (f ∷ fields) obs (e, h) =
    ground (arith, diffs_nil_of fields obs h, ==_of_eq (or_empty (get obs f.0)) f.1 e)

classify-converged :
    (fields : List (Text × Text)) (recs : List Record)
    → classify fields recs ≡ converged
    → (obs : Record) × (recs ≡ obs ∷ []) × HasFields obs fields
unfolding classify
classify-converged fields [] h = cc
classify-converged fields (obs ∷ []) h = elim (List-cases (diffs fields obs)) [
  | inl e ↦ (obs, refl, diffs_nil fields obs e)
  | inr (d, ds, e) ↦ ground arith
]
classify-converged fields (obs ∷ obs' ∷ recs) h = cc

classify-HasFields :
    (fields : List (Text × Text)) (obs : Record)
    → HasFields obs fields
    → classify fields (obs ∷ []) ≡ converged
unfolding classify
classify-HasFields fields obs h = ground (arith, diffs_nil_of fields obs h)

-- A comment that is the identity of a desired resource under the path.
abbrev pub Claims : List Desired → Text → Text → Type 0
Claims desired path c = (d : Desired) × In d desired × (d.path ≡ path) × (d.identity.1 ≡ c)

pub is_wanted-Claims :
    (desired : List Desired) (path c : Text)
    → is_wanted desired path c ≡ true
    → Claims desired path c
unfolding is_wanted
is_wanted-Claims [] path c h = cc
is_wanted-Claims (d ∷ ds) path c h = elim (Bool-cases (d.path == path && d.identity.1 == c)) [
  | inl e ↦
      (d, inl refl, eq_of_== d.path path (ground arith), eq_of_== d.identity.1 c (ground arith))
  | inr e ↦ let (d', i, p, q) = is_wanted-Claims ds path c (ground arith) in (d', inr i, p, q)
]

pub Claims-is_wanted :
    (desired : List Desired) (path c : Text) (d : Desired)
    → In d desired
    → d.path ≡ path
    → d.identity.1 ≡ c
    → is_wanted desired path c ≡ true
unfolding is_wanted
Claims-is_wanted [] path c d i p q = elim i [ ]
Claims-is_wanted (d' ∷ ds) path c d (inl e) p q = ground (
  arith,
  ==_of_eq d'.path path (sym (ap (λ x. x.path) e) ∙ p),
  ==_of_eq d'.identity.1 c (sym (ap (λ x. x.identity.1) e) ∙ q),
)
Claims-is_wanted (d' ∷ ds) path c d (inr i) p q = ground (arith, Claims-is_wanted ds path c d i p q)

-- An item without a comment, or with one that is claimed.
abbrev pub IsClaimed : List Desired → Text → Record → Type 0
IsClaimed desired path rec = (c : Text) → get rec (bytes "comment") ≡ some c → Claims desired path c

leftovers_nil :
    (desired : List Desired) (path : Text) (recs : List Record)
    → leftovers desired path recs ≡ []
    → All (IsClaimed desired path) recs
unfolding leftovers
leftovers_nil desired path [] h = _
leftovers_nil desired path (rec ∷ recs) h = elim (Option-cases (get rec (bytes "comment"))) [
  | inl e ↦ ((λ c q. ground arith), leftovers_nil desired path recs (ground arith))
  | inr (c, e) ↦ elim (Bool-cases (is_wanted desired path c)) [
    | inl w ↦ (
      (λ c' q. is_wanted-Claims desired path c' (ground arith)),
      leftovers_nil desired path recs (ground arith),
    )
    | inr w ↦ ground arith
  ]
]

leftovers_nil_of :
    (desired : List Desired) (path : Text) (recs : List Record)
    → All (IsClaimed desired path) recs
    → leftovers desired path recs ≡ []
unfolding leftovers
leftovers_nil_of desired path [] h = refl
leftovers_nil_of desired path (rec ∷ recs) (h, hs) =
    elim (Option-cases (get rec (bytes "comment"))) [
      | inl e ↦ ground (arith, leftovers_nil_of desired path recs hs)
      | inr (c, e) ↦
          let (d, i, p, q) = h c e in
          ground
            (arith, leftovers_nil_of desired path recs hs, Claims-is_wanted desired path c d i p q)
    ]

Status-cases : (s : Status) → (s ≡ converged) ⊎ (s ≢ converged)
Status-cases missing = inr (λ h. cc)
Status-cases converged = inl refl
Status-cases (drifted ds) = inr (λ h. cc)
Status-cases (conflict n) = inr (λ h. cc)

append_nil : {A : Type 0} (xs ys : List A) → xs ++ ys ≡ [] → (xs ≡ []) × (ys ≡ [])
append_nil [] ys h = (refl, h)
append_nil (x ∷ xs) ys h = cc

changes_of_nil :
    (os : List Observed) (ps : List PruneEntry)
    → changes_of os ps ≡ ([], [])
    → All (λ o. o.status ≡ converged) os × (ps ≡ [])
unfolding changes_of
changes_of_nil [] [] h = (_, refl)
changes_of_nil [] (p ∷ ps) h = cc
changes_of_nil (o ∷ os) ps h = elim (Status-cases o.status) [
  | inl e ↦ let (a, b) = changes_of_nil os ps (grind arith) in ((e, a), b)
  | inr ne ↦ ground arith
]

changes_of_nil_of :
    (os : List Observed) → All (λ o. o.status ≡ converged) os → changes_of os [] ≡ ([], [])
unfolding changes_of
changes_of_nil_of [] h = refl
changes_of_nil_of (o ∷ os) (e, h) = ground (arith, changes_of_nil_of os h)

module _ (query : Text → Text → List Text → Option (List Record)) where
  -- The router answers the query for the resource with one item, whose fields are as wanted.
  abbrev pub IsAsWanted : Desired → Type 0
  unfolding find field_keys
  IsAsWanted d =
      (obs : Record) × (query d.path (find d) (field_keys d) ≡ some (obs ∷ []))
      × HasFields obs d.fields

  -- The prune scan of a path is answered, and each item of the answer is claimed.
  abbrev pub HasNoLeftover : List Desired → Text → Type 0
  HasNoLeftover desired path =
      (recs : List Record) × (query path own_prefix_re (bytes "comment" ∷ []) ≡ some recs)
      × All (IsClaimed desired path) recs

  observe_all-converged :
      (ds : List Desired) (os : List Observed)
      → observe_all query ds ≡ some os
      → All (λ o. o.status ≡ converged) os
      → All IsAsWanted ds
  unfolding observe_all
  observe_all-converged [] os h a = _
  observe_all-converged (d ∷ ds) os h a =
      elim (Option-cases (query d.path (find d) (field_keys d))) [
        | inl e ↦ ground arith
        | inr (recs, e) ↦ elim (Option-cases (observe_all query ds)) [
          | inl e' ↦ ground arith
          | inr (rest, e') ↦
              let split : os ≡ record { desired = d; status = classify d.fields recs } ∷ rest =
                ground arith in
              let a' = subst (All (λ o. o.status ≡ converged)) split a in
              let (obs, p, f) = classify-converged d.fields recs a'.0 in
              ((obs, e ∙ ap some p, f), observe_all-converged ds rest e' a'.1)
        ]
      ]

  observe_all-IsAsWanted :
      (ds : List Desired)
      → All IsAsWanted ds
      → (os : List Observed) × (observe_all query ds ≡ some os) × All (λ o. o.status ≡ converged) os
  unfolding observe_all
  observe_all-IsAsWanted [] h = ([], refl, _)
  observe_all-IsAsWanted (d ∷ ds) ((obs, q, f), h) =
      let (os, p, a) = observe_all-IsAsWanted ds h in
      (
        record { desired = d; status = classify d.fields (obs ∷ []) } ∷ os,
        ground arith,
        (classify-HasFields d.fields obs f, a),
      )

  prune_scan_nil :
      (desired : List Desired) (paths : List Text)
      → prune_scan query desired paths ≡ some []
      → All (HasNoLeftover desired) paths
  unfolding prune_scan
  prune_scan_nil desired [] h = _
  prune_scan_nil desired (path ∷ paths) h =
      elim (Option-cases (query path own_prefix_re (bytes "comment" ∷ []))) [
        | inl e ↦ ground arith
        | inr (recs, e) ↦ elim (Option-cases (prune_scan query desired paths)) [
          | inl e' ↦ ground arith
          | inr (rest, e') ↦
              let (l, r) = append_nil (leftovers desired path recs) rest (ground arith) in
              (
                (recs, e, leftovers_nil desired path recs l),
                prune_scan_nil desired paths (e' ∙ ap some r),
              )
        ]
      ]

  prune_scan_nil_of :
      (desired : List Desired) (paths : List Text)
      → All (HasNoLeftover desired) paths
      → prune_scan query desired paths ≡ some []
  unfolding prune_scan
  prune_scan_nil_of desired [] h = refl
  prune_scan_nil_of desired (path ∷ paths) ((recs, q, a), h) =
      ground (arith, prune_scan_nil_of desired paths h, leftovers_nil_of desired path recs a)

  -- plan_changes answers with no change and nothing skipped exactly when the router answers the query for each
  -- desired resource with one item whose fields have the values wanted, and answers the prune scan of each path
  -- with a resource owned by comment with items whose comment, where they have one, is the identity of a desired
  -- resource under that path.
  pub plan_changes_idle :
      (desired : List Desired)
      → (plan_changes query desired ≡ some ([], []))
        ↔ (All IsAsWanted desired × All (HasNoLeftover desired) (owned_paths desired))
  unfolding plan_changes observe_router
  plan_changes_idle desired = (
    (λ h. elim (Option-cases (observe_all query desired)) [
      | inl e ↦ ground arith
      | inr (os, e) ↦ elim (Option-cases (prune_scan query desired (owned_paths desired))) [
        | inl e' ↦ ground arith
        | inr (ps, e') ↦
            let (a, b) = changes_of_nil os ps (ground arith) in
            (
              observe_all-converged desired os e a,
              prune_scan_nil desired (owned_paths desired) (e' ∙ ap some b),
            )
      ]
    ]),
    λ (w, n).
        let (os, e, a) = observe_all-IsAsWanted desired w in
        ground (arith, prune_scan_nil_of desired (owned_paths desired) n, changes_of_nil_of os a),
  )
