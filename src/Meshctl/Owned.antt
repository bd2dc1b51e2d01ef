-- ===== src/Meshctl/Owned.antt =====
-- What plan_changes (apply.rs) may change.
use lightning_mesh.Prelude.{
  true, Option, some, List, [], ◌∷◌, ◌++◌, ℕ, List-cases, ◌≡◌, ◌≢◌, ◌⊎◌, refl, sym, ap, subst, ◌∙◌,
  inl, inr, arith, In, In-append_cases, Option-cases, Bool-cases, Ordering-cases, map,
}
use lightning_mesh.Order.{Text, bytes, text_ord}
use lightning_mesh.Book.{get}
use lightning_mesh.Meshctl.{
  Record, Desired, Observed, PruneEntry, FieldDiff, Status, missing, converged, drifted, conflict,
  diffs, classify, find, field_keys, own_prefix_re,
}
use lightning_mesh.Meshctl.Plan.{
  insert_path, owned_paths, is_wanted, leftovers, observe_all, prune_scan, observe_router, Change,
  Skipped, add_of, set_of, remove_of, changes_of, plan_changes,
}
use lightning_mesh.Meshctl.Changes.{Claims, Claims-is_wanted}

In-insert_path : (p q : Text) (qs : List Text) → In q (insert_path p qs) → (q ≡ p) ⊎ In q qs
unfolding insert_path
In-insert_path p q [] (inl e) = inl e
In-insert_path p q [] (inr i) = elim i [ ]
In-insert_path p q (x ∷ xs) i = elim (Ordering-cases (text_ord.cmp p x)) [
  | inl e ↦ after (rw (insert_path, e) at i) (λ j. In-insert_path p q xs j)
  | inr (inl e) ↦ inr (rw (insert_path, e) at i)
  | inr (inr e) ↦ rw (insert_path, e) at i
]
  where
    after :
        In q (x ∷ insert_path p xs)
        → (In q (insert_path p xs) → (q ≡ p) ⊎ In q xs)
        → (q ≡ p) ⊎ In q (x ∷ xs)
    after (inl e) f = inr (inl e)
    after (inr j) f = elim (f j) [ inl e ↦ inl e | inr k ↦ inr (inr k) ]

-- A desired resource under the path is owned by its comment.
abbrev pub IsOwnedPath : List Desired → Text → Type 0
IsOwnedPath desired path = (d : Desired) × In d desired × (d.comment_owned ≡ true) × (d.path ≡ path)

owned_paths-IsOwnedPath :
    (desired : List Desired) (path : Text)
    → In path (owned_paths desired)
    → IsOwnedPath desired path
unfolding owned_paths
owned_paths-IsOwnedPath [] path i = elim i [ ]
owned_paths-IsOwnedPath (d ∷ ds) path i = elim (Bool-cases d.comment_owned) [
  | inl e ↦ elim (In-insert_path d.path path (owned_paths ds) (rw e at i)) [
    | inl p ↦ (d, inl refl, e, sym p)
    | inr j ↦ later (owned_paths-IsOwnedPath ds path j)
  ]
  | inr e ↦ later (owned_paths-IsOwnedPath ds path (rw e at i))
]
  where
    later : IsOwnedPath ds path → IsOwnedPath (d ∷ ds) path
    later (d', j, o, p) = (d', inr j, o, p)

-- No desired resource under the path has the comment for its identity.
abbrev pub IsLeftover : List Desired → Text → List Record → PruneEntry → Type 0
IsLeftover desired path recs p =
    (rec : Record) × In rec recs
    × (get rec (bytes "comment") ≡ some p.comment)
    × (p.path ≡ path)
    × ¬ (Claims desired path p.comment)

leftovers-IsLeftover :
    (desired : List Desired) (path : Text) (recs : List Record) (p : PruneEntry)
    → In p (leftovers desired path recs)
    → IsLeftover desired path recs p
unfolding leftovers
leftovers-IsLeftover desired path [] p i = elim i [ ]
leftovers-IsLeftover desired path (rec ∷ recs) p i =
    elim (Option-cases (get rec (bytes "comment"))) [
      | inl e ↦ later (leftovers-IsLeftover desired path recs p (rw (leftovers, e) at i))
      | inr (c, e) ↦ elim (Bool-cases (is_wanted desired path c)) [
        | inl w ↦ later (leftovers-IsLeftover desired path recs p (rw (leftovers, e, w) at i))
        | inr w ↦ elim (rw (leftovers, e, w) at i) [
          | inl q ↦ (
            rec,
            inl refl,
            (e ∙ ap some (sym (ap (λ x. x.comment) q))),
            ap (λ x. x.path) q,
            λ (d, j, dp, dc).
                let t = Claims-is_wanted desired path c d j dp (dc ∙ ap (λ x. x.comment) q) in cc,
          )
          | inr j ↦ later (leftovers-IsLeftover desired path recs p j)
        ]
      ]
    ]
  where
    later : IsLeftover desired path recs p → IsLeftover desired path (rec ∷ recs) p
    later (r, j, g, q, n) = (r, inr j, g, q, n)

-- What the status says of the records.
abbrev IsStatus : List (Text × Text) → List Record → Status → Type 0
IsStatus fields recs missing = recs ≡ []
IsStatus fields recs (drifted ds) =
    (obs : Record) × (recs ≡ obs ∷ []) × (ds ≡ diffs fields obs) × (ds ≢ [])
IsStatus fields recs converged = Unit
IsStatus fields recs (conflict n) = Unit

classify-IsStatus :
    (fields : List (Text × Text)) (recs : List Record) → IsStatus fields recs (classify fields recs)
unfolding classify
classify-IsStatus fields [] = refl
classify-IsStatus fields (obs ∷ []) = elim (List-cases (diffs fields obs)) [
  | inl e ↦ rw (classify, e) _
  | inr (d, ds, e) ↦ rw (classify, e) (obs, refl, sym e, λ h. cc)
]
classify-IsStatus fields (obs ∷ obs' ∷ recs) = _

In-remove_of :
    (c : Change) (ps : List PruneEntry)
    → In c (map remove_of ps)
    → (p : PruneEntry) × In p ps × (c ≡ remove_of p)
In-remove_of c [] i = elim i [ ]
In-remove_of c (p ∷ ps) (inl e) = (p, inl refl, e)
In-remove_of c (p ∷ ps) (inr i) = let (p', j, e) = In-remove_of c ps i in (p', inr j, e)

-- The change is the one that the status of an observed resource asks for.
abbrev IsChangeOf : Observed → Change → Type 0
IsChangeOf o c =
    ((o.status ≡ missing) × (c ≡ add_of o.desired))
    ⊎ ((ds : List FieldDiff) × (o.status ≡ drifted ds) × (c ≡ set_of o.desired ds))

Status-cases :
    (s : Status)
    → (s ≡ missing)
      ⊎ (s ≡ converged)
      ⊎ ((ds : List FieldDiff) × (s ≡ drifted ds))
      ⊎ ((n : ℕ) × (s ≡ conflict n))
Status-cases missing = inl refl
Status-cases converged = inr (inl refl)
Status-cases (drifted ds) = inr (inr (inl (ds, refl)))
Status-cases (conflict n) = inr (inr (inr (n, refl)))

In-changes_of :
    (os : List Observed) (ps : List PruneEntry) (c : Change)
    → In c (changes_of os ps).0
    → ((o : Observed) × In o os × IsChangeOf o c) ⊎ ((p : PruneEntry) × In p ps × (c ≡ remove_of p))
unfolding changes_of
In-changes_of [] ps c i = inr (In-remove_of c ps i)
In-changes_of (o ∷ os) ps c i = elim (Status-cases o.status) [
  | inl e ↦ elim (rw (changes_of, e) at i) [
    | inl q ↦ inl (o, inl refl, inl (e, q))
    | inr j ↦ later (In-changes_of os ps c j)
  ]
  | inr (inl e) ↦ later (In-changes_of os ps c (rw (changes_of, e) at i))
  | inr (inr (inl (ds, e))) ↦ elim (rw (changes_of, e) at i) [
    | inl q ↦ inl (o, inl refl, inr (ds, e, q))
    | inr j ↦ later (In-changes_of os ps c j)
  ]
  | inr (inr (inr (n, e))) ↦ later (In-changes_of os ps c (rw (changes_of, e) at i))
]
  where
    later :
        ((o' : Observed) × In o' os × IsChangeOf o' c)
          ⊎ ((p : PruneEntry) × In p ps × (c ≡ remove_of p))
        → ((o' : Observed) × In o' (o ∷ os) × IsChangeOf o' c)
          ⊎ ((p : PruneEntry) × In p ps × (c ≡ remove_of p))
    later (inl (o', j, h)) = inl (o', inr j, h)
    later (inr h) = inr h

converges :
    (d : Desired) (recs : List Record) (c : Change)
    → IsChangeOf (record { desired = d; status = classify d.fields recs }) c
    → ((recs ≡ []) × (c ≡ add_of d))
      ⊎ ((obs : Record) × (recs ≡ obs ∷ [])
          × (diffs d.fields obs ≢ [])
          × (c ≡ set_of d (diffs d.fields obs)))
converges d recs c (inl (e, q)) =
    inl (subst (IsStatus d.fields recs) e (classify-IsStatus d.fields recs), q)
converges d recs c (inr (ds, e, q)) =
    let (obs, r, s, n) = subst (IsStatus d.fields recs) e (classify-IsStatus d.fields recs) in
    inr (obs, r, (λ z. n (s ∙ z)), q ∙ ap (set_of d) s)

the_some : {A : Type 0} {x y : A} → some x ≡ some y → y ≡ x
the_some h = cc

module _ (query : Text → Text → List Text → Option (List Record)) where
  -- The change adds the resource, of which the router has no item, or sets the fields of its one item, not all of
  -- which are as wanted.
  abbrev pub Converges : Desired → Change → Type 0
  unfolding find field_keys
  Converges d c =
      (recs : List Record) × (query d.path (find d) (field_keys d) ≡ some recs)
      × (((recs ≡ []) × (c ≡ add_of d))
          ⊎ ((obs : Record) × (recs ≡ obs ∷ [])
              × (diffs d.fields obs ≢ [])
              × (c ≡ set_of d (diffs d.fields obs))))

  -- The change removes an item that the prune scan of the path found and no desired resource claims.
  abbrev pub Prunes : List Desired → Text → Change → Type 0
  Prunes desired path c =
      (recs : List Record) × (query path own_prefix_re (bytes "comment" ∷ []) ≡ some recs)
      × (p : PruneEntry) × IsLeftover desired path recs p
      × (c ≡ remove_of p)

  In-observe_all :
      (ds : List Desired) (os : List Observed) (o : Observed) (c : Change)
      → observe_all query ds ≡ some os
      → In o os
      → IsChangeOf o c
      → (d : Desired) × In d ds × Converges d c
  unfolding observe_all
  In-observe_all [] os o c h i k = elim (subst (In o) (the_some h) i) [ ]
  In-observe_all (d ∷ ds) os o c h i k =
      elim (Option-cases (query d.path (find d) (field_keys d))) [
        | inl e ↦ ground arith
        | inr (recs, e) ↦ elim (Option-cases (observe_all query ds)) [
          | inl e' ↦ ground arith
          | inr (rest, e') ↦
              let split : os ≡ record { desired = d; status = classify d.fields recs } ∷ rest =
                ground arith in
              elim (subst (In o) split i) [
                | inl q ↦
                    (d, inl refl, (recs, e, converges d recs c (subst (λ x. IsChangeOf x c) q k)))
                | inr j ↦ let (d', j', w) = In-observe_all ds rest o c e' j k in (d', inr j', w)
              ]
        ]
      ]

  In-prune_scan :
      (desired : List Desired) (paths : List Text) (ps : List PruneEntry) (p : PruneEntry)
      (c : Change)
      → prune_scan query desired paths ≡ some ps
      → In p ps
      → c ≡ remove_of p
      → (path : Text) × In path paths × Prunes desired path c
  unfolding prune_scan
  In-prune_scan desired [] ps p c h i q = elim (subst (In p) (the_some h) i) [ ]
  In-prune_scan desired (path ∷ paths) ps p c h i q =
      elim (Option-cases (query path own_prefix_re (bytes "comment" ∷ []))) [
        | inl e ↦ ground arith
        | inr (recs, e) ↦ elim (Option-cases (prune_scan query desired paths)) [
          | inl e' ↦ ground arith
          | inr (rest, e') ↦
              let split : ps ≡ leftovers desired path recs ++ rest = ground arith in
              elim (In-append_cases p (leftovers desired path recs) rest (subst (In p) split i)) [
                | inl j ↦
                    (path, inl refl, (recs, e, p, leftovers-IsLeftover desired path recs p j, q))
                | inr j ↦
                    let (path', i', w) = In-prune_scan desired paths rest p c e' j q in
                    (path', inr i', w)
              ]
        ]
      ]

  -- Each change that plan_changes answers either adds a desired resource of which the router has no item, or sets
  -- the fields of one of which it has one item with some field not as wanted, or removes an item that the prune
  -- scan found under the path of a resource owned by comment and whose comment is the identity of no desired
  -- resource under that path.
  pub plan_changes_owned :
      (desired : List Desired) (changes : List Change) (skipped : List Skipped) (c : Change)
      → plan_changes query desired ≡ some (changes, skipped)
      → In c changes
      → ((d : Desired) × In d desired × Converges d c)
        ⊎ ((path : Text) × IsOwnedPath desired path × Prunes desired path c)
  unfolding plan_changes observe_router
  plan_changes_owned desired changes skipped c h i =
      elim (Option-cases (observe_all query desired)) [
        | inl e ↦ ground arith
        | inr (os, e) ↦ elim (Option-cases (prune_scan query desired (owned_paths desired))) [
          | inl e' ↦ ground arith
          | inr (ps, e') ↦
              let split : changes ≡ (changes_of os ps).0 = ground arith in
              elim (In-changes_of os ps c (subst (In c) split i)) [
                | inl (o, j, k) ↦ inl (In-observe_all desired os o c e j k)
                | inr (p, j, k) ↦
                    let (path, m, w) = In-prune_scan desired (owned_paths desired) ps p c e' j k in
                    inr (path, owned_paths-IsOwnedPath desired path m, w)
              ]
        ]
      ]
