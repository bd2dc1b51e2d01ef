-- ===== src/Daemon/Spool/Identity.antt =====
-- What a submission of the identity spool does to the record of its key.
use lightning_mesh.Prelude.{
  Option, none, some, List, [], ◌∷◌, All, ◌≡◌, arith, inl, inr, Bool-cases, Option-cases,
  Ordering-cases,
}
use lightning_mesh.Order.{Text, ◌==◌, text_ord, eq_of_==}
use lightning_mesh.Book.{get, get-insert}
use lightning_mesh.Crdt.Hlc.{Hlc, hlc_cmp}
use lightning_mesh.Crdt.Entries.{UserEntry, UserBook}
use lightning_mesh.Crdt.Merge.{merge_user}
use lightning_mesh.Daemon.Spool.{
  SpoolSubmission, usable_label, spool_submission_to_user_entry, ingest_submission, SpoolFile,
  ingest_submission_file, ingest_identity_spool,
}

-- A record of the key with the same display name.
abbrev pub Shows : UserBook → Text → Text → Type 0
Shows book pubkey shown = (e : UserEntry) × (get book pubkey ≡ some e) × (e.display_name ≡ shown)

submission-Shows :
    (book : UserBook) (sub : SpoolSubmission) (self_id : Text) (now : Hlc) (pubkey shown : Text)
    → (sub.pubkey ≡ pubkey → usable_label sub.label ≡ none)
    → Shows book pubkey shown
    → Shows (ingest_submission book sub self_id now) pubkey shown
unfolding ingest_submission spool_submission_to_user_entry merge_user
submission-Shows book sub self_id now pubkey shown blank (old, held, same) =
    let entry = spool_submission_to_user_entry sub (get book sub.pubkey) self_id now in
    elim (Bool-cases (sub.pubkey == pubkey)) [
      | inr ne ↦ (
        old,
        elim (Option-cases (get book sub.pubkey)) [
          | inl n ↦ ground (arith, get-insert book sub.pubkey pubkey entry)
          | inr (x, g) ↦ ground (arith, get-insert book sub.pubkey pubkey entry)
        ],
        same,
      )
      | inl e ↦
          let key : sub.pubkey ≡ pubkey = eq_of_== sub.pubkey pubkey e in
          let found : get book sub.pubkey ≡ some old = rw key held in
          elim (Ordering-cases (hlc_cmp now old.updated_at)) [
            | inl newer ↦ (
              entry,
              ground (arith, get-insert book sub.pubkey pubkey entry),
              ground (arith, blank key),
            )
            | inr c ↦ (old, ground (arith, held), same)
          ]
    ]

module _ (from_slice : Text → Option SpoolSubmission) (self_id pubkey shown : Text) where
  -- No submission of the key in the file has a label that is not blank.
  abbrev pub Unlabelled : SpoolFile → Type 0
  Unlabelled file =
      (text : Text) (sub : SpoolSubmission)
      → file.contents ≡ some text
      → from_slice text ≡ some sub
      → sub.pubkey ≡ pubkey
      → usable_label sub.label ≡ none

  file-Shows :
      (book : UserBook) (file : SpoolFile)
      → Unlabelled file
      → Shows book pubkey shown
      → Shows (ingest_submission_file from_slice self_id book file).0 pubkey shown
  unfolding ingest_submission_file
  file-Shows book file blank w = elim (Bool-cases file.is_json) [
    | inr n ↦ rw (ingest_submission_file, n) w
    | inl j ↦ elim (Option-cases file.contents) [
      | inl n ↦ rw (ingest_submission_file, j, n) w
      | inr (text, t) ↦ elim (Option-cases (from_slice text)) [
        | inl n ↦ rw (ingest_submission_file, j, t, n) w
        | inr (sub, u) ↦
            rw (ingest_submission_file, j, t, u)
              (submission-Shows book sub self_id file.now pubkey shown
                (λ same. blank text sub t u same) w)
      ]
    ]
  ]

  -- A sweep of the identity spool keeps the display name of a known key, if no submission of that key
  -- in the spool has a label that is not blank: neither a blank label nor other keys' submissions
  -- replace the name.
  pub ingest_identity_spool_keeps_name :
      (book : UserBook) (files : List SpoolFile)
      → All Unlabelled files
      → Shows book pubkey shown
      → Shows (ingest_identity_spool from_slice self_id book files).0 pubkey shown
  unfolding ingest_identity_spool
  ingest_identity_spool_keeps_name book [] blank w = w
  ingest_identity_spool_keeps_name book (file ∷ files) (b, blank) w =
      ingest_identity_spool_keeps_name (ingest_submission_file from_slice self_id book file).0 files
        blank (file-Shows book file b w)
