-- ===== src/Daemon/Spool/Sweep.antt =====
-- A whole sweep of the spool of claims on names.
use lightning_mesh.Prelude.{ℕ, Option, List, [], ◌∷◌, ◌≤◌, inl, inr, Bool-cases, Option-cases}
use lightning_mesh.Order.{Text}
use lightning_mesh.Crdt.Entries.{LeasedNameBook}
use lightning_mesh.Daemon.Spool.{
  NameClaimSpool, SpoolFile, ingest_claim_file, ingest_name_claim_spool,
}
use lightning_mesh.Daemon.Spool.OneName.{HasOneName, HasOneName-later, ingest_claim-HasOneName}

-- The clock never runs back from `t` over the files.
abbrev pub Ascending : ℕ → List SpoolFile → Type 0
Ascending t [] = Unit
Ascending t (file ∷ files) = (t ≤ file.now.wall_clock) × Ascending file.now.wall_clock files

-- The time of the last file.
abbrev pub last_time : ℕ → List SpoolFile → ℕ
last_time t [] = t
last_time t (file ∷ files) = last_time file.now.wall_clock files

module _ (from_slice : Text → Option NameClaimSpool) where
  file-HasOneName :
      (book : LeasedNameBook) (file : SpoolFile) (t : ℕ)
      → t ≤ file.now.wall_clock
      → HasOneName book t
      → HasOneName (ingest_claim_file from_slice book file).0 file.now.wall_clock
  unfolding ingest_claim_file
  file-HasOneName book file t h one =
      let later = HasOneName-later book t file.now.wall_clock h one in
      elim (Bool-cases file.is_json) [
        | inr n ↦ rw (ingest_claim_file, n) later
        | inl j ↦ elim (Option-cases file.contents) [
          | inl n ↦ rw (ingest_claim_file, j, n) later
          | inr (text, c) ↦ elim (Option-cases (from_slice text)) [
            | inl n ↦ rw (ingest_claim_file, j, c, n) later
            | inr (claim, u) ↦
                rw (ingest_claim_file, j, c, u)
                  (ingest_claim-HasOneName book claim file.now t h one)
          ]
        ]
      ]

  -- A sweep of the spool of claims keeps every key to one live name at most, whatever the files hold,
  -- while the clock does not run back: where two live leases of one key are on one name at a time
  -- before the sweep, they are after it, at the time of the last file.
  pub ingest_name_claim_spool-HasOneName :
      (book : LeasedNameBook) (files : List SpoolFile) (t : ℕ)
      → Ascending t files
      → HasOneName book t
      → HasOneName (ingest_name_claim_spool from_slice book files).0 (last_time t files)
  unfolding ingest_name_claim_spool
  ingest_name_claim_spool-HasOneName book [] t a one = one
  ingest_name_claim_spool-HasOneName book (file ∷ files) t (h, a) one =
      ingest_name_claim_spool-HasOneName (ingest_claim_file from_slice book file).0 files
        file.now.wall_clock a (file-HasOneName book file t h one)
