-- ===== src/Daemon/Spool.antt =====
-- The spools that mjolnir-hello writes and the daemon reads (meshd): claims on names and identities.
-- A file of a spool is whether its extension is json, its bytes where they can be read, and the time
-- at which it is handled. What serde_json reads of the bytes is a parameter.
pub mod Names
pub mod OneName
pub mod Identity
pub mod Sweep
use lightning_mesh.Prelude.{
  ℕ, zero, suc, Bool, true, false, ◌&&◌, not, Option, none, some, List, [], ◌∷◌, ◌++◌,
  if◌then◌else◌,
}
use lightning_mesh.Order.{Text, bytes, ◌==◌, text_ord}
use lightning_mesh.Book.{Book, get, insert}
use lightning_mesh.Str.{trim}
use lightning_mesh.Crdt.Hlc.{Hlc}
use lightning_mesh.Crdt.Entries.{IpAddr, UserEntry, UserBook, LeasedName, LeasedNameBook}
use lightning_mesh.Crdt.Merge.{
  MergeResult, inserted, updated, unchanged, conflict, merge_user, is_reserved_service_name,
}
use lightning_mesh.Crdt.LeasedName.{apply_leased_name, name_owned_by}
use lightning_mesh.Crdt.DeviceNames.{valid, refused, normalize_device_host}

pub record SpoolFile : Type 0 where
  pub is_json : Bool
  pub contents : Option Text
  pub now : Hlc

-- What becomes of a file.
pub data Fate : Type 0 where
  left quarantined removed : Fate

pub record NameClaimSpool : Type 0 where
  pub pubkey : Text
  pub sig : Text
  pub challenge : Text
  pub name : Text
  pub port : ℕ
  pub ip : Option IpAddr
  pub scheme : Option Text

-- `name_ok`
abbrev pub is_normal : Text → Bool
is_normal name = elim (normalize_device_host name) [ valid n ↦ n == name | refused _ ↦ false ]

unfoldable pub name_ok : Text → Bool
unfolding normalize_device_host
name_ok name = is_normal name && not (is_reserved_service_name name)

-- The other name that a key holds, if it holds one.
abbrev pub other_than : Text → Option Text → Option Text
other_than name none = none
other_than name (some n) = if n == name then none else some n

-- The first claim that a claim of a key at `now` has on a name.
abbrev pub tenure : Option LeasedName → Text → Hlc → Hlc
tenure none pubkey now = now
tenure (some e) pubkey now = if e.owner_pubkey == pubkey then e.first_claimed_at else now

-- The record of a claim.
unfoldable pub lease_of : LeasedNameBook → NameClaimSpool → IpAddr → Hlc → LeasedName
lease_of book claim ip now = record {
  owner_pubkey = claim.pubkey;
  sig = claim.sig;
  challenge = claim.challenge;
  ip = ip;
  port = claim.port;
  scheme = claim.scheme;
  first_claimed_at = tenure (get book claim.name) claim.pubkey now;
  renewed_at = now;
}

-- What is gossiped of an applied claim.
unfoldable pub announced :
    Text → Text → LeasedName → MergeResult LeasedName → List (Text × LeasedName)
announced pubkey name entry inserted = (name, entry) ∷ []
announced pubkey name entry updated = (name, entry) ∷ []
announced pubkey name entry unchanged = []
announced pubkey name entry (conflict winner loser) =
    if winner.owner_pubkey == pubkey then (name, entry) ∷ [] else []

-- The book afterwards and what is gossiped, of a parsed claim. Its file is removed in every case.
unfoldable pub ingest_claim :
    LeasedNameBook → NameClaimSpool → Hlc → LeasedNameBook × List (Text × LeasedName)
unfolding name_ok lease_of announced
ingest_claim book claim now = elim claim.ip [
  | none ↦ (book, [])
  | some ip ↦
      if not (name_ok claim.name)
      then (book, [])
      else elim (other_than claim.name (name_owned_by book claim.pubkey now.wall_clock)) [
        | some _ ↦ (book, [])
        | none ↦
            let entry = lease_of book claim ip now in
            let (book', result) = apply_leased_name book claim.name entry in
            (book', announced claim.pubkey claim.name entry result)
      ]
]

module _ (from_slice : Text → Option NameClaimSpool) where
  -- The book afterwards, what is gossiped, and what becomes of the file.
  unfoldable pub ingest_claim_file :
      LeasedNameBook → SpoolFile → LeasedNameBook × List (Text × LeasedName) × Fate
  unfolding ingest_claim
  ingest_claim_file book file = if not file.is_json then (book, [], left) else elim file.contents [
    | none ↦ (book, [], left)
    | some text ↦ elim (from_slice text) [
      | none ↦ (book, [], quarantined)
      | some claim ↦
          let (book', applied) = ingest_claim book claim file.now in (book', applied, removed)
    ]
  ]

  -- The files of the directory, in their order. The fates are those of the files.
  unfoldable pub ingest_name_claim_spool :
      LeasedNameBook → List SpoolFile → LeasedNameBook × List (Text × LeasedName) × List Fate
  unfolding ingest_claim_file
  ingest_name_claim_spool book [] = (book, [], [])
  ingest_name_claim_spool book (file ∷ files) =
      let (book', applied, fate) = ingest_claim_file book file in
      let (book'', others, fates) = ingest_name_claim_spool book' files in
      (book'', applied ++ others, fate ∷ fates)

pub record SpoolSubmission : Type 0 where
  pub pubkey : Text
  pub sig : Text
  pub challenge : Text
  pub label : Option Text

abbrev pub take : ℕ → Text → Text
take zero s = []
take (suc n) [] = []
take (suc n) (c ∷ s) = c ∷ take n s

-- A key is of ASCII, so that its first eight bytes are a text. The last character is an ellipsis.
unfoldable pub short_pubkey : Text → Text
short_pubkey pubkey = take 8 pubkey ++ (0xe2 ∷ 0x80 ∷ 0xa6 ∷ [])

-- The label without the white space around it, if anything is left.
abbrev pub usable_label : Option Text → Option Text
usable_label none = none
usable_label (some l) = if trim l == [] then none else some (trim l)

-- The name that the submission gives, or that the record has, or that the key makes.
abbrev pub display_name_of : SpoolSubmission → Option UserEntry → Text
display_name_of sub existing = elim (usable_label sub.label) [
  | some l ↦ l
  | none ↦ elim existing [ some e ↦ e.display_name | none ↦ short_pubkey sub.pubkey ]
]

unfoldable pub spool_submission_to_user_entry :
    SpoolSubmission → Option UserEntry → Text → Hlc → UserEntry
spool_submission_to_user_entry sub existing self_id now = record {
  username = sub.pubkey;
  display_name = display_name_of sub existing;
  registered_by = self_id;
  attrs = (bytes "pubkey", sub.pubkey) ∷ [];
  updated_at = now;
}

-- The book after a parsed submission.
unfoldable pub ingest_submission : UserBook → SpoolSubmission → Text → Hlc → UserBook
unfolding spool_submission_to_user_entry
ingest_submission book sub self_id now =
    let entry = spool_submission_to_user_entry sub (get book sub.pubkey) self_id now in
    elim (merge_user (get book entry.username) entry) [
      | inserted ↦ insert book entry.username entry
      | updated ↦ insert book entry.username entry
      | unchanged ↦ book
      | conflict _ _ ↦ book
    ]

module _ (from_slice : Text → Option SpoolSubmission) (self_id : Text) where
  unfoldable pub ingest_submission_file : UserBook → SpoolFile → UserBook × Fate
  unfolding ingest_submission
  ingest_submission_file book file = if not file.is_json then (book, left) else elim file.contents [
    | none ↦ (book, left)
    | some text ↦ elim (from_slice text) [
      | none ↦ (book, quarantined)
      | some sub ↦ (ingest_submission book sub self_id file.now, removed)
    ]
  ]

  unfoldable pub ingest_identity_spool : UserBook → List SpoolFile → UserBook × List Fate
  unfolding ingest_submission_file
  ingest_identity_spool book [] = (book, [])
  ingest_identity_spool book (file ∷ files) =
      let (book', fate) = ingest_submission_file book file in
      let (book'', fates) = ingest_identity_spool book' files in (book'', fate ∷ fates)
