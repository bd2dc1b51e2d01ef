-- ===== src/Daemon/Spool/OneName.antt =====
-- A key holds one live name at most, as far as the claims of the spool go.
use lightning_mesh.Prelude.{
  ℕ, true, false, ◌&&◌, not, Option, none, some, [], ◌∷◌, ◌≡◌, ◌≤◌, refl, sym, ap, ◌∙◌, arith, inl,
  inr, ◌⊎◌, In, Bool-cases, Option-cases,
}
use lightning_mesh.Order.{Text, ◌==◌, nat_ord, text_ord, eq_of_==, ==_of_eq}
use lightning_mesh.Book.{get, insert}
use lightning_mesh.Book.Sorted.{In-get, In-insert}
use lightning_mesh.Crdt.Hlc.{Hlc}
use lightning_mesh.Crdt.Entries.{LeasedName, LeasedNameBook}
use lightning_mesh.Crdt.Merge.{MergeResult, inserted, updated, unchanged, conflict}
use lightning_mesh.Crdt.LeasedName.{
  is_expired, merge_leased_name, cross_owner_winner, store, apply_leased_name, name_owned_by,
}
use lightning_mesh.Crdt.LeasedName.Laws.{insert-winner}
use lightning_mesh.Daemon.Spool.Names.{ingest_claim_cases}
use lightning_mesh.Daemon.Spool.{NameClaimSpool, other_than, lease_of, ingest_claim}

-- Two live leases of one key are on one name.
abbrev pub HasOneName : LeasedNameBook → ℕ → Type 0
HasOneName book now_ms =
    (n m : Text) (e f : LeasedName)
    → In {A = Text × LeasedName} (n, e) book
    → In {A = Text × LeasedName} (m, f) book
    → e.owner_pubkey ≡ f.owner_pubkey
    → is_expired e now_ms ≡ false
    → is_expired f now_ms ≡ false
    → n ≡ m

-- A lease that has lapsed stays lapsed.
not_expired_before :
    (e : LeasedName) (t now_ms : ℕ)
    → t ≤ now_ms
    → is_expired e now_ms ≡ false
    → is_expired e t ≡ false
unfolding is_expired
not_expired_before e t now_ms h live = ground arith

pub HasOneName-later :
    (book : LeasedNameBook) (t now_ms : ℕ) → t ≤ now_ms → HasOneName book t → HasOneName book now_ms
HasOneName-later book t now_ms h one n m e f i j same a b =
    one n m e f i j same (not_expired_before e t now_ms h a) (not_expired_before f t now_ms h b)

owned_none :
    (book : LeasedNameBook) (pubkey : Text) (now_ms : ℕ) (m : Text) (f : LeasedName)
    → name_owned_by book pubkey now_ms ≡ none
    → In {A = Text × LeasedName} (m, f) book
    → f.owner_pubkey ≡ pubkey
    → is_expired f now_ms ≡ true
unfolding name_owned_by
owned_none [] pubkey now_ms m f h i own = elim i [ ]
owned_none ((n, e) ∷ book) pubkey now_ms m f h (inl p) own =
    let q : f ≡ e = ap (λ (x : Text × LeasedName). x.1) p in
    let own' : e.owner_pubkey ≡ pubkey = ap (λ (x : LeasedName). x.owner_pubkey) (sym q) ∙ own in
    rw q (ground (arith, ==_of_eq e.owner_pubkey pubkey own'))
owned_none ((n, e) ∷ book) pubkey now_ms m f h (inr i) own =
    owned_none book pubkey now_ms m f (ground arith) i own

owned_some :
    (book : LeasedNameBook) (pubkey : Text) (now_ms : ℕ) (n : Text)
    → name_owned_by book pubkey now_ms ≡ some n
    → (e : LeasedName) × In {A = Text × LeasedName} (n, e) book
      × (e.owner_pubkey ≡ pubkey)
      × (is_expired e now_ms ≡ false)
unfolding name_owned_by
owned_some [] pubkey now_ms n h = absurd (cc h)
owned_some ((m, e) ∷ book) pubkey now_ms n h =
    elim (Bool-cases (e.owner_pubkey == pubkey && not (is_expired e now_ms))) [
      | inl t ↦ (
        e,
        inl (let same : n ≡ m = ground arith in ap (λ (x : Text). (x, e)) same),
        ground (arith, eq_of_== e.owner_pubkey pubkey),
        ground arith,
      )
      | inr t ↦
          let (f, i, own, live) = owned_some book pubkey now_ms n (ground arith) in
          (f, inr i, own, live)
    ]

-- The winner of a verdict is one of the two records.
merge_winner :
    (existing : Option LeasedName) (entry winner loser : LeasedName)
    → merge_leased_name existing entry ≡ conflict winner loser
    → (winner ≡ entry) ⊎ (existing ≡ some winner)
unfolding merge_leased_name cross_owner_winner
merge_winner none entry winner loser h = absurd (cc h)
merge_winner (some x) entry winner loser h = ground arith

-- Where an entry of the stored book comes from.
In-store :
    (book : LeasedNameBook) (name q : Text) (entry w : LeasedName) (r : MergeResult LeasedName)
    → ((winner loser : LeasedName)
        → r ≡ conflict winner loser
        → (winner ≡ entry) ⊎ (get book name ≡ some winner))
    → In {A = Text × LeasedName} (q, w) (store book name entry r)
    → ((q ≡ name) × (w ≡ entry)) ⊎ In {A = Text × LeasedName} (q, w) book
In-store book name q entry w inserted k i = In-insert book name q entry w (unfold store in i)
In-store book name q entry w updated k i = In-insert book name q entry w (unfold store in i)
In-store book name q entry w unchanged k i = inr (unfold store in i)
In-store book name q entry w (conflict winner loser) k i =
    let j : In {A = Text × LeasedName} (q, w) (insert book name winner) =
      rw (insert-winner book name entry winner loser) at i in
    elim (In-insert book name q winner w j) [
      | inr old ↦ inr old
      | inl (n, e) ↦ elim (k winner loser refl) [
        | inl same ↦ inl (n, e ∙ same)
        | inr held ↦ inr (rw (n, e) (In-get book name winner held))
      ]
    ]

abbrev stored : LeasedNameBook → Text → LeasedName → LeasedNameBook
stored book name entry = (apply_leased_name book name entry).0

In-stored :
    (book : LeasedNameBook) (name q : Text) (entry w : LeasedName)
    → In {A = Text × LeasedName} (q, w) (stored book name entry)
    → ((q ≡ name) × (w ≡ entry)) ⊎ In {A = Text × LeasedName} (q, w) book
unfolding apply_leased_name
In-stored book name q entry w i =
    In-store book name q entry w (merge_leased_name (get book name) entry)
      (λ winner loser h. merge_winner (get book name) entry winner loser h) i

-- The key's live names, where the spool lets the claim pass.
only_this :
    (book : LeasedNameBook) (pubkey name : Text) (now_ms : ℕ) (m : Text) (f : LeasedName)
    → HasOneName book now_ms
    → other_than name (name_owned_by book pubkey now_ms) ≡ none
    → In {A = Text × LeasedName} (m, f) book
    → f.owner_pubkey ≡ pubkey
    → is_expired f now_ms ≡ false
    → m ≡ name
only_this book pubkey name now_ms m f one free i own live =
    elim (Option-cases (name_owned_by book pubkey now_ms)) [
      | inl n ↦ absurd (cc (owned_none book pubkey now_ms m f n i own, live))
      | inr (n, e) ↦
          let (g, j, own', live') = owned_some book pubkey now_ms n e in
          let same : n ≡ name = ground (arith, eq_of_== n name) in
          one m n f g i j (own ∙ sym own') live live' ∙ same
    ]

stored-HasOneName :
    (book : LeasedNameBook) (name : Text) (entry : LeasedName) (now_ms : ℕ)
    → HasOneName book now_ms
    → other_than name (name_owned_by book entry.owner_pubkey now_ms) ≡ none
    → HasOneName (stored book name entry) now_ms
stored-HasOneName book name entry now_ms one free n m e f i j same live live' =
    elim (In-stored book name n entry e i) [
      | inl (n', e') ↦ elim (In-stored book name m entry f j) [
        | inl (m', f') ↦ n' ∙ sym m'
        | inr f' ↦
            n'
            ∙ sym (
                only_this book entry.owner_pubkey name now_ms m f one free f'
                  (sym same ∙ ap (λ (x : LeasedName). x.owner_pubkey) e') live')
      ]
      | inr e' ↦ elim (In-stored book name m entry f j) [
        | inl (m', f') ↦
            only_this book entry.owner_pubkey name now_ms n e one free e'
              (same ∙ ap (λ (x : LeasedName). x.owner_pubkey) f') live
            ∙ sym m'
        | inr f' ↦ one n m e f e' f' same live live'
      ]
    ]

-- A claim from the spool keeps every key to one live name at most: where two live leases of one key
-- are on one name before, they are at the time of the claim, after it.
pub ingest_claim-HasOneName :
    (book : LeasedNameBook) (claim : NameClaimSpool) (now : Hlc) (t : ℕ)
    → t ≤ now.wall_clock
    → HasOneName book t
    → HasOneName (ingest_claim book claim now).0 now.wall_clock
unfolding lease_of
ingest_claim-HasOneName book claim now t h one =
    let one' = HasOneName-later book t now.wall_clock h one in
    elim (ingest_claim_cases book claim now) [
      | inl e ↦ rw e one'
      | inr (ip, p, e) ↦ rw e (
          stored-HasOneName book claim.name (lease_of book claim ip now) now.wall_clock one'
            p.no_other)
    ]
