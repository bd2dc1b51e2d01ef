-- ===== src/Daemon/Spool/Names.antt =====
-- Which claims of the spool pass, and what they leave in the book of leased names.
use lightning_mesh.Prelude.{
  true, false, none, some, List, [], ◌∷◌, ◌≡◌, ◌≢◌, refl, ap, ◌∙◌, arith, lt, inl, inr, ◌⊎◌,
  Bool-cases, Option-cases,
}
use lightning_mesh.Order.{Text, ◌==◌, nat_ord, text_ord, eq_of_==, text_cmp-IsTotalOrder}
use lightning_mesh.Book.{get}
use lightning_mesh.Crdt.Hlc.{Hlc, hlc_cmp}
use lightning_mesh.Crdt.Entries.{IpAddr, LeasedName, LeasedNameBook}
use lightning_mesh.Crdt.Merge.{
  MergeResult, inserted, updated, unchanged, conflict, is_reserved_service_name,
}
use lightning_mesh.Crdt.LeasedName.{
  is_expired, merge_leased_name, cross_owner_winner, apply_leased_name, name_owned_by,
}
use lightning_mesh.Crdt.LeasedName.Laws.{get-store}
use lightning_mesh.Crdt.DeviceNames.{valid, normalize_device_host}
use lightning_mesh.Crdt.DeviceNames.Keys.{HostResult-cases}
use lightning_mesh.Crdt.DeviceNames.Laws.{IsHostLabel, normalize_device_host-IsHostLabel}
use lightning_mesh.Daemon.Spool.{
  NameClaimSpool, other_than, lease_of, ingest_claim, name_ok, announced, tenure,
}

-- What holds of a claim that reaches the merge.
pub record Passes (book : LeasedNameBook) (claim : NameClaimSpool) (now : Hlc) (ip : IpAddr)
    : Type 0 where
  pub has_ip : claim.ip ≡ some ip
  pub good_name : name_ok claim.name ≡ true
  pub no_other : other_than claim.name (name_owned_by book claim.pubkey now.wall_clock) ≡ none

-- A claim is dropped, or passes and is merged.
pub ingest_claim_cases :
    (book : LeasedNameBook) (claim : NameClaimSpool) (now : Hlc)
    → (ingest_claim book claim now ≡ (book, []))
      ⊎ ((ip : IpAddr) × Passes book claim now ip
          × (let entry = lease_of book claim ip now in
              ingest_claim book claim now ≡ (
                (apply_leased_name book claim.name entry).0,
                announced claim.pubkey claim.name entry (apply_leased_name book claim.name entry).1,
              )))
unfolding ingest_claim
ingest_claim_cases book claim now = elim (Option-cases claim.ip) [
  | inl n ↦ inl (ground arith)
  | inr (ip, a) ↦ elim (Bool-cases (name_ok claim.name)) [
    | inr b ↦ inl (ground arith)
    | inl b ↦
        elim (Option-cases
          (other_than claim.name (name_owned_by book claim.pubkey now.wall_clock))) [
            | inr (o, c) ↦ inl (ground arith)
            | inl c ↦ inr (
              ip,
              record { has_ip = a; good_name = b; no_other = c },
              rw (ingest_claim, a, b, c) refl,
            )
          ]
  ]
]

name_ok-IsHostLabel :
    (name : Text) → name_ok name ≡ true → IsHostLabel name × (is_reserved_service_name name ≡ false)
unfolding name_ok
name_ok-IsHostLabel name h =
    let normal : normalize_device_host name ≡ valid name =
      elim (HostResult-cases (normalize_device_host name)) [
        | inl (n, e) ↦
            let same : n ≡ name = ground (arith, eq_of_== n name) in e ∙ ap (λ t. valid t) same
        | inr (x, e) ↦ ground arith
      ] in
    ((normalize_device_host-IsHostLabel name name normal).0, ground arith)

single_parts :
    (name n : Text) (entry e : LeasedName) (rest : List (Text × LeasedName))
    → ◌≡◌ {A = List (Text × LeasedName)} ((name, entry) ∷ []) ((n, e) ∷ rest)
    → (n ≡ name) × (e ≡ entry) × (rest ≡ [])
single_parts name n entry e rest h = (cc, cc, cc)

announced_parts :
    (pubkey name : Text) (entry : LeasedName) (r : MergeResult LeasedName) (n : Text)
    (e : LeasedName) (rest : List (Text × LeasedName))
    → announced pubkey name entry r ≡ (n, e) ∷ rest
    → (n ≡ name) × (e ≡ entry) × (rest ≡ [])
unfolding announced
announced_parts pubkey name entry inserted n e rest h = single_parts name n entry e rest h
announced_parts pubkey name entry updated n e rest h = single_parts name n entry e rest h
announced_parts pubkey name entry unchanged n e rest h = absurd (cc h)
announced_parts pubkey name entry (conflict winner loser) n e rest h =
    elim (Bool-cases (winner.owner_pubkey == pubkey)) [
      | inl t ↦ single_parts name n entry e rest (rw (announced, t) at h)
      | inr t ↦ ground arith
    ]

-- A verdict that is announced leaves the announced record under the name.
announced_held :
    (book : LeasedNameBook) (name : Text) (entry : LeasedName) (n : Text) (e : LeasedName)
    (rest : List (Text × LeasedName))
    → announced entry.owner_pubkey name entry (apply_leased_name book name entry).1 ≡ (n, e) ∷ rest
    → (n ≡ name)
      × (e ≡ entry)
      × (rest ≡ [])
      × (get (apply_leased_name book name entry).0 name ≡ some entry)
unfolding announced apply_leased_name merge_leased_name cross_owner_winner
announced_held book name entry n e rest h =
    let r = merge_leased_name (get book name) entry in
    let (a, b, c) = announced_parts entry.owner_pubkey name entry r n e rest h in
    (
      a,
      b,
      c,
      elim (Option-cases (get book name)) [
        | inl g ↦
            ground (arith, get-store book name name entry r, text_cmp-IsTotalOrder.cmp_self name)
        | inr (x, g) ↦ ground (
          arith,
          get-store book name name entry r,
          text_cmp-IsTotalOrder.cmp_self name,
          text_cmp-IsTotalOrder.same_of_eq x.owner_pubkey entry.owner_pubkey,
        )
      ],
    )

-- What the spool gossips of a claim: at most one record, under the name of the claim, which is a label
-- of DNS and not reserved; the book then holds that record under the name, for the claim's key, stamped with the
-- time of the claim; and where the book held a record of that key under the name, the first claim is that record's.
pub ingest_claim_announces :
    (book : LeasedNameBook) (claim : NameClaimSpool) (now : Hlc) (n : Text) (e : LeasedName)
    (rest : List (Text × LeasedName))
    → (ingest_claim book claim now).1 ≡ (n, e) ∷ rest
    → (rest ≡ [])
      × (n ≡ claim.name)
      × IsHostLabel n
      × (is_reserved_service_name n ≡ false)
      × (get (ingest_claim book claim now).0 n ≡ some e)
      × (e.owner_pubkey ≡ claim.pubkey)
      × (e.renewed_at ≡ now)
      × (e.first_claimed_at ≡ tenure (get book n) claim.pubkey now)
unfolding lease_of
ingest_claim_announces book claim now n e rest h = elim (ingest_claim_cases book claim now) [
  | inl d ↦ absurd (cc (d, h))
  | inr (ip, p, d) ↦
      let entry = lease_of book claim ip now in
      let (same_name, same, alone, kept) =
        announced_held book claim.name entry n e rest (rw d at h) in
      let (label, free) = name_ok-IsHostLabel claim.name p.good_name in
      (
        alone,
        same_name,
        rw same_name label,
        rw same_name free,
        rw (d, same_name, same) kept,
        rw same refl,
        rw same refl,
        rw (same, same_name) refl,
      )
]

-- A live name of another key that was first claimed before is not taken through the spool: the
-- book still holds its record.
pub ingest_claim_keeps_live :
    (book : LeasedNameBook) (claim : NameClaimSpool) (now : Hlc) (live : LeasedName)
    → get book claim.name ≡ some live
    → live.owner_pubkey ≢ claim.pubkey
    → hlc_cmp live.first_claimed_at now ≡ lt
    → is_expired live now.wall_clock ≡ false
    → (get (ingest_claim book claim now).0 claim.name ≡ some live)
      × ((ingest_claim book claim now).1 ≡ [])
unfolding lease_of is_expired apply_leased_name merge_leased_name cross_owner_winner announced
ingest_claim_keeps_live book claim now live held_now other earlier fresh =
    elim (ingest_claim_cases book claim now) [
      | inl d ↦ (rw d held_now, rw d refl)
      | inr (ip, p, d) ↦
          let entry = lease_of book claim ip now in
          let r = merge_leased_name (get book claim.name) entry in
          rw d (
            ground (
              arith,
              get-store book claim.name claim.name entry r,
              text_cmp-IsTotalOrder.cmp_self claim.name,
              text_cmp-IsTotalOrder.same_of_eq live.owner_pubkey claim.pubkey,
            ),
            ground (arith, text_cmp-IsTotalOrder.same_of_eq live.owner_pubkey claim.pubkey),
          )
    ]
