-- ===== src/Tests/Names.antt =====
-- Leased names at concrete inputs.
use lightning_mesh.Prelude.{ℕ, some, List, [], ◌∷◌, ◌≡◌, ◌≢◌, refl, ◌≤◌, ◌<◌, arith, ap, lt}
use lightning_mesh.Order.{Text, text_ord, text_cmp}
use lightning_mesh.Book.{get}
use lightning_mesh.Crdt.Hlc.{Hlc, hlc_cmp}
use lightning_mesh.Crdt.Entries.{LeasedName}
use lightning_mesh.Crdt.LeasedName.{lease_expiry_ms, apply_leased_name}
use lightning_mesh.Crdt.LeasedName.Laws.{apply_leased_name_contest}
use lightning_mesh.Crdt.LeasedName.Ties.{
  after_two, after_three, tied_claims_disagree, cyclic_claims_disagree,
}
use lightning_mesh.Tests.Common.{
  stamp, name_of, alpha, beta, gamma, wiki, alpha_ne_beta, beta_ne_gamma, alpha_ne_gamma,
}

abbrev a0 : LeasedName
a0 = name_of alpha 100 200

abbrev b0 : LeasedName
b0 = name_of beta 300 400

-- A claim made after the lease of `a0` and within that of `late_b`.
abbrev late_b : LeasedName
late_b = name_of beta 300 100000000000

abbrev late_c : LeasedName
late_c = name_of gamma 90000000000 90000000000

earlier : hlc_cmp (stamp 100) (stamp 300) ≡ lt
unfolding hlc_cmp
earlier = refl

earlier_late : hlc_cmp (stamp 300) (stamp 90000000000) ≡ lt
unfolding hlc_cmp
earlier_late = refl

stamps_differ : stamp 100 ≢ stamp 300
stamps_differ e = omega (arith, ap (λ (h : Hlc). h.wall_clock) e)

live : 300 ≤ lease_expiry_ms a0
unfolding lease_expiry_ms
live = omega arith

lapsed : lease_expiry_ms a0 < 90000000000
unfolding lease_expiry_ms
lapsed = omega arith

late_live : 90000000000 ≤ lease_expiry_ms late_b
unfolding lease_expiry_ms
late_live = omega arith

tied_claims_disagree_example :
    (get (after_two wiki a0 (name_of beta 100 400)) wiki ≡ some a0)
    × (get (after_two wiki (name_of beta 100 400) a0) wiki ≡ some (name_of beta 100 400))
tied_claims_disagree_example =
    tied_claims_disagree wiki a0 (name_of beta 100 400) alpha_ne_beta refl (omega arith)
      (omega arith) (omega arith)

cyclic_claims_disagree_example :
    (get (after_three wiki a0 late_b late_c) wiki ≡ some late_c)
    × (get (after_three wiki late_b late_c a0) wiki ≡ some a0)
cyclic_claims_disagree_example =
    cyclic_claims_disagree wiki a0 late_b late_c alpha_ne_beta beta_ne_gamma alpha_ne_gamma earlier
      earlier_late live late_live lapsed

abbrev held : List (List ℕ × LeasedName)
held = (wiki, a0) ∷ []

get-held : get held wiki ≡ some a0
unfolding get text_cmp
get-held = refl

apply_leased_name_contest_example :
    (300 ≤ lease_expiry_ms a0 → get (apply_leased_name held wiki b0).0 wiki ≡ some a0)
    × (lease_expiry_ms a0 < 300 → get (apply_leased_name held wiki b0).0 wiki ≡ some b0)
    × ((q : Text) → wiki ≢ q → get (apply_leased_name held wiki b0).0 q ≡ get held q)
apply_leased_name_contest_example =
    apply_leased_name_contest held wiki a0 b0 get-held alpha_ne_beta earlier
