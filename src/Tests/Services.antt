-- ===== src/Tests/Services.antt =====
-- Owner-bound services at concrete inputs.
use lightning_mesh.Prelude.{
  true, false, none, some, List, [], ◌∷◌, ◌≡◌, ◌≢◌, ◌↔◌, ◌⊎◌, inl, inr, refl, ap, lt, gt, In,
}
use lightning_mesh.Order.{Text, text_ord, text_cmp, bytes}
use lightning_mesh.Book.{get, insert}
use lightning_mesh.Crdt.Hlc.{hlc_cmp}
use lightning_mesh.Crdt.Entries.{ServiceEntryV2, ServiceBookV2, ServiceTombstoneBook, LostNameMap}
use lightning_mesh.Crdt.Merge.{ok, reserved_service_name, is_reserved_service_name}
use lightning_mesh.Crdt.ServiceApply.{
  revived, rejected_by_tombstone, apply_service_publish_v2, apply_service_unpublish_v2,
}
use lightning_mesh.Crdt.ServiceApply.Laws.{publish-unpublish}
use lightning_mesh.Crdt.ServiceApply.Owners.{
  receive_publish, receive_all, receive_all_converges, reserved_name_revived,
  stale_unpublish_disagrees,
}
use lightning_mesh.Tests.Common.{stamp, service_of, alpha, beta, wiki, alpha_ne_beta}

abbrev ours : ServiceEntryV2
ours = service_of alpha 20 20

abbrev theirs : ServiceEntryV2
theirs = service_of beta 10 10

abbrev book : ServiceBookV2
book = (wiki, ours) ∷ []

abbrev no_services : ServiceBookV2
no_services = []

abbrev no_graves : ServiceTombstoneBook
no_graves = []

abbrev no_losses : LostNameMap
no_losses = []

get-ours : get book wiki ≡ some ours
unfolding get text_cmp
get-ours = refl

wiki_free : is_reserved_service_name wiki ≡ false
unfolding is_reserved_service_name text_cmp
wiki_free = refl

abbrev hello : Text
hello = bytes "Hello"

hello_reserved : is_reserved_service_name hello ≡ true
unfolding is_reserved_service_name text_cmp
hello_reserved = refl

nothing_served : (name : Text) → get no_services name ≡ none
unfolding get
nothing_served name = refl

nothing_buried : (name : Text) → get no_graves name ≡ none
unfolding get
nothing_buried name = refl

theirs_earlier : hlc_cmp (stamp 10) (stamp 20) ≡ lt
unfolding hlc_cmp
theirs_earlier = refl

newer : hlc_cmp (stamp 20) (stamp 15) ≡ gt
unfolding hlc_cmp
newer = refl

publish-unpublish_example :
    let (book', tombstones', _) = apply_service_unpublish_v2 book no_graves wiki alpha (stamp 30) in
    (alpha ≡ alpha
      → hlc_cmp (stamp 40) (stamp 30) ≡ gt
      → apply_service_publish_v2 book' tombstones' wiki (service_of alpha 20 40)
        ≡ ok (insert book' wiki (service_of alpha 20 40), revived))
    × ((alpha ≢ alpha) ⊎ (hlc_cmp (stamp 40) (stamp 30) ≢ gt)
        → (apply_service_publish_v2 book' tombstones' wiki (service_of alpha 20 40)
            ≡ ok (book', rejected_by_tombstone))
          × (get book' wiki ≡ none))
publish-unpublish_example =
    publish-unpublish book no_graves wiki (stamp 30) ours (service_of alpha 20 40) get-ours

reserved_name_revived_example :
    let (book', tombstones', _) =
      apply_service_unpublish_v2 no_services no_graves hello alpha (stamp 15) in
    (apply_service_publish_v2 book' tombstones' hello ours
      ≡ ok (insert no_services hello ours, revived))
    × (get (insert no_services hello ours) hello ≡ some ours)
    × (apply_service_publish_v2 no_services no_graves hello ours ≡ reserved_service_name hello)
reserved_name_revived_example =
    reserved_name_revived no_services no_graves hello (stamp 15) ours hello_reserved
      (nothing_served hello) (nothing_buried hello) newer

stale_unpublish_disagrees_example :
    (get
        (apply_service_unpublish_v2 (receive_publish [] wiki [] ours) [] wiki alpha (stamp 15)).0
        wiki
      ≡ none)
    × (get
          (receive_publish (apply_service_unpublish_v2 [] [] wiki alpha (stamp 15)).1 wiki [] ours)
          wiki
        ≡ some ours)
stale_unpublish_disagrees_example = stale_unpublish_disagrees wiki (stamp 15) ours wiki_free newer

abbrev arrivals : List ServiceEntryV2
arrivals = ours ∷ theirs ∷ []

abbrev arrivals_back : List ServiceEntryV2
arrivals_back = theirs ∷ ours ∷ theirs ∷ []

-- The two arrivals have different owners, so that entries of one owner are the same entry.
one_each :
    (a b : ServiceEntryV2)
    → In a arrivals
    → In b arrivals
    → a.owner_node_id ≡ b.owner_node_id
    → a ≡ b
one_each a b (inl ea) (inl eb) same = cc
one_each a b (inl ea) (inr (inl eb)) same = absurd (
    alpha_ne_beta (
      cc (
        ap (λ (e : ServiceEntryV2). e.owner_node_id) ea,
        ap (λ (e : ServiceEntryV2). e.owner_node_id) eb,
      )))
one_each a b (inr (inl ea)) (inl eb) same = absurd (
    alpha_ne_beta (
      cc (
        ap (λ (e : ServiceEntryV2). e.owner_node_id) ea,
        ap (λ (e : ServiceEntryV2). e.owner_node_id) eb,
      )))
one_each a b (inr (inl ea)) (inr (inl eb)) same = cc
one_each a b (inl ea) (inr (inr i)) same = elim i [ ]
one_each a b (inr (inl ea)) (inr (inr i)) same = elim i [ ]
one_each a b (inr (inr i)) ib same = elim i [ ]

same_arrivals : (e : ServiceEntryV2) → In e arrivals ↔ In e arrivals_back
same_arrivals e = (forth, back)
  where
    forth : In e arrivals → In e arrivals_back
    forth (inl a) = inr (inl a)
    forth (inr (inl b)) = inl b
    forth (inr (inr i)) = elim i [ ]

    back : In e arrivals_back → In e arrivals
    back (inl b) = inr (inl b)
    back (inr (inl a)) = inl a
    back (inr (inr (inl b))) = inr (inl b)
    back (inr (inr (inr i))) = elim i [ ]

receive_all_converges_example :
    get (receive_all no_graves wiki no_services arrivals) wiki
    ≡ get (receive_all no_graves wiki no_services arrivals_back) wiki
receive_all_converges_example =
    receive_all_converges no_graves no_graves wiki no_services no_services arrivals arrivals_back
      wiki_free (nothing_buried wiki) (nothing_buried wiki) (nothing_served wiki)
      (nothing_served wiki)
      (λ a b ia ib same. ap (λ (e : ServiceEntryV2). e.first_claimed_at) (one_each a b ia ib same))
      (λ a b ia ib same at. one_each a b ia ib same) same_arrivals
