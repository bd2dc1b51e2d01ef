-- ===== src/Daemon/Dispatch/Converge.antt =====
-- Convergence of the lanes in which the newer entry wins: users, services of the first version, node
-- names and peer addresses. A lane is a book of the node with the entries that a message offers it.
pub mod Lanes
use lightning_mesh.Prelude.{
  ℕ, Option, none, some, List, [], ◌∷◌, ◌≡◌, ◌≢◌, ◌↔◌, ◌⊎◌, inl, inr, refl, ap, sym, ◌∙◌, subst,
  arith, In, eq, Ordering, Option-cases,
}
use lightning_mesh.Order.{Text, text_ord}
use lightning_mesh.Book.{Book, get}
use lightning_mesh.Net.{Ipnet}
use lightning_mesh.Crdt.Hlc.{Hlc, hlc_cmp, hlc_cmp-IsTotalOrder}
use lightning_mesh.Crdt.Register.{
  IsRanking, IsRanking-by, offer, settle, AreDistinct, settle_converges,
}
use lightning_mesh.Crdt.Gossip.{GossipMessage}
use lightning_mesh.Daemon.Dispatch.{
  Arrival, Node, Step, running, exited, dispatch, deliver, deliver_all,
}
use lightning_mesh.Daemon.Dispatch.Files.{node_of, Step-cases, dispatch-self_id}

module _ {V : Type 0} where
  -- An entry before a list, if there is one.
  abbrev pub cons_maybe : Option V → List V → List V
  cons_maybe none vs = vs
  cons_maybe (some v) vs = v ∷ vs

  In-cons_maybe :
      (e : V) (o : Option V) (vs : List V) → In e (cons_maybe o vs) → (o ≡ some e) ⊎ In e vs
  In-cons_maybe e none vs h = inr h
  In-cons_maybe e (some v) vs (inl p) = inl (ap some (sym p))
  In-cons_maybe e (some v) vs (inr h) = inr h

  In-cons_later : (e : V) (o : Option V) (vs : List V) → In e vs → In e (cons_maybe o vs)
  In-cons_later e none vs h = h
  In-cons_later e (some v) vs h = inr h

module _ (i : Ipnet) where
  abbrev pub Msg : Type 0
  Msg = GossipMessage i.IpNet

  abbrev pub offer_maybe : {V : Type 0} → (V → Hlc) → Option V → Option V → Option V
  offer_maybe stamp held none = held
  offer_maybe stamp held (some e) = offer (λ a b. hlc_cmp (stamp a) (stamp b)) held e

  -- A lane takes from each message what it offers at a key, and nothing else changes it.
  pub record Lane (V : Type 0) : Type 0 where
    pub book : Node i → Book Text V
    pub stamp : V → Hlc
    -- What a message offers at a key to the node of the given id.
    pub offered : Text → Text → Msg → Option V
    pub step :
        (n : Node i) (now : Arrival) (msg : Msg) (k : Text)
        → get (book (node_of i (dispatch i n now msg))) k
          ≡ offer_maybe stamp (get (book n) k) (offered n.self_id k msg)
    -- Nodes of other ids than the key are offered the same.
    pub impartial :
        (self self' k : Text) (msg : Msg)
        → k ≢ self
        → k ≢ self'
        → offered self k msg ≡ offered self' k msg

  -- The entries that the messages offer at a key, in order.
  abbrev pub offers : {V : Type 0} → Lane V → Text → Text → List (Arrival × Msg) → List V
  offers l self k [] = []
  offers l self k (m ∷ ms) = cons_maybe (l.offered self k m.1) (offers l self k ms)

module _ (i : Ipnet) {V : Type 0} (l : Lane i V) where
  In-offers :
      (self k : Text) (e : V) (ms : List (Arrival × Msg i))
      → In e (offers i l self k ms)
      → (m : Arrival × Msg i) × In m ms × (l.offered self k m.1 ≡ some e)
  In-offers self k e [] h = elim h [ ]
  In-offers self k e (m ∷ ms) h = elim (In-cons_maybe e (l.offered self k m.1) _ h) [
    | inl now ↦ (m, inl refl, now)
    | inr later ↦ let (x, there, o) = In-offers self k e ms later in (x, inr there, o)
  ]

  offers-In :
      (self k : Text) (e : V) (m : Arrival × Msg i) (ms : List (Arrival × Msg i))
      → In m ms
      → l.offered self k m.1 ≡ some e
      → In e (offers i l self k ms)
  offers-In self k e m [] h o = elim h [ ]
  offers-In self k e m (x ∷ ms) (inl same) o =
      rw (subst (λ (y : Arrival × Msg i). l.offered self k y.1 ≡ some e) same o) (inl refl)
  offers-In self k e m (x ∷ ms) (inr there) o =
      In-cons_later e (l.offered self k x.1) _ (offers-In self k e m ms there o)

  -- The same messages offer the same entries, to any two nodes of other ids than the key.
  offers_same :
      (self self' k : Text) (ms ms' : List (Arrival × Msg i))
      → k ≢ self
      → k ≢ self'
      → ((msg : Msg i)
          → ((t : Arrival) × In (t, msg) ms)
          → (t : Arrival) × In {A = Arrival × Msg i} (t, msg) ms')
      → (e : V) → In e (offers i l self k ms)
      → In e (offers i l self' k ms')
  offers_same self self' k ms ms' ne ne' same e h =
      let (m, there, o) = In-offers self k e ms h in
      let (t', there') = same m.1 (m.0, there) in
      offers-In self' k e (t', m.1) ms' there' (sym (l.impartial self self' k m.1 ne ne') ∙ o)

  rank : V → V → Ordering
  rank a b = hlc_cmp (l.stamp a) (l.stamp b)

  settle-cons_maybe :
      (held m : Option V) (vs : List V)
      → settle rank held (cons_maybe m vs) ≡ settle rank (offer_maybe i l.stamp held m) vs
  unfolding settle rank
  settle-cons_maybe held none vs = refl
  settle-cons_maybe held (some e) vs = refl

  deliver_all-exited :
      (ms : List (Arrival × Msg i)) (n : Node i) → deliver_all i (exited n) ms ≡ exited n
  unfolding deliver_all deliver
  deliver_all-exited [] n = refl
  deliver_all-exited (m ∷ ms) n = deliver_all-exited ms n

  -- While the process lives, a lane holds at a key what its register makes of the offers.
  get-deliver_all :
      (ms : List (Arrival × Msg i)) (n n' : Node i) (k : Text)
      → deliver_all i (running n) ms ≡ running n'
      → get (l.book n') k ≡ settle rank (get (l.book n) k) (offers i l n.self_id k ms)
  unfolding deliver_all deliver
  get-deliver_all [] n n' k done =
      unfold settle in ap (λ (s : Step i). get (l.book (node_of i s)) k) (sym done)
  get-deliver_all ((now, msg) ∷ ms) n n' k done = elim (Step-cases i (dispatch i n now msg)) [
    | inl (next, on) ↦
        let self : next.self_id ≡ n.self_id =
          ap (λ (s : Step i). (node_of i s).self_id) (sym on) ∙ dispatch-self_id i n now msg in
        let held =
          ap (λ (s : Step i). get (l.book (node_of i s)) k) (sym on) ∙ l.step n now msg k in
        get-deliver_all ms next n' k (rw on at done)
        ∙ ap (λ t. settle rank (get (l.book next) k) (offers i l t k ms)) self
        ∙ ap (λ h. settle rank h (offers i l n.self_id k ms)) held
        ∙ sym (settle-cons_maybe (get (l.book n) k) (l.offered n.self_id k msg) _)
    | inr (next, off) ↦ absurd (ended ms next n' (rw off at done))
  ]
    where
      ended :
          (ms : List (Arrival × Msg i)) (a b : Node i) → deliver_all i (exited a) ms ≡ running b → ⊥
      ended ms a b h = cc (deliver_all-exited ms a)

  -- Of a lane (the users, the services of the first version, the node names or the peer addresses): two
  -- nodes that live on and start with nothing under a key that is the id of neither receive the
  -- same messages, each in its own order, at its own times, as often as it happens, and whichever of its writes of
  -- files succeed. If two entries
  -- offered under the key with the same stamp are the same entry, both nodes end with the same entry
  -- under it.
  pub lane_converges :
      (a a' b b' : Node i) (ms ms' : List (Arrival × Msg i)) (k : Text)
      → deliver_all i (running a) ms ≡ running a'
      → deliver_all i (running b) ms' ≡ running b'
      → get (l.book a) k ≡ none
      → get (l.book b) k ≡ none
      → k ≢ a.self_id
      → k ≢ b.self_id
      → ((msg : Msg i)
          → ((t : Arrival) × In {A = Arrival × Msg i} (t, msg) ms)
            ↔ ((t : Arrival) × In {A = Arrival × Msg i} (t, msg) ms'))
      → ((e e' : V)
          → In e (offers i l a.self_id k ms)
          → In e' (offers i l a.self_id k ms)
          → l.stamp e ≡ l.stamp e'
          → e ≡ e')
      → get (l.book a') k ≡ get (l.book b') k
  lane_converges a a' b b' ms ms' k ra rb va vb na nb same distinct =
      get-deliver_all ms a a' k ra
      ∙ ap (λ h. settle rank h (offers i l a.self_id k ms)) va
      ∙ settle_converges ranked _ _ apart (λ e. (
        offers_same a.self_id b.self_id k ms ms' na nb (λ msg. (same msg).0) e,
        offers_same b.self_id a.self_id k ms' ms nb na (λ msg. (same msg).1) e,
      ))
      ∙ sym
          (get-deliver_all ms' b b' k rb ∙ ap (λ h. settle rank h (offers i l b.self_id k ms')) vb)
    where
      ranked : IsRanking rank
      ranked = unfold rank in IsRanking-by l.stamp hlc_cmp-IsTotalOrder

      apart : AreDistinct rank (offers i l a.self_id k ms)
      apart x y hx hy e =
          distinct x y hx hy
            (hlc_cmp-IsTotalOrder.same_of_eq (l.stamp x) (l.stamp y) (unfold rank in e))
