-- ===== src/Bootstrap/Roster.antt =====
-- The static roster of peers (roster.rs). A carriage return at the end of a line is taken off by the trim of the line, and
-- the empty line that `split` gives after the last line feed is skipped.
use lightning_mesh.Prelude.{
  ℕ, Bool, true, false, ◌||◌, Option, none, some, List, [], ◌∷◌, ◌++◌, ◌≡◌, ◌≢◌, ◌⊎◌, refl, subst,
  inl, inr, suc, arith, if◌then◌else◌, Bool-cases,
}
use lightning_mesh.Order.{Text, ◌==◌, nat_ord, text_ord, eq_of_==, ==_refl, ==_of_eq}
use lightning_mesh.Str.{trim, split, starts_with}

pub record PeerEntry : Type 0 where
  pub token : Text
  pub label : Option Text

pub data RosterError : Type 0 where
  invalid_token : ℕ → Text → RosterError

-- `char::is_ascii_whitespace`
abbrev pub is_ascii_white_space : ℕ → Bool
is_ascii_white_space c = c == 9 || c == 10 || c == 12 || c == 13 || c == 32

-- `splitn` of two pieces: the text before the first white space, and the text after it.
unfoldable pub split_token : Text → Text × Option Text
split_token [] = ([], none)
split_token (c ∷ s) =
    let (token, rest) = split_token s in
    if is_ascii_white_space c then ([], some s) else (c ∷ token, rest)

abbrev pub label_of : Option Text → Option Text
label_of none = none
label_of (some s) = elim (trim s) [ [] ↦ none | c ∷ cs ↦ some (c ∷ cs) ]

abbrev pub has_token : Text → List PeerEntry → Bool
has_token token [] = false
has_token token (p ∷ ps) = p.token == token || has_token token ps

abbrev pub is_skipped : Text → Bool
is_skipped [] = true
is_skipped (c ∷ s) = starts_with b'#' (c ∷ s)

-- One line. The tokens seen are those of the peers that were taken.
unfoldable pub take_line : ℕ → List PeerEntry → Text → RosterError ⊎ List PeerEntry
unfolding trim split_token
take_line n peers raw =
    let line = trim raw in
    let (token, label) = split_token line in
    if is_skipped line
    then inr peers
    else if token == []
    then inl (invalid_token n token)
    else if has_token token peers
    then inr peers
    else inr (peers ++ record { token = token; label = label_of label } ∷ [])

-- The lines from a number on.
unfoldable pub load_lines : ℕ → List PeerEntry → List Text → RosterError ⊎ List PeerEntry
unfolding take_line
load_lines n peers [] = inr peers
load_lines n peers (raw ∷ rest) = elim (take_line n peers raw) [
  | inl e ↦ inl e
  | inr taken ↦ load_lines (suc n) taken rest
]

unfoldable pub load_from_str : Text → RosterError ⊎ List PeerEntry
unfolding load_lines split
load_from_str contents = load_lines 1 [] (split b'\n' contents)

-- No two peers have the same token, and none has the empty one.
abbrev pub HasTokens : List PeerEntry → Type 0
HasTokens [] = Unit
HasTokens (p ∷ ps) = (p.token ≢ []) × (has_token p.token ps ≡ false) × HasTokens ps

has_token-append :
    (token : Text) (ps qs : List PeerEntry)
    → has_token token (ps ++ qs) ≡ (has_token token ps || has_token token qs)
has_token-append token [] qs = refl
has_token-append token (p ∷ ps) qs = ground (arith, has_token-append token ps qs)

HasTokens-append :
    (ps : List PeerEntry) (p : PeerEntry)
    → HasTokens ps
    → p.token ≢ []
    → has_token p.token ps ≡ false
    → HasTokens (ps ++ p ∷ [])
HasTokens-append [] p h e f = (e, refl, _)
HasTokens-append (q ∷ ps) p (n, a, h) e f = (
  n,
  ground (arith, has_token-append q.token ps (p ∷ []), eq_of_== p.token q.token, ==_refl p.token),
  HasTokens-append ps p h e (ground arith),
)

take_cases :
    (n : ℕ) (peers : List PeerEntry) (raw : Text)
    → ((x : RosterError) × (take_line n peers raw ≡ inl x))
      ⊎ ((taken : List PeerEntry) × (take_line n peers raw ≡ inr taken))
take_cases n peers raw = either (take_line n peers raw)
  where
    either :
        (s : RosterError ⊎ List PeerEntry)
        → ((x : RosterError) × (s ≡ inl x)) ⊎ ((taken : List PeerEntry) × (s ≡ inr taken))
    either (inl x) = inl (x, refl)
    either (inr t) = inr (t, refl)

take_line-HasTokens :
    (n : ℕ) (peers taken : List PeerEntry) (raw : Text)
    → HasTokens peers
    → take_line n peers raw ≡ inr taken
    → HasTokens taken
unfolding take_line
take_line-HasTokens n peers taken raw h e =
    let token = (split_token (trim raw)).0 in
    elim (Bool-cases (is_skipped (trim raw))) [
      | inl s ↦ subst HasTokens (ground arith) h
      | inr s ↦ elim (Bool-cases (token == [])) [
        | inl t ↦ ground arith
        | inr t ↦ elim (Bool-cases (has_token token peers)) [
          | inl k ↦ subst HasTokens (ground arith) h
          | inr k ↦ subst HasTokens (ground arith) (
              HasTokens-append peers
                (record { token = token; label = label_of (split_token (trim raw)).1 }) h
                (λ z. ground (arith, ==_of_eq token [] z)) k)
        ]
      ]
    ]

-- Where load_from_str answers with peers, no two have the same token and none has the empty one.
load_from_str-HasTokens :
    (contents : Text) (ps : List PeerEntry) → load_from_str contents ≡ inr ps → HasTokens ps
unfolding load_from_str
load_from_str-HasTokens contents ps = loop 1 [] (split b'\n' contents) _
  where
    loop :
        (n : ℕ) (peers : List PeerEntry) (lines : List Text)
        → HasTokens peers
        → load_lines n peers lines ≡ inr ps
        → HasTokens ps
    loop n peers [] h e = subst HasTokens (ground arith) h
    loop n peers (raw ∷ rest) h e = elim (take_cases n peers raw) [
      | inl (x, t) ↦ ground arith
      | inr (taken, t) ↦
          loop (suc n) taken rest (take_line-HasTokens n peers taken raw h t) (ground arith)
    ]
