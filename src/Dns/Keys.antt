-- ===== src/Dns/Keys.antt =====
-- The key of a name under the apex .mesh (book_key and is_well_known_name of dns_responder.rs).
use lightning_mesh.Prelude.{
  ℕ, zero, suc, false, some, List, [], ◌∷◌, ◌++◌, length, reverse, reverse-append, reverse-reverse,
  ◌≡◌, refl, ap, ◌∙◌, sym, arith,
}
use lightning_mesh.Order.{Text, bytes, ◌==◌, nat_ord, text_ord}
use lightning_mesh.Str.{
  strip_prefix, lower_byte, strip_suffix, strip_any, strip_all, trim_end_matches,
}
use lightning_mesh.Crdt.Merge.{lowercase, is_reserved_service_name}
use lightning_mesh.Dns.{book_key, is_well_known_name}

strip_prefix-append : (p s : Text) → strip_prefix p (p ++ s) ≡ some s
unfolding strip_prefix
strip_prefix-append [] s = refl
strip_prefix-append (c ∷ p) s = ground (arith, strip_prefix-append p s, nat_ord.cmp_self c)

pub strip_suffix-append : (s p : Text) → strip_suffix p (s ++ p) ≡ some s
unfolding strip_suffix
strip_suffix-append s p =
    rw (strip_suffix, reverse-append s p, strip_prefix-append (reverse p) (reverse s))
      (ap some (reverse-reverse s))

abbrev dot : List Text
dot = (b'.' ∷ []) ∷ []

no_dot : (fuel c : ℕ) (t : Text) → (b'.' == c) ≡ false → strip_all fuel dot (c ∷ t) ≡ c ∷ t
unfolding strip_all strip_any strip_prefix
no_dot zero c t n = refl
no_dot (suc fuel) c t n = ground arith

one_dot :
    (fuel c : ℕ) (t : Text) → (b'.' == c) ≡ false → strip_all (suc fuel) dot (b'.' ∷ c ∷ t) ≡ c ∷ t
unfolding strip_all strip_any strip_prefix
one_dot fuel c t n = no_dot fuel c t n

length-snoc : (s : Text) (c : ℕ) → length (s ++ c ∷ []) ≡ suc (length s)
length-snoc [] c = refl
length-snoc (d ∷ s) c = ap suc (length-snoc s c)

dots_kept :
    (s t : Text) (c : ℕ) → reverse s ≡ c ∷ t → (b'.' == c) ≡ false → trim_end_matches b'.' s ≡ s
unfolding trim_end_matches
dots_kept s t c e n = rw (e, no_dot (length s) c t n) (ap reverse (sym e) ∙ reverse-reverse s)

dot_dropped :
    (s t : Text) (c : ℕ)
    → reverse s ≡ c ∷ t
    → (b'.' == c) ≡ false
    → trim_end_matches b'.' (s ++ b'.' ∷ []) ≡ s
unfolding trim_end_matches
dot_dropped s t c e n =
    rw (reverse-append s (b'.' ∷ []), e, length-snoc s b'.', one_dot (length s) c t n)
      (ap reverse (sym e) ∙ reverse-reverse s)

reverse-mesh :
    (key : Text) → reverse (key ++ bytes ".mesh") ≡ b'h' ∷ b's' ∷ b'e' ∷ b'm' ∷ b'.' ∷ reverse key
reverse-mesh key = reverse-append key (bytes ".mesh")

-- A key is read back from its name, with or without the final dot.
pub book_key-name :
    (key : Text)
    → (book_key (key ++ bytes ".mesh") ≡ some key)
      × (book_key ((key ++ bytes ".mesh") ++ b'.' ∷ []) ≡ some key)
unfolding book_key
book_key-name key = (
  rw (dots_kept (key ++ bytes ".mesh") _ b'h' (reverse-mesh key) refl)
      (strip_suffix-append key (bytes ".mesh")),
  rw (dot_dropped (key ++ bytes ".mesh") _ b'h' (reverse-mesh key) refl)
      (strip_suffix-append key (bytes ".mesh")),
)

lowercase-append : (s t : Text) → lowercase (s ++ t) ≡ lowercase s ++ lowercase t
lowercase-append [] t = refl
lowercase-append (c ∷ s) t = ap (λ r. lower_byte c ∷ r) (lowercase-append s t)

-- A name is well known exactly when its key is a reserved name.
pub is_well_known_name-name :
    (key : Text)
    → (is_well_known_name (key ++ bytes ".mesh") ≡ is_reserved_service_name (lowercase key))
      × (is_well_known_name ((key ++ bytes ".mesh") ++ b'.' ∷ [])
          ≡ is_reserved_service_name (lowercase key))
unfolding is_well_known_name
is_well_known_name-name key =
    let name = key ++ bytes ".mesh" in
    let read : strip_suffix (bytes ".mesh") (lowercase name) ≡ some (lowercase key) =
      rw (lowercase-append key (bytes ".mesh"))
        (strip_suffix-append (lowercase key) (bytes ".mesh")) in
    (
      rw (is_well_known_name, dots_kept name _ b'h' (reverse-mesh key) refl, read) refl,
      rw (is_well_known_name, dot_dropped name _ b'h' (reverse-mesh key) refl, read) refl,
    )
