-- ===== src/Crdt/DeviceNames/Laws.antt =====
-- What normalize_device_host and device_service_key of crdt/service.rs give.
use lightning_mesh.Prelude.{
  ℕ, Bool, true, false, ◌&&◌, [], ◌∷◌, ◌++◌, ◌≤◌, length, map, reverse, reverse-reverse, List-cases,
  inl, inr, ◌≡◌, ◌≢◌, refl, arith,
}
use lightning_mesh.Order.{Text, nat_ord, text_ord, ==_of_eq, eq_of_==}
use lightning_mesh.Str.Trim.{Visible, trim_same}
use lightning_mesh.Str.{trim, lower_byte, starts_with, ends_with, all_bytes}
use lightning_mesh.Crdt.DeviceNames.{valid, is_host_byte, check_host, normalize_device_host}

-- A label of DNS (RFC 1035, with a digit also at the front).
pub record IsHostLabel (h : Text) : Type 0 where
  pub not_empty : h ≢ []
  pub short : length h ≤ 63
  pub host_bytes : all_bytes is_host_byte h ≡ true
  pub no_hyphen_start : starts_with b'-' h ≡ false
  pub no_hyphen_end : ends_with b'-' h ≡ false

length-map : (f : ℕ → ℕ) (s : Text) → length (map f s) ≡ length s
length-map f [] = refl
length-map f (c ∷ s) = ground (arith, length-map f s)

map-nil : (f : ℕ → ℕ) (s : Text) → map f s ≡ [] → s ≡ []
map-nil f [] h = refl
map-nil f (c ∷ s) h = cc

check_host-IsHostLabel : (s h : Text) → check_host s ≡ valid h → IsHostLabel h
unfolding check_host
check_host-IsHostLabel s h e = record {
  not_empty = λ n. ground (arith, map-nil lower_byte s, ==_of_eq s []);
  short = ground (arith, length-map lower_byte s);
  host_bytes = ground arith;
  no_hyphen_start = ground arith;
  no_hyphen_end = ground arith;
}

lower_byte-host_byte : (c : ℕ) → is_host_byte c ≡ true → lower_byte c ≡ c
lower_byte-host_byte c h = ground arith

map-lower_byte : (h : Text) → all_bytes is_host_byte h ≡ true → map lower_byte h ≡ h
unfolding all_bytes
map-lower_byte [] e = refl
map-lower_byte (c ∷ h) e = ground (arith, map-lower_byte h, lower_byte-host_byte c)

-- A label is left alone by the trimming and by the change of case.
host_byte-Visible : (c : ℕ) → is_host_byte c ≡ true → Visible c
host_byte-Visible c h = ground arith

all_bytes-append :
    (p : ℕ → Bool) (s t : Text) → all_bytes p (s ++ t) ≡ all_bytes p s && all_bytes p t
unfolding all_bytes
all_bytes-append p [] t = refl
all_bytes-append p (c ∷ s) t = ground (arith, all_bytes-append p s t)

all_bytes-reverse :
    (p : ℕ → Bool) (s : Text) → all_bytes p s ≡ true → all_bytes p (reverse s) ≡ true
unfolding all_bytes
all_bytes-reverse p [] h = refl
all_bytes-reverse p (c ∷ s) h =
    ground (arith, all_bytes-reverse p s, all_bytes-append p (reverse s) (c ∷ []))

last_host_byte :
    (s : Text) (d : ℕ) (r : Text)
    → all_bytes is_host_byte s ≡ true
    → reverse s ≡ d ∷ r
    → is_host_byte d ≡ true
unfolding all_bytes
last_host_byte s d r h e = ground (arith, all_bytes-reverse is_host_byte s)

trim-IsHostLabel : (h : Text) → IsHostLabel h → trim h ≡ h
unfolding all_bytes
trim-IsHostLabel [] w = elim (w.not_empty refl) [ ]
trim-IsHostLabel (c ∷ s) w = elim (List-cases (reverse (c ∷ s))) [
  | inl e ↦ ground (arith, reverse-reverse {0} (c ∷ s))
  | inr (d, r, e) ↦
      trim_same c d s r (host_byte-Visible c (ground arith))
        (host_byte-Visible d (last_host_byte (c ∷ s) d r w.host_bytes e)) e
]

host-normal : (h : Text) → IsHostLabel h → normalize_device_host h ≡ valid h
unfolding normalize_device_host check_host
host-normal h w =
    rw (normalize_device_host, trim-IsHostLabel h w, map-lower_byte h w.host_bytes)
      (ground (arith, eq_of_== h []))

-- A host name that is accepted is normalised to a label of DNS: 1 to 63 bytes, each a small letter, a
-- digit or a hyphen, with no hyphen at either end; and normalising the label again gives the same label.
pub normalize_device_host-IsHostLabel :
    (s h : Text)
    → normalize_device_host s ≡ valid h
    → IsHostLabel h × (normalize_device_host h ≡ valid h)
unfolding normalize_device_host
normalize_device_host-IsHostLabel s h e =
    let w = check_host-IsHostLabel (trim s) h e in (w, host-normal h w)
