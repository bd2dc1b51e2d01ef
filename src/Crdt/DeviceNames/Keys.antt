-- ===== src/Crdt/DeviceNames/Keys.antt =====
-- The keys of device names (device_service_key of crdt/service.rs): which devices share one.
use lightning_mesh.Prelude.{
  ℕ, true, false, [], ◌∷◌, ◌++◌, ◌/◌, ◌%◌, ◌^◌, ◌<◌, ◌≡◌, refl, ap, sym, ◌∙◌, arith, inl, inr, ◌⊎◌,
}
use lightning_mesh.Order.{Text, bytes, nat_ord, text_ord, eq_of_==}
use lightning_mesh.Str.{all_bytes}
use lightning_mesh.Crdt.Merge.{lowercase, is_reserved_service_name}
use lightning_mesh.Crdt.DeviceNames.{
  HostResult, DeviceHostError, valid, refused, is_host_byte, scope_letter, node_scope_label,
  normalize_device_host, device_service_key,
}
use lightning_mesh.Crdt.DeviceNames.Laws.{normalize_device_host-IsHostLabel}

-- The 20 bits of a node's digest that its scope shows.
abbrev pub scope_bits : ℕ → ℕ
scope_bits d = d / 2 ^ 4 % 2 ^ 20

-- A text before its first dot is determined.
dotted-inj :
    (g h s t : Text)
    → all_bytes is_host_byte g ≡ true
    → all_bytes is_host_byte h ≡ true
    → g ++ b'.' ∷ s ≡ h ++ b'.' ∷ t
    → (g ≡ h) × (s ≡ t)
unfolding all_bytes
dotted-inj [] [] s t a b e = (refl, cc)
dotted-inj [] (d ∷ h) s t a b e = ground arith
dotted-inj (c ∷ g) [] s t a b e = ground arith
dotted-inj (c ∷ g) (d ∷ h) s t a b e = ground (arith, dotted-inj g h s t)

scope_letter-inj : (i j : ℕ) → i < 32 → j < 32 → scope_letter i ≡ scope_letter j → i ≡ j
scope_letter-inj i j a b e = ground arith

scope_bits-inj :
    (x y : ℕ)
    → x / 2 ^ 19 % 2 ^ 5 ≡ y / 2 ^ 19 % 2 ^ 5
    → x / 2 ^ 14 % 2 ^ 5 ≡ y / 2 ^ 14 % 2 ^ 5
    → x / 2 ^ 9 % 2 ^ 5 ≡ y / 2 ^ 9 % 2 ^ 5
    → x / 2 ^ 4 % 2 ^ 5 ≡ y / 2 ^ 4 % 2 ^ 5
    → scope_bits x ≡ scope_bits y
scope_bits-inj x y a b c d = omega arith

four_equal :
    (a b c d a' b' c' d' : ℕ)
    → ◌≡◌ {A = Text} (a ∷ b ∷ c ∷ d ∷ []) (a' ∷ b' ∷ c' ∷ d' ∷ [])
    → (a ≡ a') × (b ≡ b') × (c ≡ c') × (d ≡ d')
four_equal a b c d a' b' c' d' e = (cc, cc, cc, cc)

node_scope_label-inj :
    (digest : Text → ℕ) (m n : Text)
    → node_scope_label digest m ≡ node_scope_label digest n
    → scope_bits (digest m) ≡ scope_bits (digest n)
unfolding node_scope_label
node_scope_label-inj digest m n e =
    let x = digest m in
    let y = digest n in
    let (p, q, r, t) = four_equal _ _ _ _ _ _ _ _ e in
    scope_bits-inj x y
      (scope_letter-inj (x / 2 ^ 19 % 2 ^ 5) (y / 2 ^ 19 % 2 ^ 5) (omega arith) (omega arith) p)
      (scope_letter-inj (x / 2 ^ 14 % 2 ^ 5) (y / 2 ^ 14 % 2 ^ 5) (omega arith) (omega arith) q)
      (scope_letter-inj (x / 2 ^ 9 % 2 ^ 5) (y / 2 ^ 9 % 2 ^ 5) (omega arith) (omega arith) r)
      (scope_letter-inj (x / 2 ^ 4 % 2 ^ 5) (y / 2 ^ 4 % 2 ^ 5) (omega arith) (omega arith) t)

pub HostResult-cases :
    (r : HostResult Text) → ((h : Text) × (r ≡ valid h)) ⊎ ((x : DeviceHostError) × (r ≡ refused x))
HostResult-cases (valid h) = inl (h, refl)
HostResult-cases (refused x) = inr (x, refl)

-- What a key is made of.
key_parts :
    (digest : Text → ℕ) (host node_id key : Text)
    → device_service_key digest host node_id ≡ valid key
    → (h : Text) × (normalize_device_host host ≡ valid h)
      × (key ≡ h ++ b'.' ∷ node_scope_label digest node_id)
unfolding device_service_key
key_parts digest host node_id key e = elim (HostResult-cases (normalize_device_host host)) [
  | inl (h, n) ↦ (h, n, ground arith)
  | inr (x, n) ↦ ground arith
]

-- Two devices get the same key only where their host names have the same normal form and the
-- digests of their nodes agree in the 20 bits of the scope.
pub device_service_key-inj :
    (digest : Text → ℕ) (g h m n key : Text)
    → device_service_key digest g m ≡ valid key
    → device_service_key digest h n ≡ valid key
    → (normalize_device_host g ≡ normalize_device_host h)
      × (scope_bits (digest m) ≡ scope_bits (digest n))
device_service_key-inj digest g h m n key a b =
    let (g', eg, kg) = key_parts digest g m key a in
    let (h', eh, kh) = key_parts digest h n key b in
    let wg = normalize_device_host-IsHostLabel g g' eg in
    let wh = normalize_device_host-IsHostLabel h h' eh in
    let same = dotted-inj g' h' _ _ wg.0.host_bytes wh.0.host_bytes (sym kg ∙ kh) in
    (eg ∙ ap (λ t. valid t) same.0 ∙ sym eh, node_scope_label-inj digest m n same.1)

-- No dot stands in a reserved name.
dotted-not_plain : (h s : Text) → all_bytes is_host_byte (lowercase (h ++ b'.' ∷ s)) ≡ false
unfolding all_bytes
dotted-not_plain [] s = refl
dotted-not_plain (c ∷ h) s = ground (arith, dotted-not_plain h s)

hello_plain : all_bytes is_host_byte (bytes "hello") ≡ true
unfolding all_bytes
hello_plain = refl

id_plain : all_bytes is_host_byte (bytes "id") ≡ true
unfolding all_bytes
id_plain = refl

-- The key of a device is no reserved name.
device_service_key_not_reserved :
    (digest : Text → ℕ) (host node_id key : Text)
    → device_service_key digest host node_id ≡ valid key
    → is_reserved_service_name key ≡ false
unfolding is_reserved_service_name
device_service_key_not_reserved digest host node_id key e =
    let (h, _, made) = key_parts digest host node_id key e in
    let plain : all_bytes is_host_byte (lowercase key) ≡ false =
      rw made (dotted-not_plain h (node_scope_label digest node_id)) in
    ground (
      arith,
      eq_of_== (bytes "hello") (lowercase key),
      eq_of_== (bytes "id") (lowercase key),
      hello_plain,
      id_plain,
    )
