-- ===== src/Names/RoundTrip.antt =====
-- Names and addresses are read back as they were written.
use adaptiveservice.Prelude.{
  ℕ, ◌==◌, ◌≡◌, refl, ◌↔◌, Bool, true, false, some, List, [], ◌∷◌, ◌++◌, Text, codes, text_eq,
  trim_suffix, has_byte, split, has_suffix-append, append_cut, take-append, append_assoc,
  Bool-cases, inl, inr, arith,
}
use adaptiveservice.Names.{
  underscore, slash, sock, uds_registry_dir, to_publisher_service_name, two_parts,
  from_publisher_service_name, to_uds_addr, from_uds_addr, trim_slashes, last_of, base,
  check_name_convention,
}

pub split_none : (c : ℕ) (s : Text) → has_byte c s ≡ false → split c s ≡ (s, [])
unfolding has_byte split
split_none c [] h = refl
split_none c (x ∷ xs) h = ground (arith, split_none c xs)

pub split-append :
    (c : ℕ) (p s : Text)
    → has_byte c p ≡ false
    → split c (p ++ (c ∷ s)) ≡ (p, (split c s).0 ∷ (split c s).1)
unfolding has_byte split
split-append c [] s h = ground arith
split-append c (x ∷ p) s h = ground (arith, split-append c p s)

-- Of a text with one part only: that part, and the separator does not occur.
split_one : (c : ℕ) (s : Text) → (split c s).1 ≡ [] → (s ≡ (split c s).0) × (has_byte c s ≡ false)
unfolding has_byte split
split_one c [] h = (refl, refl)
split_one c (x ∷ xs) h = ground (arith, split_one c xs)

split_first : (c : ℕ) (s : Text) → has_byte c (split c s).0 ≡ false
unfolding has_byte split
split_first c [] = refl
split_first c (x ∷ xs) = ground (arith, split_first c xs)

split_two :
    (c : ℕ) (s q : Text)
    → (split c s).1 ≡ q ∷ []
    → (s ≡ (split c s).0 ++ (c ∷ q)) × (has_byte c q ≡ false)
unfolding has_byte split
split_two c [] q h = cc
split_two c (x ∷ xs) q h = ground (arith, split_two c xs q, split_one c xs)

two_parts→ :
    (x : Text) (xs : List Text) {p s : Text}
    → two_parts (x, xs) ≡ some (p, s)
    → (x ≡ p) × (xs ≡ s ∷ [])
unfolding two_parts
two_parts→ x [] h = cc
two_parts→ x (y ∷ []) h = ground arith
two_parts→ x (y ∷ z ∷ zs) h = cc

pub from-to_publisher_service_name :
    (p s : Text)
    → has_byte underscore p ≡ false
    → has_byte underscore s ≡ false
    → from_publisher_service_name (to_publisher_service_name p s) ≡ some (p, s)
unfolding from_publisher_service_name to_publisher_service_name
from-to_publisher_service_name p s hp hs =
    rw (split-append underscore p s hp, split_none underscore s hs)

-- fromPublisherServiceName returns a publisher and a service exactly for the name that
-- toPublisherServiceName makes of them when neither holds a "_"; on any other name it panics.
pub from_publisher_service_name_iff :
    (n p s : Text)
    → (from_publisher_service_name n ≡ some (p, s)) ↔ (
        (n ≡ to_publisher_service_name p s)
        × (has_byte underscore p ≡ false)
        × (has_byte underscore s ≡ false))
unfolding from_publisher_service_name to_publisher_service_name
from_publisher_service_name_iff n p s = (
  λ h.
      let (ep, eq) = two_parts→ (split underscore n).0 (split underscore n).1 h in
      let (whole, free) = split_two underscore n s eq in
      (rw (← ep) whole, rw (← ep) (split_first underscore n), free),
  λ h. rw (h.0) (from-to_publisher_service_name p s h.1 h.2),
)

trim_slashes-append :
    (xs : Text) (y : ℕ) (ys : Text)
    → trim_slashes (y ∷ ys) ≡ y ∷ ys
    → trim_slashes (xs ++ (y ∷ ys)) ≡ xs ++ (y ∷ ys)
unfolding trim_slashes text_eq
trim_slashes-append [] y ys h = h
trim_slashes-append (x ∷ []) y ys h = ground (arith, trim_slashes-append [] y ys h)
trim_slashes-append (x ∷ z ∷ xs) y ys h = ground (arith, trim_slashes-append (z ∷ xs) y ys h)

split_last :
    (x y : Text)
    → has_byte slash y ≡ false
    → (r : Text) × (rs : List Text) × ((split slash (x ++ (slash ∷ y))).1 ≡ r ∷ rs)
      × (last_of r rs ≡ y)
unfolding last_of split
split_last [] y h = ((split slash y).0, (split slash y).1, refl, rw (split_none slash y h))
split_last (c ∷ x) y h =
    let (r, rs, e, f) = split_last x y h in
    elim (Bool-cases (c == slash)) [
      | inl g ↦ ((split slash (x ++ (slash ∷ y))).0, r ∷ rs, rw (g, e), f)
      | inr g ↦ (r, rs, rw (g, e), f)
    ]

pub not_empty : (dir file : Text) (c : ℕ) → text_eq (dir ++ (c ∷ file)) [] ≡ false
unfolding text_eq
not_empty [] file c = refl
not_empty (x ∷ dir) file c = refl

-- The last element of a path that ends in a name which holds no "/" and is not empty.
base-append :
    (dir file : Text)
    → has_byte slash file ≡ false
    → trim_slashes (slash ∷ file) ≡ slash ∷ file
    → base (dir ++ (slash ∷ file)) ≡ file
unfolding base
base-append dir file h t =
    let (r, rs, e, f) = split_last dir file h in
    rw (not_empty dir file slash, trim_slashes-append dir slash file t, not_empty dir file slash, e)
      f

pub has_byte-append :
    (c : ℕ) (x y : Text) → has_byte c x ≡ false → has_byte c y ≡ false → has_byte c (x ++ y) ≡ false
unfolding has_byte
has_byte-append c [] y h k = k
has_byte-append c (a ∷ x) y h k = ground (arith, has_byte-append c x y)

pub check_name_convention→ :
    (n : Text)
    → check_name_convention n ≡ true
    → (has_byte underscore n ≡ false) × (has_byte slash n ≡ false)
unfolding check_name_convention has_byte
check_name_convention→ [] h = (refl, refl)
check_name_convention→ (c ∷ cs) h = ground (arith, check_name_convention→ cs)

-- Every address is a folder, a "/" and the file of the socket.
to_uds_addr_dir :
    (p s : Text) (named : Bool) (id : Text)
    → (dir : Text) × (to_uds_addr p s named id
        ≡ dir ++ (slash ∷ (to_publisher_service_name p s ++ sock)))
unfolding to_uds_addr
to_uds_addr_dir p s false id = (codes "@adaptiveservice", refl)
to_uds_addr_dir p s true id = elim (Bool-cases (text_eq id [])) [
  | inl e ↦ (codes "/tmp/adaptiveservice/sockets", rw e)
  | inr e ↦ (uds_registry_dir ++ id, rw e (simp append_assoc))
]

sock_file :
    (p s : Text)
    → has_byte slash p ≡ false
    → has_byte slash s ≡ false
    → has_byte slash (to_publisher_service_name p s ++ sock) ≡ false
unfolding to_publisher_service_name has_byte
sock_file p s hp hs =
    has_byte-append slash (p ++ (underscore ∷ s)) sock
      (has_byte-append slash p (underscore ∷ s) hp hs) refl

trim_sock : (n : Text) → trim_slashes (slash ∷ (n ++ sock)) ≡ slash ∷ (n ++ sock)
trim_sock n =
    trim_slashes-append (slash ∷ n) b'.' (codes "sock") (unfold trim_slashes text_eq in refl)

trim_suffix-append : (n e : Text) → trim_suffix (n ++ e) e ≡ n
unfolding trim_suffix
trim_suffix-append n e = rw (has_suffix-append n e, append_cut n e) (take-append n e)

-- fromUDSAddr reads the publisher and the service back from the address that toUDSAddr makes of
-- two names that keep the name convention, abstract or in the folder of any provider.
pub from-to_uds_addr :
    (p s : Text) (named : Bool) (id : Text)
    → check_name_convention p ≡ true
    → check_name_convention s ≡ true
    → from_uds_addr (to_uds_addr p s named id) ≡ some (p, s)
unfolding from_uds_addr
from-to_uds_addr p s named id hp hs =
    let (dir, e) = to_uds_addr_dir p s named id in
    let (pu, psl) = check_name_convention→ p hp in
    let (su, ssl) = check_name_convention→ s hs in
    rw (e, base-append dir _ (sock_file p s psl ssl) (trim_sock _), trim_suffix-append)
      (from-to_publisher_service_name p s pu su)
