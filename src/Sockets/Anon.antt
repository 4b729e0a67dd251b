-- ===== src/Sockets/Anon.antt =====
-- Which anonymous sockets a lookup reports.
use adaptiveservice.Prelude.{
  ◌⊎◌, subst, map, Distinct, ◌≢◌, ◌≡◌, refl, sym, ap, inl, inr, true, false, some, List, [], ◌∷◌,
  Text, text_eq, text_eq_iff, Elem, split, Bool-cases,
}
use adaptiveservice.Wildcard.{wildcard_match}
use adaptiveservice.Wildcard.Glob.{Glob}
use adaptiveservice.Wildcard.Correct.{wildcard_match-Glob}
use adaptiveservice.Names.{to_publisher_service_name}
use adaptiveservice.Client.{has_key}
use adaptiveservice.Sockets.{anon_sockets, matching_anon, ended_lines, lookup_service_uds_anon}

abbrev pub addrs : List (Text × Text) → List Text
addrs = map (λ (s : Text × Text). s.0)

abbrev pub names : List (Text × Text) → List Text
names = map (λ (s : Text × Text). s.1)

-- The sockets reported, with the names seen before: those whose names the pattern fits, one of a name.
pub record Reports (t_name : Text) (sockets : List (Text × Text)) (seen : List Text)
    (found : List Text) : Type 0 where
  pub chosen : List (Text × Text)
  pub listed : addrs chosen ≡ found
  pub distinct : Distinct (names chosen)
  pub sound :
      (addr name : Text)
      → Elem (addr, name) chosen
      → Elem (addr, name) sockets × Glob t_name name × (has_key name seen ≡ false)
  pub complete :
      (addr name : Text)
      → Elem (addr, name) sockets
      → Glob t_name name
      → has_key name seen ≡ false
      → Elem name (names chosen)

Elem-names :
    (name : Text) (sockets : List (Text × Text))
    → Elem name (names sockets)
    → (addr : Text) × Elem (addr, name) sockets
Elem-names name [] z = absurd z
Elem-names name ((a, n) ∷ sockets) (inl e) = (a, inl (ap (λ k. (a, k)) e))
Elem-names name ((a, n) ∷ sockets) (inr z) = let (b, m) = Elem-names name sockets z in (b, inr m)

has_key-cons :
    (name n : Text) (seen : List Text)
    → has_key name (n ∷ seen) ≡ false
    → (name ≢ n) × (has_key name seen ≡ false)
unfolding has_key
has_key-cons name n seen h = elim (Bool-cases (text_eq name n)) [
  | inl t ↦ cc (rw t at h)
  | inr f ↦ ((λ e. let t = (text_eq_iff name n).1 e in cc), rw f at h)
]

has_key-other :
    (name n : Text) (seen : List Text)
    → name ≢ n
    → has_key name seen ≡ false
    → has_key name (n ∷ seen) ≡ false
unfolding has_key
has_key-other name n seen ne h = elim (Bool-cases (text_eq name n)) [
  | inl t ↦ absurd (ne ((text_eq_iff name n).0 t))
  | inr f ↦ rw (f, h) refl
]

differs : (name n : Text) → (name ≡ n) ⊎ (name ≢ n)
differs name n = elim (Bool-cases (text_eq name n)) [
  | inl t ↦ inl ((text_eq_iff name n).0 t)
  | inr f ↦ inr (λ e. let t = (text_eq_iff name n).1 e in cc)
]

module _ (t_name a n : Text) (sockets : List (Text × Text)) (seen : List Text) where
  seen-Reports :
      (found : List Text)
      → has_key n seen ≡ true
      → Reports t_name sockets seen found
      → Reports t_name ((a, n) ∷ sockets) seen found
  seen-Reports found old r = record {
    chosen = r.chosen;
    listed = r.listed;
    distinct = r.distinct;
    sound = λ addr name z. let (m, g, u) = r.sound addr name z in (inr m, g, u);
    complete = λ addr name z g u. elim z [
      | inl e ↦ let same : name ≡ n = ap (λ p. p.1) e in cc (u, ap (λ k. has_key k seen) same, old)
      | inr m ↦ r.complete addr name m g u
    ];
  }

  passed-Reports :
      (found : List Text)
      → wildcard_match t_name n ≡ false
      → Reports t_name sockets (n ∷ seen) found
      → Reports t_name ((a, n) ∷ sockets) seen found
  passed-Reports found unfit r = record {
    chosen = r.chosen;
    listed = r.listed;
    distinct = r.distinct;
    sound = λ addr name z.
        let (m, g, u) = r.sound addr name z in (inr m, g, (has_key-cons name n seen u).1);
    complete = λ addr name z g u. elim (differs name n) [
      | inl e ↦ let t = (wildcard_match-Glob t_name n).1 (subst (Glob t_name) e g) in cc
      | inr ne ↦ elim z [
        | inl e ↦ absurd (ne (ap (λ p. p.1) e))
        | inr m ↦ r.complete addr name m g (has_key-other name n seen ne u)
      ]
    ];
  }

  new-Reports :
      (found : List Text)
      → has_key n seen ≡ false
      → wildcard_match t_name n ≡ true
      → Reports t_name sockets (n ∷ seen) found
      → Reports t_name ((a, n) ∷ sockets) seen (a ∷ found)
  new-Reports found new yes_ r = record {
    chosen = (a, n) ∷ r.chosen;
    listed = ap (λ l. a ∷ l) r.listed;
    distinct = (
      (λ z.
          let (addr, m) = Elem-names n r.chosen z in
          (has_key-cons n n seen (r.sound addr n m).2).0 refl),
      r.distinct,
    );
    sound = λ addr name z. elim z [
      | inl e ↦
          let same : n ≡ name = sym (ap (λ p. p.1) e) in
          (
            inl e,
            subst (Glob t_name) same ((wildcard_match-Glob t_name n).0 yes_),
            subst (λ k. has_key k seen ≡ false) same new,
          )
      | inr y ↦ let (m, g, u) = r.sound addr name y in (inr m, g, (has_key-cons name n seen u).1)
    ];
    complete = λ addr name z g u. elim (differs name n) [
      | inl e ↦ inl e
      | inr ne ↦ elim z [
        | inl e ↦ absurd (ne (ap (λ p. p.1) e))
        | inr m ↦ inr (r.complete addr name m g (has_key-other name n seen ne u))
      ]
    ];
  }

matching_anon-Reports :
    (t_name : Text) (sockets : List (Text × Text)) (seen : List Text)
    → Reports t_name sockets seen (matching_anon t_name sockets seen)
unfolding matching_anon
matching_anon-Reports t_name [] seen = record {
  chosen = [];
  listed = refl;
  distinct = tt;
  sound = λ addr name z. absurd z;
  complete = λ addr name z. absurd z;
}
matching_anon-Reports t_name ((a, n) ∷ sockets) seen = elim (Bool-cases (has_key n seen)) [
  | inl old ↦
      rw old
        (seen-Reports t_name a n sockets seen _ old (matching_anon-Reports t_name sockets seen))
  | inr new ↦
      let rest = matching_anon-Reports t_name sockets (n ∷ seen) in
      elim (Bool-cases (wildcard_match t_name n)) [
        | inl t ↦ rw (new, t) (new-Reports t_name a n sockets seen _ new t rest)
        | inr f ↦ rw (new, f) (passed-Reports t_name a n sockets seen _ f rest)
      ]
]

-- The addresses reported are those of some of the sockets in the file, of different names, which the
-- pattern fits; and each name of a socket there that the pattern fits is among them.
pub lookup_service_uds_anon_lem :
    (content publisher_name service_name : Text)
    → let t_name = to_publisher_service_name publisher_name service_name in
      let sockets = anon_sockets (ended_lines (split b'\n' content)) in
      let found = lookup_service_uds_anon (some content) publisher_name service_name in
      (chosen : List (Text × Text)) × (addrs chosen ≡ found)
      × Distinct (names chosen)
      × ((addr name : Text)
          → Elem (addr, name) chosen
          → Elem (addr, name) sockets × Glob t_name name)
      × ((addr name : Text)
          → Elem (addr, name) sockets
          → Glob t_name name
          → Elem name (names chosen))
unfolding lookup_service_uds_anon
lookup_service_uds_anon_lem content publisher_name service_name =
    let t_name = to_publisher_service_name publisher_name service_name in
    let r = matching_anon-Reports t_name (anon_sockets (ended_lines (split b'\n' content))) [] in
    (
      r.chosen,
      r.listed,
      r.distinct,
      λ addr name z. let (m, g, u) = r.sound addr name z in (m, g),
      λ addr name z g. r.complete addr name z g refl,
    )
