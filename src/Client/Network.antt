-- ===== src/Client/Network.antt =====
-- The loop of connect, which dials the addresses of the network, against the lists of Spec.
use adaptiveservice.Prelude.{
  ℕ, zero, suc, ◌+◌, ◌-◌, ◌≡◌, ◌≤◌, refl, sym, ap, ◌∙◌, subst, Bool, true, false, ◌&&◌, not, Option,
  none, some, List, [], ◌∷◌, ◌++◌, Text, take, length, arith, if◌then◌else◌, not, append_assoc,
  append-nil, Bool-cases, Option-cases, inl, inr, length-append,
}
use adaptiveservice.Client.{
  Connection, tcp_connection, Discovery, Round, Finding, reached, remaining, connect, connect_addr,
  get_addrs, select_and_connect, network_key, has_key,
}
use adaptiveservice.Client.Spec.{
  limit, dialled, wan_connections, fresh_by, seen_by, new_services, addrs_of,
}
use adaptiveservice.Names.{ServiceInfo}
use adaptiveservice.Client.Found.{limit-step, limit-nil, reached-none}

-- No more are found than expected.
abbrev pub Fits : Option ℕ → ℕ → Type 0
Fits none found = Unit
Fits (some expect) found = found ≤ expect

take-append-rest :
    (n : ℕ) (xs ys : List Connection)
    → take n (xs ++ ys) ≡ take n xs ++ take (n - length (take n xs)) ys
take-append-rest zero xs ys = refl
take-append-rest (suc n) [] ys = let q : suc n ≡ suc n - 0 = omega arith in ap (λ k. take k ys) q
take-append-rest (suc n) (x ∷ xs) ys =
    let l = length (take n xs) in
    let q : n - l ≡ suc n - suc l = omega arith in
    ap (◌∷◌ x) (take-append-rest n xs ys ∙ ap (λ k. take n xs ++ take k ys) q)

-- The first so many of two lists.
pub limit-append :
    (expect : Option ℕ) (found : ℕ) (xs ys : List Connection)
    → limit (remaining expect found) (xs ++ ys)
      ≡ limit (remaining expect found) xs
        ++ limit (remaining expect (found + length (limit (remaining expect found) xs))) ys
unfolding limit
limit-append none found xs ys = refl
limit-append (some e) found xs ys =
    let l = length (take (e - found) xs) in
    let q : e - found - l ≡ e - (found + l) = omega arith in
    take-append-rest (e - found) xs ys ∙ ap (λ k. take (e - found) xs ++ take k ys) q

connect_addr-reached :
    (dials : Text → Bool) (expect : Option ℕ) (addr : Text) (f : Finding)
    → reached expect f.found ≡ true
    → connect_addr dials expect addr f ≡ f
unfolding connect_addr
connect_addr-reached dials expect addr f h = rw h refl

connect-reached :
    (dials : Text → Bool) (expect : Option ℕ) (addrs : List Text) (f : Finding)
    → reached expect f.found ≡ true
    → connect dials expect addrs f ≡ f
unfolding connect
connect-reached dials expect [] f h = refl
connect-reached dials expect (addr ∷ addrs) f h =
    ap (connect dials expect addrs) (connect_addr-reached dials expect addr f h)
    ∙ connect-reached dials expect addrs f h

abbrev add : Text → Finding → Finding
add addr f = record f {
  connections = f.connections ++ (tcp_connection addr ∷ []);
  found = suc f.found;
}

connect_addr-dials :
    (dials : Text → Bool) (expect : Option ℕ) (addr : Text) (f : Finding)
    → reached expect f.found ≡ false
    → dials addr ≡ true
    → connect_addr dials expect addr f ≡ add addr f
unfolding connect_addr
connect_addr-dials dials expect addr f h e = rw (h, e) refl

connect_addr-fails :
    (dials : Text → Bool) (expect : Option ℕ) (addr : Text) (f : Finding)
    → dials addr ≡ false
    → connect_addr dials expect addr f ≡ f
unfolding connect_addr
connect_addr-fails dials expect addr f e = elim (Bool-cases (reached expect f.found)) [
  | inl h ↦ rw h refl
  | inr h ↦ rw (h, e) refl
]

Fits→Fits :
    (expect : Option ℕ) (found : ℕ)
    → Fits expect found
    → reached expect found ≡ false
    → Fits expect (suc found)
unfolding reached
Fits→Fits none found fits h = tt
Fits→Fits (some e) found fits h = ground arith

limit-more :
    (expect : Option ℕ) (found : ℕ) (conn : Connection) (conns : List Connection)
    → Fits expect found
    → reached expect found ≡ false
    → limit (remaining expect found) (conn ∷ conns)
      ≡ conn ∷ limit (remaining expect (suc found)) conns
unfolding reached
limit-more none found conn conns fits h = limit-step none found conn conns tt
limit-more (some e) found conn conns fits h = limit-step (some e) found conn conns (ground arith)

-- From f to g, so many of the connections were sent as were still expected.
abbrev pub Connects : Option ℕ → List Connection → Finding → Finding → Type 0
Connects expect conns f g =
    (g.connections ≡ f.connections ++ limit (remaining expect f.found) conns)
    × (g.found ≡ f.found + length (limit (remaining expect f.found) conns))
    × Fits expect g.found

pub Connects-limit-nil :
    (expect : Option ℕ) (conns : List Connection) (f : Finding)
    → Fits expect f.found
    → limit (remaining expect f.found) conns ≡ []
    → Connects expect conns f f
Connects-limit-nil expect conns f fits e =
    (sym (ap (λ l. f.connections ++ l) e ∙ append-nil f.connections), rw e (omega arith), fits)

Connects-more :
    (expect : Option ℕ) (conn : Connection) (conns : List Connection) (f g : Finding)
    → Fits expect f.found
    → reached expect f.found ≡ false
    → Connects expect conns
        (record f { connections = f.connections ++ (conn ∷ []); found = suc f.found })
        g
    → Connects expect (conn ∷ conns) f g
Connects-more expect conn conns f g fits h (sent, found, fits') =
    let more = limit-more expect f.found conn conns fits h in
    (
      sent
          ∙ append_assoc f.connections (conn ∷ []) (limit (remaining expect (suc f.found)) conns)
          ∙ ap (λ l. f.connections ++ l) (sym more),
      found ∙ rw more (omega arith),
      fits',
    )

pub connect-Connects :
    (dials : Text → Bool) (expect : Option ℕ) (addrs : List Text) (f : Finding)
    → Fits expect f.found
    → Connects expect (dialled dials addrs) f (connect dials expect addrs f)
unfolding connect dialled
connect-Connects dials expect [] f fits =
    Connects-limit-nil expect [] f fits (limit-nil expect f.found)
connect-Connects dials expect (addr ∷ addrs) f fits = elim (Bool-cases (reached expect f.found)) [
  | inl done ↦
      subst (Connects expect (dialled dials (addr ∷ addrs)) f)
        (sym (connect-reached dials expect (addr ∷ addrs) f done))
        (Connects-limit-nil expect (dialled dials (addr ∷ addrs)) f fits
          (reached-none expect f.found (dialled dials (addr ∷ addrs)) done))
  | inr more ↦ elim (Bool-cases (dials addr)) [
    | inl t ↦
        subst (λ g. Connects expect (dialled dials (addr ∷ addrs)) f (connect dials expect addrs g))
          (sym (connect_addr-dials dials expect addr f more t))
          (rw t (
            Connects-more expect (tcp_connection addr) (dialled dials addrs) f
              (connect dials expect addrs (add addr f)) fits more
              (connect-Connects dials expect addrs (add addr f)
                (Fits→Fits expect f.found fits more))))
    | inr fails ↦
        subst (λ g. Connects expect (dialled dials (addr ∷ addrs)) f (connect dials expect addrs g))
          (sym (connect_addr-fails dials expect addr f fails))
          (rw fails (connect-Connects dials expect addrs f fits))
  ]
]

connect_addr-service_list :
    (dials : Text → Bool) (expect : Option ℕ) (addr : Text) (f : Finding)
    → (connect_addr dials expect addr f).service_list ≡ f.service_list
unfolding connect_addr
connect_addr-service_list dials expect addr f = ground arith

pub connect-service_list :
    (dials : Text → Bool) (expect : Option ℕ) (addrs : List Text) (f : Finding)
    → (connect dials expect addrs f).service_list ≡ f.service_list
unfolding connect
connect-service_list dials expect [] f = refl
connect-service_list dials expect (addr ∷ addrs) f =
    connect-service_list dials expect addrs (connect_addr dials expect addr f)
    ∙ connect_addr-service_list dials expect addr f

-- A scope is searched if it is one of the client's and there is more to find.
pub Connects-if :
    (expect : Option ℕ) (scope : Bool) (conns : List Connection) (f g : Finding)
    → Fits expect f.found
    → Connects expect conns f g
    → Connects expect
        (if scope then conns else [])
        f
        (if not (reached expect f.found) && scope then g else f)
Connects-if expect false conns f g fits there = elim (Bool-cases (reached expect f.found)) [
  | inl h ↦ rw h (Connects-limit-nil expect [] f fits (limit-nil expect f.found))
  | inr h ↦ rw h (Connects-limit-nil expect [] f fits (limit-nil expect f.found))
]
Connects-if expect true conns f g fits there = elim (Bool-cases (reached expect f.found)) [
  | inl h ↦ rw h (Connects-limit-nil expect conns f fits (reached-none expect f.found conns h))
  | inr h ↦ rw h there
]

pub Connects-append :
    (expect : Option ℕ) (xs ys : List Connection) (f g h : Finding)
    → Connects expect xs f g
    → Connects expect ys g h
    → Connects expect (xs ++ ys) f h
Connects-append expect xs ys f g h (sent, found, fits) (sent', found', fits') =
    let lx = limit (remaining expect f.found) xs in
    let both = limit-append expect f.found xs ys in
    let rest = ap (λ n. limit (remaining expect n) ys) found in
    (
      sent'
          ∙ ap (λ l. l ++ limit (remaining expect g.found) ys) sent
          ∙ append_assoc f.connections lx (limit (remaining expect g.found) ys)
          ∙ ap (λ l. f.connections ++ (lx ++ l)) rest
          ∙ ap (λ l. f.connections ++ l) (sym both),
      rw
          (
            both,
            found',
            rest,
            length-append lx (limit (remaining expect (f.found + length lx)) ys),
            found,
          )
          (omega arith),
      fits',
    )

-- getAddrs gives the addresses of the new services, and marks them.
pub get_addrs_lem :
    (d : Discovery) (sis : List ServiceInfo) (seen : List Text)
    → get_addrs d sis seen ≡ (addrs_of (new_services d seen sis), seen_by (network_key d) seen sis)
unfolding get_addrs fresh_by seen_by
get_addrs_lem d [] seen = refl
get_addrs_lem d (si ∷ sis) seen = elim (Bool-cases (has_key (network_key d si) seen)) [
  | inl old ↦ rw old (get_addrs_lem d sis seen)
  | inr new ↦
      rw new (ap (λ r. (si.addr ∷ r.0, r.1)) (get_addrs_lem d sis (network_key d si ∷ seen)))
]

pub select_and_connect-Connects :
    (d : Discovery) (r : Round) (expect : Option ℕ) (sis : List ServiceInfo) (f : Finding)
    → Fits expect f.found
    → Connects expect
        (dialled r.dials (r.select (addrs_of (new_services d f.service_list sis))))
        f
        (select_and_connect d r expect sis f)
unfolding select_and_connect
select_and_connect-Connects d r expect sis f fits =
    subst
      (λ a.
        Connects expect (dialled r.dials (r.select (addrs_of (new_services d f.service_list sis))))
          f (connect r.dials expect (r.select a.0) (record f { service_list = a.1 })))
      (sym (get_addrs_lem d sis f.service_list))
      (connect-Connects r.dials expect (r.select (addrs_of (new_services d f.service_list sis)))
        (record f { service_list = seen_by (network_key d) f.service_list sis }) fits)

pub wan-Connects :
    (d : Discovery) (r : Round) (expect : Option ℕ) (f : Finding)
    → Fits expect f.found
    → Connects expect (wan_connections d r f.service_list) f (
        if not (reached expect f.found) && d.scope_wan
        then (elim r.wan [ none ↦ f | some sis ↦ select_and_connect d r expect sis f ])
        else f)
unfolding wan_connections
wan-Connects d r expect f fits = elim (Option-cases r.wan) [
  | inl e ↦ rw e (
      Connects-if expect d.scope_wan [] f f fits
        (Connects-limit-nil expect [] f fits (limit-nil expect f.found)))
  | inr (sis, e) ↦ rw e (
      Connects-if expect d.scope_wan
        (dialled r.dials (r.select (addrs_of (new_services d f.service_list sis)))) f
        (select_and_connect d r expect sis f) fits
        (select_and_connect-Connects d r expect sis f fits))
]
