-- ===== src/Client/Discover.antt =====
-- One turn of Discover against the lists of Spec, and the loop.
use adaptiveservice.Prelude.{
  ℕ, ◌+◌, ◌-◌, ◌≡◌, refl, sym, ap, ◌∙◌, subst, Bool, true, false, ◌&&◌, not, Option, none, some,
  List, [], ◌++◌, map, take, length, arith, if◌then◌else◌, append_assoc, append-nil, Bool-cases,
  inl, inr, length-append,
}
use adaptiveservice.Client.{
  Connection, Discovery, Round, Finding, Candidate, search_self, chan_candidate, anon_candidate,
  uds_candidate, reached, remaining, try_candidates, find_within_os, get_addrs, select_and_connect,
  find_network, discover_round,
}
use adaptiveservice.Client.Spec.{
  fresh, new_services, addrs_of, connected, limit, dialled, seen_after, os_candidates,
  lan_connections, seen_after_lan, wan_connections, all_connections, all_keys,
}
use adaptiveservice.Client.Keys.{Fresh, all_keys-Fresh}
use adaptiveservice.Client.Network.{
  Fits, Connects, limit-append, Connects-if, Connects-append, select_and_connect-Connects,
  wan-Connects, connect-service_list, get_addrs_lem,
}
use adaptiveservice.Client.Found.{
  Room, try_candidates-append, try_candidates-connections, try_candidates-found,
  try_candidates-Room, reached-none, try_candidates-reached,
}

try_candidates-if :
    (expect : Option ℕ) (b : Bool) (cs : List Candidate) (f : Finding)
    → try_candidates expect (if b then cs else []) f ≡ (if b then try_candidates expect cs f else f)
unfolding try_candidates
try_candidates-if expect true cs f = refl
try_candidates-if expect false cs f = refl

find_within_os-candidates :
    (d : Discovery) (r : Round) (expect : Option ℕ) (f : Finding)
    → find_within_os d r expect f
      ≡ try_candidates expect (os_candidates d r) (record f { found = 0; returned = false })
unfolding find_within_os os_candidates try_candidates
find_within_os-candidates d r expect f =
    let start : Finding = record f { found = 0; returned = false } in
    let in_process : Finding =
      if search_self d && d.scope_process
      then try_candidates expect (map chan_candidate r.chans) start
      else start in
    let anonymous : Finding =
      if d.scope_os && search_self d
      then try_candidates expect (map (anon_candidate r.dials) r.uds_anon) in_process
      else in_process in
    let chans : List Candidate =
      if search_self d && d.scope_process then map chan_candidate r.chans else [] in
    let anons : List Candidate =
      if d.scope_os && search_self d then map (anon_candidate r.dials) r.uds_anon else [] in
    let dirs : List Candidate = if d.scope_os then map (uds_candidate r.dials) r.uds_dir else [] in
    sym (
      try_candidates-append expect (chans ++ anons) dirs start
      ∙ ap (try_candidates expect dirs) (try_candidates-append expect chans anons start)
      ∙ ap (λ g. try_candidates expect dirs (try_candidates expect anons g))
          (try_candidates-if expect (search_self d && d.scope_process) (map chan_candidate r.chans)
            start)
      ∙ ap (try_candidates expect dirs) (
          try_candidates-if expect (d.scope_os && search_self d)
            (map (anon_candidate r.dials) r.uds_anon) in_process)
      ∙ try_candidates-if expect d.scope_os (map (uds_candidate r.dials) r.uds_dir) anonymous)

Room→reached : (expect : Option ℕ) (found : ℕ) → Room expect found → reached expect found ≡ false
unfolding reached
Room→reached none found room = refl
Room→reached (some e) found room = ground arith

Room→Fits : (expect : Option ℕ) (found : ℕ) → Room expect found → Fits expect found
Room→Fits none found room = tt
Room→Fits (some e) found room = omega arith

abbrev after_lan : Discovery → Round → Option ℕ → Finding → Finding
after_lan d r expect start =
    if not (reached expect start.found) && d.scope_lan
    then select_and_connect d r expect r.lan start
    else start

after_lan-service_list :
    (d : Discovery) (r : Round) (expect : Option ℕ) (f : Finding)
    → reached expect f.found ≡ false
    → (after_lan d r expect f).service_list ≡ seen_after_lan d r f.service_list
unfolding select_and_connect seen_after_lan
after_lan-service_list d r expect f h = elim (Bool-cases d.scope_lan) [
  | inl t ↦
      rw (h, t)
        (connect-service_list r.dials expect (r.select (get_addrs d r.lan f.service_list).0)
            (record f { service_list = (get_addrs d r.lan f.service_list).1 })
          ∙ ap (λ a. a.1) (get_addrs_lem d r.lan f.service_list))
  | inr off ↦ rw (h, off) refl
]

find_network-Connects :
    (d : Discovery) (r : Round) (expect : Option ℕ) (f : Finding)
    → Room expect 0
    → Connects expect
        (lan_connections d r f.service_list
          ++ wan_connections d r (seen_after_lan d r f.service_list))
        (record f { found = 0 })
        (find_network d r expect f)
unfolding find_network lan_connections
find_network-Connects d r expect f room =
    let start : Finding = record f { found = 0; returned = false } in
    let lan : Finding = after_lan d r expect start in
    let fits = Room→Fits expect 0 room in
    let here =
      Connects-if expect d.scope_lan
        (dialled r.dials (r.select (addrs_of (new_services d f.service_list r.lan)))) start
        (select_and_connect d r expect r.lan start) fits
        (select_and_connect-Connects d r expect r.lan start fits) in
    let there = wan-Connects d r expect lan here.2 in
    let same = after_lan-service_list d r expect start (Room→reached expect 0 room) in
    Connects-append expect (lan_connections d r f.service_list)
      (wan_connections d r (seen_after_lan d r f.service_list)) (record f { found = 0 }) lan
      (find_network d r expect f) here
      (subst (λ seen. Connects expect (wan_connections d r seen) lan (find_network d r expect f))
        same there)

remaining-zero :
    (expect : Option ℕ) (conns : List Connection)
    → limit (remaining expect 0) conns ≡ limit expect conns
unfolding limit
remaining-zero none conns = refl
remaining-zero (some e) conns = let q : e - 0 ≡ e = omega arith in ap (λ n. take n conns) q

remaining-Room :
    (expect : Option ℕ) (found : ℕ) → Room expect found → Room (remaining expect found) 0
remaining-Room none found room = tt
remaining-Room (some e) found room = omega arith

-- A turn of the loop finds.
abbrev pub Finds : Option ℕ → List Connection → Finding → Finding → Type 0
Finds expect conns f g =
    (g.connections ≡ f.connections ++ limit expect conns) × (g.found ≡ length (limit expect conns))

limit-split :
    (expect : Option ℕ) (found : ℕ) (xs ys : List Connection)
    → found ≡ length (limit expect xs)
    → limit expect (xs ++ ys) ≡ limit expect xs ++ limit (remaining expect found) ys
limit-split expect found xs ys count =
    let q : 0 + length (limit (remaining expect 0) xs) ≡ found =
      omega (arith, ap length (remaining-zero expect xs), count) in
    sym (remaining-zero expect (xs ++ ys))
    ∙ limit-append expect 0 xs ys
    ∙ ap (λ l. l ++ limit (remaining expect (0 + length (limit (remaining expect 0) xs))) ys)
        (remaining-zero expect xs)
    ∙ ap (λ n. limit expect xs ++ limit (remaining expect n) ys) q

abbrev turn : Discovery → Round → Option ℕ → Finding → Finding
turn d r expect os =
    let network = find_network d r (remaining expect os.found) os in
    if reached expect os.found then os else record network { found = os.found + network.found }

turn-reached :
    (d : Discovery) (r : Round) (expect : Option ℕ) (xs ys : List Connection) (f os : Finding)
    → reached expect os.found ≡ true
    → Finds expect xs f os
    → Finds expect (xs ++ ys) f (turn d r expect os)
turn-reached d r expect xs ys f os h (sent, count) =
    let all : limit expect (xs ++ ys) ≡ limit expect xs =
      limit-split expect os.found xs ys count
      ∙ ap (λ l. limit expect xs ++ l) (reached-none expect os.found ys h)
      ∙ append-nil (limit expect xs) in
    rw h (sent ∙ ap (λ l. f.connections ++ l) (sym all), count ∙ ap length (sym all))

turn-more :
    (d : Discovery) (r : Round) (expect : Option ℕ) (xs : List Connection) (f os : Finding)
    → reached expect os.found ≡ false
    → Room expect os.found
    → Finds expect xs f os
    → Finds expect
        (xs
          ++ (lan_connections d r os.service_list
              ++ wan_connections d r (seen_after_lan d r os.service_list)))
        f
        (turn d r expect os)
turn-more d r expect xs f os h room (sent, count) =
    let ys =
      lan_connections d r os.service_list
      ++ wan_connections d r (seen_after_lan d r os.service_list) in
    let (sent', count', _) =
      find_network-Connects d r (remaining expect os.found) os
        (remaining-Room expect os.found room) in
    let all = limit-split expect os.found xs ys count in
    let rest = remaining-zero (remaining expect os.found) ys in
    rw h (
      sent'
          ∙ ap (λ l. os.connections ++ l) rest
          ∙ ap (λ l. l ++ limit (remaining expect os.found) ys) sent
          ∙ append_assoc f.connections (limit expect xs) (limit (remaining expect os.found) ys)
          ∙ ap (λ l. f.connections ++ l) (sym all),
      omega (
        arith,
        count,
        count',
        ap length rest,
        ap length all,
        length-append (limit expect xs) (limit (remaining expect os.found) ys),
      ),
    )

pub discover_round-Finds :
    (d : Discovery) (r : Round) (expect : Option ℕ) (f : Finding)
    → Room expect 0
    → Finds expect (all_connections d r f.service_list) f (discover_round d r expect f)
unfolding discover_round all_connections
discover_round-Finds d r expect f room =
    let cs = os_candidates d r in
    let start : Finding = record f { found = 0; returned = false } in
    let os = try_candidates expect cs start in
    let xs = connected (fresh f.service_list cs) in
    let sent : os.connections ≡ f.connections ++ limit expect xs =
      try_candidates-connections expect cs start refl room
      ∙ ap (λ l. f.connections ++ l) (remaining-zero expect xs) in
    let count : os.found ≡ length (limit expect xs) = omega (
      arith,
      try_candidates-found expect cs start,
      length-append f.connections (limit expect xs),
      ap length sent,
    ) in
    let end : Finds expect (all_connections d r f.service_list) f (turn d r expect os) =
      elim (Bool-cases os.returned) [
        | inl done ↦
            let h = try_candidates-reached expect cs start (λ e. ground (arith, e)) done in
            turn-reached d r expect xs
              (lan_connections d r (seen_after f.service_list cs)
                ++ wan_connections d r (seen_after_lan d r (seen_after f.service_list cs)))
              f os h (sent, count)
        | inr more ↦
            let (room', seen) = try_candidates-Room expect cs start refl room more in
            let found =
              turn-more d r expect xs f os (Room→reached expect os.found room') room'
                (sent, count) in
            subst
              (λ l.
                Finds expect
                  (xs ++ (lan_connections d r l ++ wan_connections d r (seen_after_lan d r l))) f
                  (turn d r expect os))
              seen found
      ] in
    subst (λ o. Finds expect (all_connections d r f.service_list) f (turn d r expect o))
      (sym (find_within_os-candidates d r expect f)) end

-- If at least one connection is expected, then one turn of Discover sends, after those of the turns
-- before, the expected number of the connections that its scopes give (all, with a wildcard): the
-- services that are not in the service list yet, each key once, in the order process, OS, LAN, WAN,
-- without those whose dial fails; and it counts them. The keys of the services that it takes are not
-- in the service list, and no key is there twice.
pub discover_round_lem :
    (d : Discovery) (r : Round) (expect : Option ℕ) (f : Finding)
    → Room expect 0
    → Finds expect (all_connections d r f.service_list) f (discover_round d r expect f)
      × Fresh f.service_list (all_keys d r f.service_list)
discover_round_lem d r expect f room =
    (discover_round-Finds d r expect f room, all_keys-Fresh d r f.service_list)
