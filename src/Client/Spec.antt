-- ===== src/Client/Spec.antt =====
-- What one turn of Discover is to find: the new services in the order of the scopes, no service
-- twice, and no more connections than expected.
use adaptiveservice.Prelude.{
  ℕ, Bool, ◌&&◌, Option, none, some, List, [], ◌∷◌, ◌++◌, Text, map, take, if◌then◌else◌,
}
use adaptiveservice.Names.{ServiceInfo}
use adaptiveservice.Client.{
  Connection, tcp_connection, Discovery, Round, Candidate, has_key, search_self, chan_candidate,
  anon_candidate, uds_candidate, network_key,
}

-- The candidates of findWithinOS, in its order.
unfoldable pub os_candidates : Discovery → Round → List Candidate
os_candidates d r =
    (if search_self d && d.scope_process then map chan_candidate r.chans else [])
    ++ (if d.scope_os && search_self d then map (anon_candidate r.dials) r.uds_anon else [])
    ++ (if d.scope_os then map (uds_candidate r.dials) r.uds_dir else [])

-- The first item of each key that is not seen yet, and the keys that are seen after all items.
module _ {A : Type 0} (key : A → Text) where
  unfoldable pub fresh_by : List Text → List A → List A
  unfolding has_key
  fresh_by seen [] = []
  fresh_by seen (x ∷ xs) =
      let has = has_key (key x) seen in
      let rest = fresh_by (if has then seen else key x ∷ seen) xs in if has then rest else x ∷ rest

  unfoldable pub seen_by : List Text → List A → List Text
  unfolding has_key
  seen_by seen [] = seen
  seen_by seen (x ∷ xs) = seen_by (if has_key (key x) seen then seen else key x ∷ seen) xs

abbrev pub key_of : Candidate → Text
key_of c = c.key

abbrev pub fresh : List Text → List Candidate → List Candidate
fresh = fresh_by key_of

abbrev pub seen_after : List Text → List Candidate → List Text
seen_after = seen_by key_of

unfoldable pub connected : List Candidate → List Connection
connected [] = []
connected (c ∷ cs) = elim c.connection [ none ↦ connected cs | some conn ↦ conn ∷ connected cs ]

-- The first so many items, or all.
unfoldable pub limit : Option ℕ → List Connection → List Connection
limit none conns = conns
limit (some n) conns = take n conns

unfoldable pub dialled : (Text → Bool) → List Text → List Connection
dialled dials [] = []
dialled dials (addr ∷ addrs) =
    let rest = dialled dials addrs in if dials addr then tcp_connection addr ∷ rest else rest

-- The services of a network that are new.
abbrev pub new_services : Discovery → List Text → List ServiceInfo → List ServiceInfo
new_services d = fresh_by (network_key d)

abbrev pub addrs_of : List ServiceInfo → List Text
addrs_of = map (λ (si : ServiceInfo). si.addr)

unfoldable pub lan_services : Discovery → Round → List Text → List ServiceInfo
lan_services d r seen = if d.scope_lan then new_services d seen r.lan else []

unfoldable pub seen_after_lan : Discovery → Round → List Text → List Text
seen_after_lan d r seen = if d.scope_lan then seen_by (network_key d) seen r.lan else seen

unfoldable pub wan_services : Discovery → Round → List Text → List ServiceInfo
wan_services d r seen =
    let found : List ServiceInfo = elim r.wan [ none ↦ [] | some sis ↦ new_services d seen sis ] in
    if d.scope_wan then found else []

-- What is dialled of them; no addresses are selected where no scope is searched.
unfoldable pub lan_connections : Discovery → Round → List Text → List Connection
lan_connections d r seen =
    if d.scope_lan then dialled r.dials (r.select (addrs_of (new_services d seen r.lan))) else []

unfoldable pub wan_connections : Discovery → Round → List Text → List Connection
wan_connections d r seen =
    let found : List Connection = elim r.wan [
      | none ↦ []
      | some sis ↦ dialled r.dials (r.select (addrs_of (new_services d seen sis)))
    ] in
    if d.scope_wan then found else []

-- All that one turn finds when nothing is cut: first within the OS, then the LAN, then the WAN.
unfoldable pub all_connections : Discovery → Round → List Text → List Connection
unfolding os_candidates fresh_by connected seen_by lan_connections seen_after_lan wan_connections
all_connections d r seen =
    let seen_os = seen_after seen (os_candidates d r) in
    connected (fresh seen (os_candidates d r))
    ++ (lan_connections d r seen_os ++ wan_connections d r (seen_after_lan d r seen_os))

-- The keys of the services that these connections are to.
unfoldable pub all_keys : Discovery → Round → List Text → List Text
unfolding os_candidates fresh_by seen_by lan_services seen_after_lan wan_services
all_keys d r seen =
    let seen_os = seen_after seen (os_candidates d r) in
    map key_of (fresh seen (os_candidates d r))
    ++ (map (network_key d) (lan_services d r seen_os)
        ++ map (network_key d) (wan_services d r (seen_after_lan d r seen_os)))
