-- ===== src/Client.antt =====
-- Discover of client.go: which connections a client gets, and in which order. A Round is what one
-- turn of the loop finds outside the client: the answers of the lookups, the dials that succeed,
-- and the addresses that the selection keeps, in their order after the shuffle and the scores.
-- An expected number of none is the source's -1.
pub mod Spec
pub mod Keys
pub mod Found
pub mod Network
pub mod Discover
pub mod Loop
mod Examples
use adaptiveservice.Prelude.{
  ℕ, zero, suc, ◌+◌, ◌-◌, ◌*◌, ◌/◌, ◌==◌, Bool, true, false, ◌||◌, ◌&&◌, not, Option, none, some,
  List, [], ◌∷◌, ◌++◌, Text, codes, text_eq, map, length, has_byte, if◌then◌else◌,
}
use adaptiveservice.Wildcard.{star, wildcard_match}
use adaptiveservice.Names.{ServiceInfo}
use adaptiveservice.ProcessRegistry.{ChanTransport}

pub data Connection : Type 0 where
  chan_connection : ℕ → Connection
  uds_connection : Text → Connection
  tcp_connection : Text → Connection

-- The client's choice: its scopes, the provider IDs that the caller names and the client's own,
-- which is empty if it is unknown.
pub record Discovery : Type 0 where
  pub publisher : Text
  pub service : Text
  pub provider_ids : List Text
  pub provider_id : Text
  pub scope_process : Bool
  pub scope_os : Bool
  pub scope_lan : Bool
  pub scope_wan : Bool

-- The addresses of the anonymous sockets stand with the names that fromUDSAddr reads from them;
-- wan is none if no root registry is known.
pub record Round : Type 0 where
  pub chans : List ChanTransport
  pub uds_anon : List ServiceInfo
  pub uds_dir : List ServiceInfo
  pub lan : List ServiceInfo
  pub wan : Option (List ServiceInfo)
  pub dials : Text → Bool
  pub select : List Text → List Text

-- The variables that the closures of Discover share, with the found and the return of the one
-- that runs.
pub record Finding : Type 0 where
  pub service_list : List Text
  pub connections : List Connection
  pub found : ℕ
  pub returned : Bool

abbrev pub self : Text
self = codes "self"

unfoldable pub has_key : Text → List Text → Bool
has_key key [] = false
has_key key (k ∷ ks) = text_eq key k || has_key key ks

-- A service that a loop of findWithinOS meets, with the connection that it gets, if it gets one.
pub record Candidate : Type 0 where
  pub key : Text
  pub connection : Option Connection

abbrev pub service_key : Text → Text → Text → Text
service_key publisher_name service_name provider_id = publisher_name ++ service_name ++ provider_id

unfoldable pub reached : Option ℕ → ℕ → Bool
reached none found = false
reached (some expect) found = found == expect

-- The body of the three loops of findWithinOS.
unfoldable pub try_candidate : Option ℕ → Candidate → Finding → Finding
try_candidate expect c f =
    let marked = record f { service_list = c.key ∷ f.service_list } in
    if f.returned || has_key c.key f.service_list then f else (elim c.connection [
      | none ↦ marked
      | some conn ↦ record marked {
        connections = f.connections ++ (conn ∷ []);
        found = suc f.found;
        returned = reached expect (suc f.found);
      }
    ])

unfoldable pub try_candidates : Option ℕ → List Candidate → Finding → Finding
try_candidates expect [] f = f
try_candidates expect (c ∷ cs) f = try_candidates expect cs (try_candidate expect c f)

unfoldable pub match_provider : List Text → Text → Bool
match_provider [] target = true
match_provider (pid ∷ []) target = wildcard_match pid target
match_provider (pid ∷ p ∷ pids) target =
    wildcard_match pid target || match_provider (p ∷ pids) target

unfoldable pub search_self : Discovery → Bool
search_self d = elim d.provider_ids [
  | [] ↦ true
  | _ ∷ _ ↦ text_eq d.provider_id [] || match_provider d.provider_ids d.provider_id
]

abbrev pub chan_candidate : ChanTransport → Candidate
chan_candidate ct = record {
  key = service_key ct.publisher_name ct.service_name self;
  connection = some (chan_connection ct.chan);
}

abbrev pub uds_candidate : (Text → Bool) → ServiceInfo → Candidate
uds_candidate dials si = record {
  key = service_key si.publisher si.service si.provider_id;
  connection = if dials si.addr then some (uds_connection si.addr) else none;
}

-- An anonymous socket is the host's own.
abbrev pub anon_candidate : (Text → Bool) → ServiceInfo → Candidate
anon_candidate dials si = uds_candidate dials (record si { provider_id = self })

unfoldable pub find_within_os : Discovery → Round → Option ℕ → Finding → Finding
unfolding try_candidates search_self
find_within_os d r expect f =
    let start = record f { found = 0; returned = false } in
    let in_process =
      if search_self d && d.scope_process
      then try_candidates expect (map chan_candidate r.chans) start
      else start in
    let anonymous =
      if d.scope_os && search_self d
      then try_candidates expect (map (anon_candidate r.dials) r.uds_anon) in_process
      else in_process in
    if d.scope_os
    then try_candidates expect (map (uds_candidate r.dials) r.uds_dir) anonymous
    else anonymous

-- The body of the loop of connect, whose condition ends it when the expected number is reached.
unfoldable pub connect_addr : (Text → Bool) → Option ℕ → Text → Finding → Finding
unfolding reached
connect_addr dials expect addr f =
    let connected =
      if dials addr
      then record f {
        connections = f.connections ++ (tcp_connection addr ∷ []);
        found = suc f.found;
      }
      else f in
    if reached expect f.found then f else connected

unfoldable pub connect : (Text → Bool) → Option ℕ → List Text → Finding → Finding
unfolding connect_addr
connect dials expect [] f = f
connect dials expect (addr ∷ addrs) f =
    connect dials expect addrs (connect_addr dials expect addr f)

abbrev pub network_key : Discovery → ServiceInfo → Text
network_key d si =
    service_key si.publisher si.service
      (if text_eq si.provider_id d.provider_id then self else si.provider_id)

-- The addresses of the services that are new, and the service list with them.
unfoldable pub get_addrs : Discovery → List ServiceInfo → List Text → List Text × List Text
unfolding has_key
get_addrs d [] service_list = ([], service_list)
get_addrs d (si ∷ sis) service_list =
    let has = has_key (network_key d si) service_list in
    let rest = get_addrs d sis (if has then service_list else network_key d si ∷ service_list) in
    if has then rest else (si.addr ∷ rest.0, rest.1)

unfoldable pub select_and_connect :
    Discovery → Round → Option ℕ → List ServiceInfo → Finding → Finding
unfolding get_addrs connect
select_and_connect d r expect sis f =
    let (addrs, service_list) = get_addrs d sis f.service_list in
    connect r.dials expect (r.select addrs) (record f { service_list = service_list })

unfoldable pub find_network : Discovery → Round → Option ℕ → Finding → Finding
unfolding select_and_connect
find_network d r expect f =
    let start = record f { found = 0; returned = false } in
    let after_lan =
      if not (reached expect start.found) && d.scope_lan
      then select_and_connect d r expect r.lan start
      else start in
    let after_wan : Finding = elim r.wan [
      | none ↦ after_lan
      | some sis ↦ select_and_connect d r expect sis after_lan
    ] in
    if not (reached expect after_lan.found) && d.scope_wan then after_wan else after_lan

-- expect - found
abbrev pub remaining : Option ℕ → ℕ → Option ℕ
remaining none found = none
remaining (some expect) found = some (expect - found)

-- One turn of the loop, from found = 0; the result's found is the loop's.
unfoldable pub discover_round : Discovery → Round → Option ℕ → Finding → Finding
unfolding find_within_os find_network
discover_round d r expect f =
    let os = find_within_os d r expect f in
    let network = find_network d r (remaining expect os.found) os in
    if reached expect os.found then os else record network { found = os.found + network.found }

-- The loop with a timeout that is not negative, from its n-th turn on.
unfoldable pub discover_loop : Discovery → (ℕ → Round) → Option ℕ → ℕ → ℕ → Finding → Finding
discover_loop d rounds expect n zero f = discover_round d (rounds n) expect f
discover_loop d rounds expect n (suc timeout) f =
    let next = discover_round d (rounds n) expect f in
    elim next.found [ zero ↦ discover_loop d rounds expect (suc n) timeout next | suc _ ↦ next ]

unfoldable pub has_star : List Text → Bool
has_star [] = false
has_star (t ∷ ts) = has_byte star t || has_star ts

unfoldable pub expected : Discovery → Option ℕ
unfolding has_star has_byte
expected d =
    if has_byte star (d.publisher ++ d.service) || has_star d.provider_ids
    then none
    else (elim d.provider_ids [ [] ↦ some 1 | _ ∷ _ ↦ some (length d.provider_ids) ])

abbrev pub nothing_found : Finding
nothing_found = record { service_list = []; connections = []; found = 0; returned = false }

-- Discover with a timeout of so many seconds, not negative, and a check interval in milliseconds.
unfoldable pub discover :
    Discovery → (ℕ → Round) → (discover_timeout check_interval_ms : ℕ) → List Connection
discover d rounds discover_timeout check_interval_ms =
    (discover_loop d rounds (expected d) 0 (discover_timeout * 1000 / check_interval_ms)
      nothing_found).connections
