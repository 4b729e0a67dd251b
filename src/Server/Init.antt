-- ===== src/Server/Init.antt =====
-- The initialization of the server, init and initProviderID of server.go, with the functions that
-- publish the builtin services. What is found in the process, the system and the network, and which
-- transports can be started, is the argument World.
use adaptiveservice.Prelude.{
  Bool, true, false, ◌&&◌, ◌||◌, not, Option, none, some, [], ◌∷◌, Text, codes, text_eq,
  if◌then◌else◌,
}
use adaptiveservice.Server.{
  Scope, Transport, tcp_transport, message_queue, lan_registry, transport, Server, Outcome,
  add_closer, and_then, meet, packet_conn, start_transports,
}

-- starts: for a service's name; provider_found and registry_found: what GetSelfProviderID and
-- discoverRegistryAddr return, none for an error; can_proxy: the tests of canProxy after its first;
-- lan_registry_starts: ListenPacket gives a socket.
pub record World : Type 0 where
  pub starts : Text → Transport → Bool
  pub provider_found : Option Text
  pub gen_id : Text
  pub lan_registry_runs : Bool
  pub lan_registry_starts : Bool
  pub registry_found : Option Text
  pub can_proxy : Bool

abbrev pub builtin : Text
builtin = codes "builtin"

abbrev pub local_scope : Scope
local_scope = record { process = true; os = true; lan = false; wan = false }

abbrev pub is_empty : Text → Bool
is_empty [] = true
is_empty (c ∷ cs) = false

-- publish, from a server that counts as initialized, as it does within init
unfoldable pub publish_builtin : World → Scope → Text → Server → Outcome
publish_builtin w scope name s =
    start_transports (w.starts name) (meet s.scope scope) builtin name s

-- The server's own ID, or what is there if it has none.
abbrev pub with_id : Text → Server → Server
with_id id s = record s { provider_id = if is_empty s.provider_id then id else s.provider_id }

unfoldable pub init_provider_id : World → Server → Outcome
unfolding publish_builtin text_eq
init_provider_id w s = elim w.provider_found [
  | none ↦ publish_builtin w local_scope (codes "providerInfo") (with_id w.gen_id s)
  | some id ↦ (not (text_eq (with_id id s).provider_id id), with_id id s)
]

unfoldable pub publish_lan_registry : World → Server → Outcome
unfolding publish_builtin
publish_lan_registry w s =
    if w.lan_registry_starts
    then publish_builtin w local_scope (codes "LANRegistry")
        (add_closer lan_registry (add_closer packet_conn s))
    else (true, s)

abbrev pub without_lan : Server → Server
without_lan s = record s { scope = record s.scope { lan = false } }

abbrev pub without_wan : Server → Server
without_wan s = record s { scope = record s.scope { wan = false } }

unfoldable pub init_lan : World → Server → Outcome
unfolding publish_lan_registry
init_lan w s =
    if not s.scope.lan
    then (false, s)
    else if w.lan_registry_runs
    then (false, s)
    else if is_empty s.broadcast_port
    then (false, without_lan s)
    else publish_lan_registry w s

unfoldable pub find_registry : World → Server → Outcome
unfolding publish_builtin
find_registry w s = elim w.registry_found [
  | some addr ↦ (false, record s { registry_addr = addr })
  | none ↦
      if is_empty s.registry_addr
      then (false, without_wan s)
      else publish_builtin w local_scope (codes "registryInfo") s
]

unfoldable pub init_wan : World → Server → Outcome
unfolding find_registry
init_wan w s = if s.scope.wan then find_registry w s else (false, s)

-- An option that publishes a builtin service.
unfoldable pub when : Bool → World → Scope → Text → Server → Outcome
unfolding publish_builtin
when b w scope name s = if b then publish_builtin w scope name s else (false, s)

unfoldable pub start_root_registry : World → Server → Outcome
start_root_registry w s =
    if w.starts (codes "rootRegistry") tcp_transport
    then (false, add_closer (transport tcp_transport builtin (codes "rootRegistry")) s)
    else (true, s)

-- none: the panic of a root registry that has an address, but not the scope.
unfoldable pub init_root : World → Server → Option Outcome
unfolding start_root_registry
init_root w s =
    if not s.root_registry
    then some (false, s)
    else if is_empty s.registry_addr
    then some (true, s)
    else if not s.scope.wan
    then none
    else some (start_root_registry w s)

abbrev pub proxies : World → Server → Bool
proxies w s = s.scope.wan && s.auto_reverse_proxy && (s.root_registry || w.can_proxy)

-- The services after the root registry
unfoldable pub init_services : World → Server → Outcome
unfolding when
init_services w s =
    let proxy_scope : Scope = record {
      process = false;
      os = false;
      lan = true;
      wan = s.root_registry;
    } in
    and_then (when (proxies w s) w proxy_scope (codes "reverseProxy") s) (λ s1.
      and_then (when s1.service_lister w local_scope (codes "serviceLister") s1) (λ s2.
        and_then (when s2.ip_observer w s2.scope (codes "IPObserver") s2)
          (λ s3. when s3.msg_tracer w s3.scope (codes "messageTracing") s3)))

abbrev pub then_services : World → Option Outcome → Option Outcome
then_services w none = none
then_services w (some (true, s)) = some (true, s)
then_services w (some (false, s)) = some (init_services w s)

unfoldable pub init_networks : World → Server → Outcome
unfolding init_provider_id init_lan init_wan
init_networks w s =
    and_then (if s.scope.lan || s.scope.wan then init_provider_id w s else (false, s))
      (λ s1. and_then (init_lan w s1) (λ s2. init_wan w s2))

abbrev pub then_root : World → Outcome → Option Outcome
then_root w (true, s) = some (true, s)
then_root w (false, s) = then_services w (init_root w s)

-- none: it panics.
unfoldable pub init : World → Server → Option Outcome
unfolding init_networks init_root init_services
init w s =
    if s.initialized
    then some (false, s)
    else then_root w (init_networks w (add_closer message_queue (record s { initialized = true })))
