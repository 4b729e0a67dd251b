-- ===== src/Server/Examples.antt =====
-- A server of all four scopes that publishes a service, while it gets no port.
use adaptiveservice.Prelude.{◌≡◌, refl, Bool, true, false, none, [], ◌∷◌, codes, some, text_eq}
use adaptiveservice.Names.{check_name_convention, is_reserved}
use adaptiveservice.Server.{
  Scope, Transport, chan_transport, uds_transport, tcp_transport, transport, message_queue, Server,
  start_transport, start_transports, add_closer,
}
use adaptiveservice.Server.Init.{
  World, init, init_networks, init_provider_id, init_root, init_services, init_lan, init_wan,
  find_registry, publish_builtin, when, builtin, local_scope,
}
use adaptiveservice.Server.Retry.{init-again}
use adaptiveservice.Server.Publish.{publish, publish_in, serve, not_initialized}

abbrev everywhere : Scope
everywhere = record { process = true; os = true; lan = true; wan = true }

abbrev server : Server
server = record {
  scope = everywhere;
  publisher = codes "example";
  msg_type_check = true;
  provider_id = codes "c0ffee";
  registry_addr = [];
  broadcast_port = [];
  root_registry = false;
  auto_reverse_proxy = false;
  service_lister = false;
  ip_observer = false;
  msg_tracer = false;
  initialized = true;
  closers = message_queue ∷ [];
  done = [];
  closed = false;
}

abbrev no_port : Transport → Bool
no_port chan_transport = true
no_port uds_transport = true
no_port tcp_transport = false

-- The network has no registry, and the server's ID is new.
abbrev alone : World
alone = record {
  starts = λ name tran. no_port tran;
  provider_found = none;
  gen_id = codes "c0ffee";
  lan_registry_runs = false;
  lan_registry_starts = true;
  registry_found = none;
  can_proxy = false;
}

started_two :
    publish alone alone false everywhere (codes "example") (codes "hello") server
    ≡ some (
      true,
      record server {
        closers =
            message_queue
            ∷ transport chan_transport (codes "example") (codes "hello")
            ∷ transport uds_transport (codes "example") (codes "hello")
            ∷ [];
      },
    )
unfolding publish start_transports start_transport
started_two = refl

two_words_panics : publish_in alone alone false everywhere (codes "two words") server ≡ none
unfolding publish_in check_name_convention is_reserved
two_words_panics = refl

abbrev fresh_server : Server
fresh_server = record server { initialized = false; closers = [] }

-- Its init leaves it the scopes of the process and the system.
abbrev local_server : Server
local_server = record server {
  scope = local_scope;
  closers =
      message_queue
      ∷ transport chan_transport builtin (codes "providerInfo")
      ∷ transport uds_transport builtin (codes "providerInfo")
      ∷ transport chan_transport (codes "example") (codes "hello")
      ∷ transport uds_transport (codes "example") (codes "hello")
      ∷ [];
}

initialized_first :
    publish alone alone false everywhere (codes "example") (codes "hello") fresh_server
    ≡ some (false, local_server)
unfolding publish start_transports start_transport init init_networks init_provider_id init_root
    init_services init_lan init_wan find_registry publish_builtin when
initialized_first = refl

-- The host has another ID than the server was given.
abbrev elsewhere : World
elsewhere = record {
  starts = λ name tran. true;
  provider_found = some (codes "facade");
  gen_id = [];
  lan_registry_runs = false;
  lan_registry_starts = true;
  registry_found = none;
  can_proxy = false;
}

abbrev failed_server : Server
failed_server = add_closer message_queue (record fresh_server { initialized = true })

mismatch : init elsewhere fresh_server ≡ some (true, failed_server)
unfolding init init_networks init_provider_id text_eq
mismatch = refl

init-again_example : init elsewhere failed_server ≡ some (false, failed_server)
init-again_example = init-again elsewhere elsewhere true fresh_server failed_server mismatch

serve_test : serve elsewhere [] fresh_server ≡ not_initialized failed_server
unfolding serve init init_networks init_provider_id text_eq
serve_test = refl
