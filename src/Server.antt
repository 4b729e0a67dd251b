-- ===== src/Server.antt =====
-- The server of server.go: canHandle, the transports that publish starts, the loop of Serve and
-- doClose; its children have init, then Publish, PublishIn and Serve. Whether a transport can be
-- started is an argument; a transport and the message queue are closers.
pub mod Publishing
pub mod Closing
pub mod Init
pub mod Retry
pub mod Publish
mod Examples
use adaptiveservice.Prelude.{
  ℕ, ◌==◌, Bool, true, false, ◌&&◌, ◌||◌, Option, none, some, List, [], ◌∷◌, ◌++◌, Text,
  if◌then◌else◌,
}

-- The bits of a Scope
pub record Scope : Type 0 where
  pub process : Bool
  pub os : Bool
  pub lan : Bool
  pub wan : Bool

-- s & t
abbrev pub meet : Scope → Scope → Scope
meet s t = record {
  process = s.process && t.process;
  os = s.os && t.os;
  lan = s.lan && t.lan;
  wan = s.wan && t.wan;
}

pub data Transport : Type 0 where
  chan_transport : Transport
  uds_transport : Transport
  tcp_transport : Transport

-- What is closed with the server: its queue, its LAN registry and the socket for that, or a transport of
-- a service, by its two names.
pub data Closer : Type 0 where
  message_queue : Closer
  packet_conn : Closer
  lan_registry : Closer
  transport : Transport → (publisher_name service_name : Text) → Closer

-- The errors that the loop of Serve gets: noError, one that it recovers from, one that it does not.
pub data ErrorRecover : Type 0 where
  no_error : ErrorRecover
  recovered : (error : Text) → ErrorRecover
  not_recovered : (error : Text) → ErrorRecover

-- closers: none after the server is closed; done: what doClose has closed.
pub record Server : Type 0 where
  pub scope : Scope
  pub publisher : Text
  pub msg_type_check : Bool
  pub provider_id : Text
  pub registry_addr : Text
  pub broadcast_port : Text
  pub root_registry : Bool
  pub auto_reverse_proxy : Bool
  pub service_lister : Bool
  pub ip_observer : Bool
  pub msg_tracer : Bool
  pub initialized : Bool
  pub closers : List Closer
  pub done : List Closer
  pub closed : Bool

-- A service handles messages whose types it knows, by their numbers; known: Handle is implemented.
unfoldable pub knows : ℕ → List ℕ → Bool
knows tp [] = false
knows tp (t ∷ ts) = tp == t || knows tp ts

unfoldable pub can_handle :
    (msg_type_check : Bool) (known_msg_types : List ℕ) (known_message : Bool) → ℕ → Bool
unfolding knows
can_handle msg_type_check known_msg_types false tp = false
can_handle true known_msg_types true tp = knows tp known_msg_types
can_handle false known_msg_types true tp = true

abbrev pub add_closer : Closer → Server → Server
add_closer c s = record s { closers = s.closers ++ (c ∷ []) }

-- An error, if there is one, and the server.
abbrev pub Outcome : Type 0
Outcome = Bool × Server

-- The next step, if there is no error.
abbrev pub and_then : Outcome → (Server → Outcome) → Outcome
and_then (true, s) f = (true, s)
and_then (false, s) f = f s

-- A transport that is wanted is started, which may fail.
unfoldable pub start_transport :
    (Transport → Bool) → Bool → Transport → Text → Text → Server → Outcome
start_transport starts wanted tran publisher_name service_name s =
    if wanted
    then (if starts tran
        then (false, add_closer (transport tran publisher_name service_name) s)
        else (true, s))
    else (false, s)

-- The last part of publish, for its adjusted scope
unfoldable pub start_transports : (Transport → Bool) → Scope → Text → Text → Server → Outcome
unfolding start_transport
start_transports starts scope publisher_name service_name s =
    and_then (start_transport starts scope.process chan_transport publisher_name service_name s)
      (λ s1.
        and_then (start_transport starts scope.os uds_transport publisher_name service_name s1)
          (λ s2.
            start_transport starts (scope.lan || scope.wan) tcp_transport publisher_name
              service_name s2))

-- doClose
unfoldable pub do_close : Server → Server
do_close s = elim s.closers [
  | [] ↦ s
  | c ∷ cs ↦ record s { closers = []; done = s.done ++ (c ∷ cs); closed = true }
]

-- The loop of Serve over the errors that come in: none as long as it waits for the next one, or what
-- Serve returns, its error if it is one.
unfoldable pub serve_loop : List ErrorRecover → Server → Option (Option Text × Server)
unfolding do_close
serve_loop [] s = none
serve_loop (no_error ∷ es) s = some (none, do_close s)
serve_loop (recovered e ∷ es) s = serve_loop es s
serve_loop (not_recovered e ∷ es) s = some (some e, do_close s)
