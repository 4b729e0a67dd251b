-- ===== src/Server/Publish.antt =====
-- Publish, PublishIn and Serve of server.go, which initialize the server first.
use adaptiveservice.Prelude.{◌≡◌, Bool, true, false, Option, none, some, List, Text, if◌then◌else◌}
use adaptiveservice.Names.{check_name_convention}
use adaptiveservice.Server.{
  Scope, meet, Server, Outcome, and_then, start_transports, ErrorRecover, serve_loop,
}
use adaptiveservice.Server.Init.{World, init_provider_id, init}
use adaptiveservice.Server.Publishing.{transports, with_started}

abbrev pub initialize : World → Server → Option Outcome
initialize w s = if s.initialized then some (false, s) else init w s

-- A service with a named socket has the ID of its provider in the name.
abbrev pub provider_id_for : Bool → World → Server → Outcome
provider_id_for named_uds w s = if named_uds then init_provider_id w s else (false, s)

-- The rest of publish, if there is no error
abbrev pub then_publish :
    World → (named_uds : Bool) → Scope → Text → Text → Option Outcome → Option Outcome
then_publish w named_uds scope publisher_name service_name none = none
then_publish w named_uds scope publisher_name service_name (some (true, s)) = some (true, s)
then_publish w named_uds scope publisher_name service_name (some (false, s)) = some (
    and_then (provider_id_for named_uds w s) (λ s'.
      start_transports (w.starts service_name) (meet s.scope scope) publisher_name service_name s'))

-- w is what init finds, w' is what is there after it; none: it panics.
unfoldable pub publish :
    (w w' : World)
    → (named_uds : Bool) → Scope
    → (publisher_name service_name : Text) → Server
    → Option Outcome
publish w w' named_uds scope publisher_name service_name s =
    then_publish w' named_uds scope publisher_name service_name (initialize w s)

unfoldable pub publish_in : (w w' : World) → Bool → Scope → Text → Server → Option Outcome
unfolding publish
publish_in w w' named_uds scope service_name s =
    if check_name_convention service_name
    then publish w w' named_uds scope s.publisher service_name s
    else none

unfoldable pub publish_all : (w w' : World) → Bool → Text → Server → Option Outcome
unfolding publish_in
publish_all w w' named_uds service_name s = publish_in w w' named_uds s.scope service_name s

-- What Serve does: it panics, returns the error of init, or is in its loop or returns from that.
pub data Served : Type 0 where
  panics : Served
  not_initialized : Server → Served
  looped : Option (Option Text × Server) → Served

abbrev then_serve : List ErrorRecover → Option Outcome → Served
then_serve errors none = panics
then_serve errors (some (true, s)) = not_initialized s
then_serve errors (some (false, s)) = looped (serve_loop errors s)

unfoldable pub serve : World → List ErrorRecover → Server → Served
serve w errors s = then_serve errors (initialize w s)

module _ (w w' : World) (named_uds : Bool) (scope : Scope)
    (publisher_name service_name : Text) where
  -- What publish gives after the provider ID is set, for a server that had the scope before it.
  abbrev pub Starts : (own : Scope) → Outcome → Option Outcome → Type 0
  Starts own (true, s) published = published ≡ some (true, s)
  Starts own (false, s) published =
      published
      ≡ some (
          with_started (w'.starts service_name) publisher_name service_name
            (transports (meet own scope)) s)

  -- What publish gives after init.
  abbrev pub Publishes : Option Outcome → Option Outcome → Type 0
  Publishes none published = published ≡ none
  Publishes (some (true, s)) published = published ≡ some (true, s)
  Publishes (some (false, s)) published = Starts s.scope (provider_id_for named_uds w' s) published
