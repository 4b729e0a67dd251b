-- ===== src/ProcessRegistry.antt =====
-- The services of one process: chanRegistry of registry.go with regServiceChan, delServiceChan,
-- serviceNamesInProcess, queryServiceProcess and lookupServiceChan. Each function runs as one step;
-- the table that serviceNamesInProcess ranges over does not change under it.
pub mod Query
mod Examples
use adaptiveservice.Prelude.{
  ℕ, Bool, true, false, Option, none, some, List, [], ◌∷◌, Text, codes, text_key, Map, lookup,
  insert, remove, keys, keep, has_byte, if◌then◌else◌, ◌>>=◌,
}
use adaptiveservice.Wildcard.{star, wildcard_match}
use adaptiveservice.Names.{ServiceInfo, to_publisher_service_name, from_publisher_service_name}

-- chanTransport, with the names of its service and an identity for its channels.
pub record ChanTransport : Type 0 where
  pub publisher_name : Text
  pub service_name : Text
  pub chan : ℕ

abbrev pub ChanTable : Type 0
ChanTable = Map Text ChanTransport

-- none: the function panics, since the name is taken.
unfoldable pub reg_service_chan : Text → Text → ChanTransport → ChanTable → Option ChanTable
unfolding lookup
reg_service_chan publisher_name service_name ct table =
    let name = to_publisher_service_name publisher_name service_name in
    elim (lookup name table) [ none ↦ some (insert name ct table) | some _ ↦ none ]

unfoldable pub del_service_chan : Text → Text → ChanTable → ChanTable
del_service_chan publisher_name service_name table =
    remove (to_publisher_service_name publisher_name service_name) table

unfoldable pub service_names_in_process : Text → Text → ChanTable → List Text
service_names_in_process publisher_name service_name table =
    let name = to_publisher_service_name publisher_name service_name in
    let exact : List Text = elim (lookup name table) [ none ↦ [] | some _ ↦ name ∷ [] ] in
    if has_byte star name then keep (wildcard_match name) (keys table) else exact

-- none: fromPublisherServiceName panics on one of the names.
unfoldable pub infos_of_names : List Text → Option (List ServiceInfo)
infos_of_names [] = some []
infos_of_names (name ∷ names) = do
  (p_name, s_name) ← from_publisher_service_name name
  infos ← infos_of_names names
  some (
      record {
        publisher = p_name;
        service = s_name;
        provider_id = codes "self";
        addr = codes "internal";
      }
      ∷ infos)

unfoldable pub query_service_process : Text → Text → ChanTable → Option (List ServiceInfo)
unfolding service_names_in_process infos_of_names
query_service_process publisher_name service_name table =
    infos_of_names (service_names_in_process publisher_name service_name table)

transports : List Text → ChanTable → List ChanTransport
transports [] table = []
transports (name ∷ names) table =
    let rest = transports names table in
    elim (lookup name table) [ none ↦ rest | some ct ↦ ct ∷ rest ]

unfoldable pub lookup_service_chan : Text → Text → ChanTable → List ChanTransport
unfolding service_names_in_process transports
lookup_service_chan publisher_name service_name table =
    transports (service_names_in_process publisher_name service_name table) table
