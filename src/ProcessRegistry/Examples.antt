-- ===== src/ProcessRegistry/Examples.antt =====
-- A process with the hello service.
use adaptiveservice.Prelude.{
  has_byte, insert, ◌≡◌, refl, ◌↔◌, none, some, List, [], ◌∷◌, Text, text_key, codes, lookup, Elem,
  text_eq, if◌then◌else◌, inl, inr,
}
use adaptiveservice.Wildcard.{wildcard_match}
use adaptiveservice.Wildcard.Glob.{Glob}
use adaptiveservice.Names.{
  ServiceInfo, to_publisher_service_name, from_publisher_service_name, check_name_convention,
}
use adaptiveservice.ProcessRegistry.{
  ChanTransport, ChanTable, reg_service_chan, del_service_chan, query_service_process,
}
use adaptiveservice.ProcessRegistry.Query.{
  WellNamed, self_info, query_service_process_lem, reg_service_chan-WellNamed,
  reg-del-reg_service_chan,
}

abbrev hello : ChanTransport
hello = record { publisher_name = codes "example"; service_name = codes "hello"; chan = 1 }

abbrev table : ChanTable
table = (codes "example_hello", hello) ∷ []

abbrev found : List ServiceInfo
found = self_info (codes "example") (codes "hello") ∷ []

query_all : query_service_process (codes "*") (codes "*") table ≡ some found
unfolding query_service_process has_byte to_publisher_service_name wildcard_match
    from_publisher_service_name
query_all = refl

empty-WellNamed : WellNamed []
empty-WellNamed n h = absurd h

registered : reg_service_chan (codes "example") (codes "hello") hello [] ≡ some table
unfolding reg_service_chan to_publisher_service_name insert
registered = refl

reg_service_chan-WellNamed_example : WellNamed table
unfolding check_name_convention
reg_service_chan-WellNamed_example =
    reg_service_chan-WellNamed (codes "example") (codes "hello") hello [] table refl refl
      empty-WellNamed registered

table-WellNamed : WellNamed table
unfolding from_publisher_service_name
table-WellNamed n (inl e) = (codes "example", codes "hello", rw e refl)
table-WellNamed n (inr z) = absurd z

query_service_process_lem_example :
    (infos : List ServiceInfo) × (query_service_process (codes "*") (codes "*") table ≡ some infos)
    × ((p' s' : Text)
        → Elem (self_info p' s') infos ↔ (
            (n : Text) × (((ct : ChanTransport) × (lookup n table ≡ some ct))
              × Glob (to_publisher_service_name (codes "*") (codes "*")) n)
            × (from_publisher_service_name n ≡ some (p', s'))))
query_service_process_lem_example =
    query_service_process_lem (codes "*") (codes "*") table table-WellNamed

reg-del-reg_service_chan_example :
    (reg_service_chan (codes "example") (codes "hello") hello table ≡ none)
    × ((again : ChanTable) × (reg_service_chan
            (codes "example")
            (codes "hello")
            hello
            (del_service_chan (codes "example") (codes "hello") table)
          ≡ some again)
        × ((n : Text)
            → lookup n again ≡ (
                if text_eq (to_publisher_service_name (codes "example") (codes "hello")) n
                then some hello
                else lookup n [])))
reg-del-reg_service_chan_example =
    reg-del-reg_service_chan (codes "example") (codes "hello") hello hello [] table registered
