-- ===== src/Sockets/Examples.antt =====
-- A host with two sockets of this library and a socket directory with one provider.
use adaptiveservice.Prelude.{
  Distinct, words, runs, space_width, is_space, ◌≡◌, refl, sym, subst, ◌↔◌, inl, inr, Bool, true,
  none, some, List, [], ◌∷◌, Text, codes, text_eq, Elem, split, has_byte, has_prefix, has_suffix,
  trim_suffix, index,
}
use adaptiveservice.Wildcard.{wildcard_match}
use adaptiveservice.Wildcard.Glob.{Glob}
use adaptiveservice.Names.{
  ServiceInfo, to_publisher_service_name, from_publisher_service_name, from_uds_addr, base,
}
use adaptiveservice.Client.{has_key}
use adaptiveservice.Sockets.{
  DirEntry, trim_prefix, anon_name, line_addr, anon_sockets, matching_anon, ended_lines,
  lookup_service_uds_anon, lookup_service_uds_dir,
}
use adaptiveservice.Sockets.Anon.{addrs, names, lookup_service_uds_anon_lem}
use adaptiveservice.Sockets.Offers.{stem, Readable, Offers}
use adaptiveservice.Sockets.Dir.{lookup_service_uds_dir_lem}

abbrev proc_net_unix : Text
proc_net_unix =
    codes
      "Num RefCount\n0: 2 0 1 1 1 7 @adaptiveservice/example_hello.sock\n1: 2 0 1 1 1 8 @adaptiveservice/example_hello.sock\n2: 2 0 1 1 1 9 /run/bus\n"

reported :
    lookup_service_uds_anon (some proc_net_unix) (codes "example") (codes "*")
    ≡ codes "@adaptiveservice/example_hello.sock" ∷ []
unfolding lookup_service_uds_anon anon_sockets matching_anon ended_lines split words runs
    space_width is_space line_addr anon_name trim_prefix trim_suffix has_prefix has_suffix index
    text_eq has_key wildcard_match to_publisher_service_name
reported = refl

lookup_service_uds_anon_lem_example :
    let sockets = anon_sockets (ended_lines (split b'\n' proc_net_unix)) in
    let found = lookup_service_uds_anon (some proc_net_unix) (codes "example") (codes "*") in
    (chosen : List (Text × Text)) × (addrs chosen ≡ found)
    × Distinct (names chosen)
    × ((addr name : Text)
        → Elem (addr, name) chosen
        → Elem (addr, name) sockets × Glob (codes "example_*") name)
    × ((addr name : Text)
        → Elem (addr, name) sockets
        → Glob (codes "example_*") name
        → Elem name (names chosen))
unfolding to_publisher_service_name
lookup_service_uds_anon_lem_example =
    lookup_service_uds_anon_lem proc_net_unix (codes "example") (codes "*")

abbrev provider : DirEntry
provider = record {
  name = codes "c0ffee";
  is_dir = true;
  sockets = codes "example_hello.sock" ∷ [];
}

abbrev all_there : Text → Bool
all_there addr = true

named : Readable provider
unfolding has_suffix from_publisher_service_name trim_suffix base from_uds_addr split has_prefix
named = (
  λ h. absurd (cc h),
  λ file z n. elim z [
    | inl e ↦
        let n' = subst (λ f. from_publisher_service_name (stem (codes "c0ffee") f) ≡ none) e n in
        absurd (cc n')
    | inr y ↦ y
  ],
)

provider-Readable : (entry : DirEntry) → Elem entry (provider ∷ []) → Readable entry
provider-Readable entry (inl e) = subst Readable (sym e) named
provider-Readable entry (inr z) = absurd z

lookup_service_uds_dir_lem_example :
    (infos : List ServiceInfo) × (lookup_service_uds_dir
        (provider ∷ [])
        all_there
        none
        (codes "example")
        (codes "*")
        []
      ≡ some infos)
    × ((info : ServiceInfo)
        → Elem info infos ↔ (
            (entry : DirEntry) × Elem entry (provider ∷ [])
            × Offers all_there (codes "example") (codes "*") [] entry info))
unfolding has_byte to_publisher_service_name
lookup_service_uds_dir_lem_example =
    lookup_service_uds_dir_lem all_there none (codes "example") (codes "*") [] (provider ∷ [])
      (inl refl) provider-Readable
