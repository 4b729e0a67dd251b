-- ===== src/Sockets.antt =====
-- The services of the operating system, registry.go: lookupServiceUDSAnon over the text of
-- /proc/net/unix, lookupServiceUDSDir over the entries of the socket directory, queryServiceOS, and
-- the filter of lookupServiceLAN. What the file system answers is an argument.
pub mod Words
pub mod Anon
pub mod Offers
pub mod Dir
mod Examples
use adaptiveservice.Prelude.{
  ℕ, ◌==◌, Bool, true, false, ◌&&◌, ◌||◌, not, Option, none, some, List, [], ◌∷◌, ◌++◌, Text, codes,
  text_eq, has_prefix, has_suffix, trim_suffix, has_byte, index, split, words, drop, length, keep,
  if◌then◌else◌, ◌>>=◌,
}
use adaptiveservice.Wildcard.{star, wildcard_match}
use adaptiveservice.Names.{
  ServiceInfo, slash, sock, uds_registry_anon, uds_registry_dir, to_publisher_service_name,
  from_publisher_service_name, to_uds_addr, from_uds_addr, base,
}
use adaptiveservice.Client.{self, has_key, match_provider}

-- strings.TrimPrefix
unfoldable pub trim_prefix : Text → Text → Text
unfolding has_prefix
trim_prefix s prefix = if has_prefix s prefix then drop (length prefix) s else s

abbrev pub contains : Text → Text → Bool
contains s sub = elim (index s sub) [ none ↦ false | some _ ↦ true ]

-- The name of an anonymous socket by its address, if it is one of this library's.
unfoldable pub anon_name : Text → Option Text
unfolding trim_prefix trim_suffix index
anon_name addr =
    if contains addr uds_registry_anon
    then some (trim_suffix (trim_prefix addr uds_registry_anon) sock)
    else none

-- The address in a line of /proc/net/unix, its eighth field.
unfoldable pub line_addr : List Text → Option Text
line_addr (_ ∷ _ ∷ _ ∷ _ ∷ _ ∷ _ ∷ _ ∷ addr ∷ []) = some addr
line_addr _ = none

-- The addresses of this library in the lines, each with its name.
unfoldable pub anon_sockets : List Text → List (Text × Text)
unfolding words line_addr anon_name
anon_sockets [] = []
anon_sockets (line ∷ lines) =
    let rest = anon_sockets lines in
    elim (line_addr (words line)) [
      | none ↦ rest
      | some addr ↦ elim (anon_name addr) [ none ↦ rest | some name ↦ (addr, name) ∷ rest ]
    ]

-- The loop over the sockets, with the names that it has met.
unfoldable pub matching_anon : Text → List (Text × Text) → List Text → List Text
unfolding has_key
matching_anon t_name [] seen = []
matching_anon t_name ((addr, name) ∷ sockets) seen =
    let has = has_key name seen in
    let rest = matching_anon t_name sockets (if has then seen else name ∷ seen) in
    if has then rest else if wildcard_match t_name name then addr ∷ rest else rest

-- All lines that end, but the first.
unfoldable pub ended_lines : Text × List Text → List Text
ended_lines (line, []) = []
ended_lines (line, l ∷ []) = []
ended_lines (line, l ∷ m ∷ ls) = l ∷ ended_lines (l, m ∷ ls)

-- content: that of /proc/net/unix, or none if it cannot be read.
unfoldable pub lookup_service_uds_anon : Option Text → Text → Text → List Text
unfolding anon_sockets matching_anon ended_lines
lookup_service_uds_anon none publisher_name service_name = []
lookup_service_uds_anon (some content) publisher_name service_name =
    matching_anon (to_publisher_service_name publisher_name service_name)
      (anon_sockets (ended_lines (split b'\n' content))) []

-- An entry of the socket directory; the names of the files *.sock in it, if it is a directory.
pub record DirEntry : Type 0 where
  pub name : Text
  pub is_dir : Bool
  pub sockets : List Text

-- The items of f at all entries; none: f panics at one.
module _ {A : Type 0} where
  unfoldable pub collect : (A → Option (List ServiceInfo)) → List A → Option (List ServiceInfo)
  collect f [] = some []
  collect f (x ∷ xs) = do infos ← f x; rest ← collect f xs; some (infos ++ rest)

-- udsRegistryDir + providerID + "/" + the socket's file name
abbrev pub socket_path : Text → Text → Text
socket_path provider_id file = uds_registry_dir ++ (provider_id ++ (slash ∷ file))

-- A socket in a provider's directory, for a pattern.
unfoldable pub dir_socket : Text → Text → Text → Option (List ServiceInfo)
dir_socket t_name provider_id file =
    let name = trim_suffix (base (socket_path provider_id file)) sock in
    let named : Option (List ServiceInfo) = from_publisher_service_name name >>= λ (p_name, s_name).
    some (
      record {
        publisher = p_name;
        service = s_name;
        provider_id = provider_id;
        addr = socket_path provider_id file;
      }
      ∷ []) in
    if wildcard_match t_name name then named else some []

-- A file of the socket directory.
unfoldable pub shared_socket : Text → Text → Option (List ServiceInfo)
shared_socket t_name e_name =
    let named : Option (List ServiceInfo) = from_uds_addr e_name >>= λ (p_name, s_name). some (
      if wildcard_match t_name (to_publisher_service_name p_name s_name)
      then record {
        publisher = p_name;
        service = s_name;
        provider_id = self;
        addr = uds_registry_dir ++ e_name;
      }
        ∷ []
      else []) in
    if has_suffix e_name sock then named else some []

-- A provider's directory; stat says which addresses are there.
unfoldable pub provider_dir : (Text → Bool) → Text → Text → DirEntry → Option (List ServiceInfo)
unfolding collect dir_socket
provider_dir stat publisher_name service_name entry =
    let t_name = to_publisher_service_name publisher_name service_name in
    let addr = to_uds_addr publisher_name service_name true entry.name in
    if has_byte star t_name
    then collect (dir_socket t_name entry.name) entry.sockets
    else some (
        if stat addr
        then record {
          publisher = publisher_name;
          service = service_name;
          provider_id = entry.name;
          addr = addr;
        }
          ∷ []
        else [])

unfoldable pub dir_entry :
    (Text → Bool) → Text → Text → List Text → DirEntry → Option (List ServiceInfo)
unfolding provider_dir shared_socket
dir_entry stat publisher_name service_name provider_ids entry =
    if entry.is_dir
    then (if match_provider provider_ids entry.name
        then provider_dir stat publisher_name service_name entry
        else some [])
    else shared_socket (to_publisher_service_name publisher_name service_name) entry.name

-- self_id: the host's own provider ID, if it is known; the error of os.Stat is one of a missing file.
unfoldable pub own_socket : (Text → Bool) → Option Text → Text → Text → List ServiceInfo
own_socket stat self_id publisher_name service_name =
    let id : Text = elim self_id [ none ↦ codes "NA" | some id ↦ id ] in
    let addr = to_uds_addr publisher_name service_name true id in
    if stat addr
    then record {
      publisher = publisher_name;
      service = service_name;
      provider_id = self;
      addr = addr;
    }
      ∷ []
    else []

unfoldable pub lookup_service_uds_dir :
    List DirEntry
    → (Text → Bool)
    → Option Text
    → Text
    → Text
    → List Text
    → Option (List ServiceInfo)
unfolding own_socket dir_entry collect
lookup_service_uds_dir [] stat self_id publisher_name service_name provider_ids = some []
lookup_service_uds_dir (e ∷ es) stat self_id publisher_name service_name provider_ids =
    let all = collect (dir_entry stat publisher_name service_name provider_ids) (e ∷ es) in
    let own : Option (List ServiceInfo) =
      some (own_socket stat self_id publisher_name service_name) in
    if has_byte star (to_publisher_service_name publisher_name service_name)
    then all
    else (elim provider_ids [ [] ↦ own | _ ∷ _ ↦ all ])

-- The service at an anonymous address.
unfoldable pub anon_info : Text → Option (List ServiceInfo)
anon_info addr = do
  (p_name, s_name) ← from_uds_addr addr
  some (record { publisher = p_name; service = s_name; provider_id = self; addr = addr } ∷ [])

unfoldable pub query_service_os :
    Option Text
    → List DirEntry
    → (Text → Bool)
    → Option Text
    → Text
    → Text
    → Option (List ServiceInfo)
unfolding anon_info collect
query_service_os content entries stat self_id publisher_name service_name = do
  anons ← collect anon_info (lookup_service_uds_anon content publisher_name service_name)
  dirs ← lookup_service_uds_dir entries stat self_id publisher_name service_name []
  some (anons ++ dirs)

-- lookupServiceLAN, of what the LAN registry answered.
unfoldable pub lookup_service_lan : List ServiceInfo → List Text → List ServiceInfo
lookup_service_lan available provider_ids =
    keep (λ si. match_provider provider_ids si.provider_id) available
