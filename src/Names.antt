-- ===== src/Names.antt =====
-- Service names and the addresses of unix domain sockets: toPublisherServiceName,
-- fromPublisherServiceName, toUDSAddr and fromUDSAddr of registry.go, checkNameConvention of
-- server.go.
pub mod RoundTrip
mod Examples
use adaptiveservice.Prelude.{
  ℕ, ◌==◌, Bool, true, false, ◌&&◌, ◌||◌, not, Option, none, some, List, [], ◌∷◌, ◌++◌, Text, codes,
  text_eq, trim_suffix, has_byte, split, if◌then◌else◌,
}

abbrev pub underscore : ℕ
underscore = b'_'

abbrev pub slash : ℕ
slash = b'/'

abbrev pub builtin_publisher : Text
builtin_publisher = codes "builtin"

abbrev pub uds_registry_anon : Text
uds_registry_anon = codes "@adaptiveservice/"

abbrev pub uds_registry_dir : Text
uds_registry_dir = codes "/tmp/adaptiveservice/sockets/"

abbrev pub sock : Text
sock = codes ".sock"

unfoldable pub to_publisher_service_name : Text → Text → Text
to_publisher_service_name publisher_name service_name =
    publisher_name ++ (underscore ∷ service_name)

two_parts : Text × List Text → Option (Text × Text)
two_parts (p, s ∷ []) = some (p, s)
two_parts _ = none

-- none: the function panics.
unfoldable pub from_publisher_service_name : Text → Option (Text × Text)
unfolding two_parts split
from_publisher_service_name name = two_parts (split underscore name)

unfoldable pub to_uds_addr : Text → Text → Bool → Text → Text
unfolding text_eq to_publisher_service_name
to_uds_addr publisher_name service_name use_named_uds id =
    (if use_named_uds
      then (if text_eq id [] then uds_registry_dir else uds_registry_dir ++ (id ++ (slash ∷ [])))
      else uds_registry_anon)
    ++ (to_publisher_service_name publisher_name service_name ++ sock)

trim_slashes : Text → Text
unfolding text_eq
trim_slashes [] = []
trim_slashes (c ∷ cs) =
    let rest = trim_slashes cs in if text_eq rest [] && c == slash then [] else c ∷ rest

last_of : Text → List Text → Text
last_of p [] = p
last_of p (q ∷ qs) = last_of q qs

-- filepath.Base
unfoldable pub base : Text → Text
unfolding trim_slashes last_of split text_eq
base path =
    let trimmed = trim_slashes path in
    let (p, ps) = split slash trimmed in
    if text_eq path [] then codes "." else if text_eq trimmed [] then slash ∷ [] else last_of p ps

unfoldable pub from_uds_addr : Text → Option (Text × Text)
unfolding base trim_suffix from_publisher_service_name
from_uds_addr addr = from_publisher_service_name (trim_suffix (base addr) sock)

-- The bytes that checkNameConvention forbids.
unfoldable pub is_reserved : ℕ → Bool
is_reserved c = c == underscore || c == slash || c == b' ' || c == b'\n' || c == b'\r' || c == b'\t'

-- true: no error.
unfoldable pub check_name_convention : Text → Bool
unfolding is_reserved
check_name_convention [] = true
check_name_convention (c ∷ cs) = not (is_reserved c) && check_name_convention cs

-- ServiceInfo
pub record ServiceInfo : Type 0 where
  pub publisher : Text
  pub service : Text
  pub provider_id : Text
  pub addr : Text
