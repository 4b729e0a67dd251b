-- ===== src/Names/Examples.antt =====
-- The names of README's hello example.
use adaptiveservice.Prelude.{◌≡◌, refl, ◌↔◌, true, false, some, none, codes, has_byte, []}
use adaptiveservice.Names.{
  underscore, to_publisher_service_name, from_publisher_service_name, to_uds_addr, from_uds_addr,
  check_name_convention,
}
use adaptiveservice.Names.RoundTrip.{from_publisher_service_name_iff, from-to_uds_addr}

hello_addr :
    to_uds_addr (codes "example") (codes "hello") false []
    ≡ codes "@adaptiveservice/example_hello.sock"
unfolding to_uds_addr
hello_addr = refl

bad_name : from_publisher_service_name (codes "a_b_c") ≡ none
unfolding from_publisher_service_name
bad_name = refl

from_publisher_service_name_iff_example :
    (from_publisher_service_name (codes "example_hello") ≡ some (codes "example", codes "hello"))
    ↔ ((codes "example_hello" ≡ to_publisher_service_name (codes "example") (codes "hello"))
        × (has_byte underscore (codes "example") ≡ false)
        × (has_byte underscore (codes "hello") ≡ false))
from_publisher_service_name_iff_example =
    from_publisher_service_name_iff (codes "example_hello") (codes "example") (codes "hello")

from-to_uds_addr_example :
    from_uds_addr (to_uds_addr (codes "example") (codes "hello") true (codes "c0ffee"))
    ≡ some (codes "example", codes "hello")
unfolding check_name_convention
from-to_uds_addr_example =
    from-to_uds_addr (codes "example") (codes "hello") true (codes "c0ffee") refl refl
