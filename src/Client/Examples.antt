-- ===== src/Client/Examples.antt =====
-- Discover on one service that starts late, and the properties at it.
use adaptiveservice.Prelude.{
  ℕ, zero, suc, ◌*◌, ◌/◌, ◌≡◌, ◌<◌, ◌≤◌, refl, true, none, some, [], ◌∷◌, Text, codes, length,
  arith, ◌⊎◌, text_eq, has_byte,
}
use adaptiveservice.Names.{ServiceInfo}
use adaptiveservice.Client.{
  uds_connection, Discovery, Round, discover_round, discover_loop, expected, nothing_found,
  discover, try_candidate, try_candidates, find_within_os, find_network, select_and_connect,
  connect, connect_addr, get_addrs, has_key, reached, search_self, has_star,
}
use adaptiveservice.Client.Keys.{Fresh}
use adaptiveservice.Client.Spec.{all_keys, all_connections}
use adaptiveservice.Client.Discover.{Finds, discover_round_lem}
use adaptiveservice.Client.Loop.{found_in, discover_lem}

abbrev wanted : Discovery
wanted = record {
  publisher = codes "p";
  service = codes "s";
  provider_ids = [];
  provider_id = codes "me";
  scope_process = true;
  scope_os = true;
  scope_lan = true;
  scope_wan = true;
}

abbrev at_socket : Text → ServiceInfo
at_socket addr = record {
  publisher = codes "p";
  service = codes "s";
  provider_id = codes "me";
  addr = addr;
}

abbrev quiet : Round
quiet = record {
  chans = [];
  uds_anon = [];
  uds_dir = [];
  lan = [];
  wan = none;
  dials = (λ addr. true);
  select = (λ addrs. addrs);
}

-- The service answers from the second turn on, in two scopes at once.
abbrev late : ℕ → Round
late zero = quiet
late (suc n) = record quiet {
  uds_dir = at_socket (codes "a.sock") ∷ [];
  lan = at_socket (codes "10.0.0.1:1") ∷ [];
}

late_test : discover wanted late 3 1000 ≡ uds_connection (codes "a.sock") ∷ []
unfolding discover discover_loop discover_round find_within_os find_network try_candidates
    try_candidate search_self select_and_connect connect connect_addr get_addrs has_key reached
    expected has_star has_byte text_eq
late_test = refl

early_test : discover wanted late 0 1000 ≡ []
unfolding discover discover_loop discover_round find_within_os find_network try_candidates
    try_candidate search_self select_and_connect connect connect_addr get_addrs has_key reached
    expected has_star has_byte text_eq
early_test = refl

discover_round_lem_example :
    Finds
      (some 1)
      (all_connections wanted (late 1) [])
      nothing_found
      (discover_round wanted (late 1) (some 1) nothing_found)
    × Fresh [] (all_keys wanted (late 1) [])
discover_round_lem_example = discover_round_lem wanted (late 1) (some 1) nothing_found (omega arith)

discover_lem_example :
    (k : ℕ) × k ≤ 3 * 1000 / 1000
    × (discover wanted late 3 1000 ≡ found_in wanted late k)
    × ((j : ℕ) → j < k → found_in wanted late j ≡ [])
    × ((k ≡ 3 * 1000 / 1000) ⊎ (0 < length (discover wanted late 3 1000)))
discover_lem_example = discover_lem wanted late 3 1000
