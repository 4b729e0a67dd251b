-- ===== src/Client/Loop.antt =====
-- The loop of Discover: it waits for the first turn that finds a connection, until the timeout.
use adaptiveservice.Prelude.{
  ℕ, zero, suc, ◌+◌, ◌*◌, ◌/◌, ◌≡◌, ◌<◌, ◌≤◌, refl, sym, ap, ◌∙◌, subst, ◌||◌, Option, some, List,
  [], ◌∷◌, ◌++◌, Text, length, arith, Bool-cases, ◌⊎◌, inl, inr, has_byte,
}
use adaptiveservice.Wildcard.{star}
use adaptiveservice.Client.{
  Connection, Discovery, Round, Finding, discover_round, discover_loop, expected, has_star,
  nothing_found, discover,
}
use adaptiveservice.Client.Spec.{limit, all_connections}
use adaptiveservice.Client.Found.{Room}
use adaptiveservice.Client.Discover.{discover_round-Finds}

-- The variables after so many turns.
unfoldable pub after_turns : Discovery → (ℕ → Round) → Option ℕ → ℕ → Finding
after_turns d rounds expect zero = nothing_found
after_turns d rounds expect (suc k) =
    discover_round d (rounds k) expect (after_turns d rounds expect k)

-- What the k-th turn finds.
abbrev pub found_in : Discovery → (ℕ → Round) → ℕ → List Connection
found_in d rounds k =
    limit (expected d)
      (all_connections d (rounds k) (after_turns d rounds (expected d) k).service_list)

expected-Room : (d : Discovery) → Room (expected d) 0
unfolding expected
expected-Room d =
    elim (Bool-cases (has_byte star (d.publisher ++ d.service) || has_star d.provider_ids)) [
      | inl t ↦ rw t tt
      | inr f ↦ rw f (expected_ids d.provider_ids)
    ]
  where
    expected_ids :
        (ids : List Text)
        → Room (elim ids as (λ x. Option ℕ) [ [] ↦ some 1 | _ ∷ _ ↦ some (length ids) ]) 0
    expected_ids [] = omega arith
    expected_ids (x ∷ ids) = omega arith

length-zero : (l : List Connection) → length l ≡ 0 → l ≡ []
length-zero [] h = refl
length-zero (x ∷ l) h = ground (arith, h)

zero-cases : (n : ℕ) → (n ≡ 0) ⊎ ((m : ℕ) × (n ≡ suc m))
zero-cases zero = inl refl
zero-cases (suc m) = inr (m, refl)

le-cases : (n j : ℕ) → n ≤ j → (n ≡ j) ⊎ (suc n ≤ j)
le-cases n j le = omega arith

-- Outcome n timeout g: from the n-th turn on, the loop ends after turn k with g.
abbrev Outcome : Discovery → (ℕ → Round) → ℕ → ℕ → List Connection → Type 0
Outcome d rounds n timeout conns =
    (k : ℕ) × n ≤ k
    × k ≤ n + timeout
    × (conns ≡ found_in d rounds k)
    × ((j : ℕ) → n ≤ j → j < k → found_in d rounds j ≡ [])
    × ((k ≡ n + timeout) ⊎ (0 < length conns))

start_turns :
    (d : Discovery) (rounds : ℕ → Round) → nothing_found ≡ after_turns d rounds (expected d) 0
unfolding after_turns
start_turns d rounds = refl

later-Outcome :
    (d : Discovery) (rounds : ℕ → Round) (n timeout : ℕ) (conns : List Connection)
    → found_in d rounds n ≡ []
    → Outcome d rounds (suc n) timeout conns
    → Outcome d rounds n (suc timeout) conns
later-Outcome d rounds n timeout conns nothing (k, lower, upper, same, before, end) = (
  k,
  omega (arith, lower),
  omega (arith, upper),
  same,
  (λ j le lt. elim (le-cases n j le) [
    | inl e ↦ subst (λ i. found_in d rounds i ≡ []) e nothing
    | inr more ↦ before j more lt
  ]),
  (elim end [ inl e ↦ inl (omega (arith, e)) | inr some_found ↦ inr some_found ]),
)

after_turns-suc :
    (d : Discovery) (rounds : ℕ → Round) (expect : Option ℕ) (k : ℕ)
    → after_turns d rounds expect (suc k)
      ≡ discover_round d (rounds k) expect (after_turns d rounds expect k)
unfolding after_turns
after_turns-suc d rounds expect k = refl

at_zero : (n : ℕ) (a b : Finding) → n ≡ 0 → (elim n as (λ x. Finding) [ zero ↦ a | suc _ ↦ b ]) ≡ a
at_zero n a b h = rw h refl

at_suc :
    (n m : ℕ) (a b : Finding) → n ≡ suc m → (elim n as (λ x. Finding) [ zero ↦ a | suc _ ↦ b ]) ≡ b
at_suc n m a b h = rw h refl

loop-again :
    (d : Discovery) (rounds : ℕ → Round) (expect : Option ℕ) (n timeout : ℕ) (f : Finding)
    → (discover_round d (rounds n) expect f).found ≡ 0
    → discover_loop d rounds expect n (suc timeout) f
      ≡ discover_loop d rounds expect (suc n) timeout (discover_round d (rounds n) expect f)
unfolding discover_loop
loop-again d rounds expect n timeout f h =
    let next = discover_round d (rounds n) expect f in
    at_zero next.found (discover_loop d rounds expect (suc n) timeout next) next h

loop-stop :
    (d : Discovery) (rounds : ℕ → Round) (expect : Option ℕ) (n timeout m : ℕ) (f : Finding)
    → (discover_round d (rounds n) expect f).found ≡ suc m
    → discover_loop d rounds expect n (suc timeout) f ≡ discover_round d (rounds n) expect f
unfolding discover_loop
loop-stop d rounds expect n timeout m f h =
    let next = discover_round d (rounds n) expect f in
    at_suc next.found m (discover_loop d rounds expect (suc n) timeout next) next h

loop-last :
    (d : Discovery) (rounds : ℕ → Round) (expect : Option ℕ) (n : ℕ) (f : Finding)
    → discover_loop d rounds expect n 0 f ≡ discover_round d (rounds n) expect f
unfolding discover_loop
loop-last d rounds expect n f = refl

-- What a turn adds to no connections.
turn-found :
    (d : Discovery) (rounds : ℕ → Round) (n : ℕ) (f : Finding)
    → f ≡ after_turns d rounds (expected d) n
    → f.connections ≡ []
    → ((discover_round d (rounds n) (expected d) f).connections ≡ found_in d rounds n)
      × ((discover_round d (rounds n) (expected d) f).found ≡ length (found_in d rounds n))
turn-found d rounds n f at before =
    let (sent, count) = discover_round-Finds d (rounds n) (expected d) f (expected-Room d) in
    let same = ap (λ g. limit (expected d) (all_connections d (rounds n) g.service_list)) at in
    (
      sent
          ∙ ap (λ l. l ++ limit (expected d) (all_connections d (rounds n) f.service_list)) before
          ∙ same,
      count ∙ ap length same,
    )

loop-Outcome :
    (d : Discovery) (rounds : ℕ → Round) (n timeout : ℕ) (f : Finding)
    → f ≡ after_turns d rounds (expected d) n
    → f.connections ≡ []
    → Outcome d rounds n timeout (discover_loop d rounds (expected d) n timeout f).connections
loop-Outcome d rounds n zero f at before =
    let (here, _) = turn-found d rounds n f at before in
    (
      n,
      omega arith,
      omega arith,
      ap (λ g. g.connections) (loop-last d rounds (expected d) n f) ∙ here,
      (λ j le lt. absurd (omega (arith, le, lt))),
      inl (omega arith),
    )
loop-Outcome d rounds n (suc timeout) f at before =
    let next = discover_round d (rounds n) (expected d) f in
    let (here, count) = turn-found d rounds n f at before in
    elim (zero-cases next.found) [
      | inl none_found ↦
          let nothing : found_in d rounds n ≡ [] =
            length-zero (found_in d rounds n) (sym count ∙ none_found) in
          let at' =
            ap (discover_round d (rounds n) (expected d)) at
            ∙ sym (after_turns-suc d rounds (expected d) n) in
          subst (λ g. Outcome d rounds n (suc timeout) g.connections)
            (sym (loop-again d rounds (expected d) n timeout f none_found))
            (later-Outcome d rounds n timeout
              (discover_loop d rounds (expected d) (suc n) timeout next).connections nothing
              (loop-Outcome d rounds (suc n) timeout next at' (here ∙ nothing)))
      | inr (m, some_found) ↦
          let positive : 0 < length (found_in d rounds n) = omega (arith, count, some_found) in
          subst (λ g. Outcome d rounds n (suc timeout) g.connections)
            (sym (loop-stop d rounds (expected d) n timeout m f some_found))
            (
              n,
              omega arith,
              omega arith,
              here,
              (λ j le lt. absurd (omega (arith, le, lt))),
              inr (subst (λ l. 0 < length l) (sym here) positive),
            )
    ]

-- With a timeout that is not negative, Discover ends, with the connections of one of its first
-- timeout * 1000 / interval + 1 turns: the expected number of the new services that the turn
-- reaches. The turns before it reach none, and it is the last one or it finds a connection.
pub discover_lem :
    (d : Discovery) (rounds : ℕ → Round) (discover_timeout check_interval_ms : ℕ)
    → (k : ℕ) × k ≤ discover_timeout * 1000 / check_interval_ms
      × (discover d rounds discover_timeout check_interval_ms ≡ found_in d rounds k)
      × ((j : ℕ) → j < k → found_in d rounds j ≡ [])
      × ((k ≡ discover_timeout * 1000 / check_interval_ms)
          ⊎ (0 < length (discover d rounds discover_timeout check_interval_ms)))
unfolding discover
discover_lem d rounds discover_timeout check_interval_ms =
    let (k, _, upper, same, before, end) =
      loop-Outcome d rounds 0 (discover_timeout * 1000 / check_interval_ms) nothing_found
        (start_turns d rounds) refl in
    (
      k,
      omega (arith, upper),
      same,
      (λ j lt. before j (omega arith) lt),
      (elim end [ inl e ↦ inl (omega (arith, e)) | inr found ↦ inr found ]),
    )
