-- ===== src/Server/Publishing.antt =====
-- The transports that publish starts.
use adaptiveservice.Prelude.{
  ◌≡◌, refl, sym, ap, ◌∙◌, Bool, true, false, ◌||◌, List, [], ◌∷◌, ◌++◌, append_assoc, append-nil,
  Text, Bool-cases, inl, inr, if◌then◌else◌,
}
use adaptiveservice.Server.{
  Scope, Transport, chan_transport, uds_transport, tcp_transport, Closer, transport, Server,
  Outcome, add_closer, and_then, start_transport, start_transports,
}

-- The transports of a scope, in their order.
abbrev pub when_wanted : Bool → Transport → List Transport
when_wanted b tran = elim b [ true ↦ tran ∷ [] | false ↦ [] ]

abbrev pub transports : Scope → List Transport
transports scope =
    when_wanted scope.process chan_transport
    ++ (when_wanted scope.os uds_transport ++ when_wanted (scope.lan || scope.wan) tcp_transport)

module _ (starts : Transport → Bool) (publisher_name service_name : Text) where
  -- Those before the first that does not start, and whether there is one.
  unfoldable pub started : List Transport → List Closer
  started [] = []
  started (t ∷ ts) =
      let rest = started ts in
      if starts t then transport t publisher_name service_name ∷ rest else []

  unfoldable pub some_fails : List Transport → Bool
  some_fails [] = false
  some_fails (t ∷ ts) = let rest = some_fails ts in if starts t then rest else true

  abbrev pub with_started : List Transport → Server → Outcome
  with_started ts s = (some_fails ts, record s { closers = s.closers ++ started ts })

  start_one :
      (wanted : Bool) (tran : Transport) (rest : List Transport) (s : Server) (f : Server → Outcome)
      → ((s' : Server) → f s' ≡ with_started rest s')
      → and_then (start_transport starts wanted tran publisher_name service_name s) f
        ≡ with_started (when_wanted wanted tran ++ rest) s
  unfolding start_transport started some_fails
  start_one false tran rest s f h = h s
  start_one true tran rest s f h =
      let new = transport tran publisher_name service_name in
      elim (Bool-cases (starts tran)) [
        | inl t ↦ rw t (
            h (add_closer new s)
            ∙ ap (λ l. (some_fails rest, record s { closers = l }))
                (append_assoc s.closers (new ∷ []) (started rest)))
        | inr n ↦ rw n (ap (λ l. (true, record s { closers = l })) (sym (append-nil s.closers)))
      ]

  start_last :
      (wanted : Bool) (tran : Transport) (s : Server)
      → start_transport starts wanted tran publisher_name service_name s
        ≡ with_started (when_wanted wanted tran) s
  unfolding start_transport started some_fails
  start_last false tran s = ap (λ l. (false, record s { closers = l })) (sym (append-nil s.closers))
  start_last true tran s = elim (Bool-cases (starts tran)) [
    | inl t ↦ rw t refl
    | inr n ↦ rw n (ap (λ l. (true, record s { closers = l })) (sym (append-nil s.closers)))
  ]

  -- The transports of the scope are started in the order of the process, the operating system and
  -- the network, one for the two kinds of network, up to the first that does not start, which is the
  -- error; the server closes with it those that have started.
  pub start_transports_lem :
      (scope : Scope) (s : Server)
      → start_transports starts scope publisher_name service_name s
        ≡ with_started (transports scope) s
  unfolding start_transports
  start_transports_lem m s =
      start_one m.process chan_transport
        (when_wanted m.os uds_transport ++ when_wanted (m.lan || m.wan) tcp_transport) s _
        (λ s1.
          start_one m.os uds_transport (when_wanted (m.lan || m.wan) tcp_transport) s1 _
            (λ s2. start_last (m.lan || m.wan) tcp_transport s2))
