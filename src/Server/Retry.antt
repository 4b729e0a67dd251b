-- ===== src/Server/Retry.antt =====
-- A server whose initialization has failed counts as initialized.
use adaptiveservice.Prelude.{
  ◌≡◌, refl, sym, ap, ◌∙◌, subst, inl, inr, Bool, true, false, Bool-cases, ◌||◌, not, Option, none,
  some, Text, codes, if◌then◌else◌, if_then, if_else,
}
use adaptiveservice.Server.{
  Scope, meet, packet_conn, tcp_transport, Server, Outcome, add_closer, message_queue, lan_registry,
  and_then,
}
use adaptiveservice.Server.Publishing.{start_transports_lem}
use adaptiveservice.Server.Init.{
  World, builtin, local_scope, is_empty, publish_builtin, with_id, init_provider_id,
  publish_lan_registry, init_lan, find_registry, init_wan, when, start_root_registry, init_root,
  proxies, init_services, then_services, init_networks, then_root, init,
}

abbrev pub Keeps : Bool → Outcome → Type 0
Keeps b o = o.1.initialized ≡ b

pub and_then-Keeps :
    (b : Bool) (o : Outcome) (f : Server → Outcome)
    → Keeps b o
    → ((s : Server) → Keeps s.initialized (f s))
    → Keeps b (and_then o f)
and_then-Keeps b (true, s) f k h = k
and_then-Keeps b (false, s) f k h = h s ∙ k

if-Keeps : (b c : Bool) (o o' : Outcome) → Keeps b o → Keeps b o' → Keeps b (if c then o else o')
if-Keeps b true o o' k k' = k
if-Keeps b false o o' k k' = k'

-- If it returns
abbrev pub Returns : Bool → Option Outcome → Type 0
Returns b none = Unit
Returns b (some o) = Keeps b o

if-Returns :
    (b c : Bool) (o o' : Option Outcome)
    → Returns b o
    → Returns b o'
    → Returns b (if c then o else o')
if-Returns b true o o' k k' = k
if-Returns b false o o' k k' = k'

module _ (w : World) where
  publish_builtin-Keeps :
      (scope : Scope) (name : Text) (s : Server)
      → Keeps s.initialized (publish_builtin w scope name s)
  unfolding publish_builtin
  publish_builtin-Keeps scope name s =
      ap (λ o. o.1.initialized)
        (start_transports_lem (w.starts name) builtin name (meet s.scope scope) s)

  pub init_provider_id-Keeps : (s : Server) → Keeps s.initialized (init_provider_id w s)
  unfolding init_provider_id
  init_provider_id-Keeps s =
      elim w.provider_found
        as (λ found.
          Keeps s.initialized (init_provider_id (record w { provider_found = found }) s)) [
            | none ↦ publish_builtin-Keeps local_scope (codes "providerInfo") (with_id w.gen_id s)
            | some id ↦ refl
          ]

  init_lan-Keeps : (s : Server) → Keeps s.initialized (init_lan w s)
  unfolding init_lan publish_lan_registry
  init_lan-Keeps s =
      let b = s.initialized in
      if-Keeps b (not s.scope.lan) _ _ refl (
        if-Keeps b w.lan_registry_runs _ _ refl (
          if-Keeps b (is_empty s.broadcast_port) _ _ refl (
            if-Keeps b w.lan_registry_starts _ _
              (publish_builtin-Keeps local_scope (codes "LANRegistry")
                (add_closer lan_registry (add_closer packet_conn s)))
              refl)))

  find_registry-Keeps : (s : Server) → Keeps s.initialized (find_registry w s)
  unfolding find_registry
  find_registry-Keeps s =
      elim w.registry_found
        as (λ found. Keeps s.initialized (find_registry (record w { registry_found = found }) s)) [
          | none ↦
              if-Keeps s.initialized (is_empty s.registry_addr) _ _ refl
                (publish_builtin-Keeps local_scope (codes "registryInfo") s)
          | some addr ↦ refl
        ]

  init_wan-Keeps : (s : Server) → Keeps s.initialized (init_wan w s)
  unfolding init_wan
  init_wan-Keeps s = if-Keeps s.initialized s.scope.wan _ _ (find_registry-Keeps s) refl

  when-Keeps :
      (b : Bool) (scope : Scope) (name : Text) (s : Server)
      → Keeps s.initialized (when b w scope name s)
  unfolding when
  when-Keeps b scope name s = if-Keeps s.initialized b _ _ (publish_builtin-Keeps scope name s) refl

  init_services-Keeps : (s : Server) → Keeps s.initialized (init_services w s)
  unfolding init_services
  init_services-Keeps s =
      let proxy_scope : Scope = record {
        process = false;
        os = false;
        lan = true;
        wan = s.root_registry;
      } in
      and_then-Keeps s.initialized (when (proxies w s) w proxy_scope (codes "reverseProxy") s) _
        (when-Keeps (proxies w s) proxy_scope (codes "reverseProxy") s)
        (λ s1.
          and_then-Keeps s1.initialized
            (when s1.service_lister w local_scope (codes "serviceLister") s1) _
            (when-Keeps s1.service_lister local_scope (codes "serviceLister") s1)
            (λ s2.
              and_then-Keeps s2.initialized (when s2.ip_observer w s2.scope (codes "IPObserver") s2)
                _ (when-Keeps s2.ip_observer s2.scope (codes "IPObserver") s2)
                (λ s3. when-Keeps s3.msg_tracer s3.scope (codes "messageTracing") s3)))

  init_networks-Keeps : (s : Server) → Keeps s.initialized (init_networks w s)
  unfolding init_networks
  init_networks-Keeps s =
      and_then-Keeps s.initialized
        (if s.scope.lan || s.scope.wan then init_provider_id w s else (false, s)) _
        (if-Keeps s.initialized (s.scope.lan || s.scope.wan) _ _ (init_provider_id-Keeps s) refl)
        (λ s1.
          and_then-Keeps s1.initialized (init_lan w s1) _ (init_lan-Keeps s1)
            (λ s2. init_wan-Keeps s2))

  start_root_registry-Keeps : (s : Server) → Keeps s.initialized (start_root_registry w s)
  unfolding start_root_registry
  start_root_registry-Keeps s =
      if-Keeps s.initialized (w.starts (codes "rootRegistry") tcp_transport) _ _ refl refl

  init_root-Returns : (s : Server) → Returns s.initialized (init_root w s)
  unfolding init_root
  init_root-Returns s = if-Returns s.initialized (not s.root_registry) _ _ refl (
      if-Returns s.initialized (is_empty s.registry_addr) _ _ refl
        (if-Returns s.initialized (not s.scope.wan) none _ tt (start_root_registry-Keeps s)))

  then_services-Returns :
      (b : Bool) (o : Option Outcome) → Returns b o → Returns b (then_services w o)
  then_services-Returns b none r = tt
  then_services-Returns b (some (true, s)) r = r
  then_services-Returns b (some (false, s)) r = init_services-Keeps s ∙ r

  then_root-Returns : (b : Bool) (o : Outcome) → Keeps b o → Returns b (then_root w o)
  then_root-Returns b (true, s) k = k
  then_root-Returns b (false, s) k =
      then_services-Returns b (init_root w s)
        (subst (λ c. Returns c (init_root w s)) k (init_root-Returns s))

  pub init-Returns : (s : Server) → Returns true (init w s)
  unfolding init
  init-Returns s = elim (Bool-cases s.initialized) [
    | inl t ↦ subst (Returns true) (sym (if_then _ _ t)) t
    | inr f ↦ subst (Returns true) (sym (if_else _ _ f)) (
        let begun = add_closer message_queue (record s { initialized = true }) in
        then_root-Returns true (init_networks w begun) (init_networks-Keeps begun))
  ]

-- Once init has returned, be it with an error, whose rest it has then left out, it returns without
-- one from then on and does nothing.
pub init-again :
    (w w' : World) (failed : Bool) (s s' : Server)
    → init w s ≡ some (failed, s')
    → init w' s' ≡ some (false, s')
unfolding init
init-again w w' failed s s' e =
    let t : s'.initialized ≡ true = subst (Returns true) e (init-Returns w s) in if_then _ _ t
