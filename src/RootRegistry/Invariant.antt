-- ===== src/RootRegistry/Invariant.antt =====
-- The invariant of the root registry under its handlers.
use adaptiveservice.Prelude.{
  ℕ, ◌≡◌, inl, inr, Bool, true, some, [], Text, text_key, lookup, insert, remove, keys, Distinct,
  arith, Bool-cases, Option-cases, Elem-keys-insert, insert-Distinct, remove-Distinct, All-insert,
  lookup→elem, subst, Elem-keys,
}
use adaptiveservice.Names.{
  to_publisher_service_name, from_publisher_service_name, check_name_convention,
}
use adaptiveservice.Names.RoundTrip.{from-to_publisher_service_name, check_name_convention→}
use adaptiveservice.RootRegistry.{
  ProviderInfo, ProviderMap, ServiceMap, RegServiceInWan, raddr_of, providers_of,
  reg_service_in_wan, del_service_in_wan,
}
use adaptiveservice.RootRegistry.Walk.{All-Elem}
use adaptiveservice.RootRegistry.Check.{IsRegistry}

pub providers_of-Distinct :
    (name : Text) (m : ServiceMap) → IsRegistry m → Distinct (keys (providers_of name m))
providers_of-Distinct name m r = elim (Option-cases (lookup name m)) [
  | inl e ↦ subst (λ l. Distinct (keys l)) (let q : [] ≡ providers_of name m = ground arith in q) tt
  | inr (pmap, e) ↦
      subst (λ l. Distinct (keys l)) (let q : pmap ≡ providers_of name m = ground arith in q)
        (All-Elem _ m (name, pmap) r.providers (lookup→elem name pmap m e))
]

pub insert-IsRegistry :
    (name : Text) (pmap : ProviderMap) (m : ServiceMap)
    → (p : Text) × (s : Text) × (from_publisher_service_name name ≡ some (p, s))
    → Distinct (keys pmap)
    → IsRegistry m
    → IsRegistry (insert name pmap m)
insert-IsRegistry name pmap m named d r = record {
  services = insert-Distinct name pmap m r.services;
  providers = All-insert (λ e. Distinct (keys e.1)) name pmap m r.providers d;
  names = λ n h. elim (Elem-keys-insert n name pmap m h) [
    | inl q ↦ (named.0, named.1, rw q named.2)
    | inr k ↦ r.names n k
  ];
}

-- Registering a service whose names keep the name convention, and deleting any, keep the
-- invariant of the root registry.
pub reg-del-IsRegistry :
    (ping : Text → Bool) (now : ℕ) (rhost : Text) (msg : RegServiceInWan) (p s p_id : Text)
    (m : ServiceMap)
    → check_name_convention msg.publisher ≡ true
    → check_name_convention msg.service ≡ true
    → IsRegistry m
    → IsRegistry (reg_service_in_wan ping now rhost msg m).1
      × IsRegistry (del_service_in_wan p s p_id m)
unfolding reg_service_in_wan del_service_in_wan
reg-del-IsRegistry ping now rhost msg p s p_id m hp hs r = (reg, del)
  where
    name : Text
    name = to_publisher_service_name msg.publisher msg.service

    raddr : Text
    raddr = raddr_of rhost msg.port

    pinfo : ProviderInfo
    pinfo = record { time_stamp = now; addr = raddr; proxied = msg.proxied }

    reg : IsRegistry (reg_service_in_wan ping now rhost msg m).1
    reg = elim (Bool-cases (ping raddr)) [
      | inl t ↦ rw t (
          insert-IsRegistry name (insert msg.provider_id pinfo (providers_of name m)) m
            (
              msg.publisher,
              msg.service,
              from-to_publisher_service_name msg.publisher msg.service
                  (check_name_convention→ msg.publisher hp).0
                  (check_name_convention→ msg.service hs).0,
            )
            (insert-Distinct msg.provider_id pinfo (providers_of name m)
              (providers_of-Distinct name m r))
            r)
      | inr f ↦ rw f r
    ]

    del : IsRegistry (del_service_in_wan p s p_id m)
    del = elim (Option-cases (lookup (to_publisher_service_name p s) m)) [
      | inl e ↦ rw (e, del_service_in_wan) r
      | inr (pmap, e) ↦
          rw (e, del_service_in_wan)
            (insert-IsRegistry (to_publisher_service_name p s) (remove p_id pmap) m
              (r.names (to_publisher_service_name p s)
                ((Elem-keys (to_publisher_service_name p s) m).1 (pmap, e)))
              (remove-Distinct p_id pmap (
                All-Elem _ m (to_publisher_service_name p s, pmap) r.providers
                  (lookup→elem _ pmap m e)))
              r)
    ]
