-- ===== src/RootRegistry/Restart.antt =====
-- A root registry that is started again finds the providers of the last round in its record.
use adaptiveservice.Prelude.{
  ℕ, ◌≡◌, refl, sym, ap, ◌∙◌, ◌↔◌, inl, inr, true, false, some, List, [], ◌∷◌, ◌++◌, Text, text_key,
  lookup, Elem, All, text_eq, text_eq_iff, if◌then◌else◌, ◌>>=◌, >>=-eq-some, some_inj, arith,
  Bool-cases, Option-cases, subst, Elem-keys,
}
use adaptiveservice.Names.{
  underscore, ServiceInfo, to_publisher_service_name, from_publisher_service_name,
}
use adaptiveservice.Names.RoundTrip.{not_empty, from_publisher_service_name_iff}
use adaptiveservice.RootRegistry.{
  ProviderInfo, ServiceMap, make_service_info, services_record, load_provider, load_record,
  proxied_mark, ends_with, Pings, Times, registry_check,
}
use adaptiveservice.RootRegistry.Provider.{provider}
use adaptiveservice.RootRegistry.Check.{
  IsRegistry, survivor, registry_check_lem, make_service_info-total,
}
use adaptiveservice.RootRegistry.Record.{
  IsPlain, is_named, load_infos, load_infos-absent, load_infos-present, load_record-services_record,
  load_provider_lem,
}

abbrev Named : Text → Type 0
Named n = (p : Text) × (s : Text) × (from_publisher_service_name n ≡ some (p, s))

name_not_empty : (n : Text) → Named n → text_eq n [] ≡ false
name_not_empty n (p, s, e) =
    rw (((from_publisher_service_name_iff n p s).0 e).0)
      (unfold to_publisher_service_name in not_empty p s underscore)

-- What the listed information says: the names, the ID, and the address with its mark.
make_service_info-fields :
    (n j : Text) (p : ProviderInfo) (info : ServiceInfo)
    → Named n
    → make_service_info n j p ≡ some info
    → (to_publisher_service_name info.publisher info.service ≡ n)
      × (info.provider_id ≡ j)
      × (info.addr ≡ (if p.proxied then p.addr ++ (proxied_mark ∷ []) else p.addr))
unfolding make_service_info
make_service_info-fields n j p info (a, b, e) h =
    ground (arith, name_not_empty n (a, b, e), ((from_publisher_service_name_iff n a b).0 e).0)

module _ (now : ℕ) (m : ServiceMap) (infos : List ServiceInfo)
    (named : (n j : Text) (p : ProviderInfo) → provider m n j ≡ some p → Named n)
    (unmarked : (n j : Text) (p : ProviderInfo)
      → provider m n j ≡ some p
      → ends_with proxied_mark p.addr ≡ false)
    (listed : (info : ServiceInfo)
      → Elem info infos ↔ (
          (n : Text) × (j : Text) × (p : ProviderInfo) × (provider m n j ≡ some p)
          × (make_service_info n j p ≡ some info))) where
  named_info :
      (info : ServiceInfo) (n j : Text)
      → Elem info infos
      → is_named info n j ≡ true
      → (p : ProviderInfo) × (provider m n j ≡ some p)
        × (load_provider now info.addr ≡ record p { time_stamp = now })
  named_info info n j k t =
      let (n', j', p, e, f) = (listed info).0 k in
      let (names, id, a) = make_service_info-fields n' j' p info (named n' j' p e) f in
      let same_n : n' ≡ n =
        ground (arith, text_eq_iff (to_publisher_service_name info.publisher info.service) n) in
      let same_j : j' ≡ j = ground (arith, text_eq_iff info.provider_id j) in
      (
        p,
        subst (λ i. provider m i j ≡ some p) same_n
            (subst (λ i. provider m n' i ≡ some p) same_j e),
        ap (load_provider now) a ∙ load_provider_lem now p (unmarked n' j' p e),
      )

  provider-load_infos :
      (n j : Text)
      → provider (load_infos now infos []) n j
        ≡ (provider m n j >>= λ p. some (record p { time_stamp = now }))
  provider-load_infos n j = elim (Option-cases (provider m n j)) [
    | inl e ↦
        load_infos-absent now infos [] n j (λ si k. elim (Bool-cases (is_named si n j)) [
          | inl t ↦ let (p, f, g) = named_info si n j k t in cc (e, f)
          | inr f ↦ f
        ])
        ∙ rw e (unfold lookup in refl)
    | inr (p, e) ↦
        let q : ProviderInfo = record p { time_stamp = now } in
        let (info, f) = make_service_info-total n j p (named n j p e).2 in
        let (names, id, a) = make_service_info-fields n j p info (named n j p e) f in
        rw e (
          load_infos-present now infos [] n j q
            (λ si k t.
              let (p', f', g) = named_info si n j k t in
              g ∙ ap (λ (r : ProviderInfo). record r { time_stamp = now }) (some_inj (sym f' ∙ e)))
            (inl (
              info,
              (listed info).1 (n, j, p, e, f),
              ground (
                arith,
                text_eq_iff (to_publisher_service_name info.publisher info.service) n,
                text_eq_iff info.provider_id j,
              ),
            )))
  ]

abbrev Round : Pings → Times → ServiceMap → ServiceMap → List ServiceInfo → Type 0
Round ping t m after infos =
    ((n j : Text) → provider after n j ≡ (provider m n j >>= survivor (ping n j) (t n j)))
    × ((info : ServiceInfo)
        → Elem info infos ↔ (
            (n : Text) × (j : Text) × (p : ProviderInfo) × (provider after n j ≡ some p)
            × (make_service_info n j p ≡ some info)))

registry_check-Round :
    (ping : Pings) (t : Times) (m after : ServiceMap) (infos : List ServiceInfo)
    → IsRegistry m
    → registry_check ping t m ≡ some (after, infos)
    → Round ping t m after infos
registry_check-Round ping t m after infos r e =
    let (after', infos', e', f, g) = registry_check_lem ping t m r in
    subst (λ (x : ServiceMap × List ServiceInfo). Round ping t m x.0 x.1) (some_inj (sym e' ∙ e))
      (f, g)

-- After a round of registryCheckSaver, a root registry that starts from the record file holds
-- exactly the providers that the round left, each with its address and whether it is proxied, as
-- seen now. Conditions: what was listed has no empty value, none with a space, and only
-- ASCII, and no provider's own address ends in a "P".
pub provider-load_record :
    (ping : Pings) (t : Times) (now : ℕ) (m after : ServiceMap) (infos : List ServiceInfo)
    → IsRegistry m
    → registry_check ping t m ≡ some (after, infos)
    → All IsPlain infos
    → ((n j : Text) (p : ProviderInfo)
        → provider after n j ≡ some p
        → ends_with proxied_mark p.addr ≡ false)
    → (n j : Text)
    → provider (load_record now (services_record infos)) n j
      ≡ (provider after n j >>= λ p. some (record p { time_stamp = now }))
provider-load_record ping t now m after infos r e plain unmarked n j =
    let (f, g) = registry_check-Round ping t m after infos r e in
    rw (load_record-services_record now infos plain) (
      provider-load_infos now after infos
        (λ n j p h.
          let (p', k, s) =
            >>=-eq-some (provider m n j) (survivor (ping n j) (t n j)) (sym (f n j) ∙ h) in
          let (pmap, l, v) = >>=-eq-some (lookup n m) (lookup j) k in
          r.names n ((Elem-keys n m).1 (pmap, l)))
        unmarked g n j)
