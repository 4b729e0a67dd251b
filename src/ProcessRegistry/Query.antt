-- ===== src/ProcessRegistry/Query.antt =====
-- What a query in the process finds, and that it does not panic.
use adaptiveservice.Prelude.{
  ◌≡◌, refl, ◌∙◌, ◌↔◌, inl, inr, true, false, none, some, List, [], ◌∷◌, Text, text_key, lookup,
  insert, remove, keys, Elem, has_byte, if◌then◌else◌, Elem-keys, Elem-keep, Elem-keys-insert,
  lookup-insert, lookup-remove, Bool-cases, Option-cases, arith, codes, text_eq_refl, text_eq,
}
use adaptiveservice.Wildcard.{star, wildcard_match}
use adaptiveservice.Wildcard.Glob.{Glob}
use adaptiveservice.Wildcard.Correct.{wildcard_match-Glob, Glob-literal}
use adaptiveservice.Names.{
  ServiceInfo, to_publisher_service_name, from_publisher_service_name, check_name_convention,
}
use adaptiveservice.Names.RoundTrip.{from-to_publisher_service_name, check_name_convention→}
use adaptiveservice.ProcessRegistry.{
  ChanTransport, ChanTable, reg_service_chan, del_service_chan, service_names_in_process,
  infos_of_names, query_service_process,
}

-- serviceNamesInProcess lists the registered names that the wanted one stands for, and only those.
pub service_names_in_process-Glob :
    (p s n : Text) (table : ChanTable)
    → Elem n (service_names_in_process p s table) ↔ (
        ((ct : ChanTransport) × (lookup n table ≡ some ct))
        × Glob (to_publisher_service_name p s) n)
unfolding service_names_in_process
service_names_in_process-Glob p s n table =
    let name = to_publisher_service_name p s in
    elim (Bool-cases (has_byte star name)) [
      | inl w ↦ rw w (
        λ h.
            let k = (Elem-keep (wildcard_match name) n (keys table)).0 h in
            ((Elem-keys n table).0 k.0, (wildcard_match-Glob name n).0 k.1),
        λ h.
            (Elem-keep (wildcard_match name) n (keys table)).1
              ((Elem-keys n table).1 h.0, (wildcard_match-Glob name n).1 h.1),
      )
      | inr w ↦ rw w (exact name w)
    ]
  where
    exact :
        (name : Text)
        → has_byte star name ≡ false
        → Elem n (elim (lookup name table) as (λ _. List Text) [ none ↦ [] | some _ ↦ name ∷ [] ])
          ↔ (((ct : ChanTransport) × (lookup n table ≡ some ct)) × Glob name n)
    exact name w = elim (Option-cases (lookup name table)) [
      | inl e ↦ rw e (λ h. absurd h, λ h. cc (h.0.1, (Glob-literal name n w).0 h.1, e))
      | inr (ct, e) ↦ rw e (
        elim [ inl q ↦ rw q ((ct, e), (Glob-literal name name w).1 refl) | inr z ↦ absurd z ],
        λ h. inl ((Glob-literal name n w).0 h.1),
      )
    ]

-- Every registered name is that of a publisher and a service.
abbrev pub WellNamed : ChanTable → Type 0
WellNamed table =
    (n : Text)
    → Elem n (keys table)
    → (p : Text) × (s : Text) × (from_publisher_service_name n ≡ some (p, s))

-- A registration that does not panic, under two names that keep the name convention, keeps
-- every name of the table readable.
pub reg_service_chan-WellNamed :
    (p s : Text) (ct : ChanTransport) (table after : ChanTable)
    → check_name_convention p ≡ true
    → check_name_convention s ≡ true
    → WellNamed table
    → reg_service_chan p s ct table ≡ some after
    → WellNamed after
unfolding reg_service_chan
reg_service_chan-WellNamed p s ct table after hp hs v e n m =
    elim (Option-cases (lookup (to_publisher_service_name p s) table)) [
      | inl free ↦
          let done : insert (to_publisher_service_name p s) ct table ≡ after = ground arith in
          elim (Elem-keys-insert n _ ct table (rw done m)) [
            | inl q ↦ (
              p,
              s,
              rw q (
                  from-to_publisher_service_name p s (check_name_convention→ p hp).0
                    (check_name_convention→ s hs).0),
            )
            | inr k ↦ v n k
          ]
      | inr (old, taken) ↦ ground arith
    ]

abbrev pub self_info : Text → Text → ServiceInfo
self_info p s = record {
  publisher = p;
  service = s;
  provider_id = codes "self";
  addr = codes "internal";
}

infos_of_names_total :
    (names : List Text)
    → ((n : Text)
        → Elem n names
        → (p : Text) × (s : Text) × (from_publisher_service_name n ≡ some (p, s)))
    → (infos : List ServiceInfo) × (infos_of_names names ≡ some infos)
      × ((p s : Text)
          → Elem (self_info p s) infos
            ↔ ((n : Text) × Elem n names × (from_publisher_service_name n ≡ some (p, s))))
unfolding infos_of_names
infos_of_names_total [] v = ([], refl, λ p s. (λ h. absurd h, λ h. h.1))
infos_of_names_total (n ∷ names) v =
    let (p, s, e) = v n (inl refl) in
    let (infos, f, g) = infos_of_names_total names (λ m h. v m (inr h)) in
    (
      self_info p s ∷ infos,
      rw (e, f),
      λ p' s'. (
        elim [
          | inl q ↦ (n, inl refl, e ∙ ground arith)
          | inr h ↦ let (m, k, r) = (g p' s').0 h in (m, inr k, r)
        ],
        λ (m, k, r). elim k [ inl q ↦ inl (ground arith) | inr k' ↦ inr ((g p' s').1 (m, k', r)) ],
      ),
    )

-- queryServiceProcess does not panic on a table whose names were all checked, and lists a
-- publisher and a service exactly when they are registered and the wanted name, a pattern,
-- stands for theirs.
pub query_service_process_lem :
    (p s : Text) (table : ChanTable)
    → WellNamed table
    → (infos : List ServiceInfo) × (query_service_process p s table ≡ some infos)
      × ((p' s' : Text)
          → Elem (self_info p' s') infos ↔ (
              (n : Text) × (((ct : ChanTransport) × (lookup n table ≡ some ct))
                × Glob (to_publisher_service_name p s) n)
              × (from_publisher_service_name n ≡ some (p', s'))))
unfolding query_service_process
query_service_process_lem p s table v =
    let listed = λ (n : Text). service_names_in_process-Glob p s n table in
    let (infos, e, f) =
      infos_of_names_total (service_names_in_process p s table)
        (λ n h. v n ((Elem-keys n table).1 ((listed n).0 h).0)) in
    (
      infos,
      e,
      λ p' s'. (
        λ h. let (n, k, r) = (f p' s').0 h in (n, (listed n).0 k, r),
        λ (n, k, r). (f p' s').1 (n, (listed n).1 k, r),
      ),
    )

-- After a registration the same name cannot be registered again, until it is deleted; then it can,
-- and no other name was touched.
pub reg-del-reg_service_chan :
    (p s : Text) (ct other : ChanTransport) (table after : ChanTable)
    → reg_service_chan p s ct table ≡ some after
    → (reg_service_chan p s other after ≡ none)
      × ((again : ChanTable) × (reg_service_chan p s other (del_service_chan p s after)
            ≡ some again)
          × ((n : Text)
              → lookup n again ≡ (
                  if text_eq (to_publisher_service_name p s) n
                  then some other
                  else lookup n table)))
unfolding reg_service_chan del_service_chan
reg-del-reg_service_chan p s ct other table after e =
    let name : Text = to_publisher_service_name p s in
    elim (Option-cases (lookup name table)) [
      | inl free ↦
          let done : after ≡ insert name ct table = ground arith in
          let taken : lookup name after ≡ some ct =
            rw done (lookup-insert name name ct table ∙ rw (text_eq_refl name)) in
          let gone : lookup name (remove name after) ≡ none =
            lookup-remove name name after ∙ rw (text_eq_refl name) in
          (
            ground arith,
            (
              insert name other (remove name after),
              ground arith,
              λ n. ground (
                arith,
                lookup-insert name n other (remove name after),
                lookup-remove name n after,
                lookup-insert name n ct table,
              ),
            ),
          )
      | inr (old, used) ↦ ground arith
    ]
