-- ===== src/Sockets/Dir.antt =====
-- The loop of lookupServiceUDSDir lists what the socket directory offers.
use adaptiveservice.Prelude.{
  ◌≡◌, ◌≢◌, refl, sym, ◌∙◌, subst, ◌⊎◌, ◌↔◌, inl, inr, Bool, true, Option, some, List, [], ◌∷◌,
  Text, Elem, some_inj, has_byte, Bool-cases, if_then, if_else,
}
use adaptiveservice.Wildcard.{star}
use adaptiveservice.Names.{ServiceInfo, to_publisher_service_name}
use adaptiveservice.Client.{match_provider}
use adaptiveservice.Sockets.{DirEntry, collect, dir_entry, lookup_service_uds_dir}
use adaptiveservice.Sockets.Words.{match_provider-Named, collect_lem}
use adaptiveservice.Sockets.Offers.{Offers, Readable, shared_socket_lem, provider_dir_lem}

dir_entry_lem :
    (stat : Text → Bool) (publisher_name service_name : Text) (ids : List Text) (entry : DirEntry)
    → Readable entry
    → (infos : List ServiceInfo) × (dir_entry stat publisher_name service_name ids entry
        ≡ some infos)
      × ((info : ServiceInfo)
          → Elem info infos ↔ Offers stat publisher_name service_name ids entry info)
unfolding dir_entry
dir_entry_lem stat publisher_name service_name ids entry (r, named) =
    elim (Bool-cases entry.is_dir) [
      | inl dir ↦ elim (Bool-cases (match_provider ids entry.name)) [
        | inl t ↦
            let (infos, e, g) =
              provider_dir_lem stat publisher_name service_name entry (r, named) in
            (
              infos,
              if_then _ _ dir ∙ (if_then _ _ t ∙ e),
              λ info. (
                λ z. inl (dir, (match_provider-Named ids entry.name).0 t, (g info).0 z),
                elim [ inl (d, n, o) ↦ (g info).1 o | inr (d, o) ↦ cc ],
              ),
            )
        | inr f ↦ (
          [],
          if_then _ _ dir ∙ if_else _ _ f,
          λ info. (
            λ z. absurd z,
            elim [
              | inl (d, n, o) ↦ (let t = (match_provider-Named ids entry.name).1 n in cc)
              | inr (d, o) ↦ cc
            ],
          ),
        )
      ]
      | inr file ↦
          let (infos, e, g) =
            shared_socket_lem (to_publisher_service_name publisher_name service_name) entry.name
              r in
          (
            infos,
            if_else _ _ file ∙ e,
            λ info. (
              λ z. inr (file, (g info).0 z),
              elim [ inl (d, n, o) ↦ cc | inr (d, o) ↦ (g info).1 o ],
            ),
          )
    ]

-- The loop runs.
walks :
    (stat : Text → Bool) (self_id : Option Text) (publisher_name service_name : Text)
    (ids : List Text)
    → (entries : List DirEntry)
    → ((has_byte star (to_publisher_service_name publisher_name service_name) ≡ true) ⊎ (ids ≢ []))
    → lookup_service_uds_dir entries stat self_id publisher_name service_name ids
      ≡ collect (dir_entry stat publisher_name service_name ids) entries
unfolding lookup_service_uds_dir collect
walks stat self_id publisher_name service_name ids [] asked = refl
walks stat self_id publisher_name service_name ids (e ∷ es) (inl wild) = rw wild refl
walks stat self_id publisher_name service_name [] (e ∷ es) (inr some_id) = absurd (some_id refl)
walks stat self_id publisher_name service_name (i ∷ ids) (e ∷ es) (inr some_id) =
    elim (Bool-cases (has_byte star (to_publisher_service_name publisher_name service_name))) [
      | inl t ↦ rw t refl
      | inr f ↦ rw f refl
    ]

-- A lookup for a pattern, or one that asks for providers, lists exactly what the entries of the
-- socket directory offer: the sockets of the name in the directories of the providers asked for,
-- and the sockets that stand in the directory itself. The entries' socket files have names that
-- split in two.
pub lookup_service_uds_dir_lem :
    (stat : Text → Bool) (self_id : Option Text) (publisher_name service_name : Text)
    (ids : List Text)
    → (entries : List DirEntry)
    → ((has_byte star (to_publisher_service_name publisher_name service_name) ≡ true) ⊎ (ids ≢ []))
    → ((entry : DirEntry) → Elem entry entries → Readable entry)
    → (infos : List ServiceInfo) × (lookup_service_uds_dir entries stat self_id publisher_name
          service_name ids
        ≡ some infos)
      × ((info : ServiceInfo)
          → Elem info infos ↔ (
              (entry : DirEntry) × Elem entry entries
              × Offers stat publisher_name service_name ids entry info))
unfolding lookup_service_uds_dir
lookup_service_uds_dir_lem stat self_id publisher_name service_name ids entries asked readable =
    let (all, e, g) =
      collect_lem (dir_entry stat publisher_name service_name ids) entries (λ entry z.
        let (infos, d, h) =
          dir_entry_lem stat publisher_name service_name ids entry (readable entry z) in
        (infos, d)) in
    (
      all,
      walks stat self_id publisher_name service_name ids entries asked ∙ e,
      λ info. (
        λ z.
            let (entry, m, (infos, d, y)) = (g info).0 z in
            let (infos', d', h) =
              dir_entry_lem stat publisher_name service_name ids entry (readable entry m) in
            (entry, m, (h info).0 (subst (Elem info) (some_inj (sym d ∙ d')) y)),
        λ (entry, m, o).
            let (infos', d', h) =
              dir_entry_lem stat publisher_name service_name ids entry (readable entry m) in
            (g info).1 (entry, m, (infos', d', (h info).1 o)),
      ),
    )
