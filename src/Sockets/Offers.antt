-- ===== src/Sockets/Offers.antt =====
-- What the socket directory offers under a name, and what the loop of lookupServiceUDSDir makes of one
-- of its entries.
use adaptiveservice.Prelude.{
  ◌≡◌, ◌≢◌, refl, sym, ap, ◌∙◌, subst, ◌⊎◌, ◌↔◌, inl, inr, Bool, true, false, none, some, List, [],
  ◌∷◌, ◌++◌, Text, Elem, some_inj, has_byte, has_suffix, trim_suffix, Bool-cases, Option-cases,
}
use adaptiveservice.Wildcard.{star, wildcard_match}
use adaptiveservice.Wildcard.Glob.{Glob}
use adaptiveservice.Wildcard.Correct.{wildcard_match-Glob}
use adaptiveservice.Names.{
  ServiceInfo, sock, uds_registry_dir, to_publisher_service_name, from_publisher_service_name,
  to_uds_addr, from_uds_addr, base,
}
use adaptiveservice.Client.{self}
use adaptiveservice.Sockets.{DirEntry, socket_path, dir_socket, shared_socket, provider_dir}
use adaptiveservice.Sockets.Words.{Named, collect_lem}

-- The name of a socket file
abbrev pub stem : Text → Text → Text
stem provider_id file = trim_suffix (base (socket_path provider_id file)) sock

abbrev pub SocketOf : Text → Text → Text → ServiceInfo → Type 0
SocketOf t_name provider_id file info =
    Glob t_name (stem provider_id file)
    × ((p_name : Text) × (s_name : Text) × (from_publisher_service_name (stem provider_id file)
          ≡ some (p_name, s_name))
        × (info ≡ record {
          publisher = p_name;
          service = s_name;
          provider_id = provider_id;
          addr = socket_path provider_id file;
        }))

abbrev pub Shared : Text → Text → ServiceInfo → Type 0
Shared t_name e_name info =
    (has_suffix e_name sock ≡ true)
    × ((p_name : Text) × (s_name : Text) × (from_uds_addr e_name ≡ some (p_name, s_name))
        × Glob t_name (to_publisher_service_name p_name s_name)
        × (info ≡ record {
          publisher = p_name;
          service = s_name;
          provider_id = self;
          addr = uds_registry_dir ++ e_name;
        }))

dir_socket_lem :
    (t_name provider_id file : Text)
    → (from_publisher_service_name (stem provider_id file) ≢ none)
    → (infos : List ServiceInfo) × (dir_socket t_name provider_id file ≡ some infos)
      × ((info : ServiceInfo) → Elem info infos ↔ SocketOf t_name provider_id file info)
unfolding dir_socket
dir_socket_lem t_name provider_id file named =
    elim (Option-cases (from_publisher_service_name (stem provider_id file))) [
      | inl n ↦ absurd (named n)
      | inr ((p_name, s_name), e) ↦
          elim (Bool-cases (wildcard_match t_name (stem provider_id file))) [
            | inl t ↦ (
              record {
                publisher = p_name;
                service = s_name;
                provider_id = provider_id;
                addr = socket_path provider_id file;
              }
                  ∷ [],
              rw (e, t) refl,
              λ info. (
                elim [
                  | inl q ↦ (
                    (wildcard_match-Glob t_name (stem provider_id file)).0 t,
                    (p_name, s_name, e, q),
                  )
                  | inr z ↦ absurd z
                ],
                λ (g, (p, s, e', q)). inl (
                    q
                    ∙ ap
                        (λ n. record {
                          publisher = n.0;
                          service = n.1;
                          provider_id = provider_id;
                          addr = socket_path provider_id file;
                        })
                        (some_inj (sym e' ∙ e))),
              ),
            )
            | inr f ↦ (
              [],
              rw f refl,
              λ info. (
                λ z. absurd z,
                λ (g, h). let t = (wildcard_match-Glob t_name (stem provider_id file)).1 g in cc,
              ),
            )
          ]
    ]

pub shared_socket_lem :
    (t_name e_name : Text)
    → ((has_suffix e_name sock ≡ true) → from_uds_addr e_name ≢ none)
    → (infos : List ServiceInfo) × (shared_socket t_name e_name ≡ some infos)
      × ((info : ServiceInfo) → Elem info infos ↔ Shared t_name e_name info)
unfolding shared_socket
shared_socket_lem t_name e_name named = elim (Bool-cases (has_suffix e_name sock)) [
  | inr f ↦ ([], rw f refl, λ info. (λ z. absurd z, λ (g, h). cc))
  | inl y ↦ elim (Option-cases (from_uds_addr e_name)) [
    | inl n ↦ absurd (named y n)
    | inr ((p_name, s_name), e) ↦
        elim (Bool-cases (wildcard_match t_name (to_publisher_service_name p_name s_name))) [
          | inl t ↦ (
            record {
              publisher = p_name;
              service = s_name;
              provider_id = self;
              addr = uds_registry_dir ++ e_name;
            }
                ∷ [],
            rw (y, e, t) refl,
            λ info. (
              elim [
                | inl q ↦ (
                  y,
                  (
                    p_name,
                    s_name,
                    e,
                    (wildcard_match-Glob t_name (to_publisher_service_name p_name s_name)).0 t,
                    q,
                  ),
                )
                | inr z ↦ absurd z
              ],
              λ (u, (p, s, e', g, q)). inl (
                  q
                  ∙ ap
                      (λ n. record {
                        publisher = n.0;
                        service = n.1;
                        provider_id = self;
                        addr = uds_registry_dir ++ e_name;
                      })
                      (some_inj (sym e' ∙ e))),
            ),
          )
          | inr f ↦ (
            [],
            rw (y, e, f) refl,
            λ info. (
              λ z. absurd z,
              λ (u, (p, s, e', g, q)).
                  let same = some_inj (sym e' ∙ e) in
                  let g' = subst (λ n. Glob t_name (to_publisher_service_name n.0 n.1)) same g in
                  let t =
                    (wildcard_match-Glob t_name (to_publisher_service_name p_name s_name)).1 g' in
                  cc,
            ),
          )
        ]
  ]
]

-- The entry offers the service: as the socket of the very name or of a name that fits, if it is the
-- directory of a provider that is asked for, or as a socket of its own.
abbrev pub Offers : (Text → Bool) → Text → Text → List Text → DirEntry → ServiceInfo → Type 0
Offers stat publisher_name service_name ids entry info =
    let t_name = to_publisher_service_name publisher_name service_name in
    let addr = to_uds_addr publisher_name service_name true entry.name in
    ((entry.is_dir ≡ true)
      × Named ids entry.name
      × (((has_byte star t_name ≡ false)
            × (stat addr ≡ true)
            × (info ≡ record {
              publisher = publisher_name;
              service = service_name;
              provider_id = entry.name;
              addr = addr;
            }))
          ⊎ ((has_byte star t_name ≡ true)
              × ((file : Text) × Elem file entry.sockets × SocketOf t_name entry.name file info))))
    ⊎ ((entry.is_dir ≡ false) × Shared t_name entry.name info)

-- The socket files of the entry have names that split in two.
abbrev pub Readable : DirEntry → Type 0
Readable entry =
    ((has_suffix entry.name sock ≡ true) → from_uds_addr entry.name ≢ none)
    × ((file : Text)
        → Elem file entry.sockets
        → from_publisher_service_name (stem entry.name file) ≢ none)

pub provider_dir_lem :
    (stat : Text → Bool) (publisher_name service_name : Text) (entry : DirEntry)
    → let t_name = to_publisher_service_name publisher_name service_name in
      let addr = to_uds_addr publisher_name service_name true entry.name in
      Readable entry
      → (infos : List ServiceInfo) × (provider_dir stat publisher_name service_name entry
          ≡ some infos)
        × ((info : ServiceInfo)
            → Elem info infos ↔ (
                ((has_byte star t_name ≡ false)
                  × (stat addr ≡ true)
                  × (info ≡ record {
                    publisher = publisher_name;
                    service = service_name;
                    provider_id = entry.name;
                    addr = addr;
                  }))
                ⊎ ((has_byte star t_name ≡ true)
                    × ((file : Text) × Elem file entry.sockets
                        × SocketOf t_name entry.name file info))))
unfolding provider_dir
provider_dir_lem stat publisher_name service_name entry (r, named) =
    let t_name = to_publisher_service_name publisher_name service_name in
    let addr = to_uds_addr publisher_name service_name true entry.name in
    elim (Bool-cases (has_byte star t_name)) [
      | inl wild ↦
          let (all, e, g) = collect_lem (dir_socket t_name entry.name) entry.sockets (λ file z.
            let (infos, d, h) = dir_socket_lem t_name entry.name file (named file z) in
            (infos, d)) in
          (
            all,
            rw wild e,
            λ info. (
              λ z.
                  let (file, m, (infos, d, y)) = (g info).0 z in
                  let (infos', d', h) = dir_socket_lem t_name entry.name file (named file m) in
                  inr (wild, (file, m, (h info).0 (subst (Elem info) (some_inj (sym d ∙ d')) y))),
              elim [
                | inl (f, w, q) ↦ cc
                | inr (w, (file, m, so)) ↦
                    let (infos', d', h) = dir_socket_lem t_name entry.name file (named file m) in
                    (g info).1 (file, m, (infos', d', (h info).1 so))
              ],
            ),
          )
      | inr plain ↦ elim (Bool-cases (stat addr)) [
        | inl there ↦ (
          record {
            publisher = publisher_name;
            service = service_name;
            provider_id = entry.name;
            addr = addr;
          }
              ∷ [],
          rw (plain, there) refl,
          λ info. (
            elim [ inl q ↦ inl (plain, there, q) | inr z ↦ absurd z ],
            elim [ inl (f, w, q) ↦ inl q | inr (w, y) ↦ cc ],
          ),
        )
        | inr gone ↦ (
          [],
          rw (plain, gone) refl,
          λ info. (λ z. absurd z, elim [ inl (f, w, q) ↦ cc | inr (w, y) ↦ cc ]),
        )
      ]
    ]
