-- ===== src/RootRegistry/Record.antt =====
-- The record file of the root registry: what registryCheckSaver writes, startRootRegistry reads.
use adaptiveservice.Prelude.{
  ℕ, ◌&&◌, ◌≡◌, refl, ap, ◌∙◌, ◌⊎◌, inl, inr, Bool, true, false, some, List, [], ◌∷◌, ◌++◌, Text,
  text_key, insert, Elem, All, text_eq, text_eq_iff, if◌then◌else◌, arith, Bool-cases, has_byte,
  has_space, has_space-newline, words, words-append, words_word, runs, ◌<◌, split, append_assoc,
  lookup-insert,
}
use adaptiveservice.Names.{ServiceInfo, to_publisher_service_name}
use adaptiveservice.Names.RoundTrip.{split-append, has_byte-append}
use adaptiveservice.RootRegistry.{
  ProviderInfo, ServiceMap, providers_of, record_line, services_record, load_provider, load_fields,
  load_lines, load_record, proxied_mark, ends_with, without_last,
}
use adaptiveservice.RootRegistry.Provider.{provider, provider-insert, provider-providers_of}

-- What fmt.Fscanln reads back as one value, unchanged.
pub record IsWord (t : Text) : Type 0 where
  pub not_empty : text_eq t [] ≡ false
  pub no_space : has_space t ≡ false
  pub ascii : All (λ c. c < 128) t

pub newline : {t : Text} → IsWord t → has_byte b'\n' t ≡ false
newline {t = t} w = has_space-newline t w.no_space

pub record IsPlain (si : ServiceInfo) : Type 0 where
  pub publisher : IsWord si.publisher
  pub service : IsWord si.service
  pub provider_id : IsWord si.provider_id
  pub addr : IsWord si.addr

body : ServiceInfo → Text
body si = si.publisher ++ (b' ' ∷ (si.service ++ (b' ' ∷ (si.provider_id ++ (b' ' ∷ si.addr)))))

body-newline : (si : ServiceInfo) → IsPlain si → has_byte b'\n' (body si) ≡ false
unfolding body has_byte
body-newline si v = has_byte-append b'\n' si.publisher _ (newline v.publisher) (
    has_byte-append b'\n' si.service _ (newline v.service)
      (has_byte-append b'\n' si.provider_id _ (newline v.provider_id) (newline v.addr)))

record_line-body :
    (si : ServiceInfo) (rest : Text) → record_line si ++ rest ≡ body si ++ (b'\n' ∷ rest)
unfolding record_line body
record_line-body si rest = simp append_assoc refl

words-body :
    (si : ServiceInfo)
    → IsPlain si
    → words (body si) ≡ si.publisher ∷ si.service ∷ si.provider_id ∷ si.addr ∷ []
unfolding body
words-body si v =
    words-append si.publisher _ v.publisher.not_empty v.publisher.no_space
    ∙ ap (λ l. si.publisher ∷ l)
        (words-append si.service _ v.service.not_empty v.service.no_space
          ∙ ap (λ l. si.service ∷ l)
              (words-append si.provider_id _ v.provider_id.not_empty v.provider_id.no_space
                ∙ ap (λ l. si.provider_id ∷ l)
                    (words_word si.addr v.addr.not_empty v.addr.no_space)))

-- The map with the information of one line.
abbrev loaded : ℕ → ServiceInfo → ServiceMap → ServiceMap
loaded now si m =
    let name = to_publisher_service_name si.publisher si.service in
    insert name (insert si.provider_id (load_provider now si.addr) (providers_of name m)) m

pub load_infos : ℕ → List ServiceInfo → ServiceMap → ServiceMap
load_infos now [] m = m
load_infos now (si ∷ infos) m = load_infos now infos (loaded now si m)

load_lines-cons :
    (now : ℕ) (line : Text) (lines : List Text) (m after : ServiceMap)
    → load_fields now (words line) m ≡ some after
    → load_lines now (line ∷ lines) m ≡ load_lines now lines after
unfolding load_lines
load_lines-cons now line lines m after e = rw (e, load_lines) refl

load_fields-body :
    (now : ℕ) (si : ServiceInfo) (m : ServiceMap)
    → IsPlain si
    → load_fields now (words (body si)) m ≡ some (loaded now si m)
unfolding load_fields
load_fields-body now si m v = rw (words-body si v) refl

load_lines-services_record :
    (now : ℕ) (infos : List ServiceInfo) (m : ServiceMap)
    → All IsPlain infos
    → load_lines now
        ((split b'\n' (services_record infos)).0 ∷ (split b'\n' (services_record infos)).1)
        m
      ≡ load_infos now infos m
unfolding load_infos services_record
load_lines-services_record now [] m v =
    unfold load_lines split text_eq words runs load_fields in refl
load_lines-services_record now (si ∷ infos) m v =
    rw
      (
        record_line-body si (services_record infos),
        split-append b'\n' (body si) (services_record infos) (body-newline si v.0),
      )
      (load_lines-cons now (body si) _ m (loaded now si m) (load_fields-body now si m v.0)
        ∙ load_lines-services_record now infos (loaded now si m) v.1)

pub load_record-services_record :
    (now : ℕ) (infos : List ServiceInfo)
    → All IsPlain infos
    → load_record now (services_record infos) ≡ load_infos now infos []
unfolding load_record
load_record-services_record now infos v = load_lines-services_record now infos [] v

abbrev pub is_named : ServiceInfo → Text → Text → Bool
is_named si n j =
    text_eq (to_publisher_service_name si.publisher si.service) n && text_eq si.provider_id j

provider-loaded :
    (now : ℕ) (si : ServiceInfo) (m : ServiceMap) (n j : Text)
    → provider (loaded now si m) n j
      ≡ (if is_named si n j then some (load_provider now si.addr) else provider m n j)
provider-loaded now si m n j =
    let name = to_publisher_service_name si.publisher si.service in
    let pinfo = load_provider now si.addr in
    ground (
      arith,
      provider-insert name (insert si.provider_id pinfo (providers_of name m)) m n j,
      lookup-insert si.provider_id j pinfo (providers_of name m),
      provider-providers_of m name j,
      text_eq_iff name n,
    )

pub load_infos-absent :
    (now : ℕ) (infos : List ServiceInfo) (m : ServiceMap) (n j : Text)
    → ((si : ServiceInfo) → Elem si infos → is_named si n j ≡ false)
    → provider (load_infos now infos m) n j ≡ provider m n j
unfolding load_infos
load_infos-absent now [] m n j h = refl
load_infos-absent now (si ∷ infos) m n j h =
    load_infos-absent now infos (loaded now si m) n j (λ s k. h s (inr k))
    ∙ provider-loaded now si m n j
    ∙ rw (h si (inl refl)) refl

pub load_infos-present :
    (now : ℕ) (infos : List ServiceInfo) (m : ServiceMap) (n j : Text) (q : ProviderInfo)
    → ((si : ServiceInfo) → Elem si infos → is_named si n j ≡ true → load_provider now si.addr ≡ q)
    → ((si : ServiceInfo) × Elem si infos × (is_named si n j ≡ true)) ⊎ (provider m n j ≡ some q)
    → provider (load_infos now infos m) n j ≡ some q
unfolding load_infos
load_infos-present now [] m n j q h (inl (si, k, e)) = absurd k
load_infos-present now [] m n j q h (inr e) = e
load_infos-present now (si ∷ infos) m n j q h p =
    load_infos-present now infos (loaded now si m) n j q (λ s k. h s (inr k)) (next p)
  where
    next :
        ((s : ServiceInfo) × Elem s (si ∷ infos) × (is_named s n j ≡ true))
          ⊎ (provider m n j ≡ some q)
        → ((s : ServiceInfo) × Elem s infos × (is_named s n j ≡ true))
          ⊎ (provider (loaded now si m) n j ≡ some q)
    next p = elim (Bool-cases (is_named si n j)) [
      | inl t ↦ inr (provider-loaded now si m n j ∙ rw t (ap some (h si (inl refl) t)))
      | inr f ↦ elim p [
        | inl (s, k, e) ↦ elim k [ inl same ↦ cc (f, rw same at e) | inr z ↦ inl (s, z, e) ]
        | inr e ↦ inr (provider-loaded now si m n j ∙ rw f e)
      ]
    ]

ends_with-append : (c : ℕ) (s : Text) → ends_with c (s ++ (c ∷ [])) ≡ true
unfolding ends_with
ends_with-append c [] = ground arith
ends_with-append c (x ∷ []) = ends_with-append c []
ends_with-append c (x ∷ y ∷ s) = ends_with-append c (y ∷ s)

without_last-append : (c : ℕ) (s : Text) → without_last (s ++ (c ∷ [])) ≡ s
unfolding without_last
without_last-append c [] = refl
without_last-append c (x ∷ []) = refl
without_last-append c (x ∷ y ∷ s) = ap (◌∷◌ x) (without_last-append c (y ∷ s))

pub load_provider_lem :
    (now : ℕ) (p : ProviderInfo)
    → ends_with proxied_mark p.addr ≡ false
    → load_provider now (if p.proxied then p.addr ++ (proxied_mark ∷ []) else p.addr)
      ≡ record p { time_stamp = now }
unfolding load_provider
load_provider_lem now p h =
    ground (arith, ends_with-append proxied_mark p.addr, without_last-append proxied_mark p.addr)
