-- ===== src/LanRegistry/Local.antt =====
-- The table of the host's own services: the ticker's round.
use adaptiveservice.Prelude.{
  ℕ, ◌+◌, ltb, ◌≡◌, refl, sym, ap, ◌∙◌, subst, inl, inr, Bool, false, Option, none, some, [], ◌∷◌,
  ◌++◌, Text, codes, text_key, text_eq, text_eq_iff, Map, keys, Elem, Distinct, lookup, remove,
  lookup-insert, lookup-remove, if◌then◌else◌, ◌>>=◌, arith, Option-cases, Bool-cases, Elem-keys,
}
use adaptiveservice.RootRegistry.{stale_after}
use adaptiveservice.LanRegistry.{LocalSvcInfo, LanRegistry, del_service, check_entry, check_entries}

abbrev pub loopback : LocalSvcInfo → Text
loopback lsi = codes "127.0.0.1:" ++ lsi.port

-- What a round makes of one service of the host.
abbrev pub survivor : (Text → Bool) → ℕ → LocalSvcInfo → Option LocalSvcInfo
survivor ping t lsi =
    if ping (loopback lsi)
    then some (record lsi { time_stamp = t })
    else if ltb (lsi.time_stamp + stale_after) t
    then none
    else some lsi

del_service-table :
    (name : Text) (r : LanRegistry)
    → (del_service name r).local_service_table ≡ remove name r.local_service_table
unfolding del_service
del_service-table name r = ground arith

check_entry-table :
    (ping : Text → Bool) (t : ℕ) (name j : Text) (lsi : LocalSvcInfo) (r : LanRegistry)
    → lookup name r.local_service_table ≡ some lsi
    → lookup j (check_entry ping t name lsi r).local_service_table
      ≡ (if text_eq name j then survivor ping t lsi else lookup j r.local_service_table)
unfolding check_entry
check_entry-table ping t name j lsi r h = elim (Bool-cases (ping (loopback lsi))) [
  | inl answers ↦ rw (answers, lookup-insert) refl
  | inr silent ↦ elim (Bool-cases (ltb (lsi.time_stamp + stale_after) t)) [
    | inl stale ↦
        rw (silent, stale)
          (ap (lookup j) (del_service-table name r) ∙ lookup-remove name j r.local_service_table)
    | inr recent ↦ rw (silent, recent) (ground (arith, text_eq_iff name j))
  ]
]

-- What a round leaves of a service, by the entries that it still goes over.
abbrev decided : (Text → Bool) → ℕ → Option LocalSvcInfo → Option LocalSvcInfo → Option LocalSvcInfo
decided ping t none old = old
decided ping t (some lsi) old = survivor ping t lsi

abbrev result : (Text → Bool) → ℕ → Text → Map Text LocalSvcInfo → LanRegistry → Option LocalSvcInfo
result ping t j entries r = decided ping t (lookup j entries) (lookup j r.local_service_table)

check_entries-table :
    (ping : Text → Bool) (t : ℕ) (j : Text) (entries : Map Text LocalSvcInfo) (r : LanRegistry)
    → Distinct (keys entries)
    → ((n : Text) (lsi : LocalSvcInfo)
        → lookup n entries ≡ some lsi
        → lookup n r.local_service_table ≡ some lsi)
    → lookup j (check_entries ping t entries r).local_service_table ≡ result ping t j entries r
unfolding check_entries lookup
check_entries-table ping t j [] r d same = refl
check_entries-table ping t j ((name, lsi) ∷ entries) r d same =
    let r' = check_entry ping t name lsi r in
    let here : lookup name r.local_service_table ≡ some lsi =
      same name lsi (ground (arith, text_eq_iff name name)) in
    let other : (n : Text) (l : LocalSvcInfo) → lookup n entries ≡ some l → text_eq name n ≡ false =
      λ n l h. elim (Bool-cases (text_eq name n)) [
        | inl e ↦ absurd (
            d.0 (
              subst (λ k. Elem k (keys entries)) (sym ((text_eq_iff name n).0 e))
                ((Elem-keys n entries).1 (l, h))))
        | inr e ↦ e
      ] in
    let still : (n : Text) (l : LocalSvcInfo)
        → lookup n entries ≡ some l
        → lookup n r'.local_service_table ≡ some l =
      λ n l h.
        check_entry-table ping t name n lsi r here
        ∙ rw (other n l h) (same n l (rw (other n l h) h)) in
    let step : result ping t j entries r' ≡ result ping t j ((name, lsi) ∷ entries) r =
      elim (Option-cases (lookup j entries)) [
        | inr (l, e) ↦ rw (e, other j l e) refl
        | inl e ↦ elim (Bool-cases (text_eq name j)) [
          | inl f ↦ rw (e, check_entry-table ping t name j lsi r here, f) refl
          | inr f ↦ rw (e, check_entry-table ping t name j lsi r here, f) refl
        ]
      ] in
    check_entries-table ping t j entries r' d.1 still ∙ step

result_self :
    (ping : Text → Bool) (t : ℕ) (o : Option LocalSvcInfo)
    → decided ping t o o ≡ (o >>= survivor ping t)
result_self ping t none = refl
result_self ping t (some lsi) = refl

-- A round of the ticker marks the services of the host that answer as seen now, removes those that do
-- not answer and were last seen more than five minutes ago, and leaves the others; no name is twice in the table.
pub lan_tick_lem :
    (ping : Text → Bool) (t : ℕ) (r : LanRegistry) (name : Text)
    → Distinct (keys r.local_service_table)
    → lookup name (check_entries ping t r.local_service_table r).local_service_table
      ≡ (lookup name r.local_service_table >>= survivor ping t)
lan_tick_lem ping t r name d =
    check_entries-table ping t name r.local_service_table r d (λ n lsi h. h)
    ∙ result_self ping t (lookup name r.local_service_table)
