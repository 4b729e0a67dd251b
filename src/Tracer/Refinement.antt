-- ===== src/Tracer/Refinement.antt =====
-- The tracing store implements the bounded list of sessions.
use adaptiveservice.Prelude.{
  ℕ, suc, ◌==◌, ◌≡◌, refl, sym, ap, ◌∙◌, inl, inr, false, none, some, some_inj, List, [], ◌∷◌, ◌++◌,
  Map, lookup, remove, length, nat_eq, arith, ◌>>=◌, Elem, Bool-cases, Option-cases, ==_iff,
  elem→lookup,
}
use adaptiveservice.Tracer.{
  UuidInfo, uuid_eq, uuid_eq_iff, uuid_key, TracedMessageRecord, TracingSession, MessageTracer,
  without_back, append_record, push_session, handle_traced_message_record, all_records,
  handle_read_traced_msg,
}
use adaptiveservice.Tracer.Spec.{records_of, without, but_last, stored, flat, read}
use adaptiveservice.Tracer.Invariant.{IsTracer, handle_cases}

-- The abstract view forgets the elements and the table.
abbrev pub sessions : Map ℕ TracingSession → List TracingSession
sessions [] = []
sessions ((e, s) ∷ l) = s ∷ sessions l

length-sessions : (l : Map ℕ TracingSession) → length (sessions l) ≡ length l
length-sessions [] = refl
length-sessions (x ∷ l) = ap suc (length-sessions l)

sessions-without_back :
    (l : Map ℕ TracingSession) → sessions (without_back l) ≡ but_last (sessions l)
unfolding without_back
sessions-without_back [] = refl
sessions-without_back (x ∷ []) = refl
sessions-without_back (x ∷ y ∷ l) = ap (◌∷◌ x.1) (sessions-without_back (y ∷ l))

all_records-sessions : (l : Map ℕ TracingSession) → all_records l ≡ flat (sessions l)
unfolding all_records
all_records-sessions [] = refl
all_records-sessions (x ∷ l) = ap (◌++◌ x.1.records) (all_records-sessions l)

records_of-none :
    (k : UuidInfo) (l : Map ℕ TracingSession)
    → ((i : ℕ) (u : TracingSession) → Elem (i, u) l → uuid_eq u.tracing_id k ≡ false)
    → records_of k (sessions l) ≡ none
records_of-none k [] h = refl
records_of-none k ((i, u) ∷ l) h =
    rw (h i u (inl refl)) (records_of-none k l (λ j w z. h j w (inr z)))

without_none :
    (k : UuidInfo) (l : Map ℕ TracingSession)
    → ((i : ℕ) (u : TracingSession) → Elem (i, u) l → uuid_eq u.tracing_id k ≡ false)
    → without k (sessions l) ≡ sessions l
without_none k [] h = refl
without_none k ((i, u) ∷ l) h =
    rw (h i u (inl refl)) (ap (◌∷◌ u) (without_none k l (λ j w z. h j w (inr z))))

-- Where one element, and it alone, has the tracing ID.
module _ (k : UuidInfo) (e : ℕ) where
  records_of-lookup :
      (l : Map ℕ TracingSession)
      → ((i : ℕ) (u : TracingSession) → Elem (i, u) l → uuid_eq u.tracing_id k ≡ (i == e))
      → records_of k (sessions l) ≡ (lookup e l >>= λ s. some s.records)
  unfolding lookup
  records_of-lookup [] h = refl
  records_of-lookup ((i, u) ∷ l) h =
      let rest = records_of-lookup l (λ j w z. h j w (inr z)) in
      let here = h i u (inl refl) in
      elim (Bool-cases (i == e)) [ inl t ↦ rw (here, t) refl | inr f ↦ rw (here, f) rest ]

  sessions-remove :
      (l : Map ℕ TracingSession)
      → ((i : ℕ) (u : TracingSession) → Elem (i, u) l → uuid_eq u.tracing_id k ≡ (i == e))
      → sessions (remove e l) ≡ without k (sessions l)
  unfolding remove
  sessions-remove [] h = refl
  sessions-remove ((i, u) ∷ l) h =
      let rest = sessions-remove l (λ j w z. h j w (inr z)) in
      let here = h i u (inl refl) in
      elim (Bool-cases (i == e)) [
        | inl t ↦ rw (here, t) rest
        | inr f ↦ rw (here, f) (ap (◌∷◌ u) rest)
      ]

apart :
    (k : UuidInfo) (t : MessageTracer)
    → IsTracer t
    → lookup k t.lut ≡ none
    → (i : ℕ) (u : TracingSession) → Elem (i, u) t.lru
    → uuid_eq u.tracing_id k ≡ false
apart k t v h i u z = ground (arith, v.indexed i u z, uuid_eq_iff u.tracing_id k)

alone :
    (k : UuidInfo) (e : ℕ) (t : MessageTracer)
    → IsTracer t
    → lookup k t.lut ≡ some e
    → (i : ℕ) (u : TracingSession) → Elem (i, u) t.lru
    → uuid_eq u.tracing_id k ≡ (i == e)
alone k e t v h i u z =
    let (s, here, named) = v.listed k e h in
    let own : i ≡ e → u.tracing_id ≡ k = λ same.
      ap (λ (a : TracingSession). a.tracing_id)
        (some_inj (
          sym (elem→lookup i u t.lru v.distinct z)
          ∙ ap (λ a. lookup a t.lru) same
          ∙ elem→lookup e s t.lru v.distinct here))
      ∙ named in
    elim (Bool-cases (uuid_eq u.tracing_id k)) [
      | inl same ↦ ground (arith, v.indexed i u z, uuid_eq_iff u.tracing_id k)
      | inr other ↦ elim (Bool-cases (i == e)) [
        | inl at ↦ cc (other, (uuid_eq_iff u.tracing_id k).1 (own ((==_iff i e).0 at)))
        | inr away ↦ rw (other, away) refl
      ]
    ]

abbrev Stores : TracedMessageRecord → MessageTracer → MessageTracer → Type 0
Stores r t t' = sessions t'.lru ≡ stored t.cap r (sessions t.lru)

-- The handler of a traced record does to the store what the specification says: the record joins
-- its session, which becomes the first, or begins a session, for which a full store gives up
-- the session that was used longest ago.
pub sessions-handle_traced_message_record :
    (r : TracedMessageRecord) (t : MessageTracer)
    → IsTracer t
    → (t' : MessageTracer) × (handle_traced_message_record r t ≡ some t')
      × (sessions t'.lru ≡ stored t.cap r (sessions t.lru))
unfolding append_record push_session
sessions-handle_traced_message_record r t v =
    handle_cases (Stores r t) r t v
      (λ e s h k q.
        let only = alone r.tracing_id e t v h in
        ground (
          arith,
          records_of-lookup r.tracing_id e t.lru only,
          sessions-remove r.tracing_id e t.lru only,
        ))
      (λ h room. ground (
        arith,
        records_of-none r.tracing_id t.lru (apart r.tracing_id t v h),
        length-sessions t.lru,
      ))
      (λ e s h b full. ground (
        arith,
        records_of-none r.tracing_id t.lru (apart r.tracing_id t v h),
        length-sessions t.lru,
        sessions-without_back t.lru,
      ))

-- A read returns what the specification returns, and leaves what it leaves.
pub sessions-handle_read_traced_msg :
    (k : UuidInfo) (t : MessageTracer)
    → IsTracer t
    → let (found, after) = handle_read_traced_msg k t in
      let (records, left) = read k (sessions t.lru) in
      (found ≡ records) × (sessions after.lru ≡ left)
unfolding handle_read_traced_msg
sessions-handle_read_traced_msg k t v = elim (Option-cases (lookup k t.lut)) [
  | inl h ↦ ground (
    arith,
    all_records-sessions t.lru,
    records_of-none k t.lru (apart k t v h),
    without_none k t.lru (apart k t v h),
  )
  | inr (e, h) ↦
      let only = alone k e t v h in
      let (s, here, named) = v.listed k e h in
      ground (
        arith,
        all_records-sessions t.lru,
        records_of-lookup k e t.lru only,
        sessions-remove k e t.lru only,
        elem→lookup e s t.lru v.distinct here,
      )
]
