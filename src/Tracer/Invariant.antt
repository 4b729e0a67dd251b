-- ===== src/Tracer/Invariant.antt =====
-- The list and the table of the tracing store agree, and the list stays within its capacity.
use adaptiveservice.Prelude.{
  ℕ, ◌-◌, ◌==◌, leb, ◌≡◌, refl, sym, ap, ◌∙◌, ◌≤◌, ◌<◌, inl, inr, true, false, none, some, some_inj,
  [], ◌∷◌, ◌++◌, Map, lookup, insert, remove, keys, length, nat_eq, arith, Elem, Distinct,
  Elem-remove, not-Elem-remove, length-remove-lt, Elem→key, key→Elem, lookup-insert, lookup-remove,
  elem→lookup, lookup→elem, leb→le, remove-Distinct, Elem-keys-remove, ==_iff, Elem-append,
  Bool-cases, Option-cases, subst,
}
use adaptiveservice.Tracer.{
  UuidInfo, uuid_eq, uuid_eq_iff, uuid_key, TracedMessageRecord, TracingSession, MessageTracer,
  back, without_back, append_record, push_session, handle_traced_message_record,
  handle_read_traced_msg,
}

pub record IsTracer (t : MessageTracer) : Type 0 where
  pub positive : 0 < t.cap
  pub bounded : length t.lru ≤ t.cap
  pub distinct : Distinct (keys t.lru)
  pub fresh : (e : ℕ) → Elem e (keys t.lru) → e < t.next_elem
  pub indexed :
      (e : ℕ) (s : TracingSession) → Elem (e, s) t.lru → lookup s.tracing_id t.lut ≡ some e
  pub listed :
      (k : UuidInfo) (e : ℕ)
      → lookup k t.lut ≡ some e
      → (s : TracingSession) × Elem (e, s) t.lru × (s.tracing_id ≡ k)

append_record-IsTracer :
    (e : ℕ) (s : TracingSession) (r : TracedMessageRecord) (t : MessageTracer)
    → lookup e t.lru ≡ some s
    → IsTracer t
    → IsTracer (append_record e r t)
unfolding append_record
append_record-IsTracer e s r t found v =
    let here = lookup→elem e s t.lru found in
    let s' : TracingSession = record s { records = s.records ++ (r ∷ []) } in
    rw (found, append_record)
      (record {
        positive = v.positive;
        bounded = omega (arith, length-remove-lt e s t.lru here, v.bounded);
        distinct = (not-Elem-remove e t.lru, remove-Distinct e t.lru v.distinct);
        fresh = λ i h. elim h [
          | inl q ↦ rw q (v.fresh e (Elem→key e s t.lru here))
          | inr z ↦ v.fresh i (Elem-keys-remove i e t.lru z)
        ];
        indexed = λ i u h. elim h [
          | inl q ↦
              subst (λ (p : ℕ × TracingSession). lookup p.1.tracing_id t.lut ≡ some p.0) (sym q)
                (v.indexed e s here)
          | inr z ↦ v.indexed i u ((Elem-remove e (i, u) t.lru).0 z).0
        ];
        listed = λ k i h.
            let (u, z, q) = v.listed k i h in
            elim (Bool-cases (i == e)) [
              | inl same ↦
                  let at : i ≡ e = (==_iff i e).0 same in
                  let known : s ≡ u = some_inj (
                    sym found
                    ∙ ap (λ a. lookup a t.lru) (sym at)
                    ∙ elem→lookup i u t.lru v.distinct z) in
                  (
                    s',
                    inl (ap (λ (a : ℕ). (a, s')) at),
                    ap (λ (a : TracingSession). a.tracing_id) known ∙ q,
                  )
              | inr other ↦ (u, inr ((Elem-remove e (i, u) t.lru).1 (z, λ same. ground arith)), q)
            ];
      })

back→ :
    (l : Map ℕ TracingSession) (x : ℕ × TracingSession)
    → back l ≡ some x
    → l ≡ without_back l ++ (x ∷ [])
unfolding back without_back
back→ [] x h = cc
back→ (y ∷ []) x h = ap (λ (z : ℕ × TracingSession). z ∷ []) (some_inj h)
back→ (y ∷ z ∷ l) x h = ap (◌∷◌ y) (back→ (z ∷ l) x h)

pub back_total :
    (l : Map ℕ TracingSession) → 0 < length l → (x : ℕ × TracingSession) × (back l ≡ some x)
unfolding back
back_total [] h = absurd (omega arith)
back_total (y ∷ []) h = (y, refl)
back_total (y ∷ z ∷ l) h = back_total (z ∷ l) (omega arith)

Elem-without_back :
    (x : ℕ × TracingSession) (l : Map ℕ TracingSession) → Elem x (without_back l) → Elem x l
unfolding without_back
Elem-without_back x [] h = h
Elem-without_back x (y ∷ []) h = absurd h
Elem-without_back x (y ∷ z ∷ l) (inl q) = inl q
Elem-without_back x (y ∷ z ∷ l) (inr h) = inr (Elem-without_back x (z ∷ l) h)

keys-without_back :
    (e : ℕ) (l : Map ℕ TracingSession) → Elem e (keys (without_back l)) → Elem e (keys l)
keys-without_back e l h =
    let (s, z) = key→Elem e (without_back l) h in Elem→key e s l (Elem-without_back (e, s) l z)

-- The back of a list of distinct keys is not among the others.
back_apart :
    (l : Map ℕ TracingSession) (e : ℕ) (s : TracingSession)
    → Distinct (keys l)
    → back l ≡ some (e, s)
    → Elem (e, s) l × (¬ Elem e (keys (without_back l))) × Distinct (keys (without_back l))
unfolding back without_back
back_apart [] e s d h = cc
back_apart (y ∷ []) e s d h = (inl (sym (some_inj h)), λ z. z, tt)
back_apart (y ∷ z ∷ l) e s d h =
    let (a, b, c) = back_apart (z ∷ l) e s d.1 h in
    (
      inr a,
      (elim [
        | inl q ↦ d.0 (subst (λ i. Elem i (keys (z ∷ l))) q (Elem→key e s (z ∷ l) a))
        | inr k ↦ b k
      ]),
      (λ k. d.0 (keys-without_back y.0 (z ∷ l) k), c),
    )

length-without_back : (l : Map ℕ TracingSession) → length (without_back l) ≡ length l - 1
unfolding without_back
length-without_back [] = omega arith
length-without_back (y ∷ []) = omega arith
length-without_back (y ∷ z ∷ l) = omega (arith, length-without_back (z ∷ l))

abbrev pub evicted : MessageTracer → TracingSession → MessageTracer
evicted t s = record t { lru = without_back t.lru; lut = remove s.tracing_id t.lut }

evicted-IsTracer :
    (t : MessageTracer) (e : ℕ) (s : TracingSession)
    → back t.lru ≡ some (e, s)
    → IsTracer t
    → IsTracer (evicted t s)
evicted-IsTracer t e s h v =
    let (here, gone, rest) = back_apart t.lru e s v.distinct h in
    record {
      positive = v.positive;
      bounded = omega (arith, length-without_back t.lru, v.bounded);
      distinct = rest;
      fresh = λ i k. v.fresh i (keys-without_back i t.lru k);
      indexed = λ i u k.
          let old = v.indexed i u (Elem-without_back (i, u) t.lru k) in
          let apart : uuid_eq s.tracing_id u.tracing_id ≡ false =
            elim (Bool-cases (uuid_eq s.tracing_id u.tracing_id)) [
              | inl same ↦
                  let q : e ≡ i = some_inj (
                    sym (v.indexed e s here)
                    ∙ ap (λ a. lookup a t.lut) ((uuid_eq_iff s.tracing_id u.tracing_id).0 same)
                    ∙ old) in
                  absurd (
                    gone (
                      subst (λ a. Elem a (keys (without_back t.lru))) (sym q)
                        (Elem→key i u (without_back t.lru) k)))
              | inr f ↦ f
            ] in
          lookup-remove s.tracing_id u.tracing_id t.lut ∙ rw apart old;
      listed = λ k i l. elim (Bool-cases (uuid_eq s.tracing_id k)) [
        | inl same ↦
            let none_now : lookup k (remove s.tracing_id t.lut) ≡ none =
              lookup-remove s.tracing_id k t.lut ∙ rw same refl in
            cc (none_now, l)
        | inr apart ↦
            let kept : lookup k t.lut ≡ some i =
              sym (lookup-remove s.tracing_id k t.lut ∙ rw apart refl) ∙ l in
            let (u, z, q) = v.listed k i kept in
            elim ((Elem-append (i, u) (without_back t.lru) ((e, s) ∷ [])).0
              (subst (Elem (i, u)) (back→ t.lru (e, s) h) z)) [
                | inl z' ↦ (u, z', q)
                | inr z' ↦ elim z' [
                  | inl same ↦ cc (
                    apart,
                    (uuid_eq_iff s.tracing_id k).1
                        (ap (λ (p : ℕ × TracingSession). p.1.tracing_id) (sym same) ∙ q),
                  )
                  | inr no_one ↦ absurd no_one
                ]
              ]
      ];
    }

push_session-IsTracer :
    (r : TracedMessageRecord) (t : MessageTracer)
    → length t.lru < t.cap
    → lookup r.tracing_id t.lut ≡ none
    → IsTracer t
    → IsTracer (push_session r t)
unfolding push_session
push_session-IsTracer r t room new v =
    let s : TracingSession = record { tracing_id = r.tracing_id; records = r ∷ [] } in
    record {
      positive = v.positive;
      bounded = omega arith;
      distinct = ((λ k. absurd (omega (arith, v.fresh t.next_elem k))), v.distinct);
      fresh = λ i k. elim k [ inl q ↦ omega arith | inr z ↦ omega (arith, v.fresh i z) ];
      indexed = λ i u k. elim k [
        | inl q ↦
            subst
              (λ (p : ℕ × TracingSession).
                lookup p.1.tracing_id (insert r.tracing_id t.next_elem t.lut) ≡ some p.0)
              (sym q)
              (lookup-insert r.tracing_id r.tracing_id t.next_elem t.lut
                ∙ rw ((uuid_eq_iff r.tracing_id r.tracing_id).1 refl) refl)
        | inr z ↦
            lookup-insert r.tracing_id u.tracing_id t.next_elem t.lut
            ∙ ground (arith, uuid_eq_iff r.tracing_id u.tracing_id, v.indexed i u z)
      ];
      listed = λ k i l. elim (Bool-cases (uuid_eq r.tracing_id k)) [
        | inl same ↦ (
          s,
          inl (ap (λ (a : ℕ). (a, s)) (newest i k same l)),
          (uuid_eq_iff r.tracing_id k).0 same,
        )
        | inr apart ↦
            let kept : lookup k t.lut ≡ some i =
              sym (lookup-insert r.tracing_id k t.next_elem t.lut ∙ rw apart refl) ∙ l in
            let (u, z, q) = v.listed k i kept in (u, inr z, q)
      ];
    }
  where
    newest :
        (i : ℕ) (k : UuidInfo)
        → uuid_eq r.tracing_id k ≡ true
        → lookup k (insert r.tracing_id t.next_elem t.lut) ≡ some i
        → i ≡ t.next_elem
    newest i k same l =
        let now : lookup k (insert r.tracing_id t.next_elem t.lut) ≡ some t.next_elem =
          lookup-insert r.tracing_id k t.next_elem t.lut ∙ rw same refl in
        some_inj (sym l ∙ now)

-- What a record does to the store: its session is found and moves to the front, or it is pushed
-- onto what is left when the store is full.
pub handle_cases {ℓ} :
    (P : MessageTracer → Type ℓ) (r : TracedMessageRecord) (t : MessageTracer)
    → IsTracer t
    → ((e : ℕ) (s : TracingSession)
        → lookup r.tracing_id t.lut ≡ some e
        → lookup e t.lru ≡ some s
        → s.tracing_id ≡ r.tracing_id
        → P (append_record e r t))
    → (lookup r.tracing_id t.lut ≡ none → length t.lru < t.cap → P (push_session r t))
    → ((e : ℕ) (s : TracingSession)
        → lookup r.tracing_id t.lut ≡ none
        → back t.lru ≡ some (e, s)
        → t.cap ≤ length t.lru
        → P (push_session r (evicted t s)))
    → (t' : MessageTracer) × (handle_traced_message_record r t ≡ some t') × P t'
unfolding handle_traced_message_record
handle_cases P r t v found room full = elim (Option-cases (lookup r.tracing_id t.lut)) [
  | inl e ↦ elim (Bool-cases (leb t.cap (length t.lru))) [
    | inl f ↦
        let (x, h) = back_total t.lru (omega (arith, leb→le t.cap (length t.lru) f, v.positive)) in
        (
          push_session r (evicted t x.1),
          ground arith,
          full x.0 x.1 e h (leb→le t.cap (length t.lru) f),
        )
    | inr f ↦ (push_session r t, ground arith, room e (ground arith))
  ]
  | inr (e, h) ↦
      let (s, z, q) = v.listed r.tracing_id e h in
      (append_record e r t, ground arith, found e s h (elem→lookup e s t.lru v.distinct z) q)
]

-- The handler of a traced record never panics, and keeps the list and the table in agreement and
-- the list within its capacity.
pub handle_traced_message_record-IsTracer :
    (r : TracedMessageRecord) (t : MessageTracer)
    → IsTracer t
    → (t' : MessageTracer) × (handle_traced_message_record r t ≡ some t') × IsTracer t'
handle_traced_message_record-IsTracer r t v =
    handle_cases IsTracer r t v (λ e s h k q. append_record-IsTracer e s r t k v)
      (λ h room. push_session-IsTracer r t room h v)
      (λ e s h b full.
        push_session-IsTracer r (evicted t s)
          (omega (arith, length-without_back t.lru, v.bounded, v.positive))
          (lookup-remove s.tracing_id r.tracing_id t.lut ∙ ground arith)
          (evicted-IsTracer t e s b v))

removed-IsTracer :
    (k : UuidInfo) (e : ℕ) (t : MessageTracer)
    → lookup k t.lut ≡ some e
    → IsTracer t
    → IsTracer (record t { lru = remove e t.lru; lut = remove k t.lut })
removed-IsTracer k e t found v =
    let (s, here, named) = v.listed k e found in
    record {
      positive = v.positive;
      bounded = omega (arith, length-remove-lt e s t.lru here, v.bounded);
      distinct = remove-Distinct e t.lru v.distinct;
      fresh = λ i h. v.fresh i (Elem-keys-remove i e t.lru h);
      indexed = λ i u h.
          let (z, apart) = (Elem-remove e (i, u) t.lru).0 h in
          lookup-remove k u.tracing_id t.lut
          ∙ ground (arith, v.indexed i u z, uuid_eq_iff k u.tracing_id);
      listed = λ j i l. elim (Bool-cases (uuid_eq k j)) [
        | inl same ↦
            let none_now : lookup j (remove k t.lut) ≡ none =
              lookup-remove k j t.lut ∙ rw same refl in
            cc (none_now, l)
        | inr apart ↦
            let kept : lookup j t.lut ≡ some i =
              sym (lookup-remove k j t.lut ∙ rw apart refl) ∙ l in
            let (u, z, q) = v.listed j i kept in
            (
              u,
              (Elem-remove e (i, u) t.lru).1 (
                z,
                λ same.
                    let one : s ≡ u = some_inj (
                      sym (elem→lookup e s t.lru v.distinct here)
                      ∙ ap (λ a. lookup a t.lru) (sym same)
                      ∙ elem→lookup i u t.lru v.distinct z) in
                    cc (
                      apart,
                      (uuid_eq_iff k j).1
                          (sym named ∙ ap (λ (a : TracingSession). a.tracing_id) one ∙ q),
                    ),
              ),
              q,
            )
      ];
    }

empty-IsTracer : (t : MessageTracer) → IsTracer t → IsTracer (record t { lru = []; lut = [] })
unfolding lookup
empty-IsTracer t v = record {
  positive = v.positive;
  bounded = omega arith;
  distinct = tt;
  fresh = λ i h. absurd h;
  indexed = λ i u h. absurd h;
  listed = λ j i l. cc;
}

-- A read keeps the list and the table in agreement, too.
pub handle_read_traced_msg-IsTracer :
    (k : UuidInfo) (t : MessageTracer) → IsTracer t → IsTracer (handle_read_traced_msg k t).1
unfolding handle_read_traced_msg
handle_read_traced_msg-IsTracer k t v = elim (Bool-cases (k.id == 0)) [
  | inl all ↦ rw (all, handle_read_traced_msg) (empty-IsTracer t v)
  | inr one ↦ elim (Option-cases (lookup k t.lut)) [
    | inl e ↦ rw (one, e, handle_read_traced_msg) v
    | inr (e, h) ↦ rw (one, h, handle_read_traced_msg) (removed-IsTracer k e t h v)
  ]
]
