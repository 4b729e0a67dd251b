-- ===== src/Tracing/Sessions.antt =====
-- The sessions of one type: as many as were asked for, each with its own number.
use adaptiveservice.Prelude.{
  ℕ, suc, ◌-◌, ◌==◌, ==_iff, leb, ◌≡◌, refl, sym, ap, ◌∙◌, true, false, Option, none, some, List,
  [], ◌∷◌, if◌then◌else◌, length, lookup, insert, remove, lookup-insert, lookup-remove, nat_eq,
  arith, Bool-cases, Option-cases, inl, inr,
}
use adaptiveservice.Tracer.{UuidInfo}
use adaptiveservice.Tracing.{
  Message, TraceConf, TraceTable, match_filters, get_tracing_id, get_trace_conf, take_id,
}
use adaptiveservice.Tracing.Spec.{sessions, numbered, traced, least}

-- The four outcomes of getTracingID for a goroutine without an ID.
module _ (msg : Message) (types : TraceTable) where
  get_tracing_id-none :
      lookup msg.rtype types ≡ none → get_tracing_id none msg types ≡ (none, types)
  unfolding get_tracing_id get_trace_conf take_id
  get_tracing_id-none h = ground arith

  module _ (tc : TraceConf) (h : lookup msg.rtype types ≡ some tc) where
    get_tracing_id-used :
        leb tc.count tc.seq_num ≡ true
        → get_tracing_id none msg types ≡ (none, remove msg.rtype types)
    unfolding get_tracing_id get_trace_conf take_id
    get_tracing_id-used used = ground arith

    get_tracing_id-skip :
        leb tc.count tc.seq_num ≡ false
        → match_filters tc.filters msg ≡ false
        → get_tracing_id none msg types ≡ (none, types)
    unfolding get_tracing_id get_trace_conf take_id
    get_tracing_id-skip left skip = ground arith

    get_tracing_id-take :
        leb tc.count tc.seq_num ≡ false
        → match_filters tc.filters msg ≡ true
        → get_tracing_id none msg types ≡ (
          some (record { id = tc.id; seq_num = tc.seq_num }),
          insert msg.rtype (record tc { seq_num = suc tc.seq_num }) types,
        )
    unfolding get_tracing_id get_trace_conf take_id
    get_tracing_id-take left take = ground arith

-- A message of another type leaves the entry of a type alone.
get_tracing_id-other :
    (rtype : ℕ) (msg : Message) (types : TraceTable)
    → (msg.rtype == rtype) ≡ false
    → lookup rtype (get_tracing_id none msg types).1 ≡ lookup rtype types
get_tracing_id-other rtype msg types other = elim (Option-cases (lookup msg.rtype types)) [
  | inl h ↦ rw (get_tracing_id-none msg types h) refl
  | inr (tc, h) ↦ elim (Bool-cases (leb tc.count tc.seq_num)) [
    | inl used ↦ rw (get_tracing_id-used msg types tc h used, lookup-remove, other) refl
    | inr left ↦ elim (Bool-cases (match_filters tc.filters msg)) [
      | inl take ↦ rw (get_tracing_id-take msg types tc h left take, lookup-insert, other) refl
      | inr skip ↦ rw (get_tracing_id-skip msg types tc h left skip) refl
    ]
  ]
]

-- A turn of sessions, from what its message gets.
abbrev after : ℕ → Message → List Message → Option UuidInfo × TraceTable → List UuidInfo
after rtype msg msgs (tracing_id, types) =
    let rest = sessions rtype msgs types in
    elim tracing_id [ none ↦ rest | some k ↦ if msg.rtype == rtype then k ∷ rest else rest ]

module _ (rtype : ℕ) (msg : Message) (msgs : List Message) (types : TraceTable) where
  sessions-other :
      (msg.rtype == rtype) ≡ false
      → sessions rtype (msg ∷ msgs) types ≡ sessions rtype msgs (get_tracing_id none msg types).1
  unfolding sessions
  sessions-other h = ground arith

  sessions-untraced :
      (types' : TraceTable)
      → get_tracing_id none msg types ≡ (none, types')
      → sessions rtype (msg ∷ msgs) types ≡ sessions rtype msgs types'
  unfolding sessions
  sessions-untraced types' h = ap (after rtype msg msgs) h

  sessions-traced :
      (k : UuidInfo) (types' : TraceTable)
      → (msg.rtype == rtype) ≡ true
      → get_tracing_id none msg types ≡ (some k, types')
      → sessions rtype (msg ∷ msgs) types ≡ k ∷ sessions rtype msgs types'
  unfolding sessions
  sessions-traced k types' same h = ap (after rtype msg msgs) h ∙ rw same refl

sessions-none :
    (rtype : ℕ) (msgs : List Message) (types : TraceTable)
    → lookup rtype types ≡ none
    → sessions rtype msgs types ≡ []
unfolding sessions
sessions-none rtype [] types h = refl
sessions-none rtype (msg ∷ msgs) types h = elim (Bool-cases (msg.rtype == rtype)) [
  | inl same ↦
      let absent : lookup msg.rtype types ≡ none = rw ((==_iff msg.rtype rtype).0 same) h in
      sessions-untraced rtype msg msgs types types (get_tracing_id-none msg types absent)
      ∙ sessions-none rtype msgs types h
  | inr other ↦
      sessions-other rtype msg msgs types other
      ∙ sessions-none rtype msgs (get_tracing_id none msg types).1
          (get_tracing_id-other rtype msg types other ∙ h)
]

-- The messages of a type that is being traced begin the sessions that are left of those asked for,
-- or as many as there are messages that pass the filters; they are numbered on from the type's
-- number, whatever other messages come between.
pub sessions-numbered :
    (rtype : ℕ) (tc : TraceConf) (msgs : List Message) (types : TraceTable)
    → lookup rtype types ≡ some tc
    → sessions rtype msgs types
      ≡ numbered tc.id tc.seq_num
          (least (tc.count - tc.seq_num) (length (traced rtype tc.filters msgs)))
unfolding sessions traced numbered
sessions-numbered rtype tc [] types h =
    let q : least (tc.count - tc.seq_num) 0 ≡ 0 = ground arith in rw q refl
sessions-numbered rtype tc (msg ∷ msgs) types h = elim (Bool-cases (msg.rtype == rtype)) [
  | inr other ↦
      sessions-other rtype msg msgs types other
      ∙ sessions-numbered rtype tc msgs (get_tracing_id none msg types).1
          (get_tracing_id-other rtype msg types other ∙ h)
      ∙ rw other refl
  | inl same ↦
      let e = (==_iff msg.rtype rtype).0 same in
      let here : lookup msg.rtype types ≡ some tc = rw e h in
      elim (Bool-cases (leb tc.count tc.seq_num)) [
        | inl used ↦
            let none_left : least (tc.count - tc.seq_num)
                  (length (traced rtype tc.filters (msg ∷ msgs)))
                ≡ 0 =
              ground (arith, used) in
            let gone : lookup rtype (remove msg.rtype types) ≡ none =
              rw (lookup-remove, same) refl in
            sessions-untraced rtype msg msgs types (remove msg.rtype types)
              (get_tracing_id-used msg types tc here used)
            ∙ sessions-none rtype msgs (remove msg.rtype types) gone
            ∙ sym (ap (numbered tc.id tc.seq_num) none_left)
        | inr left ↦ elim (Bool-cases (match_filters tc.filters msg)) [
          | inr skip ↦
              sessions-untraced rtype msg msgs types types
                (get_tracing_id-skip msg types tc here left skip)
              ∙ sessions-numbered rtype tc msgs types h
              ∙ rw (same, skip) refl
          | inl take ↦
              let next : TraceConf = record tc { seq_num = suc tc.seq_num } in
              let types' = insert msg.rtype next types in
              let kept : lookup rtype types' ≡ some next = rw (lookup-insert, same) refl in
              let n = length (traced rtype tc.filters msgs) in
              let more : least (tc.count - tc.seq_num) (suc n)
                  ≡ suc (least (tc.count - suc tc.seq_num) n) =
                ground (arith, left) in
              sessions-traced rtype msg msgs types (record { id = tc.id; seq_num = tc.seq_num })
                types' same (get_tracing_id-take msg types tc here left take)
              ∙ ap (◌∷◌ (record { id = tc.id; seq_num = tc.seq_num }))
                  (sessions-numbered rtype next msgs types' kept)
              ∙ rw (same, take, more) refl
        ]
      ]
]
