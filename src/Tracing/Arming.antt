-- ===== src/Tracing/Arming.antt =====
-- What a call of TraceMsgByNameWithFilters sets.
use adaptiveservice.Prelude.{
  ℕ, suc, ◌-◌, ◌==◌, ltb, ◌≡◌, refl, ap, ◌∙◌, ◌<◌, ◌≤◌, false, Option, none, some, List,
  if◌then◌else◌, length, Text, Map, text_key, lookup, insert, remove, lookup-insert, lookup-remove,
  nat_eq, arith, Option-cases, inl, inr,
}
use adaptiveservice.Tracer.{max_tracing_sessions}
use adaptiveservice.Tracing.{
  Message, TraceConf, TraceFilter, TraceTable, RegisteredType, ok, err, TraceError, token_of,
  capped, rearm, set_trace, type_filters, trace_msg_by_name_with_filters,
}
use adaptiveservice.Tracing.Spec.{sessions, numbered, traced, least}
use adaptiveservice.Tracing.Sessions.{sessions-numbered}

-- A call for a registered type whose filters can be read is set_trace.
trace_msg-set_trace :
    (name2_type : Map Text RegisteredType) (name : Text) (count : ℕ) (filters : List Text)
    (uuid : Option ℕ) (types : TraceTable) (rt : RegisteredType) (fs : List TraceFilter)
    → lookup name name2_type ≡ some rt
    → type_filters rt filters ≡ ok fs
    → trace_msg_by_name_with_filters name2_type name count filters uuid types
      ≡ set_trace rt.rtype (capped count) fs uuid types
unfolding trace_msg_by_name_with_filters
trace_msg-set_trace name2_type name count filters uuid types rt fs known read =
    rw (trace_msg_by_name_with_filters, known, read) refl

module _ (rtype count : ℕ) (fs : List TraceFilter) (types : TraceTable) where
  set_trace-new :
      (id : ℕ)
      → lookup rtype types ≡ none
      → 0 < count
      → set_trace rtype count fs (some id) types ≡ (
        ok (token_of id count),
        insert rtype (record { id = id; count = count; seq_num = 0; filters = fs }) types,
      )
  unfolding set_trace
  set_trace-new id absent some_count = ground arith

  set_trace-rearm :
      (uuid : Option ℕ) (tc : TraceConf)
      → lookup rtype types ≡ some tc
      → 0 < count
      → set_trace rtype count fs uuid types
        ≡ (ok (token_of tc.id (rearm tc count fs).count), insert rtype (rearm tc count fs) types)
  unfolding set_trace
  set_trace-rearm uuid tc here some_count = ground arith

  -- set_trace writes no other type, and on an error nothing.
  set_trace-other :
      (uuid : Option ℕ) (j : ℕ)
      → (rtype == j) ≡ false
      → lookup j (set_trace rtype count fs uuid types).1 ≡ lookup j types
  unfolding set_trace
  set_trace-other uuid j other =
      let gone : lookup j (remove rtype types) ≡ lookup j types = rw (lookup-remove, other) refl in
      let kept : (tc : TraceConf) → lookup j (insert rtype tc types) ≡ lookup j types =
        λ tc. rw (lookup-insert, other) refl in
      elim (Option-cases (lookup rtype types)) [
        | inl h ↦ elim (Option-cases uuid) [
          | inl e ↦ ground (arith, gone)
          | inr (id, e) ↦
              ground
                (arith, gone, kept (record { id = id; count = count; seq_num = 0; filters = fs }))
        ]
        | inr (tc, h) ↦ ground (arith, gone, kept (rearm tc count fs))
      ]

  set_trace-err :
      (uuid : Option ℕ) (e : TraceError)
      → (set_trace rtype count fs uuid types).0 ≡ err e
      → (set_trace rtype count fs uuid types).1 ≡ types
  unfolding set_trace
  set_trace-err uuid e h = ground arith

-- Tracing a registered type that is not traced, so many times, replies with the token of the
-- sessions from 0 on, at most MaxTracingSessions of them; and these are the sessions that the later
-- messages begin that are of the type and pass the filters: the first so many, numbered from 0. The
-- filters are in the form field=pattern and name fields of the type, and the count is not 0.
pub trace_msg-sessions :
    (name2_type : Map Text RegisteredType) (name : Text) (count : ℕ) (filters : List Text) (id : ℕ)
    (types : TraceTable) (rt : RegisteredType) (fs : List TraceFilter) (msgs : List Message)
    → lookup name name2_type ≡ some rt
    → type_filters rt filters ≡ ok fs
    → lookup rt.rtype types ≡ none
    → 0 < count
    → (let (reply, types') =
          trace_msg_by_name_with_filters name2_type name count filters (some id) types in
        (reply ≡ ok (token_of id (capped count)))
        × (sessions rt.rtype msgs types'
            ≡ numbered id 0 (least (capped count) (length (traced rt.rtype fs msgs)))))
trace_msg-sessions name2_type name count filters id types rt fs msgs known read absent some_count =
    let capped_count : 0 < capped count = ground arith in
    let tc : TraceConf = record { id = id; count = capped count; seq_num = 0; filters = fs } in
    let call =
      trace_msg-set_trace name2_type name count filters (some id) types rt fs known read
      ∙ set_trace-new rt.rtype (capped count) fs types id absent capped_count in
    let there : lookup rt.rtype (insert rt.rtype tc types) ≡ some tc =
      ground (arith, lookup-insert rt.rtype rt.rtype tc types) in
    let all : capped count - 0 ≡ capped count = omega arith in
    (
      ap (λ p. p.0) call,
      ap (λ p. sessions rt.rtype msgs p.1) call
          ∙ sessions-numbered rt.rtype tc msgs (insert rt.rtype tc types) there
          ∙ ap (λ n. numbered id 0 (least n (length (traced rt.rtype fs msgs)))) all,
    )

rearm-numbered :
    (rtype count : ℕ) (fs : List TraceFilter) (tc : TraceConf) (msgs : List Message)
    → (let tc' = rearm tc count fs in
        numbered tc'.id tc'.seq_num
          (least (tc'.count - tc'.seq_num) (length (traced rtype tc'.filters msgs)))
        ≡ numbered tc.id tc.seq_num (
            least
              (if ltb count tc.seq_num then 1 else count - tc.seq_num)
              (length (traced rtype fs msgs))))
unfolding rearm
rearm-numbered rtype count fs tc msgs =
    let left : (if ltb count tc.seq_num then suc tc.seq_num else count) - tc.seq_num
        ≡ (if ltb count tc.seq_num then 1 else count - tc.seq_num) =
      ground arith in
    ap (λ n. numbered tc.id tc.seq_num (least n (length (traced rtype fs msgs)))) left

-- Tracing a type again that is traced already, with another count, does not begin that many
-- sessions: the number that was reached counts too. With s sessions begun, a count of c gives the
-- next c - s, none for c = s, and one for a smaller c; the uuid stays. So it is for a registered type,
-- filters that can be read, and a count that is not 0 and not above MaxTracingSessions.
pub trace_msg-sessions_again :
    (name2_type : Map Text RegisteredType) (name : Text) (count : ℕ) (filters : List Text)
    (uuid : Option ℕ) (types : TraceTable) (rt : RegisteredType) (fs : List TraceFilter)
    (tc : TraceConf) (msgs : List Message)
    → lookup name name2_type ≡ some rt
    → type_filters rt filters ≡ ok fs
    → lookup rt.rtype types ≡ some tc
    → 0 < count
    → count ≤ max_tracing_sessions
    → (let left = if ltb count tc.seq_num then 1 else count - tc.seq_num in
        let (reply, types') =
          trace_msg_by_name_with_filters name2_type name count filters uuid types in
        sessions rt.rtype msgs types'
        ≡ numbered tc.id tc.seq_num (least left (length (traced rt.rtype fs msgs))))
trace_msg-sessions_again name2_type name count filters uuid types rt fs tc msgs known read here
      some_count within =
    let same : capped count ≡ count = ground arith in
    let tc' = rearm tc count fs in
    let call =
      trace_msg-set_trace name2_type name count filters uuid types rt fs known read
      ∙ ap (λ c. set_trace rt.rtype c fs uuid types) same
      ∙ set_trace-rearm rt.rtype count fs types uuid tc here some_count in
    let there : lookup rt.rtype (insert rt.rtype tc' types) ≡ some tc' =
      ground (arith, lookup-insert rt.rtype rt.rtype tc' types) in
    ap (λ p. sessions rt.rtype msgs p.1) call
    ∙ sessions-numbered rt.rtype tc' msgs (insert rt.rtype tc' types) there
    ∙ rearm-numbered rt.rtype count fs tc msgs

-- A call that replies with an error, whatever its reason, leaves the table as it was.
pub trace_msg-err :
    (name2_type : Map Text RegisteredType) (name : Text) (count : ℕ) (filters : List Text)
    (uuid : Option ℕ) (types : TraceTable) (e : TraceError)
    → (trace_msg_by_name_with_filters name2_type name count filters uuid types).0 ≡ err e
    → (trace_msg_by_name_with_filters name2_type name count filters uuid types).1 ≡ types
unfolding trace_msg_by_name_with_filters
trace_msg-err name2_type name count filters uuid types e h =
    elim (Option-cases (lookup name name2_type)) [
      | inl unknown ↦ ground arith
      | inr (rt, known) ↦ ground (arith, set_trace-err rt.rtype (capped count) _ types uuid e)
    ]
