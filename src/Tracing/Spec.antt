-- ===== src/Tracing/Spec.antt =====
-- What tracing promises: the sessions that the messages of one type begin.
use adaptiveservice.Prelude.{
  ℕ, zero, suc, ◌==◌, ltb, ◌&&◌, none, some, List, [], ◌∷◌, if◌then◌else◌, keep,
}
use adaptiveservice.Tracer.{UuidInfo}
use adaptiveservice.Tracing.{Message, TraceFilter, TraceTable, match_filters, get_tracing_id}

-- The IDs that messages of one type get, sent one after another from goroutines without an ID.
unfoldable pub sessions : ℕ → List Message → TraceTable → List UuidInfo
sessions rtype [] types = []
sessions rtype (msg ∷ msgs) types =
    let (tracing_id, types') = get_tracing_id none msg types in
    let rest = sessions rtype msgs types' in
    elim tracing_id [ none ↦ rest | some k ↦ if msg.rtype == rtype then k ∷ rest else rest ]

-- The IDs id.seq, id.seq+1, ... up to so many.
unfoldable pub numbered : (id seq : ℕ) → ℕ → List UuidInfo
numbered id seq zero = []
numbered id seq (suc n) = record { id = id; seq_num = seq } ∷ numbered id (suc seq) n

-- The messages that are to be traced.
unfoldable pub traced : ℕ → List TraceFilter → List Message → List Message
traced rtype filters = keep (λ msg. msg.rtype == rtype && match_filters filters msg)

abbrev pub least : ℕ → ℕ → ℕ
least a b = if ltb a b then a else b
