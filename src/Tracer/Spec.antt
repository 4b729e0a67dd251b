-- ===== src/Tracer/Spec.antt =====
-- What the tracing store promises: a bounded list of sessions, the latest used first.
use adaptiveservice.Prelude.{
  ℕ, ◌==◌, leb, not, Option, none, some, List, [], ◌∷◌, ◌++◌, length, keep, if◌then◌else◌,
}
use adaptiveservice.Tracer.{UuidInfo, uuid_eq, TracedMessageRecord, TracingSession}

-- The records of one tracing ID, oldest first.
abbrev pub records_of : UuidInfo → List TracingSession → Option (List TracedMessageRecord)
records_of k [] = none
records_of k (s ∷ l) = if uuid_eq s.tracing_id k then some s.records else records_of k l

abbrev pub without : UuidInfo → List TracingSession → List TracingSession
without k = keep (λ s. not (uuid_eq s.tracing_id k))

abbrev pub but_last : List TracingSession → List TracingSession
but_last [] = []
but_last (x ∷ []) = []
but_last (x ∷ y ∷ l) = x ∷ but_last (y ∷ l)

abbrev pub stored : ℕ → TracedMessageRecord → List TracingSession → List TracingSession
stored cap r l = elim (records_of r.tracing_id l) [
  | some rs ↦
      record { tracing_id = r.tracing_id; records = rs ++ (r ∷ []) } ∷ without r.tracing_id l
  | none ↦
      record { tracing_id = r.tracing_id; records = r ∷ [] }
      ∷ (if leb cap (length l) then but_last l else l)
]

abbrev pub flat : List TracingSession → List TracedMessageRecord
flat [] = []
flat (s ∷ l) = s.records ++ flat l

abbrev pub read : UuidInfo → List TracingSession → List TracedMessageRecord × List TracingSession
read k l =
    let one : List TracedMessageRecord × List TracingSession =
      (elim (records_of k l) [ none ↦ [] | some rs ↦ rs ], without k l) in
    if k.id == 0 then (flat l, []) else one
