-- ===== src/Tracing/Race.antt =====
-- getTracingID of two goroutines at once: the check is under the lock, the numbering is not.
use adaptiveservice.Prelude.{
  ℕ, suc, ◌≡◌, refl, ap, ◌∙◌, some, lookup, insert, lookup-insert, nat_eq, arith,
}
use adaptiveservice.Tracing.{TraceConf, TraceTable, get_trace_conf, take_id}

take_id-insert :
    (rtype : ℕ) (tc : TraceConf) (types : TraceTable)
    → lookup rtype types ≡ some tc
    → (take_id rtype types).1 ≡ insert rtype (record tc { seq_num = suc tc.seq_num }) types
unfolding take_id
take_id-insert rtype tc types here = ground arith

take_id-some :
    (rtype : ℕ) (tc : TraceConf) (types : TraceTable)
    → lookup rtype types ≡ some tc
    → (take_id rtype types).0 ≡ some (record { id = tc.id; seq_num = tc.seq_num })
unfolding take_id
take_id-some rtype tc types here = ground arith

-- If the last session of a type is left and two goroutines check for it before either takes its
-- number, then both pass, and the second begins a session with the number of the count, which is
-- beyond those of the token.
pub take_id_race :
    (rtype : ℕ) (tc : TraceConf) (types : TraceTable)
    → lookup rtype types ≡ some tc
    → suc tc.seq_num ≡ tc.count
    → (get_trace_conf rtype types ≡ (some tc, types))
      × ((take_id rtype (take_id rtype types).1).0
          ≡ some (record { id = tc.id; seq_num = tc.count }))
unfolding get_trace_conf
take_id_race rtype tc types here last =
    let tc' : TraceConf = record tc { seq_num = suc tc.seq_num } in
    let first : (take_id rtype types).1 ≡ insert rtype tc' types =
      take_id-insert rtype tc types here in
    let there : lookup rtype (insert rtype tc' types) ≡ some tc' =
      ground (arith, lookup-insert rtype rtype tc' types) in
    (
      ground arith,
      ap (λ t. (take_id rtype t).0) first
          ∙ take_id-some rtype tc' (insert rtype tc' types) there
          ∙ rw last refl,
    )
