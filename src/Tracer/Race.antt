-- ===== src/Tracer/Race.antt =====
-- Two handlers at once: the look into the table and the write are under separate locks.
use adaptiveservice.Prelude.{
  suc, ◌==◌, ◌≡◌, ◌∙◌, ◌<◌, false, none, some, [], ◌∷◌, lookup, insert, length, nat_eq, arith,
  ◌>>=◌, lookup-insert,
}
use adaptiveservice.Tracer.{
  uuid_eq_iff, uuid_key, TracedMessageRecord, MessageTracer, find_session, push_session,
  insert_session, store_record, handle_read_traced_msg,
}

-- If the handlers of two records of one new tracing ID both look before either writes, there is
-- room for two sessions, and the ID is not the zero uuid, then a read of the ID returns the
-- second record alone: the first is lost to it.
pub store_record_race :
    (first second : TracedMessageRecord) (t : MessageTracer)
    → second.tracing_id ≡ first.tracing_id
    → (first.tracing_id.id == 0) ≡ false
    → find_session first.tracing_id t ≡ none
    → suc (length t.lru) < t.cap
    → (t' : MessageTracer) × ((store_record (find_session first.tracing_id t) first t >>= λ between.
          store_record (find_session second.tracing_id t) second between)
        ≡ some t')
      × ((handle_read_traced_msg first.tracing_id t').0 ≡ second ∷ [])
unfolding store_record handle_read_traced_msg push_session lookup insert_session
store_record_race first second t same real new room =
    let after = push_session second (push_session first t) in
    let indexed : lookup first.tracing_id after.lut ≡ some (suc t.next_elem) =
      lookup-insert second.tracing_id first.tracing_id (suc t.next_elem)
        (insert first.tracing_id t.next_elem t.lut)
      ∙ ground (arith, uuid_eq_iff second.tracing_id first.tracing_id) in
    let newest : lookup (suc t.next_elem) after.lru
        ≡ some (record { tracing_id = second.tracing_id; records = second ∷ [] }) =
      ground arith in
    (after, ground (arith, same), rw (real, indexed, newest))
