-- ===== src/Tracer/Examples.antt =====
-- A tracing store with room for two sessions.
use adaptiveservice.Prelude.{◌≡◌, refl, some, [], ◌∷◌, lookup, nat_eq, arith, codes, ◌>>=◌}
use adaptiveservice.Tracer.{
  UuidInfo, uuid_key, TracedMessageRecord, MessageTracer, find_session, store_record,
  handle_traced_message_record, handle_read_traced_msg,
}
use adaptiveservice.Tracer.Spec.{stored, read}
use adaptiveservice.Tracer.Invariant.{
  IsTracer, handle_traced_message_record-IsTracer, handle_read_traced_msg-IsTracer,
}
use adaptiveservice.Tracer.Refinement.{
  sessions, sessions-handle_traced_message_record, sessions-handle_read_traced_msg,
}
use adaptiveservice.Tracer.Race.{store_record_race}

abbrev id : UuidInfo
id = record { id = 7; seq_num = 0 }

abbrev sent : TracedMessageRecord
sent = record {
  time_stamp = 1;
  msg = codes "m";
  tracing_id = id;
  tag = codes "client send";
  conn_info = [];
}

abbrev received : TracedMessageRecord
received = record {
  time_stamp = 2;
  msg = codes "r";
  tracing_id = id;
  tag = codes "client recv";
  conn_info = [];
}

abbrev store : MessageTracer
store = record { cap = 3; lru = []; lut = []; next_elem = 0 }

store-IsTracer : IsTracer store
unfolding lookup
store-IsTracer = record {
  positive = omega arith;
  bounded = omega arith;
  distinct = tt;
  fresh = λ i h. absurd h;
  indexed = λ i u h. absurd h;
  listed = λ j i l. cc;
}

handle_traced_message_record-IsTracer_example :
    (t' : MessageTracer) × (handle_traced_message_record sent store ≡ some t') × IsTracer t'
handle_traced_message_record-IsTracer_example =
    handle_traced_message_record-IsTracer sent store store-IsTracer

handle_read_traced_msg-IsTracer_example : IsTracer (handle_read_traced_msg id store).1
handle_read_traced_msg-IsTracer_example = handle_read_traced_msg-IsTracer id store store-IsTracer

sessions-handle_traced_message_record_example :
    (t' : MessageTracer) × (handle_traced_message_record sent store ≡ some t')
    × (sessions t'.lru ≡ stored 3 sent [])
sessions-handle_traced_message_record_example =
    sessions-handle_traced_message_record sent store store-IsTracer

sessions-handle_read_traced_msg_example :
    let (found, after) = handle_read_traced_msg id store in
    let (records, left) = read id [] in (found ≡ records) × (sessions after.lru ≡ left)
sessions-handle_read_traced_msg_example = sessions-handle_read_traced_msg id store store-IsTracer

store_record_race_example :
    (t' : MessageTracer) × ((store_record (find_session id store) sent store >>= λ between.
    store_record (find_session id store) received between)
      ≡ some t')
    × ((handle_read_traced_msg id t').0 ≡ received ∷ [])
unfolding find_session lookup
store_record_race_example = store_record_race sent received store refl refl refl (omega arith)
