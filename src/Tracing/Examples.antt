-- ===== src/Tracing/Examples.antt =====
-- A type of messages with one field, traced twice.
use adaptiveservice.Prelude.{
  ◌≡◌, refl, none, some, [], ◌∷◌, Text, codes, Map, lookup, insert, remove, split, text_eq, arith,
  text_key, nat_eq,
}
use adaptiveservice.Wildcard.{wildcard_match}
use adaptiveservice.Tracing.{
  Message, TraceConf, TraceFilter, RegisteredType, ok, no_field, range, type_filters, parse_filters,
  parse_filter, has_field, trace_msg_by_name_with_filters, get_tracing_id, get_trace_conf, take_id,
  match_filters, match_fields,
}
use adaptiveservice.Tracing.Spec.{sessions, numbered, traced}
use adaptiveservice.Tracing.Arming.{trace_msg-sessions, trace_msg-sessions_again, trace_msg-err}
use adaptiveservice.Tracing.Race.{take_id_race}

abbrev hello : RegisteredType
hello = record { rtype = 7; fields = some (codes "Who" ∷ []) }

abbrev name2_type : Map Text RegisteredType
name2_type = (codes "*main.Hello", hello) ∷ []

abbrev hello_from : Text → Message
hello_from who = record { rtype = 7; fields = some ((codes "Who", who) ∷ []) }

abbrev who_filter : TraceFilter
who_filter = record { field = codes "Who"; pattern = codes "b*" }

abbrev begun : TraceConf
begun = record { id = 42; count = 2; seq_num = 1; filters = [] }

read : type_filters hello (codes "Who=b*" ∷ []) ≡ ok (who_filter ∷ [])
unfolding type_filters parse_filters parse_filter split text_eq has_field
read = refl

sessions_test :
    sessions 7
      (hello_from (codes "bob") ∷ hello_from (codes "eve") ∷ hello_from (codes "bo") ∷ [])
      ((7, record begun { filters = who_filter ∷ [] }) ∷ [])
    ≡ record { id = 42; seq_num = 1 } ∷ []
unfolding sessions get_tracing_id get_trace_conf take_id match_filters wildcard_match lookup insert
    remove text_eq
sessions_test = refl

trace_msg-sessions_example :
    (let (reply, types') =
        trace_msg_by_name_with_filters name2_type
          (codes "*main.Hello")
          5000
          (codes "Who=b*" ∷ [])
          (some 42)
          [] in
      (reply ≡ ok (range 42 4095))
      × (sessions 7 (hello_from (codes "bob") ∷ []) types' ≡ record { id = 42; seq_num = 0 } ∷ []))
unfolding numbered traced match_filters match_fields wildcard_match lookup text_eq
trace_msg-sessions_example =
    trace_msg-sessions name2_type (codes "*main.Hello") 5000 (codes "Who=b*" ∷ []) 42 [] hello
      (who_filter ∷ []) (hello_from (codes "bob") ∷ []) refl read refl (omega arith)

-- One more session is asked for after the first, and none is begun.
trace_msg-sessions_again_example :
    (let (reply, types') =
        trace_msg_by_name_with_filters name2_type
          (codes "*main.Hello")
          1
          []
          none
          ((7, begun) ∷ []) in
      sessions 7 (hello_from (codes "bob") ∷ []) types' ≡ [])
unfolding numbered traced match_filters lookup text_eq type_filters
trace_msg-sessions_again_example =
    trace_msg-sessions_again name2_type (codes "*main.Hello") 1 [] none ((7, begun) ∷ []) hello []
      begun (hello_from (codes "bob") ∷ []) refl refl refl (omega arith) (omega arith)

trace_msg-err_example :
    (trace_msg_by_name_with_filters name2_type
      (codes "*main.Hello")
      1
      (codes "Age=3" ∷ [])
      (some 42)
      ((7, begun) ∷ [])).1
    ≡ (7, begun) ∷ []
unfolding trace_msg_by_name_with_filters parse_filters parse_filter split text_eq has_field lookup
trace_msg-err_example =
    trace_msg-err name2_type (codes "*main.Hello") 1 (codes "Age=3" ∷ []) (some 42)
      ((7, begun) ∷ []) (no_field (codes "Age")) refl

take_id_race_example :
    (get_trace_conf 7 ((7, begun) ∷ []) ≡ (some begun, (7, begun) ∷ []))
    × ((take_id 7 (take_id 7 ((7, begun) ∷ [])).1).0 ≡ some (record { id = 42; seq_num = 2 }))
unfolding lookup
take_id_race_example = take_id_race 7 begun ((7, begun) ∷ []) refl refl
