-- ===== src/Tracing.antt =====
-- What to trace: the table of messagetracing.go with TraceMsgByNameWithFilters, UnTraceMsgAll and
-- getTracingID. A reflect.Type is a number, and a message its type with the fields of its struct,
-- each with the text that %v prints for it. The uuid that NewRandom gives is an argument.
pub mod Spec
pub mod Sessions
pub mod Arming
pub mod Race
mod Examples
use adaptiveservice.Prelude.{
  ℕ, zero, suc, ◌+◌, ◌-◌, ◌==◌, ltb, leb, Bool, true, false, ◌&&◌, Option, none, some, List, [],
  ◌∷◌, ◌++◌, Text, codes, text_key, Map, lookup, insert, remove, split, text_eq, nat_eq,
  if◌then◌else◌, map, length,
}
use adaptiveservice.Wildcard.{wildcard_match}
use adaptiveservice.Tracer.{UuidInfo, max_tracing_sessions}

-- What RegisterType keeps of a type: its struct's fields, or none if it is no struct.
pub record RegisteredType : Type 0 where
  pub rtype : ℕ
  pub fields : Option (List Text)

pub record TraceFilter : Type 0 where
  pub field : Text
  pub pattern : Text

pub record TraceConf : Type 0 where
  pub id : ℕ
  pub count : ℕ
  pub seq_num : ℕ
  pub filters : List TraceFilter

abbrev pub TraceTable : Type 0
TraceTable = Map ℕ TraceConf

pub data TraceError : Type 0 where
  not_traceable : TraceError
  not_supported : TraceError
  format_error : Text → TraceError
  no_field : Text → TraceError
  no_uuid : TraceError

-- "NA", the token of one session, and that of the sessions from 0 to last.
pub data Token : Type 0 where
  not_available : Token
  single : ℕ → Token
  range : (id last : ℕ) → Token

pub data TraceResult (A : Type 0) : Type 0 where
  ok : A → TraceResult A
  err : TraceError → TraceResult A

unfoldable pub has_field : Text → List Text → Bool
has_field field [] = false
has_field field (f ∷ fs) = if text_eq f field then true else has_field field fs

-- The parts of a filter that is split at "=".
unfoldable pub filter_of : List Text → Text → Text → List Text → TraceResult TraceFilter
unfolding has_field
filter_of fields filter field (pattern ∷ []) =
    if has_field field fields
    then ok (record { field = field; pattern = pattern })
    else err (no_field field)
filter_of fields filter field [] = err (format_error filter)
filter_of fields filter field (p ∷ q ∷ ps) = err (format_error filter)

unfoldable pub parse_filter : List Text → Text → TraceResult TraceFilter
unfolding filter_of
parse_filter fields filter =
    let (field, rest) = split b'=' filter in filter_of fields filter field rest

unfoldable pub parse_filters : List Text → List Text → TraceResult (List TraceFilter)
parse_filters fields [] = ok []
parse_filters fields (filter ∷ filters) = elim (parse_filter fields filter) [
  | err e ↦ err e
  | ok f ↦ elim (parse_filters fields filters) [ err e ↦ err e | ok fs ↦ ok (f ∷ fs) ]
]

-- The filters of a registered type; without filters any type will do.
unfoldable pub type_filters : RegisteredType → List Text → TraceResult (List TraceFilter)
type_filters rt [] = ok []
type_filters rt (filter ∷ filters) = elim rt.fields [
  | none ↦ err not_supported
  | some fields ↦ parse_filters fields (filter ∷ filters)
]

abbrev pub token_of : ℕ → ℕ → Token
token_of id count =
    if ltb count 1 then not_available else if ltb 1 count then range id (count - 1) else single id

-- A type that is traced already gets its new count and filters, and keeps its id and its number.
unfoldable pub rearm : TraceConf → ℕ → List TraceFilter → TraceConf
rearm tc count filters = record tc {
  count = if ltb count tc.seq_num then suc tc.seq_num else count;
  filters = filters;
}

-- The part under the lock.
unfoldable pub set_trace :
    ℕ → ℕ → List TraceFilter → Option ℕ → TraceTable → TraceResult Token × TraceTable
unfolding rearm
set_trace rtype count filters uuid types =
    let armed : TraceResult Token × TraceTable = elim (lookup rtype types) [
      | some tc ↦ (
        ok (token_of tc.id (rearm tc count filters).count),
        insert rtype (rearm tc count filters) types,
      )
      | none ↦ elim uuid [
        | none ↦ (err no_uuid, types)
        | some id ↦ (
          ok (token_of id count),
          insert rtype (record { id = id; count = count; seq_num = 0; filters = filters }) types,
        )
      ]
    ] in
    if ltb count 1 then (ok not_available, remove rtype types) else armed

abbrev pub capped : ℕ → ℕ
capped count = if ltb max_tracing_sessions count then max_tracing_sessions else count

unfoldable pub trace_msg_by_name_with_filters :
    Map Text RegisteredType
    → Text
    → ℕ
    → List Text
    → Option ℕ
    → TraceTable
    → TraceResult Token × TraceTable
unfolding type_filters set_trace
trace_msg_by_name_with_filters name2_type name count filters uuid types =
    elim (lookup name name2_type) [
      | none ↦ (err not_traceable, types)
      | some rt ↦ elim (type_filters rt filters) [
        | err e ↦ (err e, types)
        | ok fs ↦ set_trace rt.rtype (capped count) fs uuid types
      ]
    ]

unfoldable pub un_trace_msg_all : TraceTable → TraceTable
un_trace_msg_all types = []

-- A message: its type, and the fields of its struct, or none if it is no struct.
pub record Message : Type 0 where
  pub rtype : ℕ
  pub fields : Option (Map Text Text)

-- The text that %v prints for a field, also for one that is not there.
abbrev pub printed : Option Text → Text
printed none = codes "<invalid reflect.Value>"
printed (some value) = value

unfoldable pub match_fields : List TraceFilter → Map Text Text → Bool
match_fields [] fields = true
match_fields (f ∷ fs) fields =
    wildcard_match f.pattern (printed (lookup f.field fields)) && match_fields fs fields

unfoldable pub match_filters : List TraceFilter → Message → Bool
unfolding match_fields
match_filters [] msg = true
match_filters (f ∷ fs) msg = elim msg.fields [
  | none ↦ false
  | some fields ↦ match_fields (f ∷ fs) fields
]

-- getTraceConf: a type whose sessions are used up leaves the table.
unfoldable pub get_trace_conf : ℕ → TraceTable → Option TraceConf × TraceTable
get_trace_conf rtype types = elim (lookup rtype types) [
  | none ↦ (none, types)
  | some tc ↦ if leb tc.count tc.seq_num then (none, remove rtype types) else (some tc, types)
]

-- The reading of the number and its increment, without the lock, through the pointer to the entry
-- of the table.
unfoldable pub take_id : ℕ → TraceTable → Option UuidInfo × TraceTable
take_id rtype types = elim (lookup rtype types) [
  | none ↦ (none, types)
  | some tc ↦ (
    some (record { id = tc.id; seq_num = tc.seq_num }),
    insert rtype (record tc { seq_num = suc tc.seq_num }) types,
  )
]

-- current is the tracing ID of the goroutine.
unfoldable pub get_tracing_id :
    Option UuidInfo → Message → TraceTable → Option UuidInfo × TraceTable
get_tracing_id (some tracing_id) msg types = (some tracing_id, types)
get_tracing_id none msg types =
    let (conf, types') = get_trace_conf msg.rtype types in
    elim conf [
      | none ↦ (none, types')
      | some tc ↦ if match_filters tc.filters msg then take_id msg.rtype types' else (none, types')
    ]
