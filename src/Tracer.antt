-- ===== src/Tracer.antt =====
-- The store of the message tracing service, messagetracing_svc.go: messageTracer with the handlers
-- of tracedMessageRecord and readTracedMsg. An element of container/list is a number, the identity
-- of its pointer; the list maps the elements, from front to back, to their sessions. A handler is
-- one step here; find_session and the two second halves of the first handler are its steps where
-- handlers run at once.
pub mod Spec
pub mod Invariant
pub mod Refinement
pub mod Race
mod Examples
use adaptiveservice.Prelude.{
  ℕ, suc, ◌+◌, ◌==◌, ==_iff, leb, ◌≡◌, ◌↔◌, Bool, true, false, ◌&&◌, Option, none, some, List, [],
  ◌∷◌, ◌++◌, Text, Map, lookup, insert, remove, length, nat_eq, Eq, arith, if◌then◌else◌, ◌>>=◌,
}

-- uuidInfo; a uuid is the number of its 16 bytes.
pub record UuidInfo : Type 0 where
  pub id : ℕ
  pub seq_num : ℕ

unfoldable pub uuid_eq : UuidInfo → UuidInfo → Bool
uuid_eq a b = a.id == b.id && a.seq_num == b.seq_num

pub uuid_eq_iff : (a b : UuidInfo) → (uuid_eq a b ≡ true) ↔ (a ≡ b)
unfolding uuid_eq
uuid_eq_iff a b = ground arith

instance abbrev pub uuid_key : Eq UuidInfo
uuid_key = record { beq = uuid_eq; beq_iff = uuid_eq_iff }

pub record TracedMessageRecord : Type 0 where
  pub time_stamp : ℕ
  pub msg : Text
  pub tracing_id : UuidInfo
  pub tag : Text
  pub conn_info : Text

pub record TracingSession : Type 0 where
  pub tracing_id : UuidInfo
  pub records : List TracedMessageRecord

pub record MessageTracer : Type 0 where
  pub cap : ℕ
  pub lru : Map ℕ TracingSession
  pub lut : Map UuidInfo ℕ
  pub next_elem : ℕ

abbrev pub max_tracing_sessions : ℕ
max_tracing_sessions = 4096

pub new_message_tracer : ℕ → MessageTracer
new_message_tracer cap = record { cap = cap; lru = []; lut = []; next_elem = 0 }

-- lru.Back()
unfoldable pub back : Map ℕ TracingSession → Option (ℕ × TracingSession)
back [] = none
back (x ∷ []) = some x
back (x ∷ y ∷ l) = back (y ∷ l)

-- lru.Remove(lru.Back())
unfoldable pub without_back : Map ℕ TracingSession → Map ℕ TracingSession
without_back [] = []
without_back (x ∷ []) = []
without_back (x ∷ y ∷ l) = x ∷ without_back (y ∷ l)

-- The look into lut under the read lock.
unfoldable pub find_session : UuidInfo → MessageTracer → Option ℕ
find_session tracing_id t = lookup tracing_id t.lut

-- The record joins the session of an element, which moves to the front. An element that is no
-- longer in the list stays out of it.
unfoldable pub append_record : ℕ → TracedMessageRecord → MessageTracer → MessageTracer
append_record elem tmrcd t = elim (lookup elem t.lru) [
  | none ↦ t
  | some s ↦ record t {
    lru = (elem, record s { records = s.records ++ (tmrcd ∷ []) }) ∷ remove elem t.lru;
  }
]

-- none: Remove panics on the nil element.
unfoldable pub evict : MessageTracer → Option MessageTracer
evict t = elim (back t.lru) [
  | none ↦ none
  | some (elem, s) ↦ some (record t { lru = without_back t.lru; lut = remove s.tracing_id t.lut })
]

unfoldable pub push_session : TracedMessageRecord → MessageTracer → MessageTracer
push_session tmrcd t =
    let s : TracingSession = record { tracing_id = tmrcd.tracing_id; records = tmrcd ∷ [] } in
    record t {
      lru = (t.next_elem, s) ∷ t.lru;
      lut = insert tmrcd.tracing_id t.next_elem t.lut;
      next_elem = suc t.next_elem;
    }

unfoldable pub insert_session : TracedMessageRecord → MessageTracer → Option MessageTracer
unfolding evict push_session
insert_session tmrcd t = (if leb t.cap (length t.lru) then evict t else some t) >>= λ trimmed.
    some (push_session tmrcd trimmed)

-- The second half of the handler, given what find_session found.
unfoldable pub store_record : Option ℕ → TracedMessageRecord → MessageTracer → Option MessageTracer
unfolding append_record insert_session
store_record none tmrcd t = insert_session tmrcd t
store_record (some elem) tmrcd t = some (append_record elem tmrcd t)

unfoldable pub handle_traced_message_record :
    TracedMessageRecord → MessageTracer → Option MessageTracer
unfolding store_record find_session
handle_traced_message_record tmrcd t = store_record (find_session tmrcd.tracing_id t) tmrcd t

unfoldable pub all_records : Map ℕ TracingSession → List TracedMessageRecord
all_records [] = []
all_records ((elem, s) ∷ l) = s.records ++ all_records l

-- The handler of readTracedMsg; the zero uuid reads all.
unfoldable pub handle_read_traced_msg :
    UuidInfo → MessageTracer → List TracedMessageRecord × MessageTracer
unfolding all_records
handle_read_traced_msg tracing_id t =
    let one : List TracedMessageRecord × MessageTracer = elim (lookup tracing_id t.lut) [
      | none ↦ ([], t)
      | some elem ↦ (
        elim (lookup elem t.lru) [ none ↦ [] | some s ↦ s.records ],
        record t { lru = remove elem t.lru; lut = remove tracing_id t.lut },
      )
    ] in
    if tracing_id.id == 0 then (all_records t.lru, record t { lru = []; lut = [] }) else one
