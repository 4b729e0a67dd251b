-- ===== src/Delivery.antt =====
-- How traced messages get to the tracing service: msgTraceHelper of messagetracing.go with
-- traceMsg, runOnce and run. The helper's goroutine moves on events: the outcome of Discover, and
-- that of the next Send, which is an event without effect while there is nothing to send. The method
-- close, which nothing calls, is left out.
pub mod Order
pub mod Failures
pub mod Progress
mod Examples
use adaptiveservice.Prelude.{
  ℕ, zero, suc, ◌+◌, ltb, leb, Bool, true, false, Option, none, some, List, [], ◌∷◌, ◌++◌, length,
  if◌then◌else◌,
}

-- A message with its tracing ID, tag, time and connection; of_service: it is a record of the
-- tracing service itself.
pub record TracedMsgRaw : Type 0 where
  pub msg : ℕ
  pub of_service : Bool

-- Where the goroutine is: not begun, in Discover, in the loop of run with a connection, or ended.
pub data Stage : Type 0 where
  not_begun : Stage
  discovering : Stage
  connected : Stage
  ended : Stage

pub record MsgTraceHelper : Type 0 where
  pub traced_msg_chan : List TracedMsgRaw
  pub undelivered : Option TracedMsgRaw
  pub failed_count : ℕ
  pub stage : Stage

abbrev pub m_trace_helper : MsgTraceHelper
m_trace_helper = record {
  traced_msg_chan = [];
  undelivered = none;
  failed_count = 0;
  stage = not_begun;
}

abbrev pub buffer_size : ℕ
buffer_size = 128

-- Messages that wait
unfoldable pub len : MsgTraceHelper → ℕ
len mth = elim mth.undelivered [
  | none ↦ length mth.traced_msg_chan
  | some m ↦ length mth.traced_msg_chan + 1
]

-- nil, or one of the errors of traceMsg
pub data TraceMsgResult : Type 0 where
  accepted : TraceMsgResult
  not_traced : TraceMsgResult
  helper_closed : TraceMsgResult
  buffer_full : TraceMsgResult

unfoldable pub run_once : MsgTraceHelper → MsgTraceHelper
run_once mth = elim mth.stage [
  | not_begun ↦ record mth { traced_msg_chan = []; stage = discovering }
  | discovering ↦ mth
  | connected ↦ mth
  | ended ↦ mth
]

-- The select with its default case
unfoldable pub enqueue : TracedMsgRaw → MsgTraceHelper → TraceMsgResult × MsgTraceHelper
enqueue raw mth =
    if ltb (length mth.traced_msg_chan) buffer_size
    then (accepted, record mth { traced_msg_chan = mth.traced_msg_chan ++ (raw ∷ []) })
    else (buffer_full, mth)

-- After runOnce; only a goroutine that has ended refuses.
unfoldable pub trace_begun : TracedMsgRaw → MsgTraceHelper → TraceMsgResult × MsgTraceHelper
unfolding enqueue
trace_begun raw mth = elim mth.stage [
  | not_begun ↦ enqueue raw mth
  | discovering ↦ enqueue raw mth
  | connected ↦ enqueue raw mth
  | ended ↦ (helper_closed, mth)
]

unfoldable pub trace_msg : TracedMsgRaw → MsgTraceHelper → TraceMsgResult × MsgTraceHelper
unfolding run_once trace_begun
trace_msg raw mth = if raw.of_service then (not_traced, mth) else trace_begun raw (run_once mth)

-- run has returned an error.
unfoldable pub run_failed : MsgTraceHelper → MsgTraceHelper
run_failed mth =
    let failed_count = suc mth.failed_count in
    record mth {
      failed_count = failed_count;
      stage = if leb 3 failed_count then ended else discovering;
    }

-- deliver, with the outcome of Send
unfoldable pub deliver : Bool → TracedMsgRaw → MsgTraceHelper → MsgTraceHelper × List TracedMsgRaw
unfolding run_failed
deliver true m mth = (record mth { undelivered = none; failed_count = 0 }, m ∷ [])
deliver false m mth = (run_failed (record mth { undelivered = some m }), [])

-- The next message of run: the undelivered one, or the first of the channel.
unfoldable pub send_next : Bool → MsgTraceHelper → MsgTraceHelper × List TracedMsgRaw
unfolding deliver
send_next sent mth = elim mth.undelivered [
  | some m ↦ deliver sent m mth
  | none ↦ elim mth.traced_msg_chan [
    | [] ↦ (mth, [])
    | m ∷ ms ↦ deliver sent m (record mth { traced_msg_chan = ms })
  ]
]

pub data Event : Type 0 where
  traced : TracedMsgRaw → Event
  discovered : Bool → Event
  sent : Bool → Event

abbrev pub taken_in : TracedMsgRaw → TraceMsgResult → List TracedMsgRaw
taken_in raw accepted = raw ∷ []
taken_in raw not_traced = []
taken_in raw helper_closed = []
taken_in raw buffer_full = []

-- The helper after the event, with the messages that traceMsg accepted and those that were sent.
unfoldable pub on_event :
    Event → MsgTraceHelper → MsgTraceHelper × List TracedMsgRaw × List TracedMsgRaw
unfolding trace_msg run_failed send_next
on_event (traced raw) mth =
    let (result, mth') = trace_msg raw mth in (mth', taken_in raw result, [])
on_event (discovered found) mth = elim mth.stage [
  | not_begun ↦ (mth, [], [])
  | discovering ↦ ((if found then record mth { stage = connected } else run_failed mth), [], [])
  | connected ↦ (mth, [], [])
  | ended ↦ (mth, [], [])
]
on_event (sent ok) mth = elim mth.stage [
  | not_begun ↦ (mth, [], [])
  | discovering ↦ (mth, [], [])
  | connected ↦ (let (mth', out) = send_next ok mth in (mth', [], out))
  | ended ↦ (mth, [], [])
]

unfoldable pub on_events :
    List Event → MsgTraceHelper → MsgTraceHelper × List TracedMsgRaw × List TracedMsgRaw
unfolding on_event
on_events [] mth = (mth, [], [])
on_events (e ∷ es) mth =
    let (mth', ins, outs) = on_event e mth in
    let (mth'', ins', outs') = on_events es mth' in (mth'', ins ++ ins', outs ++ outs')
