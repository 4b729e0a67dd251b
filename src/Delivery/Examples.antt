-- ===== src/Delivery/Examples.antt =====
-- Two messages, the first of which is sent at the second attempt.
use adaptiveservice.Prelude.{◌≡◌, refl, true, false, none, some, List, [], ◌∷◌, ◌++◌}
use adaptiveservice.Delivery.{
  TracedMsgRaw, connected, MsgTraceHelper, m_trace_helper, run_failed, deliver, send_next, enqueue,
  trace_begun, run_once, trace_msg, Event, traced, discovered, sent, on_event, on_events,
}
use adaptiveservice.Delivery.Order.{pending, on_events_lem}
use adaptiveservice.Delivery.Failures.{Bounded, on_events-Bounded}

abbrev first : TracedMsgRaw
first = record { msg = 1; of_service = false }

abbrev second : TracedMsgRaw
second = record { msg = 2; of_service = false }

abbrev own : TracedMsgRaw
own = record { msg = 3; of_service = true }

abbrev events : List Event
events =
    traced first
    ∷ traced own
    ∷ discovered true
    ∷ sent false
    ∷ traced second
    ∷ discovered true
    ∷ sent true
    ∷ sent true
    ∷ []

abbrev waits : MsgTraceHelper
waits = record {
  traced_msg_chan = second ∷ [];
  undelivered = some first;
  failed_count = 1;
  stage = connected;
}

delivered : on_events events m_trace_helper ≡ (
  record { traced_msg_chan = []; undelivered = none; failed_count = 0; stage = connected },
  first ∷ second ∷ [],
  first ∷ second ∷ [],
)
unfolding on_events on_event trace_msg run_once trace_begun enqueue send_next deliver run_failed
delivered = refl

on_events_lem_example :
    let (mth, ins, outs) = on_events events m_trace_helper in ins ≡ outs ++ pending mth
on_events_lem_example = on_events_lem events

on_events-Bounded_example : Bounded (on_events events m_trace_helper).0
on_events-Bounded_example = on_events-Bounded events
