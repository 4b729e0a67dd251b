-- ===== src/Delivery/Progress.antt =====
-- With a service that takes them, all waiting messages are sent.
use adaptiveservice.Prelude.{
  ℕ, zero, suc, ◌+◌, ◌≡◌, refl, sym, ap, subst, true, Option, none, some, List, [], ◌∷◌, length,
  arith,
}
use adaptiveservice.Delivery.{
  TracedMsgRaw, connected, MsgTraceHelper, len, deliver, send_next, Event, sent, on_event,
  on_events,
}
use adaptiveservice.Delivery.Order.{pending, helper}

-- n sends that succeed
unfoldable pub sends : ℕ → List Event
sends zero = []
sends (suc n) = sent true ∷ sends n

abbrev Sends : ℕ → MsgTraceHelper → Type 0
Sends n mth =
    let (mth', ins, outs) = on_events (sends n) mth in
    (ins ≡ []) × (outs ≡ pending mth) × (pending mth' ≡ []) × (mth'.stage ≡ connected)

from_chan : (c : List TracedMsgRaw) (k : ℕ) → Sends (length c) (helper c none k connected)
unfolding on_events on_event send_next deliver sends
from_chan [] k = (refl, refl, refl, refl)
from_chan (m ∷ ms) k = let (e1, e2, e3, e4) = from_chan ms 0 in (e1, ap (λ l. m ∷ l) e2, e3, e4)

from_all :
    (c : List TracedMsgRaw) (u : Option TracedMsgRaw) (k : ℕ)
    → Sends (len (helper c u k connected)) (helper c u k connected)
unfolding on_events on_event send_next deliver sends len
from_all c none k = from_chan c k
from_all c (some m) k =
    let (e1, e2, e3, e4) = from_chan c 0 in
    let once : Sends (suc (length c)) (helper c (some m) k connected) =
      (e1, ap (λ l. m ∷ l) e2, e3, e4) in
    let same : suc (length c) ≡ length c + 1 = omega arith in
    subst (λ n. Sends n (helper c (some m) k connected)) same once

-- Once the goroutine has a connection, as many sends that succeed as messages wait are enough to
-- send them all, in their order, and after them nothing waits.
pub on_events-sends :
    (mth : MsgTraceHelper)
    → mth.stage ≡ connected
    → let (mth', ins, outs) = on_events (sends (len mth)) mth in
      (ins ≡ []) × (outs ≡ pending mth) × (pending mth' ≡ []) × (mth'.stage ≡ connected)
on_events-sends mth e =
    subst
      (λ s.
        Sends (len (helper mth.traced_msg_chan mth.undelivered mth.failed_count s))
          (helper mth.traced_msg_chan mth.undelivered mth.failed_count s))
      (sym e) (from_all mth.traced_msg_chan mth.undelivered mth.failed_count)
