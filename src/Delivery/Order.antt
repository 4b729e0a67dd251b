-- ===== src/Delivery/Order.antt =====
-- Traced messages are sent in the order in which they were accepted, each once.
use adaptiveservice.Prelude.{
  ℕ, ◌≡◌, ◌≢◌, refl, sym, ap, ◌∙◌, subst, inl, inr, Bool, true, false, Option, none, some, List, [],
  ◌∷◌, ◌++◌, append_assoc, append-nil, length, ltb, leb, suc, Bool-cases, if◌then◌else◌,
}
use adaptiveservice.Delivery.{
  TracedMsgRaw, Stage, not_begun, discovering, connected, ended, MsgTraceHelper, m_trace_helper,
  run_failed, deliver, send_next, enqueue, trace_begun, run_once, trace_msg, not_traced, taken_in,
  buffer_size, Event, traced, discovered, sent, on_event, on_events,
}

-- What waits: the undelivered message, then the channel.
abbrev pub pending : MsgTraceHelper → List TracedMsgRaw
pending mth = elim mth.undelivered [ none ↦ mth.traced_msg_chan | some m ↦ m ∷ mth.traced_msg_chan ]

-- Before the goroutine begins nothing waits.
abbrev pub Fresh : MsgTraceHelper → Type 0
Fresh mth = mth.stage ≡ not_begun → (mth.traced_msg_chan ≡ []) × (mth.undelivered ≡ none)

abbrev Keeps : MsgTraceHelper → (MsgTraceHelper × List TracedMsgRaw × List TracedMsgRaw) → Type 0
Keeps mth (mth', ins, outs) = (pending mth ++ ins ≡ outs ++ pending mth') × Fresh mth'

abbrev pub helper : List TracedMsgRaw → Option TracedMsgRaw → ℕ → Stage → MsgTraceHelper
helper c u n s = record { traced_msg_chan = c; undelivered = u; failed_count = n; stage = s }

abbrev enqueued :
    TracedMsgRaw → MsgTraceHelper → MsgTraceHelper × List TracedMsgRaw × List TracedMsgRaw
enqueued raw mth = let (result, mth') = enqueue raw mth in (mth', taken_in raw result, [])

enqueue-Keeps :
    (raw : TracedMsgRaw) (c : List TracedMsgRaw) (u : Option TracedMsgRaw) (n : ℕ) (s : Stage)
    → Fresh (helper c u n s)
    → s ≢ not_begun
    → Keeps (helper c u n s) (enqueued raw (helper c u n s))
unfolding enqueue
enqueue-Keeps raw c none n s f g = elim (Bool-cases (ltb (length c) buffer_size)) [
  | inl t ↦ rw t (refl, λ e. absurd (g e))
  | inr z ↦ rw z (append-nil c, f)
]
enqueue-Keeps raw c (some m) n s f g = elim (Bool-cases (ltb (length c) buffer_size)) [
  | inl t ↦ rw t (refl, λ e. absurd (g e))
  | inr z ↦ rw z (append-nil (m ∷ c), f)
]

idles : (mth : MsgTraceHelper) → Fresh mth → Keeps mth (mth, [], [])
idles mth f = (append-nil (pending mth), f)

abbrev Begins : TracedMsgRaw → List TracedMsgRaw → Option TracedMsgRaw → ℕ → Type 0
Begins raw c u n = Keeps (helper c u n not_begun) (
    let (result, mth') = trace_begun raw (run_once (helper c u n not_begun)) in
    (mth', taken_in raw result, []))

begun :
    (raw : TracedMsgRaw) (c : List TracedMsgRaw) (u : Option TracedMsgRaw) (n : ℕ) (s : Stage)
    → Fresh (helper c u n s)
    → Keeps (helper c u n s) (
        let (result, mth') = trace_begun raw (run_once (helper c u n s)) in
        (mth', taken_in raw result, []))
unfolding run_once trace_begun
begun raw c u n not_begun f =
    let (e, e') = f refl in
    subst (λ c. Begins raw c u n) (sym e)
      (subst (λ u. Begins raw [] u n) (sym e')
        (enqueue-Keeps raw [] none n discovering (λ x. cc x) (λ x. cc x)))
begun raw c u n discovering f = enqueue-Keeps raw c u n discovering f (λ x. cc x)
begun raw c u n connected f = enqueue-Keeps raw c u n connected f (λ x. cc x)
begun raw c u n ended f = idles (helper c u n ended) f

traced_if :
    (b : Bool) (raw : TracedMsgRaw) (c : List TracedMsgRaw) (u : Option TracedMsgRaw) (n : ℕ)
    (s : Stage)
    → Fresh (helper c u n s)
    → let (result, mth') =
        if b then (not_traced, helper c u n s) else trace_begun raw (run_once (helper c u n s)) in
      Keeps (helper c u n s) (mth', taken_in raw result, [])
traced_if true raw c u n s f = idles (helper c u n s) f
traced_if false raw c u n s f = begun raw c u n s f

trace-Keeps :
    (raw : TracedMsgRaw) (c : List TracedMsgRaw) (u : Option TracedMsgRaw) (n : ℕ) (s : Stage)
    → Fresh (helper c u n s)
    → Keeps (helper c u n s) (on_event (traced raw) (helper c u n s))
unfolding on_event trace_msg
trace-Keeps raw c u n s f = traced_if raw.of_service raw c u n s f

failed_stage : (b : Bool) → (if b then ended else discovering) ≢ not_begun
failed_stage true e = cc e
failed_stage false e = cc e

run_failed-Fresh : (mth : MsgTraceHelper) → Fresh (run_failed mth)
unfolding run_failed
run_failed-Fresh mth e = absurd (failed_stage (leb 3 (suc mth.failed_count)) e)

-- A failure keeps what waits.
fails :
    (m : TracedMsgRaw) (c : List TracedMsgRaw) (n : ℕ)
    → Keeps (helper c (some m) n connected) (run_failed (helper c (some m) n connected), [], [])
unfolding run_failed
fails m c n = (append-nil (m ∷ c), run_failed-Fresh (helper c (some m) n connected))

discovered-Keeps :
    (found : Bool) (c : List TracedMsgRaw) (u : Option TracedMsgRaw) (n : ℕ) (s : Stage)
    → Fresh (helper c u n s)
    → Keeps (helper c u n s) (on_event (discovered found) (helper c u n s))
unfolding on_event run_failed
discovered-Keeps found c u n not_begun f = idles (helper c u n not_begun) f
discovered-Keeps true c u n discovering f =
    (append-nil (pending (helper c u n discovering)), λ e. cc e)
discovered-Keeps false c u n discovering f =
    (append-nil (pending (helper c u n discovering)), run_failed-Fresh (helper c u n discovering))
discovered-Keeps found c u n connected f = idles (helper c u n connected) f
discovered-Keeps found c u n ended f = idles (helper c u n ended) f

sent-Keeps :
    (ok : Bool) (c : List TracedMsgRaw) (u : Option TracedMsgRaw) (n : ℕ) (s : Stage)
    → Fresh (helper c u n s)
    → Keeps (helper c u n s) (on_event (sent ok) (helper c u n s))
unfolding on_event send_next deliver
sent-Keeps ok c u n not_begun f = idles (helper c u n not_begun) f
sent-Keeps ok c u n discovering f = idles (helper c u n discovering) f
sent-Keeps ok c u n ended f = idles (helper c u n ended) f
sent-Keeps true c (some m) n connected f = (append-nil (m ∷ c), λ e. cc e)
sent-Keeps false c (some m) n connected f = fails m c n
sent-Keeps ok [] none n connected f = idles (helper [] none n connected) f
sent-Keeps true (m ∷ ms) none n connected f = (append-nil (m ∷ ms), λ e. cc e)
sent-Keeps false (m ∷ ms) none n connected f = fails m ms n

on_event-Keeps : (e : Event) (mth : MsgTraceHelper) → Fresh mth → Keeps mth (on_event e mth)
on_event-Keeps (traced raw) mth f =
    trace-Keeps raw mth.traced_msg_chan mth.undelivered mth.failed_count mth.stage f
on_event-Keeps (discovered found) mth f =
    discovered-Keeps found mth.traced_msg_chan mth.undelivered mth.failed_count mth.stage f
on_event-Keeps (sent ok) mth f =
    sent-Keeps ok mth.traced_msg_chan mth.undelivered mth.failed_count mth.stage f

pub on_events-Keeps :
    (es : List Event) (mth : MsgTraceHelper) → Fresh mth → Keeps mth (on_events es mth)
unfolding on_events
on_events-Keeps [] mth f = idles mth f
on_events-Keeps (e ∷ es) mth f =
    let (mth', ins, outs) = on_event e mth in
    let (k, f') = on_event-Keeps e mth f in
    let (mth'', ins', outs') = on_events es mth' in
    let (k', f'') = on_events-Keeps es mth' f' in
    (
      sym (append_assoc (pending mth) ins ins')
          ∙ (ap (λ l. l ++ ins') k
              ∙ (append_assoc outs (pending mth') ins'
                  ∙ (ap (λ l. outs ++ l) k' ∙ sym (append_assoc outs outs' (pending mth''))))),
      f'',
    )

-- From the start of the process on, whatever messages are traced, services found and sends fail:
-- the messages that traceMsg accepted are those that were sent, in their order and each once, and
-- then those that wait.
pub on_events_lem :
    (es : List Event)
    → let (mth, ins, outs) = on_events es m_trace_helper in ins ≡ outs ++ pending mth
on_events_lem es = (on_events-Keeps es m_trace_helper (λ e. (refl, refl))).0
