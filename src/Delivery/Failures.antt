-- ===== src/Delivery/Failures.antt =====
-- The bounds of the helper: its buffer, and the failures after which it gives up.
use adaptiveservice.Prelude.{
  ℕ, suc, ◌≤◌, ◌<◌, ◌≡◌, ◌≢◌, ◌↔◌, refl, inl, inr, ltb, leb, ltb→lt, Bool, true, false, Bool-cases,
  Option, none, some, List, [], ◌∷◌, length, length-append, if◌then◌else◌, arith,
}
use adaptiveservice.Delivery.{
  TracedMsgRaw, Stage, not_begun, discovering, connected, ended, MsgTraceHelper, m_trace_helper,
  run_failed, deliver, send_next, enqueue, trace_begun, run_once, trace_msg, not_traced,
  buffer_size, Event, traced, discovered, sent, on_event, on_events,
}
use adaptiveservice.Delivery.Order.{helper}

-- The channel holds no more than its buffer, and the goroutine has ended when three runs have
-- failed since a message was sent, and only then.
abbrev pub Bounded : MsgTraceHelper → Type 0
Bounded mth =
    (length mth.traced_msg_chan ≤ buffer_size)
    × (mth.failed_count ≤ 3)
    × ((mth.stage ≡ ended) ↔ (mth.failed_count ≡ 3))

-- A goroutine that has not ended has failed less than three times.
below : (mth : MsgTraceHelper) → Bounded mth → mth.stage ≢ ended → mth.failed_count < 3
below mth (b1, b2, b3) ne =
    let ne' : mth.failed_count ≢ 3 = λ e. ne (b3.1 e) in omega (b2, ne', arith)

goes_on :
    (c : List TracedMsgRaw) (u : Option TracedMsgRaw) (n : ℕ) (s : Stage)
    → length c ≤ buffer_size
    → n < 3
    → s ≢ ended
    → Bounded (helper c u n s)
goes_on c u n s h lt ne =
    (h, omega (lt, arith), (λ e. absurd (ne e), λ e. absurd (omega (e, lt, arith))))

run_failed-Bounded :
    (c : List TracedMsgRaw) (u : Option TracedMsgRaw) (n : ℕ) (s : Stage)
    → length c ≤ buffer_size
    → n < 3
    → Bounded (run_failed (helper c u n s))
unfolding run_failed
run_failed-Bounded c u n s h lt = (
  h,
  omega (lt, arith),
  elim (Bool-cases (leb 3 (suc n))) [
    | inl t ↦ rw t (λ e. ground arith, λ e. refl)
    | inr f ↦ rw f (λ e. cc e, λ e. ground arith)
  ],
)

enqueue-Bounded :
    (raw : TracedMsgRaw) (c : List TracedMsgRaw) (u : Option TracedMsgRaw) (n : ℕ) (s : Stage)
    → Bounded (helper c u n s)
    → Bounded (enqueue raw (helper c u n s)).1
unfolding enqueue
enqueue-Bounded raw c u n s (b1, b2, b3) = elim (Bool-cases (ltb (length c) buffer_size)) [
  | inl t ↦
      let lt = ltb→lt (length c) buffer_size t in
      let one = length-append c (raw ∷ []) in rw t ((omega (lt, one, arith), b2, b3))
  | inr f ↦ rw f (b1, b2, b3)
]

trace-Bounded :
    (b : Bool) (raw : TracedMsgRaw) (c : List TracedMsgRaw) (u : Option TracedMsgRaw) (n : ℕ)
    (s : Stage)
    → Bounded (helper c u n s)
    → Bounded
        (if b then (not_traced, helper c u n s) else trace_begun raw (run_once (helper c u n s))).1
unfolding run_once trace_begun
trace-Bounded true raw c u n s b = b
trace-Bounded false raw c u n not_begun b = enqueue-Bounded raw [] u n discovering (
    goes_on [] u n discovering (omega arith) (below (helper c u n not_begun) b (λ e. cc e))
      (λ e. cc e))
trace-Bounded false raw c u n discovering b = enqueue-Bounded raw c u n discovering b
trace-Bounded false raw c u n connected b = enqueue-Bounded raw c u n connected b
trace-Bounded false raw c u n ended b = b

at_event :
    (e : Event) (c : List TracedMsgRaw) (u : Option TracedMsgRaw) (n : ℕ) (s : Stage)
    → Bounded (helper c u n s)
    → Bounded (on_event e (helper c u n s)).0
unfolding on_event trace_msg send_next deliver
at_event (traced raw) c u n s b = trace-Bounded raw.of_service raw c u n s b
at_event (discovered found) c u n not_begun b = b
at_event (discovered true) c u n discovering b =
    goes_on c u n connected b.0 (below (helper c u n discovering) b (λ e. cc e)) (λ e. cc e)
at_event (discovered false) c u n discovering b =
    run_failed-Bounded c u n discovering b.0 (below (helper c u n discovering) b (λ e. cc e))
at_event (discovered found) c u n connected b = b
at_event (discovered found) c u n ended b = b
at_event (sent ok) c u n not_begun b = b
at_event (sent ok) c u n discovering b = b
at_event (sent ok) c u n ended b = b
at_event (sent true) c (some m) n connected b =
    goes_on c none 0 connected b.0 (omega arith) (λ e. cc e)
at_event (sent false) c (some m) n connected b =
    run_failed-Bounded c (some m) n connected b.0
      (below (helper c (some m) n connected) b (λ e. cc e))
at_event (sent ok) [] none n connected b = b
at_event (sent true) (m ∷ ms) none n connected (b1, b2, b3) =
    goes_on ms none 0 connected (omega (b1, arith)) (omega arith) (λ e. cc e)
at_event (sent false) (m ∷ ms) none n connected (b1, b2, b3) =
    run_failed-Bounded ms (some m) n connected (omega (b1, arith))
      (below (helper (m ∷ ms) none n connected) (b1, b2, b3) (λ e. cc e))

Bounded-on_events :
    (es : List Event) (mth : MsgTraceHelper) → Bounded mth → Bounded (on_events es mth).0
unfolding on_events
Bounded-on_events [] mth b = b
Bounded-on_events (e ∷ es) mth b =
    Bounded-on_events es (on_event e mth).0
      (at_event e mth.traced_msg_chan mth.undelivered mth.failed_count mth.stage b)

-- From the start of the process on, whatever happens: the channel holds 128 messages at most, the
-- failures counted are three at most, and the goroutine has ended exactly when they are three.
pub on_events-Bounded : (es : List Event) → Bounded (on_events es m_trace_helper).0
on_events-Bounded es =
    Bounded-on_events es m_trace_helper
      (omega arith, omega arith, (λ e. cc e, λ e. absurd (omega (e, arith))))
