-- ===== src/Report/Depth.antt =====
-- The indentation of the details is the depth of the calls.
use adaptiveservice.Prelude.{
  ℕ, suc, ◌-◌, ◌≡◌, ◌≢◌, refl, sym, ap, ◌∙◌, false, List, [], ◌∷◌, ◌++◌, Text, codes, text_eq,
  text_eq_iff, append_assoc, if_else, if◌then◌else◌, arith,
}
use adaptiveservice.Prelude.{words, runs, is_space, space_width}
use adaptiveservice.Tracer.{TracedMessageRecord}
use adaptiveservice.Report.{client_send, client_recv, detail_line, details}
use adaptiveservice.Report.Calls.{
  Calls, no_calls, call, tagged, handler_tag, send_tag, trace_of, IsSvc, AllSvcs, handler_tag-words,
  send_tag-words, differ, append-six,
}

first : List Text → Text
first (f ∷ fs) = f
first [] = []

second : List Text → Text
second (f ∷ g ∷ fs) = g
second (f ∷ []) = []
second [] = []

-- Tags of two words differ where their second words do.
actions_differ : {a b c d : Text} → text_eq b d ≡ false → (a ∷ b ∷ [] ≢ c ∷ d ∷ [])
unfolding second
actions_differ {b = b} {d = d} f e = let t = (text_eq_iff b d).1 (ap second e) in cc (t, f)

handler_tag-other :
    (svc tag : Text)
    → IsSvc svc
    → (words tag ≢ svc ∷ codes "handler" ∷ [])
    → text_eq (handler_tag svc) tag ≡ false
handler_tag-other svc tag s ne =
    differ (handler_tag svc) tag (λ e. ne (sym (ap words e) ∙ handler_tag-words svc s))

send_tag-other :
    (svc tag : Text)
    → IsSvc svc
    → (words tag ≢ svc ∷ codes "send" ∷ [])
    → text_eq (send_tag svc) tag ≡ false
send_tag-other svc tag s ne =
    differ (send_tag svc) tag (λ e. ne (sym (ap words e) ∙ send_tag-words svc s))

handler-not-recv : (svc : Text) → IsSvc svc → text_eq (handler_tag svc) client_recv ≡ false
unfolding words runs space_width is_space text_eq
handler-not-recv svc s = handler_tag-other svc client_recv s (actions_differ refl)

handler-not-send : (svc : Text) → IsSvc svc → text_eq (handler_tag svc) client_send ≡ false
unfolding words runs space_width is_space text_eq
handler-not-send svc s = handler_tag-other svc client_send s (actions_differ refl)

send-not-recv : (svc : Text) → IsSvc svc → text_eq (send_tag svc) client_recv ≡ false
unfolding words runs space_width is_space text_eq
send-not-recv svc s = send_tag-other svc client_recv s (actions_differ refl)

send-not-send : (svc : Text) → IsSvc svc → text_eq (send_tag svc) client_send ≡ false
unfolding words runs space_width is_space text_eq first
send-not-send svc s = send_tag-other svc client_send s (λ e. s.not_client (sym (ap first e)))

-- The lines of a call: its handler one step deeper, with what the handler calls.
module _ (stamp : ℕ → Text) where
  unfoldable pub call_lines : ℕ → Calls → Text
  call_lines depth no_calls = []
  call_lines depth (call h inner next) =
      detail_line stamp depth (tagged h.request client_send)
      ++ (detail_line stamp (suc depth) (tagged h.handled (handler_tag h.svc))
          ++ (call_lines (suc depth) inner
              ++ (detail_line stamp (suc depth) (tagged h.reply (send_tag h.svc))
                  ++ (detail_line stamp depth (tagged h.received client_recv)
                      ++ call_lines depth next))))

  -- A record that is not one of the client's keeps the depth.
  details-keeps :
      (depth : ℕ) (rcd : TracedMessageRecord) (rcds : List TracedMessageRecord)
      → text_eq rcd.tag client_recv ≡ false
      → text_eq rcd.tag client_send ≡ false
      → details stamp depth (rcd ∷ rcds) ≡ detail_line stamp depth rcd ++ details stamp depth rcds
  unfolding details
  details-keeps depth rcd rcds r s =
      ap
        (λ n.
          detail_line stamp n rcd
          ++ details stamp (if text_eq rcd.tag client_send then suc n else n) rcds)
        (if_else _ _ r)
      ∙ ap (λ n. detail_line stamp depth rcd ++ details stamp n rcds) (if_else _ _ s)

  details-send :
      (depth : ℕ) (rcd : TracedMessageRecord) (rcds : List TracedMessageRecord)
      → details stamp depth (tagged rcd client_send ∷ rcds)
        ≡ detail_line stamp depth (tagged rcd client_send) ++ details stamp (suc depth) rcds
  unfolding details text_eq
  details-send depth rcd rcds = refl

  details-recv :
      (depth : ℕ) (rcd : TracedMessageRecord) (rcds : List TracedMessageRecord)
      → details stamp (suc depth) (tagged rcd client_recv ∷ rcds)
        ≡ detail_line stamp depth (tagged rcd client_recv) ++ details stamp depth rcds
  unfolding details text_eq
  details-recv depth rcd rcds =
      let e : suc depth - 1 ≡ depth = omega arith in
      ap (λ n. detail_line stamp n (tagged rcd client_recv) ++ details stamp n rcds) e

  pub details-trace_of :
      (depth : ℕ) (calls : Calls) (rest : List TracedMessageRecord)
      → AllSvcs calls
      → details stamp depth (trace_of calls ++ rest)
        ≡ call_lines depth calls ++ details stamp depth rest
  unfolding trace_of call_lines AllSvcs
  details-trace_of depth no_calls rest all = refl
  details-trace_of depth (call h inner next) rest (s, all_inner, all_next) =
      let sent = tagged h.request client_send in
      let handled = tagged h.handled (handler_tag h.svc) in
      let reply = tagged h.reply (send_tag h.svc) in
      let received = tagged h.received client_recv in
      let later = details stamp depth rest in
      let to = detail_line stamp in
      let e6 = details-trace_of depth next rest all_next in
      let e5 =
        details-recv depth h.received (trace_of next ++ rest)
        ∙ ap (λ l. to depth received ++ l) e6 in
      let e4 =
        details-keeps (suc depth) reply (received ∷ (trace_of next ++ rest)) (send-not-recv h.svc s)
          (send-not-send h.svc s)
        ∙ ap (λ l. to (suc depth) reply ++ l) e5 in
      let e3 =
        ap (details stamp (suc depth))
          (append_assoc (trace_of inner) (reply ∷ received ∷ trace_of next) rest)
        ∙ (details-trace_of (suc depth) inner (reply ∷ received ∷ (trace_of next ++ rest)) all_inner
            ∙ ap (λ l. call_lines (suc depth) inner ++ l) e4) in
      let e2 =
        details-keeps (suc depth) handled
          ((trace_of inner ++ (reply ∷ received ∷ trace_of next)) ++ rest)
          (handler-not-recv h.svc s) (handler-not-send h.svc s)
        ∙ ap (λ l. to (suc depth) handled ++ l) e3 in
      let e1 =
        details-send depth h.request
          (handled ∷ ((trace_of inner ++ (reply ∷ received ∷ trace_of next)) ++ rest))
        ∙ ap (λ l. to depth sent ++ l) e2 in
      e1
      ∙ sym (
          append-six (to depth sent) (to (suc depth) handled) (call_lines (suc depth) inner)
            (to (suc depth) reply) (to depth received) (call_lines depth next) later)
