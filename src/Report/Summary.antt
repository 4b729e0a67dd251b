-- ===== src/Report/Summary.antt =====
-- The arrows of the summary go from each caller to the service that it calls, and back.
use adaptiveservice.Prelude.{
  ℕ, ◌≡◌, refl, sym, ap, ◌∙◌, List, [], ◌∷◌, ◌++◌, Text, codes, text_eq, append_assoc, append-nil,
  if_else,
}
use adaptiveservice.Prelude.{words, runs, is_space, space_width}
use adaptiveservice.Tracer.{TracedMessageRecord}
use adaptiveservice.Report.{
  client_send, client_recv, arrow_from, arrow_to, in_svcs, act, act_fields, details, summary,
  report, heading,
}
use adaptiveservice.Report.Calls.{
  Hop, Calls, no_calls, call, tagged, handler_tag, send_tag, trace_of, IsSvc, AllSvcs,
  handler_tag-words, send_tag-words, differ, append-six,
}
use adaptiveservice.Report.Depth.{call_lines, details-trace_of}

abbrev pub caller_of : List Text → Text
caller_of [] = codes "client"
caller_of (svc ∷ svcs) = svc

module _ (stamp : ℕ → Text) where
  unfoldable pub call_arrows : Text → Calls → Text
  call_arrows caller no_calls = []
  call_arrows caller (call h inner next) =
      arrow_from stamp caller
      ++ (arrow_to stamp h.svc h.handled
          ++ (call_arrows h.svc inner
              ++ (arrow_from stamp h.svc
                  ++ (arrow_to stamp caller h.received ++ call_arrows caller next))))

  summary-step :
      (svcs svcs' : List Text) (out : Text) (rcd : TracedMessageRecord)
      (rcds : List TracedMessageRecord)
      → act_fields stamp (words rcd.tag) rcd svcs ≡ (svcs', out)
      → summary stamp svcs (rcd ∷ rcds) ≡ out ++ summary stamp svcs' rcds
  unfolding summary
  summary-step svcs svcs' out rcd rcds e = ap (λ a. a.1 ++ summary stamp a.0 rcds) e

  sends_from :
      (svcs : List Text) (rcd : TracedMessageRecord)
      → act_fields stamp (words client_send) rcd svcs ≡ (svcs, arrow_from stamp (caller_of svcs))
  unfolding act_fields act words runs space_width is_space text_eq
  sends_from [] rcd = refl
  sends_from (svc ∷ svcs) rcd = refl

  receives :
      (svcs : List Text) (rcd : TracedMessageRecord)
      → act_fields stamp (words client_recv) rcd svcs ≡ (svcs, arrow_to stamp (caller_of svcs) rcd)
  unfolding act_fields act words runs space_width is_space text_eq in_svcs
  receives [] rcd = refl
  receives (svc ∷ svcs) rcd = refl

  handles :
      (svc : Text) (svcs : List Text) (rcd : TracedMessageRecord)
      → IsSvc svc
      → act_fields stamp (words (handler_tag svc)) rcd svcs ≡ (svc ∷ svcs, arrow_to stamp svc rcd)
  unfolding act_fields act text_eq
  handles svc svcs rcd s = ap (λ fs. act_fields stamp fs rcd svcs) (handler_tag-words svc s)

  replies :
      (svc : Text) (svcs : List Text) (rcd : TracedMessageRecord)
      → IsSvc svc
      → act_fields stamp (words (send_tag svc)) rcd (svc ∷ svcs) ≡ (svcs, arrow_from stamp svc)
  unfolding act_fields act
  replies svc svcs rcd s =
      ap (λ fs. act_fields stamp fs rcd (svc ∷ svcs)) (send_tag-words svc s)
      ∙ if_else _ _ (differ svc (codes "client") s.not_client)

  summary-trace_of :
      (svcs : List Text) (calls : Calls) (rest : List TracedMessageRecord)
      → AllSvcs calls
      → summary stamp svcs (trace_of calls ++ rest)
        ≡ call_arrows (caller_of svcs) calls ++ summary stamp svcs rest
  unfolding trace_of call_arrows AllSvcs arrow_to
  summary-trace_of svcs no_calls rest all = refl
  summary-trace_of svcs (call h inner next) rest (s, all_inner, all_next) =
      let sent = tagged h.request client_send in
      let handled = tagged h.handled (handler_tag h.svc) in
      let reply = tagged h.reply (send_tag h.svc) in
      let received = tagged h.received client_recv in
      let caller = caller_of svcs in
      let e6 = summary-trace_of svcs next rest all_next in
      let e5 =
        summary-step svcs svcs (arrow_to stamp caller received) received (trace_of next ++ rest)
          (receives svcs received)
        ∙ ap (λ l. arrow_to stamp caller received ++ l) e6 in
      let e4 =
        summary-step (h.svc ∷ svcs) svcs (arrow_from stamp h.svc) reply
          (received ∷ (trace_of next ++ rest)) (replies h.svc svcs reply s)
        ∙ ap (λ l. arrow_from stamp h.svc ++ l) e5 in
      let e3 =
        ap (summary stamp (h.svc ∷ svcs))
          (append_assoc (trace_of inner) (reply ∷ received ∷ trace_of next) rest)
        ∙ (summary-trace_of (h.svc ∷ svcs) inner (reply ∷ received ∷ (trace_of next ++ rest))
              all_inner
            ∙ ap (λ l. call_arrows h.svc inner ++ l) e4) in
      let after = handled ∷ ((trace_of inner ++ (reply ∷ received ∷ trace_of next)) ++ rest) in
      let e2 =
        summary-step svcs (h.svc ∷ svcs) (arrow_to stamp h.svc handled) handled
          ((trace_of inner ++ (reply ∷ received ∷ trace_of next)) ++ rest)
          (handles h.svc svcs handled s)
        ∙ ap (λ l. arrow_to stamp h.svc handled ++ l) e3 in
      let e1 =
        summary-step svcs svcs (arrow_from stamp caller) sent after (sends_from svcs sent)
        ∙ ap (λ l. arrow_from stamp caller ++ l) e2 in
      e1
      ∙ sym (
          append-six (arrow_from stamp caller) (arrow_to stamp h.svc handled)
            (call_arrows h.svc inner) (arrow_from stamp h.svc) (arrow_to stamp caller received)
            (call_arrows caller next) (summary stamp svcs rest))

-- For calls whose services have names of one word that is not client, and whose messages are all
-- traced and in their order: the report has a line for each record, indented by the depth of its
-- call, and then the arrows of all calls, each from its caller to its service and back.
pub report-trace_of :
    (stamp : ℕ → Text) (h : Hop) (inner next : Calls)
    → AllSvcs (call h inner next)
    → report stamp (trace_of (call h inner next))
      ≡ call_lines stamp 0 (call h inner next)
        ++ (heading ++ call_arrows stamp (codes "client") (call h inner next))
unfolding report trace_of
report-trace_of stamp h inner next all =
    let calls = call h inner next in
    let all_of = sym (append-nil (trace_of calls)) in
    let e : details stamp 0 (trace_of calls) ≡ call_lines stamp 0 calls =
      ap (details stamp 0) all_of
      ∙ (details-trace_of stamp 0 calls [] all ∙ append-nil (call_lines stamp 0 calls)) in
    let e' : summary stamp [] (trace_of calls) ≡ call_arrows stamp (codes "client") calls =
      ap (summary stamp []) all_of
      ∙ (summary-trace_of stamp [] calls [] all
          ∙ append-nil (call_arrows stamp (codes "client") calls)) in
    ap (λ l. l ++ (heading ++ summary stamp [] (trace_of calls))) e
    ∙ ap (λ l. call_lines stamp 0 calls ++ (heading ++ l)) e'
