-- ===== src/Report/Calls.antt =====
-- Calls between services, and the records that they leave if all their messages are traced.
use adaptiveservice.Prelude.{
  words, runs, space_width, is_space, has_space, words-append, ◌≡◌, ◌≢◌, refl, inl, inr, false,
  List, [], ◌∷◌, ◌++◌, Text, codes, text_eq, text_eq_iff, Bool-cases, append_assoc,
}
use adaptiveservice.Tracer.{TracedMessageRecord}
use adaptiveservice.Report.{client_send, client_recv}

-- A call of the service svc: the client's send, the handler, the service's send of the reply and
-- the client's receive. The tags of the four are not looked at.
pub record Hop : Type 0 where
  pub svc : Text
  pub request : TracedMessageRecord
  pub handled : TracedMessageRecord
  pub reply : TracedMessageRecord
  pub received : TracedMessageRecord

-- Calls one after the other, each with those that its handler makes.
pub data Calls : Type 0 where
  no_calls : Calls
  call : Hop → (inner next : Calls) → Calls

abbrev pub tagged : TracedMessageRecord → Text → TracedMessageRecord
tagged rcd tag = record rcd { tag = tag }

abbrev pub handler_tag : Text → Text
handler_tag svc = svc ++ codes " handler"

abbrev pub send_tag : Text → Text
send_tag svc = svc ++ codes " send"

unfoldable pub trace_of : Calls → List TracedMessageRecord
trace_of no_calls = []
trace_of (call h inner next) =
    tagged h.request client_send
    ∷ tagged h.handled (handler_tag h.svc)
    ∷ (trace_of inner
        ++ (tagged h.reply (send_tag h.svc) ∷ tagged h.received client_recv ∷ trace_of next))

-- A name that is one word, and not that of the client.
pub record IsSvc (svc : Text) : Type 0 where
  pub some_byte : svc ≢ []
  pub no_space : has_space svc ≡ false
  pub not_client : svc ≢ codes "client"

unfoldable pub AllSvcs : Calls → Type 0
AllSvcs no_calls = Unit
AllSvcs (call h inner next) = IsSvc h.svc × AllSvcs inner × AllSvcs next

-- Texts that differ are told apart.
pub differ : (a b : Text) → (a ≢ b) → text_eq a b ≡ false
differ a b ne = elim (Bool-cases (text_eq a b)) [
  | inl t ↦ absurd (ne ((text_eq_iff a b).0 t))
  | inr f ↦ f
]

words-svc : (svc action : Text) → IsSvc svc → words (svc ++ (b' ' ∷ action)) ≡ svc ∷ words action
unfolding text_eq
words-svc svc action s = words-append svc action (differ svc [] s.some_byte) s.no_space

pub handler_tag-words :
    (svc : Text) → IsSvc svc → words (handler_tag svc) ≡ svc ∷ codes "handler" ∷ []
unfolding words runs space_width is_space text_eq
handler_tag-words svc s = words-svc svc (codes "handler") s

pub send_tag-words : (svc : Text) → IsSvc svc → words (send_tag svc) ≡ svc ∷ codes "send" ∷ []
unfolding words runs space_width is_space text_eq
send_tag-words svc s = words-svc svc (codes "send") s

pub append-six :
    (a b c d e f r : Text)
    → (a ++ (b ++ (c ++ (d ++ (e ++ f))))) ++ r ≡ a ++ (b ++ (c ++ (d ++ (e ++ (f ++ r)))))
append-six a b c d e f r = simp append_assoc refl
