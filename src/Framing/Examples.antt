-- ===== src/Framing/Examples.antt =====
-- Two short messages.
use adaptiveservice.Prelude.{◌≡◌, refl, arith, some, [], ◌∷◌, Text, codes, take}
use adaptiveservice.Framing.{
  put_uint32, uint32, send_frame, send_all, read_full, receive_frame, receiver,
}
use adaptiveservice.Framing.RoundTrip.{receiver-send_all}

abbrev written : Text
written = 0 ∷ 0 ∷ 0 ∷ 2 ∷ b'h' ∷ b'i' ∷ 0 ∷ 0 ∷ 0 ∷ 0 ∷ []

sent : send_all (codes "hi" ∷ [] ∷ []) ≡ some written
unfolding send_all send_frame put_uint32
sent = refl

-- A stream that breaks off within a message ends the receiver.
broken : receiver 9 (take 9 written) ≡ codes "hi" ∷ []
unfolding receiver receive_frame read_full uint32
broken = refl

receiver-send_all_example : receiver 5 written ≡ codes "hi" ∷ [] ∷ []
receiver-send_all_example = receiver-send_all (codes "hi" ∷ [] ∷ []) written 5 sent (omega arith)
