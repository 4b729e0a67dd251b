-- ===== src/Framing/RoundTrip.antt =====
-- The receiver gets the messages that were sent.
use adaptiveservice.Prelude.{
  ℕ, zero, suc, ◌≡◌, ◌≤◌, refl, sym, ap, ◌∙◌, ltb, leb, true, false, some, List, [], ◌∷◌, ◌++◌,
  Text, length, append_assoc, ◌>>=◌, arith, take-append, drop-append, length-append, some_inj,
  Bool-cases, inl, inr, >>=-eq-some,
}
use adaptiveservice.Framing.{
  max_int32, put_uint32, uint32, send_frame, read_full, receive_frame, receiver, send_all,
}

uint32-put_uint32 : (n : ℕ) → n ≤ max_int32 → uint32 (put_uint32 n) ≡ n
unfolding uint32 put_uint32
uint32-put_uint32 n h = omega arith

read_full-append : (xs ys : Text) → read_full (length xs) (xs ++ ys) ≡ some (xs, ys)
unfolding read_full
read_full-append xs ys =
    let t : leb (length xs) (length (xs ++ ys)) ≡ true = ground (arith, length-append xs ys) in
    rw (t, take-append xs ys, drop-append xs ys) refl

send_frame-some :
    (buf_msg : Text)
    → length buf_msg ≤ max_int32
    → send_frame buf_msg ≡ some (put_uint32 (length buf_msg) ++ buf_msg)
unfolding send_frame
send_frame-some buf_msg h =
    let f : ltb max_int32 (length buf_msg) ≡ false = ground arith in rw f refl

send_frame→ :
    (buf_msg bytes : Text)
    → send_frame buf_msg ≡ some bytes
    → (length buf_msg ≤ max_int32) × (bytes ≡ put_uint32 (length buf_msg) ++ buf_msg)
unfolding send_frame
send_frame→ buf_msg bytes h = elim (Bool-cases (ltb max_int32 (length buf_msg))) [
  | inl t ↦ ground (arith, h, t)
  | inr f ↦
      (ground (arith, f), sym (some_inj (sym (send_frame-some buf_msg (ground (arith, f))) ∙ h)))
]

read_full_head : (n : ℕ) (ys : Text) → read_full 4 (put_uint32 n ++ ys) ≡ some (put_uint32 n, ys)
unfolding put_uint32
read_full_head n ys = read_full-append (put_uint32 n) ys

receive_frame-append :
    (buf_msg rest : Text)
    → length buf_msg ≤ max_int32
    → receive_frame (put_uint32 (length buf_msg) ++ (buf_msg ++ rest)) ≡ some (buf_msg, rest)
unfolding receive_frame
receive_frame-append buf_msg rest h =
    let head : read_full 4 (put_uint32 (length buf_msg) ++ (buf_msg ++ rest))
        ≡ some (put_uint32 (length buf_msg), buf_msg ++ rest) =
      read_full_head (length buf_msg) (buf_msg ++ rest) in
    rw (head, uint32-put_uint32 (length buf_msg) h) (read_full-append buf_msg rest)

receiver-nil : (fuel : ℕ) → receiver fuel [] ≡ []
unfolding receiver receive_frame read_full
receiver-nil zero = refl
receiver-nil (suc fuel) = refl

receiver-step :
    (stream buf_msg rest : Text) (fuel : ℕ)
    → receive_frame stream ≡ some (buf_msg, rest)
    → receiver (suc fuel) stream ≡ buf_msg ∷ receiver fuel rest
unfolding receiver
receiver-step stream buf_msg rest fuel e = rw (receiver, e) refl

receiver-frame :
    (buf_msg rest : Text) (fuel : ℕ)
    → length buf_msg ≤ max_int32
    → receiver (suc fuel) (put_uint32 (length buf_msg) ++ (buf_msg ++ rest))
      ≡ buf_msg ∷ receiver fuel rest
receiver-frame buf_msg rest fuel h =
    receiver-step (put_uint32 (length buf_msg) ++ (buf_msg ++ rest)) buf_msg rest fuel
      (receive_frame-append buf_msg rest h)

-- If Send accepts each of some messages, which it does for all of at most MaxInt32 bytes, then the
-- receiver reads exactly these messages from what was written, in their order, and then meets the
-- end of the stream, in any number of turns that is not below theirs.
pub receiver-send_all :
    (msgs : List Text) (stream : Text) (fuel : ℕ)
    → send_all msgs ≡ some stream
    → length msgs ≤ fuel
    → receiver fuel stream ≡ msgs
unfolding send_all
receiver-send_all [] stream fuel h enough =
    ap (receiver fuel) (sym (some_inj h)) ∙ receiver-nil fuel
receiver-send_all (m ∷ msgs) stream zero h enough = absurd (omega (arith, enough))
receiver-send_all (m ∷ msgs) stream (suc fuel) h enough =
    let (bytes, sent, h') =
      >>=-eq-some (send_frame m) (λ bytes. send_all msgs >>= λ rest. some (bytes ++ rest)) h in
    let (rest, others, same) = >>=-eq-some (send_all msgs) (λ rest. some (bytes ++ rest)) h' in
    let (fits, framed) = send_frame→ m bytes sent in
    let written : stream ≡ put_uint32 (length m) ++ (m ++ rest) =
      sym (some_inj same)
      ∙ ap (λ l. l ++ rest) framed
      ∙ append_assoc (put_uint32 (length m)) m rest in
    ap (receiver (suc fuel)) written
    ∙ receiver-frame m rest fuel fits
    ∙ ap (λ l. m ∷ l) (receiver-send_all msgs rest fuel others (omega (arith, enough)))
