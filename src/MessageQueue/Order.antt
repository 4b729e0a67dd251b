-- ===== src/MessageQueue/Order.antt =====
-- A round of reorder: what it sends, in which order, and what it leaves.
use adaptiveservice.Prelude.{
  ℕ, ◌≡◌, refl, sym, ap, ◌∙◌, subst, true, some, List, [], ◌∷◌, ◌++◌, length, take, drop,
  append_assoc, append-nil, take-append, drop-append, arith, inl, inr, Bool-cases,
}
use adaptiveservice.MessageQueue.{
  Priority, high_priority, normal_priority, low_priority, MetaKnownMsg, MsgQ, put_all, queue,
  set_queue, receive, same, taken, reorder_round,
}
use adaptiveservice.MessageQueue.Channels.{
  of_priority, Only, IsSorted, by_priority, of_priority-append, of_priority-same, of_priority-other,
  Only-append, Only-take, Only-taken, put_all-queue,
}

-- What came in by three puts stands behind what stood there.
three_puts :
    (p : Priority) (a1 a2 a3 : List MetaKnownMsg) (mq : MsgQ)
    → queue p (put_all a3 (put_all a2 (put_all a1 mq)))
      ≡ queue p mq ++ of_priority p (a1 ++ (a2 ++ a3))
three_puts p a1 a2 a3 mq =
    let f = of_priority p in
    put_all-queue p a3 (put_all a2 (put_all a1 mq))
    ∙ ap (λ l. l ++ f a3)
        (put_all-queue p a2 (put_all a1 mq) ∙ ap (λ l. l ++ f a2) (put_all-queue p a1 mq))
    ∙ append_assoc (queue p mq ++ f a1) (f a2) (f a3)
    ∙ append_assoc (queue p mq) (f a1) (f a2 ++ f a3)
    ∙ ap (λ l. queue p mq ++ l)
        (sym
          (of_priority-append p a1 (a2 ++ a3) ∙ ap (λ l. f a1 ++ l) (of_priority-append p a2 a3)))

receive-some :
    (p : Priority) (mm : MetaKnownMsg) (mms : List MetaKnownMsg) (mq : MsgQ)
    → queue p mq ≡ mm ∷ mms
    → receive p mq ≡ some (mm, set_queue p mms mq)
unfolding receive
receive-some p mm mms mq e = rw (receive, e) refl

taken-queue :
    (r p : Priority) (mm : MetaKnownMsg) (mms : List MetaKnownMsg) (mq : MsgQ)
    → queue p mq ≡ mm ∷ mms
    → taken r p mm ++ queue r (set_queue p mms mq) ≡ queue r mq
unfolding set_queue
taken-queue high_priority high_priority mm mms mq e = sym e
taken-queue normal_priority normal_priority mm mms mq e = sym e
taken-queue low_priority low_priority mm mms mq e = sym e
taken-queue high_priority normal_priority mm mms mq e = refl
taken-queue high_priority low_priority mm mms mq e = refl
taken-queue normal_priority high_priority mm mms mq e = refl
taken-queue normal_priority low_priority mm mms mq e = refl
taken-queue low_priority high_priority mm mms mq e = refl
taken-queue low_priority normal_priority mm mms mq e = refl

-- The part of one priority.
abbrev part : Priority → (hs ns ls : List MetaKnownMsg) → List MetaKnownMsg
part high_priority hs ns ls = hs
part normal_priority hs ns ls = ns
part low_priority hs ns ls = ls

of_priority-parts :
    (r : Priority) (hs ns ls : List MetaKnownMsg)
    → Only high_priority hs
    → Only normal_priority ns
    → Only low_priority ls
    → of_priority r (hs ++ (ns ++ ls)) ≡ part r hs ns ls
of_priority-parts high_priority hs ns ls h n l =
    of_priority-append high_priority hs (ns ++ ls)
    ∙ rw
        (
          of_priority-append high_priority ns ls,
          of_priority-same high_priority hs h,
          of_priority-other high_priority normal_priority ns refl n,
          of_priority-other high_priority low_priority ls refl l,
        )
        (append-nil hs)
of_priority-parts normal_priority hs ns ls h n l =
    of_priority-append normal_priority hs (ns ++ ls)
    ∙ rw
        (
          of_priority-append normal_priority ns ls,
          of_priority-other normal_priority high_priority hs refl h,
          of_priority-same normal_priority ns n,
          of_priority-other normal_priority low_priority ls refl l,
        )
        (append-nil ns)
of_priority-parts low_priority hs ns ls h n l =
    of_priority-append low_priority hs (ns ++ ls)
    ∙ rw
        (
          of_priority-append low_priority ns ls,
          of_priority-other low_priority high_priority hs refl h,
          of_priority-other low_priority normal_priority ns refl n,
          of_priority-same low_priority ls l,
        )
        refl

Only-behind : (p : Priority) (xs ys : List MetaKnownMsg) → Only p (xs ++ ys) → Only p ys
Only-behind p [] ys only = only
Only-behind p (x ∷ xs) ys (e, only) = Only-behind p xs ys only

same→≡ : (q p : Priority) → same q p ≡ true → q ≡ p
same→≡ high_priority high_priority h = refl
same→≡ normal_priority normal_priority h = refl
same→≡ low_priority low_priority h = refl
same→≡ high_priority normal_priority h = ground (arith, h)
same→≡ high_priority low_priority h = ground (arith, h)
same→≡ normal_priority high_priority h = ground (arith, h)
same→≡ normal_priority low_priority h = ground (arith, h)
same→≡ low_priority high_priority h = ground (arith, h)
same→≡ low_priority normal_priority h = ground (arith, h)

Only-of_priority : (p : Priority) (xs : List MetaKnownMsg) → Only p (of_priority p xs)
Only-of_priority p [] = tt
Only-of_priority p (x ∷ xs) = elim (Bool-cases (same x.priority p)) [
  | inl t ↦ rw t (same→≡ x.priority p t, Only-of_priority p xs)
  | inr f ↦ rw f (Only-of_priority p xs)
]

Only-queue :
    (r p : Priority) (mm : MetaKnownMsg) (mms a1 a2 a3 : List MetaKnownMsg) (mq : MsgQ)
    → IsSorted mq
    → queue p mq ≡ mm ∷ mms
    → Only r (queue r (put_all a3 (put_all a2 (put_all a1 (set_queue p mms mq)))))
Only-queue r p mm mms a1 a2 a3 mq sorted e =
    let rest =
      Only-behind r (taken r p mm) (queue r (set_queue p mms mq))
        (subst (Only r) (sym (taken-queue r p mm mms mq e)) (sorted r)) in
    subst (Only r) (sym (three_puts r a1 a2 a3 (set_queue p mms mq))) (
      Only-append r (queue r (set_queue p mms mq)) (of_priority r (a1 ++ (a2 ++ a3))) rest
        (Only-of_priority r (a1 ++ (a2 ++ a3))))

-- What comes in before the length of a priority's channel is read is sent; the rest is left.
abbrev pub sent_of : Priority → (a1 a2 a3 : List MetaKnownMsg) → List MetaKnownMsg
sent_of high_priority a1 a2 a3 = a1 ++ (a2 ++ a3)
sent_of normal_priority a1 a2 a3 = a1 ++ a2
sent_of low_priority a1 a2 a3 = a1

abbrev pub left_of : Priority → (a1 a2 a3 : List MetaKnownMsg) → List MetaKnownMsg
left_of high_priority a1 a2 a3 = []
left_of normal_priority a1 a2 a3 = a3
left_of low_priority a1 a2 a3 = a2 ++ a3

two_puts :
    (p : Priority) (a b : List MetaKnownMsg) (mq : MsgQ)
    → queue p (put_all b (put_all a mq)) ≡ queue p mq ++ of_priority p (a ++ b)
two_puts p a b mq =
    put_all-queue p b (put_all a mq)
    ∙ ap (λ l. l ++ of_priority p b) (put_all-queue p a mq)
    ∙ append_assoc (queue p mq) (of_priority p a) (of_priority p b)
    ∙ ap (λ l. queue p mq ++ l) (sym (of_priority-append p a b))

-- What a round sends of a priority, and leaves, by the channel as it stood when its length was read.
part-queue :
    (r p : Priority) (mm : MetaKnownMsg) (mms read rest : List MetaKnownMsg)
    (mq before after : MsgQ)
    → queue p mq ≡ mm ∷ mms
    → queue r before ≡ queue r (set_queue p mms mq) ++ of_priority r read
    → queue r after ≡ queue r before ++ of_priority r rest
    → (taken r p mm ++ take (length (queue r before)) (queue r after)
        ≡ queue r mq ++ of_priority r read)
      × (drop (length (queue r before)) (queue r after) ≡ of_priority r rest)
part-queue r p mm mms read rest mq before after e b a =
    let n = length (queue r before) in
    (
      ap (λ l. taken r p mm ++ l)
            (ap (take n) a ∙ (take-append (queue r before) (of_priority r rest) ∙ b))
          ∙ (sym (append_assoc (taken r p mm) (queue r (set_queue p mms mq)) (of_priority r read))
              ∙ ap (λ l. l ++ of_priority r read) (taken-queue r p mm mms mq e)),
      ap (drop n) a ∙ drop-append (queue r before) (of_priority r rest),
    )

-- A round that the select begins with a message of a channel does not get stuck. Of each priority it
-- sends what stood in the channel and then what came in before the length of the channel was read,
-- in the order of their coming, and leaves what came in after that: nothing of high priority. It
-- sends the messages of high priority first, then the normal ones, then the low ones. Condition:
-- the channels hold messages of their own priority.
pub reorder_round_lem :
    (p : Priority) (mm : MetaKnownMsg) (mms a1 a2 a3 : List MetaKnownMsg) (mq : MsgQ)
    → IsSorted mq
    → queue p mq ≡ mm ∷ mms
    → (sent : List MetaKnownMsg) × (after : MsgQ) × (reorder_round p a1 a2 a3 mq
        ≡ some (sent, after))
      × ((r : Priority)
          → (of_priority r sent ≡ queue r mq ++ of_priority r (sent_of r a1 a2 a3))
            × (queue r after ≡ of_priority r (left_of r a1 a2 a3)))
      × (sent
          ≡ of_priority high_priority sent
            ++ (of_priority normal_priority sent ++ of_priority low_priority sent))
unfolding reorder_round
reorder_round_lem p mm mms a1 a2 a3 mq sorted e =
    let q0 = set_queue p mms mq in
    let q1 = put_all a1 q0 in
    let q2 = put_all a2 q1 in
    let q3 = put_all a3 q2 in
    let hs = taken high_priority p mm ++ take (length q3.high) q3.high in
    let ns = taken normal_priority p mm ++ take (length q2.normal) q3.normal in
    let ls = taken low_priority p mm ++ take (length q1.low) q3.low in
    let after : MsgQ = record q3 {
      high = drop (length q3.high) q3.high;
      normal = drop (length q2.normal) q3.normal;
      low = drop (length q1.low) q3.low;
    } in
    let first : mm.priority ≡ p = (subst (Only p) e (sorted p)).0 in
    let only : (r : Priority) (n : ℕ) → Only r (taken r p mm ++ take n (queue r q3)) = λ r n.
      Only-append r (taken r p mm) (take n (queue r q3)) (Only-taken r p mm first)
        (Only-take r n (queue r q3) (Only-queue r p mm mms a1 a2 a3 mq sorted e)) in
    let parts : (r : Priority) → of_priority r (hs ++ (ns ++ ls)) ≡ part r hs ns ls = λ r.
      of_priority-parts r hs ns ls (only high_priority (length q3.high))
        (only normal_priority (length q2.normal)) (only low_priority (length q1.low)) in
    let whole : (r : Priority)
        → (part r hs ns ls ≡ queue r mq ++ of_priority r (sent_of r a1 a2 a3))
          × (queue r after ≡ of_priority r (left_of r a1 a2 a3)) =
      by_priority
        (λ r.
          (part r hs ns ls ≡ queue r mq ++ of_priority r (sent_of r a1 a2 a3))
          × (queue r after ≡ of_priority r (left_of r a1 a2 a3)))
        (part-queue high_priority p mm mms (a1 ++ (a2 ++ a3)) [] mq q3 q3 e
          (three_puts high_priority a1 a2 a3 q0) (sym (append-nil q3.high)))
        (part-queue normal_priority p mm mms (a1 ++ a2) a3 mq q2 q3 e
          (two_puts normal_priority a1 a2 q0) (put_all-queue normal_priority a3 q2))
        (part-queue low_priority p mm mms a1 (a2 ++ a3) mq q1 q3 e
          (put_all-queue low_priority a1 q0) (two_puts low_priority a2 a3 q1)) in
    (
      hs ++ (ns ++ ls),
      after,
      rw (receive-some p mm mms mq e) refl,
      (λ r. (parts r ∙ (whole r).0, (whole r).1)),
      rw (parts high_priority, parts normal_priority, parts low_priority) refl,
    )
