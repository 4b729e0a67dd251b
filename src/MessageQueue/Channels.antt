-- ===== src/MessageQueue/Channels.antt =====
-- The messages of one priority, and the channels that hold only them.
use adaptiveservice.Prelude.{
  ℕ, zero, suc, ◌≡◌, refl, sym, ap, ◌∙◌, true, false, List, [], ◌∷◌, ◌++◌, take, keep, All,
  append_assoc, append-nil, inl, inr, Bool-cases,
}
use adaptiveservice.MessageQueue.{
  Priority, high_priority, normal_priority, low_priority, MetaKnownMsg, MsgQ, put_meta_msg, put_all,
  queue, same, taken,
}

-- The messages of one priority.
abbrev pub of_priority : Priority → List MetaKnownMsg → List MetaKnownMsg
of_priority p = keep (λ mm. same mm.priority p)

-- Every channel holds messages of its priority only.
abbrev pub Only : Priority → List MetaKnownMsg → Type 0
Only p = All (λ mm. mm.priority ≡ p)

abbrev pub IsSorted : MsgQ → Type 0
IsSorted mq = (p : Priority) → Only p (queue p mq)

pub by_priority :
    (P : Priority → Type 0)
    → P high_priority
    → P normal_priority
    → P low_priority
    → (r : Priority) → P r
by_priority P h n l high_priority = h
by_priority P h n l normal_priority = n
by_priority P h n l low_priority = l

pub same_refl : (p : Priority) → same p p ≡ true
same_refl high_priority = refl
same_refl normal_priority = refl
same_refl low_priority = refl

pub of_priority-append :
    (p : Priority) (xs ys : List MetaKnownMsg)
    → of_priority p (xs ++ ys) ≡ of_priority p xs ++ of_priority p ys
of_priority-append p [] ys = refl
of_priority-append p (x ∷ xs) ys = elim (Bool-cases (same x.priority p)) [
  | inl t ↦ rw t (ap (◌∷◌ x) (of_priority-append p xs ys))
  | inr f ↦ rw f (of_priority-append p xs ys)
]

pub of_priority-same : (p : Priority) (xs : List MetaKnownMsg) → Only p xs → of_priority p xs ≡ xs
of_priority-same p [] only = refl
of_priority-same p (x ∷ xs) (e, only) =
    let t : same x.priority p ≡ true = ap (λ q. same q p) e ∙ same_refl p in
    rw t (ap (◌∷◌ x) (of_priority-same p xs only))

pub of_priority-other :
    (p q : Priority) (xs : List MetaKnownMsg) → same q p ≡ false → Only q xs → of_priority p xs ≡ []
of_priority-other p q [] h only = refl
of_priority-other p q (x ∷ xs) h (e, only) =
    let f : same x.priority p ≡ false = ap (λ r. same r p) e ∙ h in
    rw f (of_priority-other p q xs h only)

pub Only-append :
    (p : Priority) (xs ys : List MetaKnownMsg) → Only p xs → Only p ys → Only p (xs ++ ys)
Only-append p [] ys xo yo = yo
Only-append p (x ∷ xs) ys (e, xo) yo = (e, Only-append p xs ys xo yo)

pub Only-take : (p : Priority) (n : ℕ) (xs : List MetaKnownMsg) → Only p xs → Only p (take n xs)
Only-take p zero xs only = tt
Only-take p (suc n) [] only = tt
Only-take p (suc n) (x ∷ xs) (e, only) = (e, Only-take p n xs only)

pub Only-taken : (p q : Priority) (mm : MetaKnownMsg) → mm.priority ≡ q → Only p (taken p q mm)
Only-taken high_priority high_priority mm e = (e, tt)
Only-taken normal_priority normal_priority mm e = (e, tt)
Only-taken low_priority low_priority mm e = (e, tt)
Only-taken high_priority normal_priority mm e = tt
Only-taken high_priority low_priority mm e = tt
Only-taken normal_priority high_priority mm e = tt
Only-taken normal_priority low_priority mm e = tt
Only-taken low_priority high_priority mm e = tt
Only-taken low_priority normal_priority mm e = tt

-- A put joins the message to the channel of its priority.
pub put_meta_msg-queue :
    (p : Priority) (mm : MetaKnownMsg) (mq : MsgQ)
    → queue p (put_meta_msg mm mq) ≡ queue p mq ++ of_priority p (mm ∷ [])
unfolding put_meta_msg
put_meta_msg-queue p mm mq = go p mm.priority refl
  where
    go :
        (p r : Priority)
        → r ≡ mm.priority
        → queue p (put_meta_msg mm mq) ≡ queue p mq ++ of_priority p (mm ∷ [])
    go high_priority high_priority e = rw (sym e) refl
    go normal_priority normal_priority e = rw (sym e) refl
    go low_priority low_priority e = rw (sym e) refl
    go high_priority normal_priority e = rw (sym e) (sym (append-nil mq.high))
    go high_priority low_priority e = rw (sym e) (sym (append-nil mq.high))
    go normal_priority high_priority e = rw (sym e) (sym (append-nil mq.normal))
    go normal_priority low_priority e = rw (sym e) (sym (append-nil mq.normal))
    go low_priority high_priority e = rw (sym e) (sym (append-nil mq.low))
    go low_priority normal_priority e = rw (sym e) (sym (append-nil mq.low))

pub put_all-queue :
    (p : Priority) (mms : List MetaKnownMsg) (mq : MsgQ)
    → queue p (put_all mms mq) ≡ queue p mq ++ of_priority p mms
unfolding put_all
put_all-queue p [] mq = sym (append-nil (queue p mq))
put_all-queue p (mm ∷ mms) mq =
    put_all-queue p mms (put_meta_msg mm mq)
    ∙ ap (λ l. l ++ of_priority p mms) (put_meta_msg-queue p mm mq)
    ∙ append_assoc (queue p mq) (of_priority p (mm ∷ [])) (of_priority p mms)
    ∙ ap (λ l. queue p mq ++ l) (sym (of_priority-append p (mm ∷ []) mms))
