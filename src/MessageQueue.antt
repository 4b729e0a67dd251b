-- ===== src/MessageQueue.antt =====
-- The message queue of scalamsgq.go: putMetaMsg and one round of the loop of reorder. A channel is
-- the list of what stands in it, a nil channel an empty one; that a full channel makes its sender
-- wait is not modelled.
pub mod Channels
pub mod Order
mod Examples
use adaptiveservice.Prelude.{
  ℕ, Bool, true, false, Option, none, some, List, [], ◌∷◌, ◌++◌, length, take, drop, ◌>>=◌,
}

-- Which of HighPriorityMessage and LowPriorityMessage the message implements, if any.
pub data Priority : Type 0 where
  high_priority : Priority
  normal_priority : Priority
  low_priority : Priority

-- metaKnownMsg; msg is the message's identity.
pub record MetaKnownMsg : Type 0 where
  pub priority : Priority
  pub msg : ℕ

-- The ingress channels; reordering is set when the egress channel is made and reorder runs.
pub record MsgQ : Type 0 where
  pub high : List MetaKnownMsg
  pub normal : List MetaKnownMsg
  pub low : List MetaKnownMsg
  pub reordering : Bool

unfoldable pub put_meta_msg : MetaKnownMsg → MsgQ → MsgQ
put_meta_msg mm mq = elim mm.priority [
  | high_priority ↦ record mq { high = mq.high ++ (mm ∷ []); reordering = true }
  | normal_priority ↦ record mq { normal = mq.normal ++ (mm ∷ []) }
  | low_priority ↦ record mq { low = mq.low ++ (mm ∷ []); reordering = true }
]

unfoldable pub put_all : List MetaKnownMsg → MsgQ → MsgQ
put_all [] mq = mq
put_all (mm ∷ mms) mq = put_all mms (put_meta_msg mm mq)

abbrev pub queue : Priority → MsgQ → List MetaKnownMsg
queue high_priority mq = mq.high
queue normal_priority mq = mq.normal
queue low_priority mq = mq.low

unfoldable pub set_queue : Priority → List MetaKnownMsg → MsgQ → MsgQ
set_queue high_priority mms mq = record mq { high = mms }
set_queue normal_priority mms mq = record mq { normal = mms }
set_queue low_priority mms mq = record mq { low = mms }

-- A case of the select, which is ready if the channel holds a message.
unfoldable pub receive : Priority → MsgQ → Option (MetaKnownMsg × MsgQ)
unfolding set_queue
receive p mq = elim (queue p mq) [ [] ↦ none | mm ∷ mms ↦ some (mm, set_queue p mms mq) ]

abbrev pub same : Priority → Priority → Bool
same high_priority high_priority = true
same normal_priority normal_priority = true
same low_priority low_priority = true
same _ _ = false

-- The message that the select took, if it came from this channel.
abbrev pub taken : Priority → Priority → MetaKnownMsg → List MetaKnownMsg
taken p q mm = elim (same p q) [ true ↦ mm ∷ [] | false ↦ [] ]

-- One round that the select begins with a message of the channel p: what it sends to the egress
-- channel, and the queue after it. Between the select and the reading of the three lengths, and
-- before the channels are emptied so far, the messages of a1, a2 and a3 come in.
unfoldable pub reorder_round :
    Priority → (a1 a2 a3 : List MetaKnownMsg) → MsgQ → Option (List MetaKnownMsg × MsgQ)
reorder_round p a1 a2 a3 mq = receive p mq >>= λ (mm, q0).
    (let q1 = put_all a1 q0 in
      let len_l = length q1.low in
      let q2 = put_all a2 q1 in
      let len_n = length q2.normal in
      let q3 = put_all a3 q2 in
      let len_h = length q3.high in
      some (
        (taken high_priority p mm ++ take len_h q3.high)
            ++ ((taken normal_priority p mm ++ take len_n q3.normal)
                ++ (taken low_priority p mm ++ take len_l q3.low)),
        record q3 {
          high = drop len_h q3.high;
          normal = drop len_n q3.normal;
          low = drop len_l q3.low;
        },
      ))
