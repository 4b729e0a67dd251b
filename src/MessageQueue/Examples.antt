-- ===== src/MessageQueue/Examples.antt =====
-- A queue with a message of each priority.
use adaptiveservice.Prelude.{ℕ, ◌≡◌, refl, true, some, List, [], ◌∷◌, ◌++◌}
use adaptiveservice.MessageQueue.{
  Priority, high_priority, normal_priority, low_priority, MetaKnownMsg, MsgQ, put_meta_msg, put_all,
  queue, set_queue, receive, reorder_round,
}
use adaptiveservice.MessageQueue.Channels.{of_priority, IsSorted}
use adaptiveservice.MessageQueue.Order.{sent_of, left_of, reorder_round_lem}

abbrev high_msg : ℕ → MetaKnownMsg
high_msg n = record { priority = high_priority; msg = n }

abbrev normal_msg : ℕ → MetaKnownMsg
normal_msg n = record { priority = normal_priority; msg = n }

abbrev low_msg : ℕ → MetaKnownMsg
low_msg n = record { priority = low_priority; msg = n }

abbrev mixed : MsgQ
mixed = record {
  high = high_msg 1 ∷ [];
  normal = normal_msg 2 ∷ [];
  low = low_msg 3 ∷ [];
  reordering = true;
}

mixed-IsSorted : IsSorted mixed
mixed-IsSorted high_priority = (refl, tt)
mixed-IsSorted normal_priority = (refl, tt)
mixed-IsSorted low_priority = (refl, tt)

-- The low message came first to the select, and a high one came in before the channels were emptied.
round_test :
    reorder_round low_priority [] [] (high_msg 4 ∷ []) mixed
    ≡ some (
      high_msg 1 ∷ high_msg 4 ∷ normal_msg 2 ∷ low_msg 3 ∷ [],
      record { high = []; normal = []; low = []; reordering = true },
    )
unfolding reorder_round receive set_queue put_all put_meta_msg
round_test = refl

reorder_round_lem_example :
    (sent : List MetaKnownMsg) × (after : MsgQ) × (reorder_round low_priority [] []
        (high_msg 4 ∷ [])
        mixed
      ≡ some (sent, after))
    × ((r : Priority)
        → (of_priority r sent ≡ queue r mixed ++ of_priority r (sent_of r [] [] (high_msg 4 ∷ [])))
          × (queue r after ≡ of_priority r (left_of r [] [] (high_msg 4 ∷ []))))
    × (sent
        ≡ of_priority high_priority sent
          ++ (of_priority normal_priority sent ++ of_priority low_priority sent))
reorder_round_lem_example =
    reorder_round_lem low_priority (low_msg 3) [] [] [] (high_msg 4 ∷ []) mixed mixed-IsSorted refl
