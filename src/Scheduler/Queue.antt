-- ===== src/Scheduler/Queue.antt =====
-- `OperationQueue` of internal/scheduler/fairuse_scheduler.go. The `Execute` and `Cancel` channels
-- of an operation carry signals to a running caller (Scheduler/Worker); `result` is what its
-- one-place `Result` channel holds.
use webmail_engine.Base.{
  ℕ, Bool, false, List, [], ◌∷◌, ◌++◌, Option, none, some, String, length, if◌then◌else◌,
}
use webmail_engine.Base.Int.{ℤ, pos, leb_ℤ}
use webmail_engine.Base.Dict.{Dict, lookup, insert, remove}

pub data OperationError : Type 0 where
  capacity_exceeded cancelled : OperationError

-- `OperationResult`; its `Tokens` field is never set.
pub record OperationResult : Type 0 where
  pub success : Bool
  pub error : Option OperationError

pub record QueuedOperation : Type 0 where
  pub id : String
  pub account_id : String
  pub operation : String
  pub cost : ℤ
  pub priority : ℤ
  pub submitted : ℕ
  pub result : Option OperationResult

pub record OperationQueue : Type 0 where
  pub queues : Dict (List QueuedOperation)
  pub max_queue : ℤ

unfoldable pub new_operation_queue : ℤ → OperationQueue
new_operation_queue max_queue = record { queues = []; max_queue = max_queue }

-- `q.queues[accountID]`: a missing key reads as an empty slice.
unfoldable pub queue_of : OperationQueue → String → List QueuedOperation
unfolding lookup
queue_of q account_id = elim (lookup account_id q.queues) [ none ↦ [] | some ops ↦ ops ]

unfoldable pub enqueue :
    OperationQueue → String → QueuedOperation → OperationQueue × QueuedOperation
unfolding queue_of insert
enqueue q account_id op =
    if leb_ℤ q.max_queue (pos (length (queue_of q account_id)))
    then (
      q,
      record op { result = some (record { success = false; error = some capacity_exceeded }) },
    )
    else (record q { queues = insert account_id (queue_of q account_id ++ op ∷ []) q.queues }, op)

unfoldable pub dequeue : OperationQueue → String → OperationQueue × Option QueuedOperation
unfolding queue_of insert
dequeue q account_id = elim (queue_of q account_id) [
  | [] ↦ (q, none)
  | op ∷ rest ↦ (record q { queues = insert account_id rest q.queues }, some op)
]

unfoldable pub clear : OperationQueue → String → OperationQueue
unfolding remove
clear q account_id = record q { queues = remove account_id q.queues }

unfoldable pub len : OperationQueue → String → ℕ
unfolding queue_of
len q account_id = length (queue_of q account_id)
