-- ===== src/Scheduler/Order.antt =====
-- The operation queue keeps each account's operations in order and within the limit.
use webmail_engine.Base.{
  ℕ, zero, suc, ◌+◌, ◌≤◌, ◌<◌, ◌≡◌, ◌≢◌, refl, ◌∙◌, sym, ap, ◌⊎◌, inl, inr, false, List, [], ◌∷◌,
  ◌++◌, none, some, String, arith, length, length-append, Bool-cases,
}
use mathlib.Core.List.{append_assoc, append-nil}
use webmail_engine.Base.Int.{pos, pos_part, leb_ℤ}
use webmail_engine.Base.Dict.{lookup-insert_self, lookup-insert_ne}
use webmail_engine.Scheduler.Queue.{
  OperationQueue, QueuedOperation, capacity_exceeded, queue_of, enqueue, dequeue, len,
}

-- An operation enters at the end of its account's queue if that holds fewer than the limit;
-- otherwise the queue stays as it was and the operation is answered with a capacity error. The
-- queues of other accounts stay as they were in both cases.
pub enqueue_lem :
    (q : OperationQueue) (a : String) (op : QueuedOperation)
    → ((len q a < pos_part q.max_queue)
        × (queue_of (enqueue q a op).0 a ≡ queue_of q a ++ op ∷ [])
        × ((enqueue q a op).1 ≡ op)
        × ((j : String) → j ≢ a → queue_of (enqueue q a op).0 j ≡ queue_of q j))
      ⊎ ((pos_part q.max_queue ≤ len q a)
          × ((enqueue q a op).0 ≡ q)
          × ((enqueue q a op).1.result
              ≡ some (record { success = false; error = some capacity_exceeded })))
unfolding enqueue queue_of len
enqueue_lem q a op = elim (Bool-cases (leb_ℤ q.max_queue (pos (len q a)))) [
  | inl full ↦ inr (ground arith, rw full refl, rw full refl)
  | inr open' ↦ inl (
    ground arith,
    rw (open', queue_of) (rw (lookup-insert_self a (queue_of q a ++ op ∷ []) q.queues) refl),
    rw open' refl,
    λ j ne.
        rw (open', queue_of) (rw (lookup-insert_ne a j (queue_of q a ++ op ∷ []) q.queues ne) refl),
  )
]

pub enqueue_all : OperationQueue → String → List QueuedOperation → OperationQueue
enqueue_all q a [] = q
enqueue_all q a (op ∷ ops) = enqueue_all (enqueue q a op).0 a ops

-- Calls of `dequeue` until one finds nothing, at most `n`.
pub dequeue_all : ℕ → OperationQueue → String → List QueuedOperation
dequeue_all zero q a = []
dequeue_all (suc n) q a =
    let rest = dequeue_all n (dequeue q a).0 a in
    elim (dequeue q a).1 [ none ↦ [] | some op ↦ op ∷ rest ]

enqueue-max :
    (q : OperationQueue) (a : String) (op : QueuedOperation)
    → (enqueue q a op).0.max_queue ≡ q.max_queue
unfolding enqueue
enqueue-max q a op = ground arith

enqueue_all_lem :
    (ops : List QueuedOperation) (q : OperationQueue) (a : String)
    → len q a + length ops ≤ pos_part q.max_queue
    → queue_of (enqueue_all q a ops) a ≡ queue_of q a ++ ops
unfolding enqueue_all len
enqueue_all_lem [] q a h = sym (append-nil (queue_of q a))
enqueue_all_lem (op ∷ ops) q a h = elim (enqueue_lem q a op) [
  | inr (full, _, _) ↦ absurd (omega arith)
  | inl (_, e, _, _) ↦
      enqueue_all_lem ops (enqueue q a op).0 a (
        omega (
          arith,
          ap length e,
          length-append (queue_of q a) (op ∷ []),
          ap pos_part (enqueue-max q a op),
        ))
      ∙ (rw e (append_assoc (queue_of q a) (op ∷ []) ops))
]

dequeue_nil : (q : OperationQueue) (a : String) → queue_of q a ≡ [] → dequeue q a ≡ (q, none)
unfolding dequeue
dequeue_nil q a e = rw (e, dequeue) refl

dequeue_cons :
    (q : OperationQueue) (a : String) {op : QueuedOperation} {rest : List QueuedOperation}
    → queue_of q a ≡ op ∷ rest
    → ((dequeue q a).1 ≡ some op) × (queue_of (dequeue q a).0 a ≡ rest)
unfolding dequeue queue_of
dequeue_cons q a {rest = rest} e =
    (rw (e, dequeue) refl, rw (e, dequeue) (rw (lookup-insert_self a rest q.queues, queue_of) refl))

dequeue_all_lem :
    (ops : List QueuedOperation) (n : ℕ) (q : OperationQueue) (a : String)
    → queue_of q a ≡ ops
    → length ops ≤ n
    → dequeue_all n q a ≡ ops
unfolding dequeue_all
dequeue_all_lem [] zero q a e h = refl
dequeue_all_lem [] (suc n) q a e h = rw (dequeue_nil q a e, dequeue_all) refl
dequeue_all_lem (op ∷ ops) zero q a e h = absurd (omega arith)
dequeue_all_lem (op ∷ ops) (suc n) q a e h =
    rw ((dequeue_cons q a e).0, dequeue_all)
      (ap (◌∷◌ op) (dequeue_all_lem ops n (dequeue q a).0 a (dequeue_cons q a e).1 (omega arith)))

-- Operations that fit within the limit come out as they went in: those that waited already, then
-- the new ones in their order, and nothing else.
pub dequeue_all-enqueue_all :
    (q : OperationQueue) (a : String) (ops : List QueuedOperation) (n : ℕ)
    → len q a + length ops ≤ pos_part q.max_queue
    → len q a + length ops ≤ n
    → dequeue_all n (enqueue_all q a ops) a ≡ queue_of q a ++ ops
unfolding len
dequeue_all-enqueue_all q a ops n h k =
    dequeue_all_lem (queue_of q a ++ ops) n (enqueue_all q a ops) a (enqueue_all_lem ops q a h)
      (omega (arith, length-append (queue_of q a) ops))
