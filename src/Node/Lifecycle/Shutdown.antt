-- ===== src/Node/Lifecycle/Shutdown.antt =====
-- When tasks are cancelled, and how a process can end.
use ursa.Prelude.{◌+◌, ◌<◌, ◌≡◌, ◌≢◌, refl, true, false, arith}
use ursa.Node.Lifecycle.{
  Task, rpc_task, service_task, metrics_task, provider_task, TaskState, running, cancelled, waiting,
  stopping, returned, Process, init, index, same_task, set_task, cancel_task, Step, interrupt, look,
  leave, finish, cancel, quit, Reach, here, later,
}

-- What holds between the steps of a process.
record Inv (p : Process) : Type 0 where
  interrupted : p.flag ≡ false → 0 < p.interrupts
  left : p.phase ≢ waiting → p.flag ≡ false
  begun : p.phase ≡ waiting → p.cancels ≡ 0
  ordered : (t : Task) → p.tasks t ≡ cancelled → index t < p.cancels
  stopped : (t : Task) → index t < p.cancels → p.tasks t ≢ running

same_task-index : (t u : Task) → same_task t u ≡ true → index t ≡ index u
same_task-index t u h = grind arith

index-same_task : (t u : Task) → same_task t u ≡ false → index t ≢ index u
index-same_task t u h e = grind arith

cancel_task-ne-running : (st : TaskState) → cancel_task st ≢ running
cancel_task-ne-running st h = grind arith

Step-Inv : {p q : Process} → Step p q → Inv p → Inv q
unfolding set_task
Step-Inv (interrupt h) v = record {
  interrupted = λ e. omega arith;
  left = λ e. refl;
  begun = v.begun;
  ordered = v.ordered;
  stopped = v.stopped;
}
Step-Inv (look h e) v = v
Step-Inv (leave h e) v = record {
  interrupted = v.interrupted;
  left = λ _. e;
  begun = λ w. cc;
  ordered = v.ordered;
  stopped = v.stopped;
}
Step-Inv (finish t h e) v = record {
  interrupted = v.interrupted;
  left = v.left;
  begun = v.begun;
  ordered = λ u c. ground (arith, v.ordered u);
  stopped = λ u l r. ground (arith, v.stopped u l);
}
Step-Inv {p} (cancel t h e) v = record {
  interrupted = v.interrupted;
  left = v.left;
  begun = λ w. ground arith;
  ordered = λ u c. ground (arith, v.ordered u, same_task-index t u);
  stopped =
      λ u l r. ground (arith, v.stopped u, index-same_task t u, cancel_task-ne-running (p.tasks t));
}
Step-Inv (quit h) v = record {
  interrupted = v.interrupted;
  left = λ _. v.left (λ w. ground arith);
  begun = λ w. cc;
  ordered = v.ordered;
  stopped = v.stopped;
}

init-Inv : Inv init
init-Inv = record {
  interrupted = λ e. cc;
  left = λ h. absurd (h refl);
  begun = λ _. refl;
  ordered = λ t c. cc;
  stopped = λ t l. elim l [ ];
}

Reach-Inv : {p : Process} → Reach init p → Inv p
Reach-Inv here = init-Inv
Reach-Inv (later r st) = Step-Inv st (Reach-Inv r)

-- Whatever the order of the steps, a task is cancelled only after Ctrl-C, when main has left its loop, and
-- only once each task before it in the order of the shutdown has been cancelled or has ended.
pub cancelled_interrupted :
    {p : Process} (t : Task)
    → Reach init p
    → p.tasks t ≡ cancelled
    → (0 < p.interrupts)
      × (p.phase ≢ waiting)
      × ((u : Task) → index u < index t → p.tasks u ≢ running)
cancelled_interrupted {p} t r c =
    let v = Reach-Inv r in
    let begun = v.ordered t c in
    let out = λ (w : p.phase ≡ waiting). absurd (ground (arith, v.begun w)) in
    (v.interrupted (v.left out), out, λ u l. v.stopped u (omega arith))

abbrev cancel_next : Process → Task → Process
cancel_next p t = record p {
  tasks = set_task t (cancel_task (p.tasks t)) p.tasks;
  cancels = p.cancels + 1;
}

abbrev left_loop : Process → Process
left_loop p = record p { phase = stopping }

abbrev all_cancelled : Process → Process
all_cancelled p =
    cancel_next
      (cancel_next (cancel_next (cancel_next (left_loop p) rpc_task) service_task) metrics_task)
      provider_task

Reach-all_cancelled :
    (p : Process) → p.phase ≡ waiting → p.flag ≡ false → p.cancels ≡ 0 → Reach p (all_cancelled p)
Reach-all_cancelled p w e none_yet =
    later
      (later
        (later (later (later here (leave w e)) (cancel rpc_task refl none_yet))
          (cancel service_task refl (omega arith)))
        (cancel metrics_task refl (omega arith)))
      (cancel provider_task refl (omega arith))

all_cancelled-ne-running : (p : Process) (t : Task) → (all_cancelled p).tasks t ≢ running
unfolding set_task
all_cancelled-ne-running p rpc_task = cancel_task-ne-running (p.tasks rpc_task)
all_cancelled-ne-running p service_task = cancel_task-ne-running (p.tasks service_task)
all_cancelled-ne-running p metrics_task = cancel_task-ne-running (p.tasks metrics_task)
all_cancelled-ne-running p provider_task = cancel_task-ne-running (p.tasks provider_task)

-- Once Ctrl-C was pressed, a waiting main can return with no task running; but as it does not wait for the
-- shutdown that it spawns, it can also return with every task as it is.
shutdown_outcomes :
    {p : Process}
    → Reach init p
    → p.phase ≡ waiting
    → p.flag ≡ false
    → ((q : Process) × Reach p q × (q.phase ≡ returned) × ((t : Task) → q.tasks t ≢ running))
      × ((q : Process) × Reach p q × (q.phase ≡ returned) × ((t : Task) → q.tasks t ≡ p.tasks t))
shutdown_outcomes {p} r w e = (
  (
    record (all_cancelled p) { phase = returned },
    later (Reach-all_cancelled p w e ((Reach-Inv r).begun w)) (quit refl),
    refl,
    all_cancelled-ne-running p,
  ),
  (record p { phase = returned }, later (later here (leave w e)) (quit refl), refl, λ t. refl),
)
