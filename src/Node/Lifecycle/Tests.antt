-- ===== src/Node/Lifecycle/Tests.antt =====
-- The service ends, Ctrl-C is pressed, and the first task is cancelled.
use ursa.Prelude.{◌<◌, ◌≢◌, refl, false}
use ursa.Node.Lifecycle.{
  Task, rpc_task, service_task, running, ended, waiting, stopping, Process, init, index, set_task,
  cancel_task, interrupt, leave, finish, cancel, Reach, here, later,
}
use ursa.Node.Lifecycle.Shutdown.{cancelled_interrupted}

abbrev pressed : Process
pressed = record init {
  tasks = set_task service_task ended init.tasks;
  flag = false;
  interrupts = 1;
}

Reach-pressed : Reach init pressed
Reach-pressed = later (later here (finish service_task (λ e. cc) refl)) (interrupt (λ e. cc))

abbrev first_cancelled : Process
first_cancelled = record pressed {
  phase = stopping;
  tasks = set_task rpc_task (cancel_task (pressed.tasks rpc_task)) pressed.tasks;
  cancels = 1;
}

Reach-first_cancelled : Reach init first_cancelled
Reach-first_cancelled = later (later Reach-pressed (leave refl refl)) (cancel rpc_task refl refl)

cancelled_interrupted_example :
    (0 < first_cancelled.interrupts)
    × (first_cancelled.phase ≢ waiting)
    × ((u : Task) → index u < index rpc_task → first_cancelled.tasks u ≢ running)
unfolding set_task
cancelled_interrupted_example = cancelled_interrupted rpc_task Reach-first_cancelled refl
