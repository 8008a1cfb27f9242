-- ===== src/Tests/ManagerRuns.antt =====
-- The theorem on the set-up of the program at concrete libraries.
use rcs_ocm_deployer.Common.{◌≡◌, refl, true, none, some, [], if◌then◌else◌, ◌==◌}
use rcs_ocm_deployer.Runtime.Outcome.{errorf, done, failed}
use rcs_ocm_deployer.Runtime.Setup.{Library, exited, went_on, note, or_exit, or_panic, ◌>>=◌, ◌>>◌}
use rcs_ocm_deployer.Manager.{
  init_api, init_ecs_logger, must, init, set_up_controllers, set_up_webhooks, check_and_start, run,
  main,
}

-- everything succeeds but the controller whose name is given
abbrev library : Library
library = record {
  Manager = Unit;
  parse = λ flags. record flags { enable_leader_election = true };
  installs = λ p. none;
  has_config = true;
  makes = λ options. done tt;
  completes = λ spec mgr.
      if spec.name == "PlacementController" then failed (errorf "name is taken") else done tt;
  registers = λ path handler mgr. some tt;
  adds_healthz = λ name mgr. done tt;
  adds_readyz = λ name mgr. done tt;
  starts = λ mgr. done tt;
}

-- the program exits at the second controller
exits : (main library []).0 ≡ exited 1
unfolding main run init_api init_ecs_logger set_up_controllers init must note or_exit or_panic ◌>>=◌
    ◌>>◌
exits = refl

-- with libraries that all succeed, the program goes on to its end
started : (main (record library { completes = λ spec mgr. done tt }) []).0 ≡ went_on tt
unfolding main run init_api init_ecs_logger set_up_controllers set_up_webhooks check_and_start init
    must note or_exit or_panic ◌>>=◌ ◌>>◌
started = refl
