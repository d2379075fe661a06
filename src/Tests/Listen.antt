-- ===== src/Tests/Listen.antt =====
-- The control socket of a job, on a host on which every call succeeds and on one without spool.
use swm_core.Prelude.{◌≡◌, refl, true, some, none, codes}
use swm_core.SafeFile.{job_runtime_dir}
use swm_core.Ctrl.Listen.{Net, make_ctrl_path, porter_ctrl_listen}
use swm_core.Ctrl.Listen.Held.{
  AllOrNothing, owner_of, nothing_held, porter_ctrl_listen-AllOrNothing,
}
use swm_core.Tests.Files.{willing}

abbrev net : Net
net = record {
  os = willing;
  spool = some (codes "/spool//");
  temporary = none;
  socket_fd = some 5;
  bind_ok = true;
  listen_ok = true;
  flags_ok = true;
}

runtime_dir : job_runtime_dir (codes "7") net.spool ≡ codes "/spool/job/7"
unfolding job_runtime_dir
runtime_dir = refl

porter_ctrl_listen-AllOrNothing_example :
    AllOrNothing
      (make_ctrl_path net (codes "7")).0
      (owner_of 1000 1000)
      nothing_held
      (porter_ctrl_listen net (codes "7") 1000 1000)
porter_ctrl_listen-AllOrNothing_example = porter_ctrl_listen-AllOrNothing net (codes "7") 1000 1000
