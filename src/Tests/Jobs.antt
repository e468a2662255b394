-- ===== src/Tests/Jobs.antt =====
-- src/operator/operator.cc with a job of five digits.
use tpst.Prelude.{◌≡◌, refl, [], ◌∷◌, ◌++◌, Bytes, codes, ok}
use tpst.Utils.Stoi.{stoi}
use tpst.Utils.StrParse.{find, substr}
use tpst.Operator.{Tasks, Registration, stop_task, bundle_register, local_task_start}
use tpst.Operator.JobId.{stop_task-bundle_register}

abbrev printed : Bytes
printed = codes "Submitted batch job 43942" ++ (10 ∷ [])

abbrev no_tasks : Tasks
no_tasks = record { bmap = []; submap = [] }

stop_task-bundle_register_example :
    (r : Registration) × (bundle_register
        (λ template. printed)
        (codes "n")
        (codes "SIM")
        (codes "simTp.scripts")
        (codes "INIT")
        []
        (codes "NONE")
        []
        (codes "p")
        (codes "q")
        no_tasks
      ≡ ok r)
    × ((stop_task (codes "SIM") r.tasks).0 ≡ codes "scancel " ++ (codes "3942" ++ 10 ∷ []))
stop_task-bundle_register_example =
    stop_task-bundle_register (λ template. printed) (codes "SIM") (codes "simTp.scripts")
      (codes "Submitted batch job 4") (codes "3942") refl refl (codes "n") [] (codes "NONE") []
      (codes "p") (codes "q") no_tasks

-- The time step 9 executes the command, the time step 3 does not.
steps :
    (local_task_start (codes "./run") (codes "GRID[<0>:<1>]%TS[9]") ≡ ok (codes "./run 9" ∷ []))
    × (local_task_start (codes "./run") (codes "GRID[<0>:<1>]%TS[3]") ≡ ok [])
unfolding local_task_start find substr stoi
steps = (refl, refl)
