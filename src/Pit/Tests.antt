-- ===== src/Pit/Tests.antt =====
-- A process that sleeps for 5 milliseconds while the idle process runs.
use hry_os.Base.{refl, arith, [], ◌∷◌}
use hry_os.LinkedList.Values.{sift}
use hry_os.Scheduler.{
  Scheduler, init, move_to_if, create_process, reschedule, undisturbed, sleep_ms,
}
use hry_os.Scheduler.Awake.{IsAwake, IsSystem}
use hry_os.Scheduler.System.{here, next, switch, create, booted, Reach-IsGoing, IsGoing-IsSystem}
use hry_os.Pit.{ticks}
use hry_os.Pit.Sleep.{sleep_ms-wakes}

-- The idle process is 16, and process 32 runs.
abbrev two : Scheduler
two = reschedule 3 (create_process 2 32 (116 ∷ 0 ∷ []) 8 (booted 0 1 16 (105 ∷ 0 ∷ []) 7)).1

two-IsSystem : IsSystem 16 two
unfolding init reschedule move_to_if sift create_process
two-IsSystem =
    IsGoing-IsSystem
      (Reach-IsGoing 0 1 16 (105 ∷ 0 ∷ []) 7 (omega arith)
        (next (next here (create 2 32 (116 ∷ 0 ∷ []) 8 refl refl (omega arith))) (switch 3 refl)))
      refl

sleep_ms-wakes_example :
    let k = (ticks 6 (record { timer = 7 }, sleep_ms undisturbed 7 7 5 two)).1 in
    IsSystem 16 k × IsAwake two.current_process k
unfolding init reschedule move_to_if sift create_process
sleep_ms-wakes_example =
    sleep_ms-wakes 16 5 6 (record { timer = 7 }) two two-IsSystem refl (omega arith) (omega arith)
