-- ===== src/Examples/Monitor.antt =====
-- The command interpreter, jos/kern/monitor.c.
use cs444_operating_systems.Base.{ℕ, refl, [], ◌∷◌, arith, ◌==◌, if◌then◌else◌, inl}
use cs444_operating_systems.Format.Ends.{Ends}
use cs444_operating_systems.Monitor.{runcmd, is_space}
use cs444_operating_systems.Strings.Scan.{strchr}
use cs444_operating_systems.Monitor.Run.{Runs, runcmd-Runs}

-- The names `a` and `hi` of commands at 20 and 30, and the command ` hi x` at 50.
abbrev prompt : ℕ → ℕ
prompt a =
    if a == 20
    then 97
    else if a == 30
    then 104
    else if a == 31
    then 105
    else if a == 50
    then 32
    else if a == 51
    then 104
    else if a == 52
    then 105
    else if a == 53
    then 32
    else if a == 54
    then 120
    else 0

runcmd-Runs_example :
    Ends
      (Runs ((104 ∷ 105 ∷ []) ∷ (120 ∷ []) ∷ []) ((97 ∷ []) ∷ (104 ∷ 105 ∷ []) ∷ []))
      (runcmd 9 (20 ∷ 30 ∷ []) 50 prompt)
unfolding is_space strchr
runcmd-Runs_example =
    runcmd-Runs 9 50 (32 ∷ 104 ∷ 105 ∷ 32 ∷ 120 ∷ []) (20 ∷ 30 ∷ [])
      ((97 ∷ []) ∷ (104 ∷ 105 ∷ []) ∷ []) prompt
      (
        refl,
        omega arith,
        (refl, omega arith, (refl, omega arith, (refl, omega arith, (refl, omega arith, refl)))),
      )
      (omega arith, (omega arith, (omega arith, (omega arith, (omega arith, tt))))) (omega arith)
      (
        (refl, omega arith, refl),
        (omega arith, tt),
        ((refl, omega arith, (refl, omega arith, refl)), (omega arith, (omega arith, tt)), tt),
      )
      (inl (omega arith), (inl (omega arith), tt))
