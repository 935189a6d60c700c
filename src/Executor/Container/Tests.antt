-- ===== src/Executor/Container/Tests.antt =====
-- Runs of executor/container.py: a pool of one warm container.
use cpip.Common.{◌≤◌, ◌≡◌, refl, false, [], ◌∷◌, length, map}
use cpip.Common.Dict
use cpip.Executor.Container.{
  Container, ContainerPool, new_pool, take_fitting, acquire, release, warm, warmup,
}
use cpip.Executor.Container.Taken.{count}
use cpip.Executor.Container.Pool.{Run, containers_once}

program : Unit {0}
unfolding take_fitting acquire release warm warmup Dict.get Dict.put Dict.remove
program = tt

abbrev two : ContainerPool
two = (acquire "b" "python" false (acquire "a" "python" false (new_pool 1)).1).1

abbrev back : ContainerPool
back = release "b" (release "a" two)

test_destroyed : map (λ (c : Container). c.id) back.destroyed ≡ "b" ∷ []
unfolding program
test_destroyed = refl

test_reused : (acquire "c" "python" false back).0.id ≡ "a"
unfolding program
test_reused = refl

-- `warmup` does not look at what is warm already.
test_warmup_over : length (warmup "d" back).available ≡ 2
unfolding program
test_warmup_over = refl

back-Run : Run back
unfolding program
back-Run = Run.released "b" (
    Run.released "a"
      (Run.acquired "b" "python" false refl (Run.acquired "a" "python" false refl (Run.started 1))))

containers_once_example : (count "a" back ≤ 1) × (length back.available ≤ 1)
unfolding program
containers_once_example = containers_once back "a" back-Run
