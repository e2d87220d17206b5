-- ===== src/Benchmark/Tests.antt =====
-- Runs of the benchmark command.
use dia.Prelude.{◌≡◌, refl, true, none, some, [], ◌∷◌, codes, str_eq}
use dia.Controller.State.{pos, negsuc}
use dia.Benchmark.{bench_main, done, failed, too_few_samples, written}

both_tables :
    bench_main
      (λ n i. some (codes "p"))
      (λ n i. some (codes "r"))
      (λ path. true)
      (pos 1)
      (pos 0)
      (codes " BOTH ")
      (codes "x.csv")
      []
    ≡ done (
        written (codes "x.csv") (codes "p")
        ∷ written (codes "results/roles-pc.csv") (codes "r")
        ∷ [])
unfolding bench_main str_eq
both_tables = refl

second_fails :
    bench_main
      (λ n i. some (codes "p"))
      (λ n i. none)
      (λ path. true)
      (pos 1)
      (pos 0)
      (codes "both")
      (codes "x")
      []
    ≡ failed (written (codes "x") (codes "p") ∷ [])
unfolding bench_main str_eq
second_fails = refl

no_samples :
    bench_main (λ n i. none) (λ n i. none) (λ path. true) (negsuc 0) (pos 0) [] [] []
    ≡ too_few_samples
unfolding bench_main
no_samples = refl
