-- ===== src/Benchmark.antt =====
-- cmd/benchmark/main.go: which benchmarks of libdia run, and where their tables go. libdia is a parameter.
mod Tests
use dia.Prelude.{
  ℕ, ◌≡◌, refl, Bool, true, false, ◌&&◌, ◌||◌, List, [], ◌∷◌, ◌++◌, Option, none, some, Bytes,
  codes, str_eq, is_empty, leb, if◌then◌else◌,
}
use mathlib.Core.List.{reverse}
use dia.Phone.{starts_with}
use dia.PeerCache.{trim_space}
use dia.Experiment.{to_lower}
use dia.Controller.State.{ℤ, pos, negsuc}

pub data RunMode : Type 0 where
  run_both run_plain run_role : RunMode

-- `none` is an invalid mode.
unfoldable pub run_mode : Bytes → Option RunMode
unfolding trim_space to_lower
run_mode text =
    let mode = to_lower (trim_space text) in
    if str_eq mode (codes "both")
    then some run_both
    else if str_eq mode (codes "plain")
    then some run_plain
    else if str_eq mode (codes "role")
    then some run_role
    else none

abbrev pub wants_plain : RunMode → Bool
wants_plain run_both = true
wants_plain run_plain = true
wants_plain run_role = false

abbrev pub wants_role : RunMode → Bool
wants_role run_both = true
wants_role run_plain = false
wants_role run_role = true

-- Where a table goes: to a file, or printed with a line feed at its end.
pub data Output : Type 0 where
  printed : Bytes → Output
  written : Bytes → Bytes → Output

-- `strings.HasSuffix(content, "\n")`
abbrev pub ends_line : Bytes → Bool
ends_line content = starts_with (codes "\n") (reverse content)

-- `writeOutput`; `writes` is whether a file can be written.
unfoldable pub write_output : (Bytes → Bool) → Bytes → Bytes → Option Output
unfolding trim_space starts_with
write_output writes path content =
    if is_empty (trim_space path)
    then some (printed (if ends_line content then content else content ++ codes "\n"))
    else if writes path
    then some (written path content)
    else none

-- The file of a table that is wanted and has none.
abbrev pub path_or : Bool → Bytes → Bytes → Bytes
path_or wanted path default = if wanted && is_empty (trim_space path) then default else path

-- The end of `main` with what it has put out.
pub data Done : Type 0 where
  done : List Output → Done
  too_few_samples invalid_mode : Done
  failed : List Output → Done

-- `samples >= 1`
abbrev pub enough : ℤ → Bool
enough (pos n) = leb 1 n
enough (negsuc n) = false

-- The benchmarks of libdia on the number of samples and of iterations.
module _ (plain_csv role_csv : ℤ → ℤ → Option Bytes) (writes : Bytes → Bool) where
  abbrev pub out_with : List Output → (List Output → Done) → Option Output → Done
  out_with outs go none = failed outs
  out_with outs go (some o) = go (outs ++ o ∷ [])

  abbrev pub table_with : Bytes → List Output → (List Output → Done) → Option Bytes → Done
  table_with path outs go none = failed outs
  table_with path outs go (some csv) = out_with outs go (write_output writes path csv)

  -- One table, if it is wanted.
  unfoldable pub bench : Bool → Bytes → Option Bytes → (List Output → Done) → List Output → Done
  unfolding write_output
  bench true path table go outs = table_with path outs go table
  bench false path table go outs = go outs

  abbrev pub with_mode : ℤ → ℤ → Bytes → Bytes → Option RunMode → Done
  with_mode samples iters out_plain out_role none = invalid_mode
  with_mode samples iters out_plain out_role (some mode) =
      let plain_path = path_or (wants_plain mode) out_plain (codes "results/primitives-pc.csv") in
      let role_path = path_or (wants_role mode) out_role (codes "results/roles-pc.csv") in
      bench (wants_plain mode) plain_path (plain_csv samples iters)
        (bench (wants_role mode) role_path (role_csv samples iters) done) []

  -- `main`, behind its flags.
  unfoldable pub bench_main : ℤ → ℤ → Bytes → Bytes → Bytes → Done
  unfolding run_mode bench
  bench_main samples iters mode out_plain out_role =
      if enough samples
      then with_mode samples iters out_plain out_role (run_mode mode)
      else too_few_samples
