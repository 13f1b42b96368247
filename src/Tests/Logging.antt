-- ===== src/Tests/Logging.antt =====
-- Logging in batches of two, and a draw of the simulation.
use nodeva.Prelude.{◌≡◌, refl, arith, false, none, List, [], ◌∷◌}
use nodeva.Marketplace.Rank.{rank, normalize, scaled, entry, expected_cost_paise, clamp, best_value}
use nodeva.Marketplace.Scheduler.{feasible, covers_window}
use nodeva.Jobs.Verification.{recommend_verification, default_thresholds}
use nodeva.Observability.LokiSink.{
  LogEvent, logs, ticks, debug, info, error, empty_sink, run_logger,
}
use nodeva.Observability.LokiSink.Batches.{IsShipped, run_logger-IsShipped}
use nodeva.Scripts.Simulation.{mulberry32, Stats, backtest, backtest_step, count_pick, run_backtest}
use nodeva.Tests.Ranking.{thousandths, three_nodes, two_hours}

abbrev a_minute : List LogEvent
a_minute = logs info 1 101 ∷ logs debug 2 102 ∷ ticks ∷ logs error 3 103 ∷ logs info 4 104 ∷ []

run_logger-IsShipped_example :
    let out = run_logger (λ b. false) 2 none a_minute ([], empty_sink) in IsShipped 2 out.0 out.1
run_logger-IsShipped_example =
    run_logger-IsShipped (λ b. false) 2 none a_minute [] empty_sink (omega arith)
      (record { same_lines = refl; batch_sizes = tt; buffer_size = omega arith })

-- The first number of the seed 42, 0.6011037519201636, times 2 ^ 32.
first_draw : (mulberry32 42).0 ≡ 2581720956
unfolding mulberry32
first_draw = refl

abbrev stats : Stats
stats =
    run_backtest thousandths (λ n. 500) three_nodes
      ((two_hours, best_value) ∷ (two_hours, best_value) ∷ []) default_thresholds best_value

-- Both requests pick the cheaper node, for 70 rupees each.
two_picks : (stats.picked ≡ 2) × (stats.total_quoted_paise ≡ 14000)
unfolding run_backtest backtest backtest_step count_pick rank normalize scaled entry
    expected_cost_paise clamp feasible covers_window recommend_verification
two_picks = (refl, refl)
