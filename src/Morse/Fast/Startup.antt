-- ===== src/Morse/Fast/Startup.antt =====
-- app_main and stats_task of lab5_3/receiver/main/lab5_3.c. Log lines other than the report are left
-- out.
use cse.Base.{ℕ, ◌-◌, List, [], ◌∷◌}
use cse.Morse.Host.{Double}
use cse.Morse.Fast.Receiver.{Config, configure_timing, queue_size}

pub data Call : Type 0 where
  gpio_config : Call
  queue_create : ℕ → Call
  install_isr_service : Call
  isr_handler_add : Call
  create_decoder_task : Call
  create_stats_task : Call

-- The thresholds for DEFAULT_DOT_US, of the tolerance that is its argument, and what is set up after
-- them; it looks at no answer.
unfoldable pub app_main : (F : Double) → F.Val → Config × List Call
app_main F tolerance = (
  configure_timing F 10000 tolerance,
  gpio_config
      ∷ queue_create queue_size
      ∷ install_isr_service
      ∷ isr_handler_add
      ∷ create_decoder_task
      ∷ create_stats_task
      ∷ [],
)

pub data Stat : Type 0 where
  wait_ms : ℕ → Stat
  -- the microseconds since the start
  runtime : ℕ → Stat

-- A round for each time that the clock gives.
unfoldable pub stats_rounds : ℕ → List ℕ → List Stat
stats_rounds start_time [] = []
stats_rounds start_time (now ∷ times) =
    wait_ms 10000 ∷ runtime (now - start_time) ∷ stats_rounds start_time times

unfoldable pub stats_task : ℕ → List ℕ → List Stat
stats_task start_time times = wait_ms 5000 ∷ stats_rounds start_time times
