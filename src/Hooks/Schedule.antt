-- ===== src/Hooks/Schedule.antt =====
-- hooks/src/commands/reap.ts: when the reaper runs.
pub mod Runs
use aocr.Prelude.{
  ℕ, suc, ◌+◌, ◌-◌, ◌<◌, ◌≡◌, Bool, true, false, List, [], ◌∷◌, Option, none, some, if◌then◌else◌,
}
use aocr.Text.{Str, codes, contains}
use aocr.Hooks.Patterns.{to_lower_case}
use aocr.Hooks.Reaper.Settings.{or_text}

-- REAPER_RUN_ONCE
unfoldable run_once : Option Str → Bool
unfolding contains
run_once value =
    contains (codes "1" ∷ codes "true" ∷ codes "yes" ∷ []) (to_lower_case (or_text value []))

-- `jobRunning`, the reaps in progress, and those that were started and skipped so far.
pub record Cron : Type 0 where
  pub job_running : Bool
  pub in_progress : ℕ
  pub started : ℕ
  pub skipped : ℕ

abbrev pub idle_cron : Cron
idle_cron = record { job_running = false; in_progress = 0; started = 0; skipped = 0 }

-- `onTick`, up to the `await`
unfoldable pub on_tick : Cron → Cron
on_tick c =
    if c.job_running
    then record c { skipped = suc c.skipped }
    else record c { job_running = true; in_progress = suc c.in_progress; started = suc c.started }

-- A reap ends, by its result or by an exception: `finally`.
unfoldable pub on_end : Cron → Cron
on_end c = record c { job_running = false; in_progress = c.in_progress - 1 }

-- The clock ticks at any time, and a reap in progress may end.
pub data Step : Cron → Cron → Type 0 where
  tick : (c d : Cron) → d ≡ on_tick c → Step c d
  end : (c d : Cron) → 0 < c.in_progress → d ≡ on_end c → Step c d

pub data Reach : Cron → Type 0 where
  start : (c : Cron) → c ≡ idle_cron → Reach c
  next : {c d : Cron} → Reach c → Step c d → Reach d
