-- ===== src/Hooks/Schedule/Runs.antt =====
-- At most one reap runs, and none is left out for long.
use aocr.Prelude.{◌↔◌, inl, inr, Bool-cases, ◌∙◌, suc, ◌≡◌, refl, sym, subst, arith, if◌then◌else◌}
use aocr.Hooks.Schedule.{Cron, on_tick, on_end, Step, tick, end, Reach, start, next}

-- The flag tells whether a reap is in progress, and there is one at most.
abbrev pub IsExclusive : Cron → Type 0
IsExclusive c = c.in_progress ≡ (if c.job_running then 1 else 0)

Step-IsExclusive : {c d : Cron} → Step c d → IsExclusive c → IsExclusive d
unfolding on_tick on_end
Step-IsExclusive (tick c d e) h = subst IsExclusive (sym e) (ground (arith, h))
Step-IsExclusive (end c d some_run e) h = subst IsExclusive (sym e) (ground (arith, h, some_run))

-- However ticks and ends follow one another, at most one reap is in progress, and the flag says which.
pub Reach-IsExclusive : {c : Cron} → Reach c → IsExclusive c
Reach-IsExclusive (start c e) = subst IsExclusive (sym e) refl
Reach-IsExclusive (next r s) = Step-IsExclusive s (Reach-IsExclusive r)

-- In any state that is reached, a tick is skipped exactly when a reap is in progress and starts one
-- exactly when none is, so that one is in progress after it; and once a reap ends the next tick starts
-- another.
pub Reach-on_tick :
    (c : Cron)
    → Reach c
    → (((on_tick c).skipped ≡ suc c.skipped) ↔ (c.in_progress ≡ 1))
      × (((on_tick c).started ≡ suc c.started) ↔ (c.in_progress ≡ 0))
      × ((on_tick c).in_progress ≡ 1)
      × ((on_tick (on_end c)).started ≡ suc c.started)
      × ((on_tick (on_end c)).in_progress ≡ 1)
unfolding on_tick on_end
Reach-on_tick c r =
    let h = Reach-IsExclusive r in
    elim (Bool-cases c.job_running) [
      | inl e ↦
          let one : c.in_progress ≡ 1 = h ∙ rw e refl in
          rw e (
            (λ x. one, λ x. refl),
            (λ x. absurd (omega arith), λ x. absurd (omega arith)),
            one,
            refl,
            omega arith,
          )
      | inr e ↦
          let none_runs : c.in_progress ≡ 0 = h ∙ rw e refl in
          rw e (
            (λ x. absurd (omega arith), λ x. absurd (omega arith)),
            (λ x. none_runs, λ x. refl),
            omega arith,
            refl,
            omega arith,
          )
    ]
