-- ===== src/Hooks/Reaper/Pulled.antt =====
-- A pull keeps an image from the reaper.
use aocr.Prelude.{
  ℕ, ◌+◌, ◌*◌, ◌≤◌, ◌<◌, ◌≡◌, inl, inr, true, false, some, arith, leb, All, All-imp, Bool-cases,
  leb→le,
}
use aocr.Text.{Str, str_eq}
use aocr.Hooks.Provenance.{InferredProvenance, inferred_provenance}
use aocr.Hooks.Database.{Image, one_hour, is_under}
use aocr.Hooks.Events.{Moment, State, pull_event}
use aocr.Hooks.Events.Effects.{Refreshed, pull_event-Refreshed}
use aocr.Hooks.Reaper.Selection.{Query, is_expired_idle, clock_of, idle_for}

clock_Refreshed :
    (q : Query) (now : ℕ) (i : Image) → Refreshed now i → now ≤ clock_of q i + one_hour
clock_Refreshed q now i (t, e, h) = ground (arith, e, h)

not_idle :
    (q : Query) (now seconds : ℕ) (i : Image)
    → Refreshed now i
    → i.retention_value_seconds ≡ some seconds
    → q.now + one_hour < now + seconds * 1000
    → is_expired_idle q i ≡ false
unfolding is_expired_idle
not_idle q now seconds i fresh e before = elim (Bool-cases (is_expired_idle q i)) [
  | inr f ↦ f
  | inl f ↦
      let used = clock_Refreshed q now i fresh in
      let passed : idle_for q i i.retention_value_seconds ≡ true = ground (arith, f) in
      let b : leb (clock_of q i + seconds * 1000) q.now ≡ true = cc (e, passed) in
      absurd (omega (arith, used, before, leb→le (clock_of q i + seconds * 1000) q.now b))
]

-- After a pull that Postgres carries out, an image of the path and tag that asks to be kept while it
-- is used is not idle until an hour before its seconds have passed since the pull.
pub pull_event-is_expired_idle :
    (at : Moment) (image tag : Str) (st : State) (parsed : InferredProvenance) (q : Query)
    (seconds : ℕ)
    → inferred_provenance (some image) ≡ some parsed
    → at.postgres_up ≡ true
    → q.now + one_hour < at.now + seconds * 1000
    → All
        (λ i.
          is_under st.db.repositories parsed.organization parsed.name i ≡ true
          → str_eq i.tag tag ≡ true
          → i.retention_value_seconds ≡ some seconds
          → is_expired_idle q i ≡ false)
        (pull_event at image tag st).db.images
pull_event-is_expired_idle at image tag st parsed q seconds path up before =
    All-imp (λ i fresh under tagged e. not_idle q at.now seconds i (fresh under tagged) e before) _
      (pull_event-Refreshed at image tag st parsed path up)
