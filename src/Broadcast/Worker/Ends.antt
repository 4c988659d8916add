-- ===== src/Broadcast/Worker/Ends.antt =====
-- The loop of `run_broadcast` (src/functions/broadcast_worker.py) against what its recipients may
-- still take.
use vakant.Prelude.{
  ℕ, zero, suc, ◌+◌, ◌≡◌, ◌≢◌, ◌≤◌, ◌<◌, refl, arith, length, length-append, sym, ◌∙◌,
}
use vakant.Broadcast.{Queue}
use vakant.Broadcast.Batch.Budget.{budget}
use vakant.Broadcast.Worker.{
  Weather, Verdict, go_on, returned, failed_write, stopped, Step, run_batch, batch_size, then_run,
  run_broadcast,
}
use vakant.Broadcast.Worker.Spends.{Spends, Rests, run_batch-Spends, run_batch-Rests}

-- A run goes on when its first round does and the later ones do.
then_run-verdict :
    (v : Verdict) (s later : Step)
    → s.verdict ≡ v
    → (then_run v s later).verdict ≡ go_on
    → (s.verdict ≡ go_on) × (later.verdict ≡ go_on)
then_run-verdict go_on s later e h = (e, h)
then_run-verdict returned s later e h = absurd (clash (sym e ∙ h))
  where
    clash : returned ≡ go_on → ⊥
    clash p = cc
then_run-verdict failed_write s later e h = absurd (clash (sym e ∙ h))
  where
    clash : failed_write ≡ go_on → ⊥
    clash p = cc
then_run-verdict stopped s later e h = absurd (clash (sym e ∙ h))
  where
    clash : stopped ≡ go_on → ⊥
    clash p = cc

then_run-Spends :
    (v : Verdict) (s later : Step) (before : ℕ)
    → s.verdict ≡ v
    → (then_run v s later).verdict ≡ returned
    → (s.verdict ≡ go_on → Spends s before)
    → (s.verdict ≡ returned → Rests s before)
    → (later.verdict ≡ returned
        → budget later.queue.targets + length later.sends ≤ budget s.queue.targets)
    → budget (then_run v s later).queue.targets + length (then_run v s later).sends ≤ before
then_run-Spends go_on s later before e h spends rests after =
    let (first, used) = spends e in omega (arith, used, after h, length-append s.sends later.sends)
then_run-Spends returned s later before e h spends rests after =
    let (silent, same) = rests e in omega (arith, silent, same)
then_run-Spends failed_write s later before e h spends rests after = absurd (clash (sym e ∙ h))
  where
    clash : failed_write ≡ returned → ⊥
    clash p = cc
then_run-Spends stopped s later before e h spends rests after = absurd (clash (sym e ∙ h))
  where
    clash : stopped ≡ returned → ⊥
    clash p = cc

-- With more rounds than the sends that its recipients may still take, the loop ends by itself.
pub run_broadcast_ends :
    (fuel : ℕ) (weather : ℕ → Weather) (b : ℕ) (q : Queue)
    → budget q.targets < fuel
    → (run_broadcast fuel weather b q).verdict ≢ go_on
unfolding run_broadcast
run_broadcast_ends zero weather b q enough h = absurd (no_fuel (budget q.targets) enough)
  where
    no_fuel : (n : ℕ) → n < 0 → ⊥
    no_fuel n e = omega (arith, e)
run_broadcast_ends (suc fuel) weather b q enough h =
    let s = run_batch (weather fuel) b batch_size q in
    let first = then_run-verdict s.verdict s (run_broadcast fuel weather b s.queue) refl h in
    let (sends, used) = run_batch-Spends (weather fuel) b batch_size q first.0 in
    run_broadcast_ends fuel weather b s.queue (omega (arith, sends, used, enough)) first.1

-- The loop that returned has used up what it sent.
pub run_broadcast-returned :
    (fuel : ℕ) (weather : ℕ → Weather) (b : ℕ) (q : Queue)
    → (run_broadcast fuel weather b q).verdict ≡ returned
    → budget (run_broadcast fuel weather b q).queue.targets
        + length (run_broadcast fuel weather b q).sends
      ≤ budget q.targets
unfolding run_broadcast
run_broadcast-returned zero weather b q h = cc
run_broadcast-returned (suc fuel) weather b q h =
    let s = run_batch (weather fuel) b batch_size q in
    then_run-Spends s.verdict s (run_broadcast fuel weather b s.queue) (budget q.targets) refl h
      (run_batch-Spends (weather fuel) b batch_size q)
      (run_batch-Rests (weather fuel) b batch_size q)
      (run_broadcast-returned fuel weather b s.queue)
