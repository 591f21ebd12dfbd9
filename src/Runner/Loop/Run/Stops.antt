-- ===== src/Runner/Loop/Run/Stops.antt =====
-- What is sent of a run once it has stopped.
use tsa_bench.Base.{ℕ, ◌+◌, ◌≡◌, refl, true, Option, none, List, ℤ, Float64}
use tsa_bench.Quota.{Quota}
use tsa_bench.Breaker.{Breaker}
use tsa_bench.Profile.{Stage}
use tsa_bench.Runner.{Env, Config}
use tsa_bench.Runner.Loop.{State}
use tsa_bench.Runner.Loop.Due.{held_count}
use tsa_bench.Runner.Loop.Moves.{Moves, rests, Moves-Keeps, reached}
use tsa_bench.Runner.Loop.Stopped.{Stopping, Stopping-Keeps, Frozen, Frozen-Keeps}
use tsa_bench.Runner.Loop.Run.{run}
use tsa_bench.Runner.Loop.Run.Books.{begin}
use tsa_bench.Runner.Loop.Run.Keeps.{run-Keeps}

module _ (float : Float64) {W : Type 0} (env : Env W) (cfg : Config) where
  -- A run is a sequence of moves of the issuing goroutine and of its workers, in which `Acquire` is one
  -- move. From any point of it at which the run is stopped, for any reason, it stays stopped, no further
  -- unit is taken, and the only further request is that of the unit that was in hand, if one was: the
  -- requests sent by any later point and the unit still in hand there make up those sent and in hand
  -- at that point.
  pub stopped_sends_held :
      (q : Quota) (b : Option (Breaker float)) (z : ℤ) (w : W) (stages : List (Stage float))
      {k k' : ℕ} {m m' : Option ℕ} {s t : State float env cfg}
      → Moves float env cfg 0 none (begin float env cfg q b z w) k m s
      → s.stopped ≡ true
      → Moves float env cfg k m s k' m' t
      → Moves float env cfg 0 none
          (begin float env cfg q b z w)
          0
          none
          (run float env cfg stages (begin float env cfg q b z w)).1
        × (t.stopped ≡ true)
        × (t.quota.used ≡ s.quota.used)
        × (t.collector.overall.sent + held_count m' ≡ s.collector.overall.sent + held_count m)
  stopped_sends_held q b z w stages {k} {k'} {m} {m'} {s} {t} before h after =
      let s0 = begin float env cfg q b z w in
      let closed : Stopping float env cfg k m s =
        reached float env cfg 0 none s0 (Stopping-Keeps float env cfg) (λ e. cc) before in
      let u = s.quota.used in
      let v = s.collector.overall.sent + held_count m in
      let start : Frozen float env cfg u v k m s = record {
        flags = (h, closed h);
        used = refl;
        sent = refl;
      } in
      let frozen : Frozen float env cfg u v k' m' t =
        reached float env cfg k m s (Frozen-Keeps float env cfg u v) start after in
      (
        run-Keeps float env cfg (Moves-Keeps float env cfg 0 none s0) stages s0 rests,
        frozen.flags.0,
        frozen.used,
        frozen.sent,
      )
