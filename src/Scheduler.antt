-- ===== src/Scheduler.antt =====
-- internal/load/scheduler.go: the loop that releases request slots at a constant arrival rate. A
-- call of `emit` changes the world; the ticks that it was given are returned beside the result.
pub mod Pace
pub mod Count
pub mod Keeps
pub mod Tests
use tsa_bench.Base.{
  ℕ, zero, suc, ◌+◌, ◌^◌, ◌≡◌, Bool, true, false, not, ◌&&◌, Option, none, some, List, [], ◌∷◌, ℤ,
  pos, pos_part, quot, ◌+ℤ◌, ltb_ℤ, eqb_ℤ, if◌then◌else◌, Float64,
}
use tsa_bench.Clock.{Clock, sub_time}

pub record Tick : Type 0 where
  pub sequence : ℕ
  pub scheduled : ℤ
  pub actual : ℤ
  pub lag : ℤ

pub data RunError (E : Type 0) : Type 0 where
  bad_rate : RunError E
  no_clock : RunError E
  failed : E → RunError E

abbrev pub catch_up_factor : ℕ
catch_up_factor = 2

abbrev pub second : ℕ
second = 10 ^ 9

pub record Released (W E : Type 0) : Type 0 where
  pub error : Option (RunError E)
  pub ticks : List Tick
  pub world : W

-- One round of the loop: it returns before `emit`, or after `emit`, with its result.
pub data Round (W E : Type 0) : Type 0 where
  stopped : E → W → Round W E
  emitted : Tick → Option E → W → Round W E

module _ (float : Float64) where
  open float use {F, of_int, mul, div, le_F, trunc}

  pub record Scheduler (W E : Type 0) : Type 0 where
    pub rate : F
    pub clock : Option (Clock W E)
    pub lag_threshold : ℤ

  pub interval : F → ℤ
  interval rate = trunc (div (of_int (pos second)) rate)

  -- The time at which slot `i` is due.
  pub slot : F → ℤ → ℕ → ℤ
  unfolding ◌+ℤ◌
  slot rate start i = start +ℤ trunc (div (mul (of_int (pos i)) (of_int (pos second))) rate)

  pub min_gap : F → ℤ
  unfolding interval quot
  min_gap rate = quot (interval rate) catch_up_factor

  -- The later of the slot and the floor above the last release; 0 stands for no release.
  pub deadline : ℤ → ℤ → ℤ → ℤ
  unfolding ◌+ℤ◌
  deadline gap last scheduled =
      if not (eqb_ℤ last (pos 0)) && ltb_ℤ scheduled (last +ℤ gap) then last +ℤ gap else scheduled

  pub tick_at : ℕ → ℤ → ℤ → Tick
  unfolding sub_time
  tick_at i scheduled actual =
      let behind = sub_time actual scheduled in
      record {
        sequence = i + 1;
        scheduled = scheduled;
        actual = actual;
        lag = if ltb_ℤ behind (pos 0) then pos 0 else behind;
      }

  module _ {W E : Type 0} (clock : Clock W E) (emit : Tick → W → Option E × W) where
    pub wait : ℤ → W → Option E × W
    wait d w =
        let (now, w') = clock.now w in if ltb_ℤ now d then clock.sleep_until d w' else (none, w')

    pub release : ℕ → ℤ → W → Round W E
    unfolding tick_at
    release i scheduled w =
        let (actual, w') = clock.now w in
        let tick = tick_at i scheduled actual in let (e, w'') = emit tick w' in emitted tick e w''

    pub round : F → ℤ → ℕ → ℤ → W → Round W E
    unfolding slot deadline min_gap wait release
    round rate start i last w =
        let scheduled = slot rate start i in
        elim (clock.err w) [
          | some e ↦ stopped e w
          | none ↦
              let (e, w') = wait (deadline (min_gap rate) last scheduled) w in
              elim e [ some e ↦ stopped e w' | none ↦ release i scheduled w' ]
        ]

    -- The rounds that are left, from slot `i`.
    pub rounds : F → ℤ → ℕ → ℕ → ℤ → W → Released W E
    unfolding round
    rounds rate start zero i last w = record { error = none; ticks = []; world = w }
    rounds rate start (suc n) i last w = elim (round rate start i last w) [
      | stopped e w' ↦ record { error = some (failed e); ticks = []; world = w' }
      | emitted t (some e) w' ↦ record { error = some (failed e); ticks = t ∷ []; world = w' }
      | emitted t none w' ↦
          let rest = rounds rate start n (i + 1) t.actual w' in
          record rest { ticks = t ∷ rest.ticks }
    ]

  -- `Scheduler.Run`; a count below 1 releases nothing.
  unfoldable pub run :
      {W E : Type 0} → Scheduler W E → ℤ → ℤ → (Tick → W → Option E × W) → W → Released W E
  unfolding rounds
  run s start count emit w =
      if le_F s.rate (of_int (pos 0))
      then record { error = some bad_rate; ticks = []; world = w }
      else elim s.clock [
        | none ↦ record { error = some no_clock; ticks = []; world = w }
        | some c ↦ rounds c emit s.rate start (pos_part count) 0 (pos 0) w
      ]
