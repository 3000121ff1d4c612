-- ===== src/Panel/Quiet/Search.antt =====
-- The search for a sensor and the readings of what it finds leave the display as it is.
use cse.Base.{ℕ, zero, suc, ◌+◌, Bool, true, false, Option, none, some, ◌≡◌, if◌then◌else◌, arith}
use cse.Shtc3.Sensor.{Float}
use cse.Panel.I2c.{Driver, Io, or_error, pure, ◌>>=◌, delay_ms, i2c_probe}
use cse.Panel.Sensors.{
  shtc3_measure, sht3x_measure, aht20_measure, si7021_measure, tca_select, addr_shtc3, addr_sht3x_1,
  addr_sht3x_2, addr_aht20, addr_si7021,
}
use cse.Panel.Detect.{
  SensorKind, no_kind, shtc3_direct, sht3x, aht20, si7021, Sensor, site, or_first, or_else, measure,
  found, try_direct, or_probe, try_sht3x, try_aht20, try_si7021, try_all, try_channel, try_channels,
  detect_from, detect_sensor, select, read_sensor,
}
use cse.Panel.Found.{kind_at}
use cse.Panel.Display.{Display, Kept-pure, Kept-or_none, Kept-delay}
use cse.Panel.Quiet.{
  Away, Still, then_still, Kept-i2c_probe, Kept-i2c_write_bytes, Kept-shtc3_measure,
  Kept-sht3x_measure, Kept-aht20_init, Kept-aht20_measure, Kept-si7021_measure, addr_shtc3-Away,
  addr_si7021-Away,
}

addr_sht3x_1-Away : Away addr_sht3x_1
addr_sht3x_1-Away = (omega arith, omega arith)

addr_sht3x_2-Away : Away addr_sht3x_2
addr_sht3x_2-Away = (omega arith, omega arith)

addr_aht20-Away : Away addr_aht20
addr_aht20-Away = (omega arith, omega arith)

sht3x-Away : (addr : ℕ) (ch : Option ℕ) → kind_at sht3x addr ch ≡ true → Away addr
unfolding kind_at
sht3x-Away addr ch h = (ground arith, ground arith)

aht20-Away : (addr : ℕ) (ch : Option ℕ) → kind_at aht20 addr ch ≡ true → Away addr
unfolding kind_at
aht20-Away addr ch h = (ground arith, ground arith)

module _ (float : Float) (d : Driver) (display : Display d) where
  Kept-measure :
      (kind : SensorKind) (addr : ℕ) (ch : Option ℕ)
      → kind_at kind addr ch ≡ true
      → Still float d display (measure float d kind addr)
  unfolding measure
  Kept-measure no_kind addr ch h = Kept-pure d display none
  Kept-measure shtc3_direct addr ch h = Kept-shtc3_measure float d display
  Kept-measure sht3x addr ch h = Kept-sht3x_measure float d display addr (sht3x-Away addr ch h)
  Kept-measure aht20 addr ch h = Kept-aht20_measure float d display addr (aht20-Away addr ch h)
  Kept-measure si7021 addr ch h = Kept-si7021_measure float d display

  Kept-tca_select : (ch : ℕ) → Still float d display (tca_select float d ch)
  unfolding tca_select
  Kept-tca_select ch =
      Kept-i2c_write_bytes float d display addr_shtc3 _ (addr_shtc3-Away float d display)

  Kept-or_error :
      (m : Io d.State Bool) (b : Bool)
      → Still float d display m
      → Still float d display (or_error m b)
  unfolding or_error
  Kept-or_error m true h = h
  Kept-or_error m false h = Kept-pure d display false

  Kept-select : (ch : Option ℕ) → Still float d display (select float d ch)
  unfolding select
  Kept-select none = Kept-pure d display true
  Kept-select (some ch) = then_still float d display _ _ (Kept-tca_select ch) λ selected.
      Kept-or_error _ selected (
        then_still float d display (delay_ms d 1) _ (Kept-delay d display 1)
          λ late. Kept-pure d display true)

  -- Whatever it answers, a reading of a sensor at an address of its kind leaves the screen as it is.
  pub Kept-read_sensor :
      (sensor : Sensor)
      → (kind_at (sensor.g_kind) (sensor.g_addr) (sensor.g_mux_channel) ≡ true)
      → Still float d display (read_sensor float d sensor)
  unfolding read_sensor
  Kept-read_sensor sensor h =
      then_still float d display _ _ (Kept-select (sensor.g_mux_channel)) λ selected.
        Kept-or_none d display selected _
          (Kept-measure (sensor.g_kind) (sensor.g_addr) (sensor.g_mux_channel) h)

  Kept-or_first :
      (first : Option Sensor) (next : Io d.State (Option Sensor))
      → Still float d display next
      → Still float d display (or_first first next)
  unfolding or_first
  Kept-or_first none next j = j
  Kept-or_first (some sensor) next j = Kept-pure d display (some sensor)

  Kept-or_else :
      (m next : Io d.State (Option Sensor))
      → Still float d display m
      → Still float d display next
      → Still float d display (or_else m next)
  Kept-or_else m next h j = then_still float d display m _ h λ first. Kept-or_first first next j

  Kept-found :
      {A : Type 0} (sensor : Sensor) (m : Io d.State (Option A))
      → Still float d display m
      → Still float d display (m >>= λ reading. pure (found sensor reading))
  Kept-found sensor m h =
      then_still float d display m _ h λ reading. Kept-pure d display (found sensor reading)

  probe_still : (addr : ℕ) → Away addr → Still float d display (i2c_probe d addr)
  probe_still = Kept-i2c_probe float d display

  Kept-or_probe :
      (b : Bool) (addr : ℕ) → Away addr → Still float d display (or_probe float d b addr)
  unfolding or_probe
  Kept-or_probe true addr h = Kept-pure d display true
  Kept-or_probe false addr h = probe_still addr h

  sht3x_at-Away : (again : Bool) → Away (if again then addr_sht3x_1 else addr_sht3x_2)
  sht3x_at-Away true = addr_sht3x_1-Away
  sht3x_at-Away false = addr_sht3x_2-Away

  Kept-try_sht3x : (ch : Option ℕ) → Still float d display (try_sht3x float d ch)
  unfolding try_sht3x
  Kept-try_sht3x ch =
      then_still float d display _ _ (probe_still addr_sht3x_1 addr_sht3x_1-Away) λ first.
        then_still float d display _ _ (Kept-or_probe first addr_sht3x_2 addr_sht3x_2-Away)
          λ present. Kept-or_none d display present _ (
            then_still float d display _ _ (probe_still addr_sht3x_1 addr_sht3x_1-Away) λ again.
              Kept-found (site sht3x (if again then addr_sht3x_1 else addr_sht3x_2) ch)
                (sht3x_measure float d (if again then addr_sht3x_1 else addr_sht3x_2))
                (Kept-sht3x_measure float d display _ (sht3x_at-Away again)))

  Kept-try_aht20 : (ch : Option ℕ) → Still float d display (try_aht20 float d ch)
  unfolding try_aht20
  Kept-try_aht20 ch =
      then_still float d display _ _ (probe_still addr_aht20 addr_aht20-Away) λ present.
        Kept-or_none d display present _ (
          then_still float d display _ _
            (Kept-aht20_init float d display addr_aht20 addr_aht20-Away)
            λ ready. Kept-or_none d display ready _ (
              Kept-found (site aht20 addr_aht20 ch) (aht20_measure float d addr_aht20)
                (Kept-aht20_measure float d display addr_aht20 addr_aht20-Away)))

  Kept-try_si7021 : (ch : Option ℕ) → Still float d display (try_si7021 float d ch)
  unfolding try_si7021
  Kept-try_si7021 ch =
      then_still float d display _ _ (probe_still addr_si7021 (addr_si7021-Away float d display))
        λ present. Kept-or_none d display present _ (
          Kept-found (site si7021 addr_si7021 ch) (si7021_measure float d)
            (Kept-si7021_measure float d display))

  Kept-try_all : (ch : Option ℕ) → Still float d display (try_all float d ch)
  unfolding try_all
  Kept-try_all ch =
      Kept-or_else _ _ (Kept-try_sht3x ch)
        (Kept-or_else _ _ (Kept-try_aht20 ch) (Kept-try_si7021 ch))

  Kept-try_channel : (ch : ℕ) → Still float d display (try_channel float d ch)
  unfolding try_channel
  Kept-try_channel ch = then_still float d display _ _ (Kept-tca_select ch) λ selected.
      Kept-or_none d display selected _ (
        then_still float d display (delay_ms d 2) _ (Kept-delay d display 2)
          λ late. Kept-try_all (some ch))

  Kept-try_channels : (left ch : ℕ) → Still float d display (try_channels float d left ch)
  unfolding try_channels
  Kept-try_channels zero ch = Kept-pure d display none
  Kept-try_channels (suc left) ch =
      Kept-or_else _ _ (Kept-try_channel ch) (Kept-try_channels left (ch + 1))

  Kept-detect_from : (answered : Bool) → Still float d display (detect_from float d answered)
  unfolding detect_from try_direct
  Kept-detect_from true =
      Kept-or_else _ _
        (Kept-found (site shtc3_direct addr_shtc3 none) (shtc3_measure float d)
          (Kept-shtc3_measure float d display))
        (Kept-try_channels 8 0)
  Kept-detect_from false = Kept-try_all none

  -- Whatever it finds, the search leaves the screen as it is.
  pub Kept-detect_sensor : Still float d display (detect_sensor float d)
  unfolding detect_sensor
  Kept-detect_sensor =
      then_still float d display _ _ (probe_still addr_shtc3 (addr_shtc3-Away float d display))
        Kept-detect_from
