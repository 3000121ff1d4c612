-- ===== src/Panel/Detect.antt =====
-- The search for a sensor in lab3_3/main/main.cpp, and its readings.
use cse.Base.{ℕ, zero, suc, ◌+◌, Bool, true, false, Option, none, some, if◌then◌else◌}
use cse.Shtc3.Sensor.{Float}
use cse.Panel.I2c.{Driver, Io, or_none, or_error, pure, ◌>>=◌, ◌>>◌, delay_ms, i2c_probe}
use cse.Panel.Sensors.{
  Measure, shtc3_measure, sht3x_measure, aht20_init, aht20_measure, si7021_measure, tca_select,
  addr_shtc3, addr_sht3x_1, addr_sht3x_2, addr_aht20, addr_si7021,
}

pub data SensorKind : Type 0 where
  no_kind : SensorKind
  shtc3_direct : SensorKind
  sht3x : SensorKind
  aht20 : SensorKind
  si7021 : SensorKind

-- g_kind, g_addr and g_mux_channel, where none is -1.
pub record Sensor : Type 0 where
  pub g_kind : SensorKind
  pub g_addr : ℕ
  pub g_mux_channel : Option ℕ

abbrev pub site : SensorKind → ℕ → Option ℕ → Sensor
site kind addr ch = record { g_kind = kind; g_addr = addr; g_mux_channel = ch }

unfoldable pub no_sensor : Sensor
no_sensor = site no_kind 0 none

-- What is stored where a reading succeeds.
unfoldable pub found : {A : Type 0} → Sensor → Option A → Option Sensor
found sensor none = none
found sensor (some reading) = some sensor

unfoldable pub or_first : {S : Type 0} → Option Sensor → Io S (Option Sensor) → Io S (Option Sensor)
or_first none next = next
or_first (some sensor) next = pure (some sensor)

abbrev pub or_else :
    {S : Type 0} → Io S (Option Sensor) → Io S (Option Sensor) → Io S (Option Sensor)
or_else m next = m >>= λ result. or_first result next

module _ (float : Float) (d : Driver) where
  -- The switch of read_sensor.
  unfoldable pub measure : SensorKind → ℕ → Measure float d
  measure no_kind addr = pure none
  measure shtc3_direct addr = shtc3_measure float d
  measure sht3x addr = sht3x_measure float d addr
  measure aht20 addr = aht20_measure float d addr
  measure si7021 addr = si7021_measure float d

  abbrev pub Search : Type 0
  Search = Io d.State (Option Sensor)

  unfoldable pub try_direct : Search
  try_direct = do
    reading ← shtc3_measure float d
    pure (found (site shtc3_direct addr_shtc3 none) reading)

  unfoldable pub or_probe : Bool → ℕ → Io d.State Bool
  or_probe true addr = pure true
  or_probe false addr = i2c_probe d addr

  -- The three tests of the root bus, or of a channel.
  unfoldable pub try_sht3x : Option ℕ → Search
  try_sht3x ch = do
    first ← i2c_probe d addr_sht3x_1
    present ← or_probe first addr_sht3x_2
    or_none present do
      again ← i2c_probe d addr_sht3x_1
      let addr = if again then addr_sht3x_1 else addr_sht3x_2
      reading ← sht3x_measure float d addr
      pure (found (site sht3x addr ch) reading)

  unfoldable pub try_aht20 : Option ℕ → Search
  try_aht20 ch = do
    present ← i2c_probe d addr_aht20
    or_none present do
      ready ← aht20_init float d addr_aht20
      or_none ready do
        reading ← aht20_measure float d addr_aht20
        pure (found (site aht20 addr_aht20 ch) reading)

  unfoldable pub try_si7021 : Option ℕ → Search
  try_si7021 ch = do
    present ← i2c_probe d addr_si7021
    or_none present
        do reading ← si7021_measure float d; pure (found (site si7021 addr_si7021 ch) reading)

  unfoldable pub try_all : Option ℕ → Search
  try_all ch = or_else (try_sht3x ch) (or_else (try_aht20 ch) (try_si7021 ch))

  unfoldable pub try_channel : ℕ → Search
  try_channel ch = do
    selected ← tca_select float d ch
    or_none selected (do delay_ms d 2; try_all (some ch))

  -- The channels from ch on, of which this many are left.
  unfoldable pub try_channels : ℕ → ℕ → Search
  try_channels zero ch = pure none
  try_channels (suc left) ch = or_else (try_channel ch) (try_channels left (ch + 1))

  unfoldable pub detect_from : Bool → Search
  detect_from true = or_else try_direct (try_channels 8 0)
  detect_from false = try_all none

  -- The sensor that it stores where it returns true.
  unfoldable pub detect_sensor : Search
  detect_sensor = do answered ← i2c_probe d addr_shtc3; detect_from answered

  -- Selects the channel, if any.
  unfoldable pub select : Option ℕ → Io d.State Bool
  select none = pure true
  select (some ch) = do
    selected ← tca_select float d ch
    or_error (do delay_ms d 1; pure true) selected

  unfoldable pub read_sensor : Sensor → Measure float d
  read_sensor sensor = do
    selected ← select (sensor.g_mux_channel)
    or_none selected (measure (sensor.g_kind) (sensor.g_addr))
