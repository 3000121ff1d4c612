-- ===== src/Panel/Found.antt =====
-- What detect_sensor (lab3_3/main/main.cpp) has found.
use cse.Base.{
  ℕ, zero, suc, ◌+◌, ◌≤◌, ◌<◌, Bool, true, false, ◌&&◌, ◌||◌, Option, none, some, ltb, ◌==◌,
  if◌then◌else◌, ◌≡◌, refl, sym, ap, ◌∙◌, Option-cases, arith, lt→ltb, subst, inl, inr,
}
use cse.Shtc3.Sensor.{Float}
use cse.Panel.I2c.{Driver, Io, or_none, pure, ◌>>=◌, delay_ms, i2c_probe}
use cse.Panel.Sensors.{
  aht20_init, tca_select, addr_shtc3, addr_sht3x_1, addr_sht3x_2, addr_aht20, addr_si7021,
}
use cse.Panel.Detect.{
  SensorKind, no_kind, shtc3_direct, sht3x, aht20, si7021, Sensor, site, found, or_first, or_else,
  measure, try_direct, or_probe, try_sht3x, try_aht20, try_si7021, try_all, try_channel,
  try_channels, detect_from, detect_sensor,
}

abbrev on_channel : Option ℕ → Bool
on_channel none = true
on_channel (some ch) = ltb ch 8

abbrev on_root : Option ℕ → Bool
on_root none = true
on_root (some ch) = false

-- Whether a sensor of this kind answers at this address, on a channel of the switch or the root bus.
unfoldable pub kind_at : SensorKind → ℕ → Option ℕ → Bool
kind_at no_kind addr ch = false
kind_at shtc3_direct addr ch = (addr == addr_shtc3) && on_root ch
kind_at sht3x addr ch = ((addr == addr_sht3x_1) || (addr == addr_sht3x_2)) && on_channel ch
kind_at aht20 addr ch = (addr == addr_aht20) && on_channel ch
kind_at si7021 addr ch = (addr == addr_si7021) && on_channel ch

module _ (float : Float) (d : Driver) where
  -- The sensor answers at its address, and a measurement that succeeded has just left the state.
  unfoldable pub Measured : Sensor → d.State → Type 0
  Measured sensor s =
      (kind_at (sensor.g_kind) (sensor.g_addr) (sensor.g_mux_channel) ≡ true)
      × ((before : d.State) × (reading : float.F × float.F) × (measure float d (sensor.g_kind)
              (sensor.g_addr) before
            ≡ (some reading, s)))

  unfoldable pub Finds : Io d.State (Option Sensor) → Type 0
  Finds m = (s : d.State) (sensor : Sensor) → (m s).0 ≡ some sensor → Measured sensor (m s).1

  Finds-pure : Finds (pure none)
  unfolding Finds
  Finds-pure s sensor e = ground arith

  Finds-or_none : (b : Bool) (m : Io d.State (Option Sensor)) → Finds m → Finds (or_none b m)
  unfolding or_none
  Finds-or_none true m h = h
  Finds-or_none false m h = Finds-pure

  Finds-bind :
      {A : Type 0} (m : Io d.State A) (f : A → Io d.State (Option Sensor))
      → ((a : A) → Finds (f a))
      → Finds (m >>= f)
  unfolding Finds
  Finds-bind m f h s = h (m s).0 (m s).1

  Finds-or_else :
      (m next : Io d.State (Option Sensor)) → Finds m → Finds next → Finds (or_else m next)
  unfolding Finds or_first
  Finds-or_else m next h g s sensor = elim (Option-cases (m s).0) [
    | inl e ↦
        subst
          (λ first.
            (or_first first next (m s).1).0 ≡ some sensor
            → Measured sensor (or_first first next (m s).1).1)
          (sym e) (g (m s).1 sensor)
    | inr (one, e) ↦
        subst
          (λ first.
            (or_first first next (m s).1).0 ≡ some sensor
            → Measured sensor (or_first first next (m s).1).1)
          (sym e) (λ same. h s sensor (e ∙ same))
  ]

  abbrev sensor_or : Sensor → Option Sensor → Sensor
  sensor_or other none = other
  sensor_or other (some sensor) = sensor

  Finds-found :
      (kind : SensorKind) (addr : ℕ) (ch : Option ℕ)
      → kind_at kind addr ch ≡ true
      → Finds (measure float d kind addr >>= λ reading. pure (found (site kind addr ch) reading))
  unfolding Finds found Measured
  Finds-found kind addr ch fits s sensor h = elim (Option-cases (measure float d kind addr s).0) [
    | inl e ↦ ground arith
    | inr (reading, e) ↦
        subst (λ x. Measured x (measure float d kind addr s).1)
          (ap (sensor_or (site kind addr ch)) (sym (ap (found (site kind addr ch)) e) ∙ h))
          (fits, (s, reading, ap (λ o. (o, (measure float d kind addr s).1)) e))
  ]

  Finds-try_direct : Finds (try_direct float d)
  unfolding try_direct measure kind_at
  Finds-try_direct = Finds-found shtc3_direct addr_shtc3 none refl

  sht3x_at :
      (again : Bool) (ch : Option ℕ)
      → on_channel ch ≡ true
      → kind_at sht3x (if again then addr_sht3x_1 else addr_sht3x_2) ch ≡ true
  unfolding kind_at
  sht3x_at true ch h = h
  sht3x_at false ch h = h

  Finds-try_sht3x : (ch : Option ℕ) → on_channel ch ≡ true → Finds (try_sht3x float d ch)
  unfolding try_sht3x measure
  Finds-try_sht3x ch h = Finds-bind (i2c_probe d addr_sht3x_1) _ λ first.
      Finds-bind (or_probe float d first addr_sht3x_2) _ λ present. Finds-or_none present _ (
        Finds-bind (i2c_probe d addr_sht3x_1) _
          λ again. Finds-found sht3x _ ch (sht3x_at again ch h))

  Finds-try_aht20 : (ch : Option ℕ) → on_channel ch ≡ true → Finds (try_aht20 float d ch)
  unfolding try_aht20 measure kind_at
  Finds-try_aht20 ch h = Finds-bind (i2c_probe d addr_aht20) _ λ present. Finds-or_none present _ (
      Finds-bind (aht20_init float d addr_aht20) _
        λ ready. Finds-or_none ready _ (Finds-found aht20 addr_aht20 ch h))

  Finds-try_si7021 : (ch : Option ℕ) → on_channel ch ≡ true → Finds (try_si7021 float d ch)
  unfolding try_si7021 measure kind_at
  Finds-try_si7021 ch h =
      Finds-bind (i2c_probe d addr_si7021) _
        λ present. Finds-or_none present _ (Finds-found si7021 addr_si7021 ch h)

  Finds-try_all : (ch : Option ℕ) → on_channel ch ≡ true → Finds (try_all float d ch)
  unfolding try_all
  Finds-try_all ch h =
      Finds-or_else _ _ (Finds-try_sht3x ch h)
        (Finds-or_else _ _ (Finds-try_aht20 ch h) (Finds-try_si7021 ch h))

  Finds-try_channel : (ch : ℕ) → ch < 8 → Finds (try_channel float d ch)
  unfolding try_channel
  Finds-try_channel ch h = Finds-bind (tca_select float d ch) _ λ selected.
      Finds-or_none selected _
        (Finds-bind (delay_ms d 2) _ λ late. Finds-try_all (some ch) (lt→ltb h))

  Finds-try_channels : (left ch : ℕ) → left + ch ≤ 8 → Finds (try_channels float d left ch)
  unfolding try_channels
  Finds-try_channels zero ch h = Finds-pure
  Finds-try_channels (suc left) ch h =
      Finds-or_else _ _ (Finds-try_channel ch (omega arith))
        (Finds-try_channels left (ch + 1) (omega arith))

  Finds-detect_from : (answered : Bool) → Finds (detect_from float d answered)
  unfolding detect_from
  Finds-detect_from true = Finds-or_else _ _ Finds-try_direct (Finds-try_channels 8 0 (omega arith))
  Finds-detect_from false = Finds-try_all none refl

  -- Whatever the bus answers, a sensor that detect_sensor finds is at an address of its kind, an
  -- SHTC3 on the root bus and another on it or on a channel below 8; and the last thing it did is a
  -- measurement, as read_sensor makes it of that kind at that address, that gave a reading.
  pub detect_sensor-Measured :
      (s : d.State) (sensor : Sensor)
      → (detect_sensor float d s).0 ≡ some sensor
      → Measured sensor (detect_sensor float d s).1
  unfolding detect_sensor Finds
  detect_sensor-Measured =
      Finds-bind (i2c_probe d addr_shtc3) (detect_from float d) Finds-detect_from
