-- ===== src/Hid/Consumer.antt =====
-- The fields of a consumer report (hid_consumer_build_report in lab4_3/main/hid_dev.c).
use cse.Base.{
  ℕ, ◌+◌, ◌*◌, ◌/◌, ◌%◌, ◌<◌, ◌≡◌, refl, ap, ◌∙◌, true, ==→eq, every, every-below, arith, ◌==◌,
  if◌then◌else◌,
}
use cse.Base.{bit_and, bit_or, and_bits, or_bits}
use cse.Hid.Report.{
  set_channel, set_volume_up, set_volume_down, set_button, hid_consumer_build_report,
}

-- Bits 0 to 3, 4 and 5, and 6 and 7 of the first byte; the low and the high half of the second.
pub record Fields : Type 0 where
  pub numeric : ℕ
  pub channel : ℕ
  pub volume : ℕ
  pub button : ℕ
  pub selection : ℕ

abbrev pub fields : ℕ × ℕ → Fields
fields (b0, b1) = record {
  numeric = b0 % 16;
  channel = b0 / 16 % 4;
  volume = b0 / 64;
  button = b1 % 16;
  selection = b1 / 16;
}

-- The field that a command sets, by its usage identifier, and the value.
pub data Setting : Type 0 where
  to_channel : ℕ → Setting
  to_volume : ℕ → Setting
  to_button : ℕ → Setting
  to_nothing : Setting

-- Usages 176 to 183 are the buttons 5 to 12.
unfoldable pub setting_of : ℕ → Setting
setting_of cmd =
    if cmd == 156
    then to_channel 1
    else if cmd == 157
    then to_channel 3
    else if cmd == 233
    then to_volume 1
    else if cmd == 234
    then to_volume 2
    else if cmd == 226
    then to_button 1
    else if cmd == 48
    then to_button 2
    else if cmd == 131
    then to_button 3
    else if cmd == 129
    then to_button 4
    else if cmd / 8 == 22
    then to_button (5 + cmd % 8)
    else to_nothing

unfoldable pub apply_setting : Setting → Fields → Fields
apply_setting (to_channel n) f = record f { channel = n }
apply_setting (to_volume n) f = record f { volume = n }
apply_setting (to_button n) f = record f { button = n }
apply_setting to_nothing f = f

-- The four masks and what is put in, on all bytes.
channel_table :
    every
      (λ b.
        every (λ x. bit_or (bit_and b 0xCF) (bit_and x 3 * 16) == b % 16 + x * 16 + b / 64 * 64) 4)
      256
    ≡ true
unfolding every bit_or bit_and and_bits or_bits
channel_table = refl

volume_table :
    every (λ b. every (λ x. bit_or (bit_and b 0x3F) (x * 64) == b % 64 + x * 64) 4) 256 ≡ true
unfolding every bit_or bit_and and_bits or_bits
volume_table = refl

button_table : every (λ b. every (λ x. bit_or (bit_and b 0xF0) x == b / 16 * 16 + x) 16) 256 ≡ true
unfolding every bit_or bit_and and_bits or_bits
button_table = refl

in_table :
    (f g : ℕ → ℕ → ℕ) (n m b x : ℕ)
    → every (λ b. every (λ x. f b x == g b x) m) n ≡ true
    → b < n
    → x < m
    → f b x ≡ g b x
in_table f g n m b x table hb hx = ==→eq (f b x) (g b x) (
    every-below (λ x. f b x == g b x) m x hx
      (every-below (λ b. every (λ x. f b x == g b x) m) n b hb table))

-- What the setting does to the bytes.
put : Setting → ℕ × ℕ → ℕ × ℕ
put (to_channel n) buffer = set_channel buffer n
put (to_volume n) buffer = (bit_or (bit_and buffer.0 0x3F) (n * 64), buffer.1)
put (to_button n) buffer = set_button buffer n
put to_nothing buffer = buffer

-- The values that fit their fields.
Fitting : Setting → Type 0
Fitting (to_channel n) = n < 4
Fitting (to_volume n) = n < 4
Fitting (to_button n) = n < 16
Fitting to_nothing = Unit

setting_of-Fitting : (cmd : ℕ) → Fitting (setting_of cmd)
unfolding setting_of Fitting
setting_of-Fitting cmd = ground arith

build_put : (cmd b0 b1 : ℕ) → hid_consumer_build_report (b0, b1) cmd ≡ put (setting_of cmd) (b0, b1)
unfolding hid_consumer_build_report setting_of put set_volume_up set_volume_down
build_put cmd b0 b1 = ground arith

Fields-eq :
    (f g : Fields)
    → f.numeric ≡ g.numeric
    → f.channel ≡ g.channel
    → f.volume ≡ g.volume
    → f.button ≡ g.button
    → f.selection ≡ g.selection
    → f ≡ g
Fields-eq f g a b c d e =
    λ i. record { numeric = a i; channel = b i; volume = c i; button = d i; selection = e i }

put-fields :
    (s : Setting) (b0 b1 : ℕ)
    → b0 < 256
    → b1 < 256
    → Fitting s
    → fields (put s (b0, b1)) ≡ apply_setting s (fields (b0, b1))
unfolding put Fitting apply_setting set_channel set_button
put-fields (to_channel n) b0 b1 h0 h1 fit =
    let e =
      in_table (λ b x. bit_or (bit_and b 0xCF) (bit_and x 3 * 16))
        (λ b x. b % 16 + x * 16 + b / 64 * 64) 256 4 b0 n channel_table h0 fit in
    Fields-eq _ _ (omega (arith, e)) (omega (arith, e)) (omega (arith, e)) refl refl
put-fields (to_volume n) b0 b1 h0 h1 fit =
    let e =
      in_table (λ b x. bit_or (bit_and b 0x3F) (x * 64)) (λ b x. b % 64 + x * 64) 256 4 b0 n
        volume_table h0 fit in
    Fields-eq _ _ (omega (arith, e)) (omega (arith, e)) (omega (arith, e)) refl refl
put-fields (to_button n) b0 b1 h0 h1 fit =
    let e =
      in_table (λ b x. bit_or (bit_and b 0xF0) x) (λ b x. b / 16 * 16 + x) 256 16 b1 n button_table
        h1 fit in
    Fields-eq _ _ refl refl refl (omega (arith, e)) (omega (arith, e))
put-fields to_nothing b0 b1 h0 h1 fit = refl

-- On any two bytes, a command sets its own field of the consumer report and leaves the other four.
pub build_report-fields :
    (cmd b0 b1 : ℕ)
    → b0 < 256
    → b1 < 256
    → fields (hid_consumer_build_report (b0, b1) cmd)
      ≡ apply_setting (setting_of cmd) (fields (b0, b1))
build_report-fields cmd b0 b1 h0 h1 =
    ap fields (build_put cmd b0 b1)
    ∙ put-fields (setting_of cmd) b0 b1 h0 h1 (setting_of-Fitting cmd)
