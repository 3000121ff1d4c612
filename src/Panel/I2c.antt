-- ===== src/Panel/I2c.antt =====
-- The I2C helpers of lab3_3/main/main.cpp, and what they ask of the driver, which is a parameter: it
-- takes the items of a transaction one by one, and then runs them. An error code is a Bool, true for
-- ESP_OK.
use cse.Base.{
  ℕ, ◌+◌, ◌-◌, ◌*◌, ◌%◌, Bool, true, false, List, [], ◌∷◌, ◌++◌, Option, none, some, ltb, ◌==◌,
  if◌then◌else◌, length,
}

-- The items of a transaction; the read ones end with an acknowledgement, or without one.
pub data Link : Type 0 where
  start_bit : Link
  write_byte : ℕ → Link
  write_bytes : List ℕ → Link
  read_acked : ℕ → Link
  read_last : Link
  stop_bit : Link

-- The driver: whether i2c_param_config and i2c_driver_install succeed, whether it takes an item, what a transaction reads within some milliseconds or none
-- where it fails, and what a delay in milliseconds does.
pub record Driver : Type 1 where
  pub State : Type 0
  pub config : State → Bool × State
  pub install : State → Bool × State
  pub queue : Link → State → Bool × State
  pub run : ℕ → List Link → State → Option (List ℕ) × State
  pub delay : ℕ → State → State

abbrev pub Io : Type 0 → Type 0 → Type 0
Io S A = S → A × S

abbrev pub pure : {S A : Type 0} → A → Io S A
pure a s = (a, s)

infixl 5 ◌>>=◌ ◌>>◌
abbrev pub ◌>>=◌ : {S A B : Type 0} → Io S A → (A → Io S B) → Io S B
◌>>=◌ m f s = let (a, s') = m s in f a s'

abbrev pub ◌>>◌ : {S B : Type 0} → Io S (Unit {0}) → Io S B → Io S B
m >> k = m >>= λ _. k

-- Returning none, or the error, where a call failed.
unfoldable pub or_none : {S A : Type 0} → Bool → Io S (Option A) → Io S (Option A)
or_none true m = m
or_none false m = pure none

unfoldable pub or_error : {S : Type 0} → Io S Bool → Bool → Io S Bool
or_error m true = m
or_error m false = pure false

abbrev pub is_some : Option (List ℕ) → Bool
is_some none = false
is_some (some bytes) = true

module _ (d : Driver) where
  abbrev pub delay_ms : ℕ → Io d.State (Unit {0})
  delay_ms ms s = (tt, d.delay ms s)

  -- The items up to the first that is not taken, and whether none is.
  unfoldable pub queue_all : List Link → Io d.State Bool
  queue_all [] s = (true, s)
  queue_all (link ∷ links) s =
      let (ok, s') = d.queue link s in
      let rest = queue_all links s' in if ok then rest else (false, s')

  unfoldable pub transact : ℕ → List Link → Io d.State (Option (List ℕ))
  transact ms links s =
      let (ok, s') = queue_all links s in if ok then d.run ms links s' else (none, s')

  unfoldable pub i2c_probe : ℕ → Io d.State Bool
  i2c_probe addr7 = do
    result ← transact 50 (start_bit ∷ write_byte (addr7 * 2 % 256) ∷ stop_bit ∷ [])
    pure (is_some result)

  unfoldable pub i2c_write_bytes : ℕ → List ℕ → Io d.State Bool
  i2c_write_bytes addr7 bytes = do
    result ← transact 100 (
        start_bit
        ∷ write_byte (addr7 * 2 % 256)
        ∷ ((if length bytes == 0 then [] else write_bytes bytes ∷ []) ++ (stop_bit ∷ [])))
    pure (is_some result)

  -- The bytes where it succeeds.
  unfoldable pub i2c_read_bytes : ℕ → ℕ → Io d.State (Option (List ℕ))
  i2c_read_bytes addr7 n =
      if n == 0
      then pure (some [])
      else transact 100 (
          start_bit
          ∷ write_byte ((addr7 * 2 + 1) % 256)
          ∷ ((if ltb 1 n then read_acked (n - 1) ∷ [] else []) ++ (read_last ∷ stop_bit ∷ [])))
