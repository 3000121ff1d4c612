-- ===== src/Panel/Display.antt =====
-- The display of lab 3.3 on the bus: what the driver does where a display answers at 0x3E, and what
-- the calls of main.cpp and DFRobot_lcd.cpp then do to its screen.
use cse.Base.{ℕ, Bool, true, false, List, [], ◌∷◌, Option, none, ◌≡◌, ◌≢◌, refl, ap, ◌∙◌}
use cse.Panel.I2c.{
  Link, start_bit, write_byte, Driver, Io, or_none, pure, ◌>>=◌, is_some, delay_ms, queue_all,
  transact,
}
use cse.Panel.Lcd.{byte_links, data_links, probe_links, queue_each}
use cse.Panel.Screen.{Screen, command, write_cells}

-- The driver takes every item, the display obeys its commands and its data as Screen says, and
-- nothing else changes its screen.
pub record Display (d : Driver) : Type 0 where
  pub screen : d.State → Screen
  pub config_taken : (s : d.State) → (d.config s).0 ≡ true
  pub install_taken : (s : d.State) → (d.install s).0 ≡ true
  pub queue_taken : (link : Link) (s : d.State) → (d.queue link s).0 ≡ true
  pub queue_kept : (link : Link) (s : d.State) → screen (d.queue link s).1 ≡ screen s
  pub delay_kept : (ms : ℕ) (s : d.State) → screen (d.delay ms s) ≡ screen s
  pub probe_taken : (s : d.State) → is_some (d.run 50 (probe_links 0x3E) s).0 ≡ true
  pub probe_kept : (s : d.State) → screen (d.run 50 (probe_links 0x3E) s).1 ≡ screen s
  pub command_taken :
      (cmd : ℕ) (s : d.State) → is_some (d.run 100 (byte_links 0x3E 0x00 cmd) s).0 ≡ true
  pub command_obeyed :
      (cmd : ℕ) (s : d.State)
      → screen (d.run 100 (byte_links 0x3E 0x00 cmd) s).1 ≡ command cmd (screen s)
  pub data_obeyed :
      (bytes : List ℕ) (s : d.State)
      → screen (d.run 100 (data_links 0x3E bytes) s).1 ≡ write_cells bytes (screen s)
  pub other_kept :
      (ms dev : ℕ) (links : List Link) (s : d.State)
      → dev ≢ 0x7C
      → screen (d.run ms (start_bit ∷ write_byte dev ∷ links) s).1 ≡ screen s

abbrev pub Yes : Bool → Type 0
Yes b = b ≡ true

module _ (d : Driver) (display : Display d) where
  -- A computation whose result satisfies Q and that changes the screen by f.
  unfoldable pub Does : {A : Type 0} → (A → Type 0) → (Screen → Screen) → Io d.State A → Type 0
  Does Q f m = (s : d.State) → Q (m s).0 × (display.screen (m s).1 ≡ f (display.screen s))

  unfoldable pub Kept : {A : Type 0} → Io d.State A → Type 0
  Kept m = (s : d.State) → display.screen (m s).1 ≡ display.screen s

  pub Does-bind :
      {A B : Type 0} (Q : A → Type 0) (R : B → Type 0) (f g : Screen → Screen) (m : Io d.State A)
      (k : A → Io d.State B)
      → Does Q f m
      → ((a : A) → Q a → Does R g (k a))
      → Does R (λ x. g (f x)) (m >>= k)
  unfolding Does
  Does-bind Q R f g m k h j s =
      let rest = j (m s).0 (h s).0 (m s).1 in (rest.0, rest.1 ∙ ap g (h s).1)

  pub Kept-bind :
      {A B : Type 0} (m : Io d.State A) (k : A → Io d.State B)
      → Kept m
      → ((a : A) → Kept (k a))
      → Kept (m >>= k)
  unfolding Kept
  Kept-bind m k h j s = j (m s).0 (m s).1 ∙ h s

  pub Kept-pure : {A : Type 0} (a : A) → Kept (pure a)
  unfolding Kept
  Kept-pure a s = refl

  pub Kept-or_none :
      {A : Type 0} (b : Bool) (m : Io d.State (Option A)) → Kept m → Kept (or_none b m)
  unfolding or_none
  Kept-or_none true m h = h
  Kept-or_none false m h = Kept-pure none

  pub Kept-delay : (ms : ℕ) → Kept (delay_ms d ms)
  unfolding Kept
  Kept-delay = display.delay_kept

  queue_all-taken : (links : List Link) → Does Yes (λ x. x) (queue_all d links)
  unfolding Does queue_all
  queue_all-taken [] s = (refl, refl)
  queue_all-taken (link ∷ links) s =
      let rest = queue_all-taken links (d.queue link s).1 in
      rw (display.queue_taken link s) (rest.0, rest.1 ∙ display.queue_kept link s)

  pub queue_each-taken :
      (links : List Link) (s : d.State)
      → ((queue_each d links s).0 ≡ links)
        × (display.screen (queue_each d links s).1 ≡ display.screen s)
  unfolding queue_each
  queue_each-taken [] s = (refl, refl)
  queue_each-taken (link ∷ links) s =
      let rest = queue_each-taken links (d.queue link s).1 in
      rw (display.queue_taken link s)
        (ap (λ taken. link ∷ taken) rest.0, rest.1 ∙ display.queue_kept link s)

  pub Does-transact :
      (Q : Option (List ℕ) → Type 0) (f : Screen → Screen) (ms : ℕ) (links : List Link)
      → Does Q f (d.run ms links)
      → Does Q f (transact d ms links)
  unfolding Does transact
  Does-transact Q f ms links h s =
      let queued = queue_all-taken links s in
      rw (queued.0) (let ran = h (queue_all d links s).1 in (ran.0, ran.1 ∙ ap f queued.1))

  pub Kept-transact :
      (ms dev : ℕ) (links : List Link)
      → dev ≢ 0x7C
      → Kept (transact d ms (start_bit ∷ write_byte dev ∷ links))
  unfolding Kept Does
  Kept-transact ms dev links h s =
      (Does-transact (λ result. Unit {0}) (λ x. x) ms (start_bit ∷ write_byte dev ∷ links)
        (λ s'. (tt, display.other_kept ms dev links s' h)) s).1
