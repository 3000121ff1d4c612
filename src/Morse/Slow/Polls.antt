-- ===== src/Morse/Slow/Polls.antt =====
-- What the receiver of lab5_2/main/lab5_2.c keeps from poll to poll.
use cse.Base.{
  ℕ, ◌<◌, ◌≡◌, Bool, true, false, ◌&&◌, List, [], ◌∷◌, ◌++◌, codes, ltb, ltb_ℤ, int_diff,
  if◌then◌else◌, length, take, All, pos, arith, foldl, Bool-cases, inl, inr,
}
use cse.Morse.Pattern.{
  buffer_size, Stored, set-Stored, reset-Stored, in_bounds-Stored, empty-Stored,
}
use cse.Morse.Slow.Receiver.{
  Receiver, Sample, print_letter, check_timeout, gap_ends, light_on, push, pulse_ends, light_off,
  detect, poll, start,
}

abbrev pub Holds : Receiver → List ℕ → Type 0
Holds s p = Stored s.morse_buffer s.morse_idx p

record Inv (s : Receiver) : Type 0 where
  pattern : List ℕ
  holds : Holds s pattern

if-Inv : (b : Bool) (x y : Receiver) → Inv x → Inv y → Inv (if b then x else y)
if-Inv true x y vx vy = vx
if-Inv false x y vx vy = vy

push-Inv : (c : ℕ) (s : Receiver) → 0 < c → Inv s → Inv (push c s)
unfolding push
push-Inv c s pc v = elim (Bool-cases (ltb s.morse_idx 9)) [
  | inl room ↦ rw room (record {
    pattern = v.pattern ++ (c ∷ []);
    holds =
        set-Stored s.morse_buffer s.morse_idx v.pattern v.holds c pc
          (ground (arith, v.holds.count));
  })
  | inr full ↦ rw full v
]

print_letter-Inv : (behind : List ℕ) (s : Receiver) → Inv s → Inv (print_letter behind s)
unfolding print_letter
print_letter-Inv behind s v = record {
  pattern = [];
  holds = reset-Stored s.morse_buffer s.morse_idx v.pattern v.holds;
}

check_timeout-Inv : (t : ℕ) (s : Receiver) → Inv s → Inv (check_timeout t s)
unfolding check_timeout
check_timeout-Inv t s v =
    if-Inv _ _ _
      (if-Inv _ _ _
        (let printed = print_letter-Inv (codes "\n") s v in
          record { pattern = printed.pattern; holds = printed.holds })
        v)
      v

gap_ends-Inv : (t : ℕ) (s : Receiver) → Inv s → Inv (gap_ends t s)
unfolding gap_ends
gap_ends-Inv t s v =
    if-Inv (ltb_ℤ (pos 600) (int_diff t s.gap_start_time) && ltb 0 s.morse_idx) _ _
      (print_letter-Inv (codes " ") s v)
      (if-Inv (ltb_ℤ (pos 250) (int_diff t s.gap_start_time) && ltb 0 s.morse_idx) _ _
        (print_letter-Inv [] s v) v)

light_on-Inv : (t : ℕ) (s : Receiver) → Inv s → Inv (light_on t s)
unfolding light_on
light_on-Inv t s v = if-Inv _ _ _ (gap_ends-Inv t _ lit) lit
  where
    lit : Inv (record s { light_on = true; light_start_time = t; last_activity_time = t })
    lit = record { pattern = v.pattern; holds = v.holds }

light_off-Inv : (t : ℕ) (s : Receiver) → Inv s → Inv (light_off t s)
unfolding light_off pulse_ends
light_off-Inv t s v =
    if-Inv _ _ _ (push-Inv b'-' _ (omega arith) dark)
      (if-Inv _ _ _ (push-Inv b'.' _ (omega arith) dark) dark)
  where
    dark : Inv (record s { light_on = false; gap_start_time = t; last_activity_time = t })
    dark = record { pattern = v.pattern; holds = v.holds }

poll-Inv : (s : Receiver) (sample : Sample) → Inv s → Inv (poll s sample)
unfolding poll detect
poll-Inv s sample v =
    let checked = check_timeout-Inv sample.current_time s v in
    if-Inv _ _ _ (light_on-Inv _ _ checked) (if-Inv _ _ _ (light_off-Inv _ _ checked) checked)

polls-Inv : (samples : List Sample) (s : Receiver) → Inv s → Inv (foldl poll s samples)
polls-Inv [] s v = v
polls-Inv (x ∷ samples) s v = polls-Inv samples (poll s x) (poll-Inv s x v)

-- Whatever the photodiode and the clock give, the next write to morse_buffer, of a symbol or of
-- the terminating zero, is in bounds, and the pattern before it has no zero byte.
pub polls-IsSafe :
    (bytes : List ℕ) (samples : List Sample)
    → length bytes ≡ buffer_size
    → let s = foldl poll (start bytes) samples in
      (s.morse_idx < length s.morse_buffer) × All (λ c. 0 < c) (take s.morse_idx s.morse_buffer)
polls-IsSafe bytes samples size =
    let v =
      polls-Inv samples (start bytes)
        (record { pattern = []; holds = unfold start in empty-Stored bytes size }) in
    in_bounds-Stored (foldl poll (start bytes) samples).morse_buffer
      (foldl poll (start bytes) samples).morse_idx v.pattern v.holds
