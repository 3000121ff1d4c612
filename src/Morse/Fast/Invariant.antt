-- ===== src/Morse/Fast/Invariant.antt =====
-- What holds of the decoder between two edges, whatever the edges are.
use cse.Base.{
  ℕ, ◌+◌, ◌<◌, ◌≡◌, refl, sym, Bool, true, false, List, [], ◌∷◌, ◌++◌, ltb, length, take, All,
  arith, subst, ℤ, ◌==◌, if◌then◌else◌, foldl, inl, inr, Bool-cases,
}
use cse.Morse.Pattern.{buffer_size, empty-Stored}
use cse.Morse.Fast.Receiver.{
  Config, Decoder, EdgeEvent, gap_ends, rising, pulse_ends, falling, decode_edge, push, start,
}
use cse.Morse.Fast.Buffer.{
  Holds, push-Holds, push-full, Ended, word_boundary-Ended, letter_boundary-Ended,
}

-- The buffer is indexed in bounds, with room for the terminating zero and no zero byte in the
-- pattern, and every printed character is counted once.
pub record Inv (s : Decoder) : Type 0 where
  pub pattern : List ℕ
  pub holds : Holds s pattern
  pub counted : s.total_chars ≡ s.correct_chars + s.error_chars

push-Inv : (s : Decoder) (c : ℕ) → 0 < c → Inv s → Inv (push c s)
unfolding push
push-Inv s c pc v = elim (Bool-cases (ltb (length v.pattern) 9)) [
  | inl room ↦ record {
    pattern = v.pattern ++ (c ∷ []);
    holds = push-Holds s v.pattern c v.holds pc (ground arith);
    counted = ground (arith, v.counted);
  }
  | inr full ↦ subst Inv (sym (push-full s v.pattern c v.holds (ground arith))) v
]

Ended-Inv : {s s' : Decoder} {p b : List ℕ} → Ended s s' p b → Inv s → Inv s'
Ended-Inv e v = record {
  pattern = [];
  holds = e.holds;
  counted = omega (arith, e.total, e.counted, v.counted);
}

rise_at-Inv : (s : Decoder) (t : ℕ) → Inv s → Inv (record s { last_rising_edge = t })
rise_at-Inv s t v = record { pattern = v.pattern; holds = v.holds; counted = v.counted }

fall_at-Inv : (s : Decoder) (t : ℕ) → Inv s → Inv (record s { last_falling_edge = t })
fall_at-Inv s t v = record { pattern = v.pattern; holds = v.holds; counted = v.counted }

if-Inv : (b : Bool) (x y : Decoder) → Inv x → Inv y → Inv (if b then x else y)
if-Inv true x y vx vy = vx
if-Inv false x y vx vy = vy

module _ (cfg : Config) where
  gap_ends-Inv : (t : ℕ) (s : Decoder) → Inv s → Inv (gap_ends cfg t s)
  unfolding gap_ends
  gap_ends-Inv t s v =
      if-Inv _ _ _ (Ended-Inv (word_boundary-Ended s v.pattern v.holds) v)
        (if-Inv _ _ _ (Ended-Inv (letter_boundary-Ended t s v.pattern v.holds) v) v)

  pulse_ends-Inv : (d : ℤ) (s : Decoder) → Inv s → Inv (pulse_ends cfg d s)
  unfolding pulse_ends
  pulse_ends-Inv d s v =
      if-Inv _ _ _ (push-Inv s b'-' (omega arith) v)
        (if-Inv _ _ _ (push-Inv s b'.' (omega arith) v) v)

  pub decode_edge-Inv : (s : Decoder) (e : EdgeEvent) → Inv s → Inv (decode_edge cfg s e)
  unfolding decode_edge rising falling
  decode_edge-Inv s e v =
      if-Inv (e.level == 1) _ _
        (if-Inv _ _ _ (gap_ends-Inv e.timestamp_us _ (rise_at-Inv s e.timestamp_us v))
          (rise_at-Inv s e.timestamp_us v))
        (if-Inv _ _ _ (pulse_ends-Inv _ _ (fall_at-Inv s e.timestamp_us v))
          (fall_at-Inv s e.timestamp_us v))

  fold-Inv : (es : List EdgeEvent) (s : Decoder) → Inv s → Inv (foldl (decode_edge cfg) s es)
  fold-Inv [] s v = v
  fold-Inv (e ∷ es) s v = fold-Inv es (decode_edge cfg s e) (decode_edge-Inv s e v)

start-Inv : (bytes : List ℕ) → length bytes ≡ buffer_size → Inv (start bytes)
unfolding start
start-Inv bytes h = record { pattern = []; holds = empty-Stored bytes h; counted = refl }

-- Whatever edges the decoder has received, the next write to morse_buffer, of a symbol or of the
-- terminating zero, is in bounds, the pattern before it has no zero byte, and the characters
-- counted as correct and as errors make up the total.
pub decode_edges-IsSafe :
    (cfg : Config) (bytes : List ℕ) (es : List EdgeEvent)
    → length bytes ≡ buffer_size
    → let s = foldl (decode_edge cfg) (start bytes) es in
      (s.morse_idx < length s.morse_buffer)
      × All (λ c. 0 < c) (take s.morse_idx s.morse_buffer)
      × (s.total_chars ≡ s.correct_chars + s.error_chars)
decode_edges-IsSafe cfg bytes es h =
    let v = fold-Inv cfg es (start bytes) (start-Inv bytes h) in
    (
      omega (arith, v.holds.size, v.holds.count, v.holds.short),
      subst (All (λ c. 0 < c)) (sym v.holds.bytes_lem) v.holds.nonzero,
      v.counted,
    )
