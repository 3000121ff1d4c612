-- ===== src/Morse/Fast/Queue.antt =====
-- gpio_isr_handler and morse_decoder_task of lab5_3/receiver/main/lab5_3.c around gpio_evt_queue,
-- in any interleaving of edges of the input and receptions by the task.
use cse.Base.{ℕ, ◌<◌, ◌≡◌, refl, ap, ◌∙◌, List, [], ◌∷◌, ◌++◌, foldl, lt→ltb, length}
use cse.Morse.Fast.Receiver.{Config, Decoder, EdgeEvent, decode_edge, gpio_isr_handler, queue_size}

pub data Happening : Type 0 where
  -- the interrupt, with the time and the level that it reads
  edge : ℕ → ℕ → Happening
  -- xQueueReceive gets the task its turn
  receive : Happening

pub record Node : Type 0 where
  pub queue : List EdgeEvent
  pub decoder : Decoder

receive_from : Config → List EdgeEvent → Decoder → Node
receive_from cfg [] s = record { queue = []; decoder = s }
receive_from cfg (e ∷ queue) s = record { queue = queue; decoder = decode_edge cfg s e }

unfoldable pub happen : Config → Node → Happening → Node
unfolding receive_from gpio_isr_handler
happen cfg n (edge now level) = record n { queue = gpio_isr_handler now level n.queue }
happen cfg n receive = receive_from cfg n.queue n.decoder

unfoldable pub schedule : Config → Node → List Happening → Node
schedule cfg n [] = n
schedule cfg n (h ∷ hs) = schedule cfg (happen cfg n h) hs

abbrev pub edges : List Happening → List EdgeEvent
edges [] = []
edges (edge now level ∷ hs) = record { timestamp_us = now; level = level } ∷ edges hs
edges (receive ∷ hs) = edges hs

-- No edge meets a full queue.
abbrev pub NoLoss : Config → Node → List Happening → Type 0
NoLoss cfg n [] = Unit
NoLoss cfg n (edge now level ∷ hs) =
    (length n.queue < queue_size) × NoLoss cfg (happen cfg n (edge now level)) hs
NoLoss cfg n (receive ∷ hs) = NoLoss cfg (happen cfg n receive) hs

foldl-append {ℓ κ} :
    {A : Type ℓ} {B : Type κ} (f : B → A → B) (b : B) (xs ys : List A)
    → foldl f b (xs ++ ys) ≡ foldl f (foldl f b xs) ys
foldl-append f b [] ys = refl
foldl-append f b (x ∷ xs) ys = foldl-append f (f b x) xs ys

enqueue :
    (now level : ℕ) (queue : List EdgeEvent)
    → length queue < queue_size
    → gpio_isr_handler now level queue
      ≡ queue ++ (record { timestamp_us = now; level = level } ∷ [])
unfolding gpio_isr_handler
enqueue now level queue h = rw (lt→ltb h)

module _ (cfg : Config) where
  -- However interrupts and the task interleave, while no edge meets a full queue the task decodes
  -- every edge once and in order: decoding what is still queued gives the result of decoding all
  -- edges one after the other.
  pub schedule-eq-foldl :
      (hs : List Happening) (n : Node)
      → NoLoss cfg n hs
      → let n' = schedule cfg n hs in
        foldl (decode_edge cfg) n'.decoder n'.queue
        ≡ foldl (decode_edge cfg) (foldl (decode_edge cfg) n.decoder n.queue) (edges hs)
  unfolding schedule happen
  schedule-eq-foldl [] n h = refl
  schedule-eq-foldl (edge now level ∷ hs) n (room, h) =
      schedule-eq-foldl hs (happen cfg n (edge now level)) h
      ∙ rw (enqueue now level n.queue room, foldl-append)
  schedule-eq-foldl (receive ∷ hs) n h =
      schedule-eq-foldl hs (happen cfg n receive) h
      ∙ ap (λ s. foldl (decode_edge cfg) s (edges hs)) (received n.queue n.decoder)
    where
      received :
          (q : List EdgeEvent) (s : Decoder)
          → foldl (decode_edge cfg) (receive_from cfg q s).decoder (receive_from cfg q s).queue
            ≡ foldl (decode_edge cfg) s q
      received [] s = refl
      received (e ∷ q) s = refl
