-- ===== src/Weather/Reading.antt =====
-- The loop of http_get in lab7_3/main/http_request_example_main.c.
use cse.Base.{
  ℕ, zero, suc, ◌-◌, ◌≤◌, ◌<◌, ◌≡◌, refl, ap, Bool, true, false, some, List, [], ◌∷◌, ◌++◌, length,
  length-append, ◌==◌, if◌then◌else◌, arith, Bool-cases, inl, inr,
}
use cse.Weather.Net.{Net, Call, read}
use cse.Weather.Http.{is_empty, read_loop, http_get}

-- A read brings no more than it asks for.
pub record Limited (peer : ℕ → ℕ → List ℕ) : Type 0 where
  pub limit : (i room : ℕ) → length (peer i room) ≤ room

shorter :
    (chunk : List ℕ) (room : ℕ)
    → (room == 0) ≡ false
    → is_empty chunk ≡ false
    → room - length chunk < room
shorter [] room a b = ground (arith, b)
shorter (c ∷ chunk) room a b = ground (arith, a)

module _ (peer : ℕ → ℕ → List ℕ) where
  -- Fuel that covers the room makes no difference.
  read_loop_fuel :
      (f g i room : ℕ) → room ≤ f → room ≤ g → read_loop peer f i room ≡ read_loop peer g i room
  unfolding read_loop
  read_loop_fuel zero zero i room h k = refl
  read_loop_fuel zero (suc g) i room h k = ground arith
  read_loop_fuel (suc f) zero i room h k = ground arith
  read_loop_fuel (suc f) (suc g) i room h k = elim (Bool-cases (room == 0)) [
    | inl full ↦ rw full refl
    | inr space ↦ elim (Bool-cases (is_empty (peer i room))) [
      | inl ended ↦ rw (space, ended) refl
      | inr more ↦
          let less = shorter (peer i room) room space more in
          rw
            (
              space,
              more,
              read_loop_fuel f g (suc i) (room - length (peer i room)) (omega arith) (omega arith),
            )
            refl
    ]
  ]

  -- The loop with room for the bytes that are left.
  unfoldable pub read_all : ℕ → ℕ → List Call × List ℕ
  read_all i room = read_loop peer room i room

  -- The loop of the source, as an equation: it ends where the buffer is full or a read brings
  -- nothing.
  read_all-eq :
      (i room : ℕ)
      → read_all i room ≡ (
          if room == 0 then ([], []) else if is_empty (peer i room) then (read room ∷ [], []) else (
            read room ∷ (read_all (suc i) (room - length (peer i room))).0,
            peer i room ++ (read_all (suc i) (room - length (peer i room))).1,
          ))
  unfolding read_all read_loop
  read_all-eq i zero = refl
  read_all-eq i (suc room) =
      ap (λ r. if suc room == 0 then ([], []) else r) (same (is_empty chunk) refl)
    where
      chunk : List ℕ
      chunk = peer i (suc room)

      joined : List Call × List ℕ → List Call × List ℕ
      joined r = (read (suc room) ∷ r.0, chunk ++ r.1)

      same :
          (b : Bool)
          → is_empty chunk ≡ b
          → (if b
              then (read (suc room) ∷ [], [])
              else joined (read_loop peer room (suc i) (suc room - length chunk)))
            ≡ (if b
                then (read (suc room) ∷ [], [])
                else joined (read_all (suc i) (suc room - length chunk)))
      same true e = refl
      same false e =
          let less = shorter chunk (suc room) (ground arith) e in
          ap joined (
            read_loop_fuel room (suc room - length chunk) (suc i) (suc room - length chunk)
              (omega arith) (omega arith))

  loop-length :
      (fuel i room : ℕ)
      → Limited peer
      → (length (read_loop peer fuel i room).1 ≤ room)
        × (length (read_loop peer fuel i room).0 ≤ fuel)
  unfolding read_loop
  loop-length zero i room l = omega arith
  loop-length (suc fuel) i room l = ground (
    arith,
    loop-length fuel (suc i) (room - length (peer i room)) l,
    length-append (peer i room) (read_loop peer fuel (suc i) (room - length (peer i room))).1,
    l.limit i room,
  )

-- The loop ends for every peer that brings no more than it is asked for: it is the function that
-- stops where the buffer is full or a read brings nothing, and otherwise reads on behind what it
-- has; it reads at most as often as there was room for bytes, and what it has got fits the room.
pub read_all_ends :
    (peer : ℕ → ℕ → List ℕ) (i room : ℕ)
    → Limited peer
    → (read_all peer i room ≡ (
        if room == 0 then ([], []) else if is_empty (peer i room) then (read room ∷ [], []) else (
          read room ∷ (read_all peer (suc i) (room - length (peer i room))).0,
          peer i room ++ (read_all peer (suc i) (room - length (peer i room))).1,
        )))
      × (length (read_all peer i room).0 ≤ room)
      × (length (read_all peer i room).1 ≤ room)
unfolding read_all
read_all_ends peer i room l =
    let bounds = loop-length peer room i room l in (read_all-eq peer i room, bounds.1, bounds.0)

-- Where http_get has a reply, the bytes that it has read leave room for a zero behind them.
pub http_get-length :
    (net : Net) (host port path : List ℕ) (response_size : ℕ) (got : List ℕ)
    → Limited net.peer
    → 0 < response_size
    → (http_get net host port path response_size).0 ≡ some got
    → length got < response_size
unfolding http_get
http_get-length net host port path response_size got l h e =
    ground (arith, e, loop-length net.peer (response_size - 1) 0 (response_size - 1) l)
