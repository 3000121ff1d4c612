-- ===== src/Incline/Search.antt =====
-- The search for the sensor at the start of task_lab4_1 (lab4_1/main/lab4_1.c).
use cse.Base.{
  ℕ, ◌+◌, ◌*◌, ◌≡◌, refl, subst, ◌∙◌, ◌⊎◌, inl, inr, Bool, true, false, ◌&&◌, ◌||◌, List, [], ◌∷◌,
  ◌++◌, map, All, Option, none, some, length, if◌then◌else◌, Bool-cases, arith,
}
use cse.Mouse.Motion.{Float}
use cse.Mouse.Task.{Request, Try, imu_try_init, ImuTask, addr_gnd, addr_vcc}
use cse.Mouse.Bounds.{Sane, start-Sane}
use cse.Incline.Task.{
  try_both, Action, init_i2cdev, ask, delay_ms, announce, or_else, retry, search, configured, Start,
  begin,
}

-- The sensor answers a try.
abbrev pub answers : Try → Bool
answers t = t.desc_ok && t.init_ok

unfoldable pub Silent : Try × Try → Type 0
Silent (first, second) = (answers first ≡ false) × (answers second ≡ false)

pub IsFound : Option ℕ → Type 0
IsFound none = Unit
IsFound (some addr) = (addr ≡ addr_gnd) ⊎ (addr ≡ addr_vcc)

try_both-IsFound : (first second : Try) → IsFound (try_both first second).0
unfolding try_both IsFound
try_both-IsFound first second = ground arith

try_both-answers :
    (first second : Try)
    → (try_both first second).0
      ≡ (if answers first then some addr_gnd else if answers second then some addr_vcc else none)
unfolding try_both imu_try_init
try_both-answers first second = ground arith

module _ (float : Float) (th : float.F) where
  or_else-IsFound :
      (r : Option ℕ × List Request) (later : Option ℕ × List (Action float th))
      → IsFound r.0
      → IsFound later.0
      → IsFound (or_else float th r later).0
  unfolding or_else
  or_else-IsFound (none, calls) later h k = k
  or_else-IsFound (some addr, calls) later h k = h

  retry-IsFound : (tries : List (Try × Try)) → IsFound (retry float th tries).0
  unfolding retry IsFound
  retry-IsFound [] = tt
  retry-IsFound ((first, second) ∷ tries) =
      or_else-IsFound (try_both first second) (retry float th tries) (try_both-IsFound first second)
        (retry-IsFound tries)

  search-IsFound : (p : Try × Try) (tries : List (Try × Try)) → IsFound (search float th p tries).0
  unfolding search
  search-IsFound (first, second) tries =
      or_else-IsFound (try_both first second) (retry float th tries) (try_both-IsFound first second)
        (retry-IsFound tries)

  -- The milliseconds that actions wait for.
  abbrev pub waited : List (Action float th) → ℕ
  waited [] = 0
  waited (delay_ms n ∷ actions) = n + waited actions
  waited (ask request ∷ actions) = waited actions
  waited (init_i2cdev ∷ actions) = waited actions
  waited (announce msg fx fy fz addr ∷ actions) = waited actions

  waited-ask : (calls : List Request) → waited (map ask calls) ≡ 0
  waited-ask [] = refl
  waited-ask (call ∷ calls) = waited-ask calls

  waited-after :
      (calls : List Request) (actions : List (Action float th))
      → waited (map ask calls ++ actions) ≡ waited actions
  waited-after [] actions = refl
  waited-after (call ∷ calls) actions = waited-after calls actions

  -- The search on all its tries, the first of which comes without a wait.
  abbrev pub searched : List (Try × Try) → Option ℕ × List (Action float th)
  searched [] = (none, [])
  searched (p ∷ tries) = search float th p tries

  or_else-some :
      (r : Option ℕ × List Request) (later : Option ℕ × List (Action float th)) (addr : ℕ)
      → r.0 ≡ some addr
      → ((or_else float th r later).0 ≡ some addr) × (waited (or_else float th r later).1 ≡ 0)
  unfolding or_else
  or_else-some (none, calls) later addr e = grind (arith, e)
  or_else-some (some a, calls) later addr e = (e, waited-ask calls)

  or_else-none :
      (r : Option ℕ × List Request) (later : Option ℕ × List (Action float th))
      → r.0 ≡ none
      → ((or_else float th r later).0 ≡ later.0)
        × (waited (or_else float th r later).1 ≡ waited later.1)
  unfolding or_else
  or_else-none (none, calls) later e = (refl, waited-after calls later.1)
  or_else-none (some a, calls) later e = grind (arith, e)

  Silent-none : (p : Try × Try) → Silent p → (try_both p.0 p.1).0 ≡ none
  unfolding Silent
  Silent-none (first, second) h = rw (try_both-answers first second, h.0, h.1) refl

  retry-finds :
      (before : List (Try × Try)) (p : Try × Try) (after : List (Try × Try)) (addr : ℕ)
      → All Silent before
      → (try_both p.0 p.1).0 ≡ some addr
      → ((retry float th (before ++ (p ∷ after))).0 ≡ some addr)
        × (waited (retry float th (before ++ (p ∷ after))).1 ≡ 500 * (1 + length before))
  unfolding retry
  retry-finds [] (first, second) after addr silent e =
      let found = or_else-some (try_both first second) (retry float th after) addr e in
      (found.0, omega (arith, found.1))
  retry-finds ((first, second) ∷ before) p after addr silent e =
      let later =
        or_else-none (try_both first second) (retry float th (before ++ (p ∷ after)))
          (Silent-none (first, second) silent.0) in
      let rest = retry-finds before p after addr silent.1 e in
      (later.0 ∙ rest.0, omega (arith, later.1, rest.1))

  searched-finds :
      (before : List (Try × Try)) (p : Try × Try) (after : List (Try × Try)) (addr : ℕ)
      → All Silent before
      → (try_both p.0 p.1).0 ≡ some addr
      → ((searched (before ++ (p ∷ after))).0 ≡ some addr)
        × (waited (searched (before ++ (p ∷ after))).1 ≡ 500 * length before)
  unfolding search
  searched-finds [] (first, second) after addr silent e =
      or_else-some (try_both first second) (retry float th after) addr e
  searched-finds ((first, second) ∷ before) p after addr silent e =
      let later =
        or_else-none (try_both first second) (retry float th (before ++ (p ∷ after)))
          (Silent-none (first, second) silent.0) in
      let rest = retry-finds before p after addr silent.1 e in
      (later.0 ∙ rest.0, omega (arith, later.1, rest.1))

  SaneIfAny : Option (ImuTask float) → Type 0
  SaneIfAny none = Unit
  SaneIfAny (some t) = Sane float t

  configured-SaneIfAny :
      (r : Option ℕ × List (Action float th)) (c : Bool × List Request)
      → IsFound r.0
      → SaneIfAny (configured float th r c).0
  unfolding configured SaneIfAny IsFound
  configured-SaneIfAny (none, actions) c h = tt
  configured-SaneIfAny (some addr, actions) (false, calls) h = tt
  configured-SaneIfAny (some addr, actions) (true, calls) h = start-Sane float addr h

  begin-SaneIfAny : (s : Start) → SaneIfAny (begin float th s).0
  unfolding begin SaneIfAny
  begin-SaneIfAny s = elim (Bool-cases s.i2cdev_ok) [
    | inl up ↦ rw up (configured-SaneIfAny _ _ (search-IsFound s.first s.tries))
    | inr down ↦ rw down tt
  ]

  pub begin-Sane : (s : Start) (t : ImuTask float) → (begin float th s).0 ≡ some t → Sane float t
  unfolding SaneIfAny
  begin-Sane s t started = subst SaneIfAny started (begin-SaneIfAny s)

-- Where the sensor answers none of the first tries and then one, whatever would come later, the
-- search of lab 4.1 ends at that one: with the first address if the sensor answers there and with
-- the second otherwise, having waited 500 ms for each try before.
pub searched_ends :
    (float : Float) (th : float.F) (before : List (Try × Try)) (first second : Try)
    (after : List (Try × Try))
    → All Silent before
    → (answers first || answers second) ≡ true
    → let outcome = searched float th (before ++ ((first, second) ∷ after)) in
      (outcome.0 ≡ some (if answers first then addr_gnd else addr_vcc))
      × (waited float th outcome.1 ≡ 500 * length before)
searched_ends float th before first second after silent heard =
    searched-finds float th before (first, second) after _ silent
      (try_both-answers first second ∙ chosen (answers first) (answers second) heard)
  where
    chosen :
        (a b : Bool)
        → (a || b) ≡ true
        → (if a then some addr_gnd else if b then some addr_vcc else none)
          ≡ some (if a then addr_gnd else addr_vcc)
    chosen true b h = refl
    chosen false b h = rw h refl
