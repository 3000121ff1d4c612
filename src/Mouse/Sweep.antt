-- ===== src/Mouse/Sweep.antt =====
-- The demonstration of lab 4.2 (lab4_2/main/lab4_2.c), which moves the pointer to the right and
-- back. Log lines and delays are left out.
use cse.Base.{
  ℕ, zero, suc, ◌+◌, ◌*◌, ◌≡◌, ap, ◌∙◌, Bool, true, false, List, [], ◌∷◌, ◌++◌, append_assoc,
  append-nil, length, ◌==◌, if◌then◌else◌, ℤ, pos, negsuc, pos_part, neg_part, arith, Bool-cases,
  inl, inr,
}
use cse.Mouse.Task
use cse.Mouse.Setup
use cse.Mouse.Setup.{Answers, Call}
use cse.Mouse.Task.{
  GapEvent, Request, mouse_value, set_device_name, config_adv_data, start_advertising, HiddEvent,
  reg_finish, ble_connect, ble_disconnect, other_event,
}

-- The same text as in lab 4.3, but for the task that is created.
unfoldable pub gap_event_handler : GapEvent → List Request
gap_event_handler event = Task.gap_event_handler event

unfoldable pub app_main : Answers → List Call
app_main a = Setup.app_main a

-- hid_conn_id and connected.
pub record Sweeper : Type 0 where
  pub hid_conn_id : ℕ
  pub connected : Bool

unfoldable pub send_mouse_move : Sweeper → ℤ → ℤ → List Request
send_mouse_move s x y = if s.connected then mouse_value s.hid_conn_id 0 x y ∷ [] else []

unfoldable pub hidd_event_callback : HiddEvent → Sweeper → Sweeper × List Request
hidd_event_callback (reg_finish state) s =
    (s, if state == 0 then set_device_name ∷ config_adv_data ∷ [] else [])
hidd_event_callback (ble_connect conn_id) s =
    (record { hid_conn_id = conn_id; connected = true }, [])
hidd_event_callback ble_disconnect s = (record s { connected = false }, start_advertising ∷ [])
hidd_event_callback other_event s = (s, [])

-- A loop of mouse_move_task: `left` rounds with one movement; `states` are those that they meet.
unfoldable pub sweep : ℕ → ℤ → List Sweeper → List Request
sweep zero x states = []
sweep (suc left) x [] = []
sweep (suc left) x (s ∷ states) = send_mouse_move s x (pos 0) ++ sweep left x states

-- One round of its outer loop.
unfoldable pub cycle : List Sweeper → List Sweeper → List Request
cycle rights lefts = sweep 20 (pos 10) rights ++ sweep 20 (negsuc 9) lefts

unfoldable pub sweep_cycles : List (List Sweeper × List Sweeper) → List Request
sweep_cycles [] = []
sweep_cycles ((rights, lefts) ∷ cycles) = cycle rights lefts ++ sweep_cycles cycles

-- The wait for a connection, one state for each look at it, and then a cycle for each of the rest.
unfoldable pub mouse_move_task : List Sweeper → List (List Sweeper × List Sweeper) → List Request
mouse_move_task [] cycles = []
mouse_move_task (s ∷ waits) cycles =
    let rest = mouse_move_task waits cycles in if s.connected then sweep_cycles cycles else rest

-- The units to the right, and to the left, that mouse reports ask for.
unfoldable pub to_right : List Request → ℕ
to_right [] = 0
to_right (mouse_value conn_id buttons x y ∷ requests) = pos_part x + to_right requests
to_right (_ ∷ requests) = to_right requests

unfoldable pub to_left : List Request → ℕ
to_left [] = 0
to_left (mouse_value conn_id buttons x y ∷ requests) = neg_part x + to_left requests
to_left (_ ∷ requests) = to_left requests

-- The rounds that met a connection.
unfoldable pub linked : List Sweeper → ℕ
linked [] = 0
linked (s ∷ states) = (if s.connected then 1 else 0) + linked states

sweep-to_right :
    (left : ℕ) (x : ℤ) (states : List Sweeper) (more : List Request)
    → length states ≡ left
    → to_right (sweep left x states ++ more) ≡ pos_part x * linked states + to_right more
unfolding to_right sweep send_mouse_move linked
sweep-to_right zero x [] more e = omega arith
sweep-to_right zero x (s ∷ states) more e = absurd (omega arith)
sweep-to_right (suc left) x [] more e = absurd (omega arith)
sweep-to_right (suc left) x (s ∷ states) more e =
    let rest = sweep-to_right left x states more (omega arith) in
    elim (Bool-cases s.connected) [
      | inl on ↦ rw on (omega (arith, rest))
      | inr off ↦ rw off (omega (arith, rest))
    ]

sweep-to_left :
    (left : ℕ) (x : ℤ) (states : List Sweeper) (more : List Request)
    → length states ≡ left
    → to_left (sweep left x states ++ more) ≡ neg_part x * linked states + to_left more
unfolding to_left sweep send_mouse_move linked
sweep-to_left zero x [] more e = omega arith
sweep-to_left zero x (s ∷ states) more e = absurd (omega arith)
sweep-to_left (suc left) x [] more e = absurd (omega arith)
sweep-to_left (suc left) x (s ∷ states) more e =
    let rest = sweep-to_left left x states more (omega arith) in
    elim (Bool-cases s.connected) [
      | inl on ↦ rw on (omega (arith, rest))
      | inr off ↦ rw off (omega (arith, rest))
    ]

-- A cycle before other requests.
cycle-to_right :
    (rights lefts : List Sweeper) (more : List Request)
    → length rights ≡ 20
    → length lefts ≡ 20
    → to_right (cycle rights lefts ++ more) ≡ 10 * linked rights + to_right more
unfolding cycle
cycle-to_right rights lefts more e f =
    let back = sweep-to_right 20 (negsuc 9) lefts more f in
    ap to_right (append_assoc (sweep 20 (pos 10) rights) (sweep 20 (negsuc 9) lefts) more)
    ∙ sweep-to_right 20 (pos 10) rights (sweep 20 (negsuc 9) lefts ++ more) e
    ∙ omega (arith, back)

cycle-to_left :
    (rights lefts : List Sweeper) (more : List Request)
    → length rights ≡ 20
    → length lefts ≡ 20
    → to_left (cycle rights lefts ++ more) ≡ 10 * linked lefts + to_left more
unfolding cycle
cycle-to_left rights lefts more e f =
    let back = sweep-to_left 20 (negsuc 9) lefts more f in
    ap to_left (append_assoc (sweep 20 (pos 10) rights) (sweep 20 (negsuc 9) lefts) more)
    ∙ sweep-to_left 20 (pos 10) rights (sweep 20 (negsuc 9) lefts ++ more) e
    ∙ omega (arith, back)

-- A round of the demonstration asks for ten units to the right for each of its first twenty steps
-- that meets a connection, and for ten to the left for each of its last twenty that does.
cycle-linked :
    (rights lefts : List Sweeper)
    → length rights ≡ 20
    → length lefts ≡ 20
    → (to_right (cycle rights lefts) ≡ 10 * linked rights)
      × (to_left (cycle rights lefts) ≡ 10 * linked lefts)
unfolding to_right to_left
cycle-linked rights lefts e f =
    let alone = append-nil (cycle rights lefts) in
    let right = cycle-to_right rights lefts [] e f in
    let left = cycle-to_left rights lefts [] e f in
    (omega (arith, right, ap to_right alone), omega (arith, left, ap to_left alone))

-- Each loop of a cycle meets 20 states.
abbrev pub Twenties : List Sweeper × List Sweeper → Type 0
Twenties (rights, lefts) = (length rights ≡ 20) × (length lefts ≡ 20)

-- The steps to the right, and to the left, that meet a connection.
unfoldable pub linked_rights : List (List Sweeper × List Sweeper) → ℕ
linked_rights [] = 0
linked_rights ((rights, lefts) ∷ cycles) = linked rights + linked_rights cycles

unfoldable pub linked_lefts : List (List Sweeper × List Sweeper) → ℕ
linked_lefts [] = 0
linked_lefts ((rights, lefts) ∷ cycles) = linked lefts + linked_lefts cycles

-- Whether a look at the connection has found one.
unfoldable pub seen : List Sweeper → Bool
seen [] = false
seen (s ∷ waits) = if s.connected then true else seen waits
