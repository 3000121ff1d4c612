-- ===== src/Hid/Typing.antt =====
-- The keyboard reports that lab4_3/main/esp_hidd_prf_api.c sends, as a host reads them by
-- hidReportMap of lab4_3/main/hid_device_le_prf.c.
use cse.Base.{
  ℕ, zero, suc, ◌-◌, ◌/◌, ◌%◌, ◌<◌, ◌≤◌, ◌≡◌, refl, ap, ◌∙◌, some, List, [], ◌∷◌, ◌++◌, All, ℤ, pos,
  length, length-append, length-take, All-append, le→ltb, leb_ℤ, ◌&&◌, arith, true, none,
  if◌then◌else◌, take, replicate, map,
}
use cse.Hid.Descriptor.{mouse_map, keyboard_map, consumer_map, hid_report_map}
use cse.Hid.Host.{
  value, signed, Field, items, apply, fields, parse, inputs, field_values, values, host_reads,
  owners, all_in_range,
}
use cse.Hid.Report.{hid_dev_send_report}
use cse.Hid.Profile.{Hid}
use cse.Hid.Keyboard.{keyboard_bytes}
use cse.Hid.Api.{esp_hidd_send_keyboard_value}
use cse.Hid.Described.{input, padding, accepted, cons_eq, HostReads, indicate-All}

-- Eight modifiers, a reserved byte and six keys.
abbrev keyboard_fields : List Field
keyboard_fields = input 2 1 8 (pos 0) (pos 1) ∷ padding 2 8 ∷ input 2 8 6 (pos 0) (pos 101) ∷ []

keyboard_described :
    (report : List ℕ)
    → host_reads hid_report_map 2 report
      ≡ accepted keyboard_fields (values keyboard_fields 0 (value report))
unfolding host_reads parse items apply signed fields inputs hid_report_map mouse_map keyboard_map
    consumer_map accepted
keyboard_described report = refl

-- The bits of a byte, the lowest first.
abbrev pub bits_of : ℕ → List ℤ
bits_of m =
    pos (m % 2)
    ∷ pos (m / 2 % 2)
    ∷ pos (m / 4 % 2)
    ∷ pos (m / 8 % 2)
    ∷ pos (m / 16 % 2)
    ∷ pos (m / 32 % 2)
    ∷ pos (m / 64 % 2)
    ∷ pos (m / 128)
    ∷ []

keyboard_values :
    (m : ℕ) (keys : List ℕ)
    → m < 256
    → length keys ≡ 6
    → All (λ k. k < 256) keys
    → values keyboard_fields 0 (value (m ∷ 0 ∷ keys)) ≡ bits_of m ++ (pos 0 ∷ map pos keys)
unfolding values field_values
keyboard_values m (k0 ∷ k1 ∷ k2 ∷ k3 ∷ k4 ∷ k5 ∷ []) small e (s0, (s1, (s2, (s3, (s4, (s5, _)))))) =
    cons_eq (ap pos (omega arith)) (
      cons_eq (ap pos (omega arith)) (
        cons_eq (ap pos (omega arith)) (
          cons_eq (ap pos (omega arith)) (
            cons_eq (ap pos (omega arith)) (
              cons_eq (ap pos (omega arith)) (
                cons_eq (ap pos (omega arith)) (
                  cons_eq (ap pos (omega arith)) (
                    cons_eq (ap pos (omega arith)) (
                      cons_eq (ap pos (omega arith)) (
                        cons_eq (ap pos (omega arith)) (
                          cons_eq (ap pos (omega arith)) (
                            cons_eq (ap pos (omega arith)) (
                              cons_eq (ap pos (omega arith))
                                (cons_eq (ap pos (omega arith)) refl))))))))))))))
keyboard_values m ([]) small e ss = absurd (omega arith)
keyboard_values m (k0 ∷ []) small e ss = absurd (omega arith)
keyboard_values m (k0 ∷ k1 ∷ []) small e ss = absurd (omega arith)
keyboard_values m (k0 ∷ k1 ∷ k2 ∷ []) small e ss = absurd (omega arith)
keyboard_values m (k0 ∷ k1 ∷ k2 ∷ k3 ∷ []) small e ss = absurd (omega arith)
keyboard_values m (k0 ∷ k1 ∷ k2 ∷ k3 ∷ k4 ∷ []) small e ss = absurd (omega arith)
keyboard_values m (k0 ∷ k1 ∷ k2 ∷ k3 ∷ k4 ∷ k5 ∷ k6 ∷ ks) small e ss = absurd (omega arith)

key_in_range : (k : ℕ) → k ≤ 101 → (leb_ℤ (pos 0) (pos k) && leb_ℤ (pos k) (pos 101)) ≡ true
key_in_range k h = ground arith

bit_in_range : (b : ℕ) → b < 2 → (leb_ℤ (pos 0) (pos b) && leb_ℤ (pos b) (pos 1)) ≡ true
bit_in_range b h = ground arith

keys_accepted :
    (n : ℕ) (keys : List ℕ)
    → All (λ k. k ≤ 101) keys
    → all_in_range (replicate n (input 2 8 6 (pos 0) (pos 101)) ++ []) (map pos keys) ≡ true
unfolding all_in_range
keys_accepted zero [] a = refl
keys_accepted zero (k ∷ keys) a = refl
keys_accepted (suc n) [] a = refl
keys_accepted (suc n) (k ∷ keys) (h, a) = rw (key_in_range k h) (keys_accepted n keys a)

modifiers_accepted :
    (m : ℕ) (vs : List ℤ)
    → m < 256
    → accepted keyboard_fields (bits_of m ++ (pos 0 ∷ vs)) ≡ (
        if all_in_range (replicate 6 (input 2 8 6 (pos 0) (pos 101)) ++ []) vs
        then some (bits_of m ++ (pos 0 ∷ vs))
        else none)
unfolding accepted all_in_range owners
modifiers_accepted m vs small =
    rw
      (
        bit_in_range (m % 2) (omega arith),
        bit_in_range (m / 2 % 2) (omega arith),
        bit_in_range (m / 4 % 2) (omega arith),
        bit_in_range (m / 8 % 2) (omega arith),
        bit_in_range (m / 16 % 2) (omega arith),
        bit_in_range (m / 32 % 2) (omega arith),
        bit_in_range (m / 64 % 2) (omega arith),
        bit_in_range (m / 128) (omega arith),
      )
      refl

All-bytes : (keys : List ℕ) → All (λ k. k ≤ 101) keys → All (λ k. k < 256) keys
All-bytes [] a = tt
All-bytes (k ∷ keys) (h, a) = (omega arith, All-bytes keys a)

All-take : (P : ℕ → Type 0) (n : ℕ) (xs : List ℕ) → All P xs → All P (take n xs)
All-take P zero xs a = tt
All-take P (suc n) [] a = tt
All-take P (suc n) (x ∷ xs) (p, a) = (p, All-take P n xs a)

All-replicate : (P : ℕ → Type 0) (n x : ℕ) → P x → All P (replicate n x)
All-replicate P zero x p = tt
All-replicate P (suc n) x p = (p, All-replicate P n x p)

length-replicate : (n x : ℕ) → length (replicate n x) ≡ n
length-replicate zero x = refl
length-replicate (suc n) x = omega (arith, length-replicate n x)

-- A host reads a keyboard report of at most six keys, each at most 101, the logical maximum of the
-- descriptor, as the modifiers, a reserved byte and the keys, with zeros for the others.
pub send_keyboard_value-HostReads :
    (h : Hid) (conn_id mask : ℕ) (keys : List ℕ) (num_key : ℕ)
    → mask < 256
    → All (λ k. k ≤ 101) keys
    → num_key ≤ 6
    → num_key ≤ length keys
    → All
        (HostReads 2
          (bits_of mask ++ (pos 0 ∷ map pos (take num_key keys ++ replicate (6 - num_key) 0))))
        (esp_hidd_send_keyboard_value h conn_id mask keys num_key)
unfolding esp_hidd_send_keyboard_value hid_dev_send_report
send_keyboard_value-HostReads h conn_id mask keys num_key small bytes few enough =
    rw (le→ltb {a = 6} {b = num_key} few, keyboard_bytes mask num_key keys few enough)
      (indicate-All _ _ _ _ _ _ (λ handle. (omega (arith, six), read)))
  where
    six : length (take num_key keys ++ replicate (6 - num_key) 0) ≡ 6
    six = omega (
      arith,
      length-append (take num_key keys) (replicate (6 - num_key) 0),
      length-take num_key keys enough,
      length-replicate (6 - num_key) 0,
    )

    sent : All (λ k. k ≤ 101) (take num_key keys ++ replicate (6 - num_key) 0)
    sent =
        All-append (λ k. k ≤ 101) (take num_key keys) _ (All-take (λ k. k ≤ 101) num_key keys bytes)
          (All-replicate (λ k. k ≤ 101) (6 - num_key) 0 (omega arith))

    read :
        host_reads hid_report_map 2 (mask ∷ 0 ∷ (take num_key keys ++ replicate (6 - num_key) 0))
        ≡ some (bits_of mask ++ (pos 0 ∷ map pos (take num_key keys ++ replicate (6 - num_key) 0)))
    read =
        keyboard_described _
        ∙ ap (accepted keyboard_fields) (keyboard_values mask _ small six (All-bytes _ sent))
        ∙ modifiers_accepted mask _ small
        ∙ rw (keys_accepted 6 _ sent) refl
