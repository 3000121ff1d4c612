-- ===== src/Hid/Host.antt =====
-- How a host reads reports by a report descriptor: the short items of the HID specification,
-- version 1.11, section 6.2.2. It describes what hidReportMap of lab4_3/main/hid_device_le_prf.c
-- stands for.
use cse.Base.{
  ℕ, zero, suc, ◌+◌, ◌-◌, ◌*◌, ◌/◌, ◌%◌, ◌^◌, Bool, true, false, ◌&&◌, List, [], ◌∷◌, ◌++◌, Option,
  none, some, ◌>>=◌, leb, ◌==◌, if◌then◌else◌, ℤ, pos, negsuc, sub_ℕ, length, take, drop, replicate,
  ◌||◌, leb_ℤ,
}

-- The little-endian value of bytes.
abbrev pub value : List ℕ → ℕ
value [] = 0
value (b ∷ bytes) = b + 256 * value bytes

-- The same as a two's complement number of this many bits.
unfoldable pub signed : ℕ → ℕ → ℤ
signed bits v = if leb (2 ^ bits) (2 * v) then sub_ℕ v (2 ^ bits) else pos v

abbrev data_size : ℕ → ℕ
data_size prefix = if prefix % 4 == 3 then 4 else prefix % 4

-- The items, each with its tag and type (the prefix without its size) and its data; none where one
-- is cut off.
unfoldable pub items : ℕ → List ℕ → Option (List (ℕ × List ℕ))
items fuel [] = some []
items zero (prefix ∷ s) = none
items (suc fuel) (prefix ∷ s) =
    let n = data_size prefix in
    let rest = items fuel (drop n s) in
    if leb n (length s) then (do more ← rest; some ((prefix / 4 * 4, take n s) ∷ more)) else none

-- `main` is 0x80 for an input and 0x90 for an output; a constant field is padding.
pub record Field : Type 0 where
  pub id : ℕ
  pub main : ℕ
  pub size : ℕ
  pub count : ℕ
  pub is_signed : Bool
  pub minimum : ℤ
  pub maximum : ℤ
  pub constant : Bool

-- The global items that matter here, and how many collections are open.
pub record Globals : Type 0 where
  pub id : ℕ
  pub size : ℕ
  pub count : ℕ
  pub minimum : ℤ
  pub maximum : ℤ
  pub depth : ℕ

abbrev is_negative : ℤ → Bool
is_negative (pos n) = false
is_negative (negsuc n) = true

abbrev field_of : ℕ → List ℕ → Globals → Field
field_of main bytes g = record {
  id = g.id;
  main = main;
  size = g.size;
  count = g.count;
  is_signed = is_negative g.minimum;
  minimum = g.minimum;
  maximum = g.maximum;
  constant = value bytes % 2 == 1;
}

-- What an item changes: report size, count and identifier, logical minimum and maximum, and collections.
unfoldable pub apply : ℕ → List ℕ → Globals → Globals
apply tag bytes g =
    if tag == 0x74
    then record g { size = value bytes }
    else if tag == 0x94
    then record g { count = value bytes }
    else if tag == 0x84
    then record g { id = value bytes }
    else if tag == 0x14
    then record g { minimum = signed (8 * length bytes) (value bytes) }
    else if tag == 0x24
    then record g { maximum = signed (8 * length bytes) (value bytes) }
    else if tag == 0xA0
    then record g { depth = g.depth + 1 }
    else if tag == 0xC0
    then record g { depth = g.depth - 1 }
    else g

-- The fields in order; none where collections do not match.
unfoldable pub fields : Globals → List (ℕ × List ℕ) → Option (List Field)
fields g [] = if g.depth == 0 then some [] else none
fields g ((tag, bytes) ∷ rest) =
    let more = fields (apply tag bytes g) rest in
    if tag == 0x80
    then (do fs ← more; some (field_of tag bytes g ∷ fs))
    else if tag == 0x90
    then (do fs ← more; some (field_of tag bytes g ∷ fs))
    else if tag == 0xC0 && g.depth == 0
    then none
    else more

abbrev no_globals : Globals
no_globals = record { id = 0; size = 0; count = 0; minimum = pos 0; maximum = pos 0; depth = 0 }

unfoldable pub parse : List ℕ → Option (List Field)
parse descriptor = do is ← items (length descriptor) descriptor; fields no_globals is

-- The input fields of a report, and their bits in all.
unfoldable pub inputs : ℕ → List Field → List Field
inputs id [] = []
inputs id (f ∷ fs) =
    let rest = inputs id fs in if f.id == id && f.main == 0x80 then f ∷ rest else rest

unfoldable pub bits : List Field → ℕ
bits [] = 0
bits (f ∷ fs) = f.size * f.count + bits fs

-- The values of one field from a bit on, and of all fields.
unfoldable pub field_values : ℕ → Field → ℕ → ℕ → List ℤ
field_values zero f offset v = []
field_values (suc left) f offset v =
    (let raw = v / 2 ^ offset % 2 ^ f.size in if f.is_signed then signed f.size raw else pos raw)
    ∷ field_values left f (offset + f.size) v

unfoldable pub values : List Field → ℕ → ℕ → List ℤ
values [] offset v = []
values (f ∷ fs) offset v =
    field_values f.count f offset v ++ values fs (offset + f.size * f.count) v

-- A value is in the logical range of its field; padding has none.
abbrev in_range : Field → ℤ → Bool
in_range f v = f.constant || (leb_ℤ f.minimum v && leb_ℤ v f.maximum)

-- The field of each value.
unfoldable pub owners : List Field → List Field
owners [] = []
owners (f ∷ fs) = replicate f.count f ++ owners fs

unfoldable pub all_in_range : List Field → List ℤ → Bool
all_in_range (f ∷ fs) (v ∷ vs) = in_range f v && all_in_range fs vs
all_in_range [] _ = true
all_in_range _ [] = true

-- What a host reads in the bytes of an input report, by a descriptor; none where a value is out of
-- its logical range, since a host ignores such a one.
unfoldable pub host_reads : List ℕ → ℕ → List ℕ → Option (List ℤ)
host_reads descriptor id report = do
  fs ← parse descriptor
  let vs = values (inputs id fs) 0 (value report)
  if all_in_range (owners (inputs id fs)) vs then some vs else none

-- How many bits a descriptor has for an input report.
unfoldable pub described : List ℕ → ℕ → Option ℕ
described descriptor id = do fs ← parse descriptor; some (bits (inputs id fs))
