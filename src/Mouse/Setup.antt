-- ===== src/Mouse/Setup.antt =====
-- app_main of lab4_3/main/lab4_3.c. Log lines are left out.
use cse.Base.{Bool, true, false, List, [], ◌∷◌, ◌++◌, if◌then◌else◌}

pub data Call : Type 0 where
  nvs_flash_init : Call
  nvs_flash_erase : Call
  mem_release : Call
  controller_init : Call
  controller_enable : Call
  bluedroid_init : Call
  bluedroid_enable : Call
  gap_register_callback : Call
  hidd_profile_init : Call
  hidd_register_callbacks : Call
  set_authen_req_mode : Call
  set_iocap_mode : Call
  set_max_key_size : Call
  set_init_key : Call
  set_rsp_key : Call
  create_task : Call

-- The first nvs_flash_init: it succeeds, it asks for an erasure (no free pages, or a new version),
-- or it fails otherwise.
pub data Flash : Type 0 where
  flash_ok : Flash
  flash_unusable : Flash
  flash_failed : Flash

-- Whether each initialisation succeeds.
pub record Answers : Type 0 where
  pub flash : Flash
  pub erased : Bool
  pub flash_again : Bool
  pub released : Bool
  pub controller_ready : Bool
  pub controller_on : Bool
  pub bluedroid_ready : Bool
  pub bluedroid_on : Bool
  pub gap_ok : Bool
  pub profile_ok : Bool
  pub callbacks_ok : Bool

-- Calls up to the first that fails, and whether none does.
unfoldable pub until_failure : List (Call × Bool) → List Call × Bool
until_failure [] = ([], true)
until_failure ((call, ok) ∷ calls) =
    let (rest, all_ok) = until_failure calls in
    if ok then (call ∷ rest, all_ok) else (call ∷ [], false)

unfoldable pub init_flash : Answers → List (Call × Bool)
init_flash a = elim a.flash [
  | flash_ok ↦ (nvs_flash_init, true) ∷ []
  | flash_unusable ↦
      (nvs_flash_init, true) ∷ (nvs_flash_erase, a.erased) ∷ (nvs_flash_init, a.flash_again) ∷ []
  | flash_failed ↦ (nvs_flash_init, false) ∷ []
]

unfoldable pub initialisations : Answers → List (Call × Bool)
initialisations a =
    init_flash a
    ++ ((mem_release, a.released)
        ∷ (controller_init, a.controller_ready)
        ∷ (controller_enable, a.controller_on)
        ∷ (bluedroid_init, a.bluedroid_ready)
        ∷ (bluedroid_enable, a.bluedroid_on)
        ∷ (gap_register_callback, a.gap_ok)
        ∷ (hidd_profile_init, a.profile_ok)
        ∷ (hidd_register_callbacks, a.callbacks_ok)
        ∷ [])

unfoldable pub app_main : Answers → List Call
app_main a =
    let (calls, ok) = until_failure (initialisations a) in
    calls
    ++ (if ok
        then set_authen_req_mode ∷ set_iocap_mode ∷ set_max_key_size ∷ set_init_key ∷ set_rsp_key
          ∷ create_task ∷ []
        else [])
