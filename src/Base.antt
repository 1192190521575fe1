-- ===== src/Base.antt =====
-- base/macho_errors.h, base/Loadable.h and base/Loadable.cpp: the result codes, and an object that is
-- loaded on demand. The virtual function `_load` of the derived class is the parameter `load_object`,
-- `validate` hands on what `_validate` of the derived class says and is left out. The flags have one
-- value, which no function looks at.
pub mod Once
use mach_olib.Common.{Bool, true, false, if◌then◌else◌, ◌||◌}

pub data ResultCode : Type 0 where
  success success_already_loaded bad_macho fail : ResultCode

unfoldable pub is_successful : ResultCode → Bool
is_successful success = true
is_successful success_already_loaded = true
is_successful _ = false

unfoldable pub is_successful_only : ResultCode → Bool
is_successful_only success = true
is_successful_only _ = false

pub data LoadingState : Type 0 where
  incomplete complete : LoadingState

pub record Loadable (S : Type 0) : Type 0 where
  pub state : LoadingState
  pub object : S

-- `Loadable::Loadable()`
abbrev pub fresh : {S : Type 0} → S → Loadable S
fresh s = record { state = incomplete; object = s }

module _ {S : Type 0} (load_object : S → ResultCode × S) where
  unfoldable pub load : Loadable S → ResultCode × Loadable S
  unfolding is_successful_only
  load l =
      let (ret_code, s) = load_object l.object in
      (
        ret_code,
        record { state = if is_successful_only ret_code then complete else incomplete; object = s },
      )

  -- `load_if_notloaded`, by way of the default `_load_if_notloaded`
  unfoldable pub load_if_notloaded : Loadable S → ResultCode × Loadable S
  unfolding load
  load_if_notloaded l = elim (l.state) [
    | incomplete ↦ load l
    | complete ↦ (success_already_loaded, l)
  ]
