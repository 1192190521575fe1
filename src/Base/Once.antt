-- ===== src/Base/Once.antt =====
-- A `Loadable` object is loaded until one load has succeeded, and never again by `load_if_notloaded`.
use mach_olib.Common.{ℕ, zero, suc, ◌≡◌, refl, if◌then◌else◌}
use mach_olib.Base.{
  ResultCode, success, success_already_loaded, bad_macho, fail, is_successful_only, incomplete,
  complete, Loadable, fresh, load_if_notloaded,
}

module _ {S : Type 0} (load_object : S → ResultCode × S) where
  -- The object after so many calls of `load_if_notloaded`, whose results the callers ignore.
  unfoldable pub calls : ℕ → Loadable S → Loadable S
  unfolding load_if_notloaded
  calls zero l = l
  calls (suc n) l = calls n (load_if_notloaded load_object l).1

  -- At most so many runs of the derived class's `_load`, up to the first that succeeds.
  unfoldable pub attempts : ℕ → S → Loadable S
  attempts zero s = fresh s
  attempts (suc n) s =
      let (ret_code, s') = load_object s in
      let again = attempts n s' in
      elim ret_code [ success ↦ record { state = complete; object = s' } | _ ↦ again ]

  calls-complete :
      (n : ℕ) (s : S)
      → calls n (record { state = complete; object = s }) ≡ record { state = complete; object = s }
  unfolding calls
  calls-complete zero s = refl
  calls-complete (suc n) s = calls-complete n s

  -- Any number of calls of `load_if_notloaded` on a new object runs the derived class's `_load` until
  -- it first gives the plain success code, and no more: the object is what those runs leave, and it is
  -- marked complete if the last of them succeeded.
  pub calls-attempts : (n : ℕ) (s : S) → calls n (fresh s) ≡ attempts n s
  unfolding calls attempts is_successful_only
  calls-attempts zero s = refl
  calls-attempts (suc n) s = by_code (load_object s) (λ s'. calls-attempts n s')
    where
      by_code :
          (out : ResultCode × S)
          → ((s' : S) → calls n (fresh s') ≡ attempts n s')
          → calls n (record {
            state = if is_successful_only out.0 then complete else incomplete;
            object = out.1;
          })
            ≡ elim (out.0) [
              | success ↦ record { state = complete; object = out.1 }
              | _ ↦ attempts n out.1
            ]
      by_code (success, s') again = calls-complete n s'
      by_code (success_already_loaded, s') again = again s'
      by_code (bad_macho, s') again = again s'
      by_code (fail, s') again = again s'
