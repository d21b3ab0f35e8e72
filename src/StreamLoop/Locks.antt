-- ===== src/StreamLoop/Locks.antt =====
-- loop.c, `set_gk`: the lock of a stream that has gone.
use school_project.Common.{ℕ, ◌≡◌, ◌≢◌, refl, true, false, none, List, ◌==◌, Bytes, arith}
use school_project.StreamTable.{DataHead}
use school_project.StreamLoop.{check_gk, set_gk, update_dh}

-- If the lock of a head is free and its stream has gone, `set_gk` with a method other than 5 leaves
-- the lock held; then every later `check_gk`, `set_gk` and `update_dh` does nothing.
pub set_gk-leak :
    (method : ℕ) (dh : DataHead)
    → method ≢ 5
    → dh.locked ≡ false
    → dh.a_tcp ≡ none
    → ((set_gk method dh).locked ≡ true)
      × ((gk_method : ℕ) → check_gk gk_method (set_gk method dh) ≡ (false, set_gk method dh))
      × ((m : ℕ) → set_gk m (set_gk method dh) ≡ set_gk method dh)
      × ((request : List Bytes) → update_dh request (set_gk method dh) ≡ set_gk method dh)
unfolding set_gk check_gk update_dh
set_gk-leak method dh other free gone =
    let test : (method == 5) ≡ false = ground arith in
    let r : set_gk method dh ≡ record dh { locked = true } = simp (test, free, gone, set_gk) in
    rw r (refl, (λ g. refl), (λ m. ground arith), λ q. refl)
