-- ===== src/World/Safe.antt =====
-- Calls of the file system do not panic.
use golang_imageindex_list.Exec.{Result, ok, err, outcome, panicked}
use golang_imageindex_list.Exec.Safe.{IsSafe}
use golang_imageindex_list.Prelude.{◌≢◌}
use golang_imageindex_list.Os.{Os}
use golang_imageindex_list.World.{os_call, os_read}

outcome_safe : {A : Type 0} (r : Result A) → outcome r ≢ panicked
outcome_safe (ok a) h = cc
outcome_safe (err e) h = cc

module _ {O : Os} {A : Type 0} where
  pub IsSafe-os_call : (f : O.State → Result A × O.State) → IsSafe (os_call {O = O} f)
  unfolding os_call
  IsSafe-os_call f = record { at = λ w. outcome_safe (f w.os).0 }

  pub IsSafe-os_read : (f : O.State → Result A) → IsSafe (os_read {O = O} f)
  unfolding os_read
  IsSafe-os_read f = record { at = λ w. outcome_safe (f w.os) }
