-- ===== src/Cli/Status.antt =====
-- The exit status of the command, and which image type it lists.
use golang_imageindex_list.Prelude.{Bytes, List, ◌≡◌, ◌↔◌, refl}
use golang_imageindex_list.Exec.{
  Outcome, returned, failed, panicked, Exec, continue, caught, try, ◌>>=◌,
}
use golang_imageindex_list.Os.{Os}
use golang_imageindex_list.World.{World}
use golang_imageindex_list.Manifest.Formats.{Formats}
use golang_imageindex_list.Mirror.Images.{Images}
use golang_imageindex_list.Cli.Executor.{validate, complete, run}
use golang_imageindex_list.Cli.Main.{after_run, after_validate, run_command}

module _ {O : Os} where
  status_of_run :
      (r : Outcome (Unit {0})) (w : World O)
      → ((continue (caught r w).0 after_run (caught r w).1).0 ≡ returned 0) ↔ (r ≡ returned tt)
  unfolding after_run ◌>>=◌
  status_of_run (returned _) w = (λ p. refl, λ p. refl)
  status_of_run (failed e) w = (λ p. absurd cc, λ p. absurd cc)
  status_of_run panicked w = (λ p. absurd cc, λ p. absurd cc)

  status_behind :
      {A : Type 0} (r : Outcome A) (w : World O) (n : A → Exec (World O) (Unit {0}))
      → ((continue r (λ a. try (n a) >>= after_run) w).0 ≡ returned 0)
        ↔ ((continue r n w).0 ≡ returned tt)
  unfolding ◌>>=◌
  status_behind (returned a) w n = status_of_run (n a w).0 (n a w).1
  status_behind (failed e) w n = (λ p. absurd cc, λ p. absurd cc)
  status_behind panicked w n = (λ p. absurd cc, λ p. absurd cc)

  state_of_run :
      (r : Outcome (Unit {0})) (w : World O)
      → (continue (caught r w).0 after_run (caught r w).1).0 ≡ returned 0
      → (continue (caught r w).0 after_run (caught r w).1).1 ≡ w
  unfolding after_run ◌>>=◌
  state_of_run (returned _) w p = refl
  state_of_run (failed e) w p = absurd cc
  state_of_run panicked w p = absurd cc

  state_behind :
      {A : Type 0} (r : Outcome A) (w : World O) (n : A → Exec (World O) (Unit {0}))
      → (continue r (λ a. try (n a) >>= after_run) w).0 ≡ returned 0
      → (continue r (λ a. try (n a) >>= after_run) w).1 ≡ (continue r n w).1
  unfolding ◌>>=◌
  state_behind (returned a) w n p = state_of_run (n a w).0 (n a w).1 p
  state_behind (failed e) w n p = absurd cc
  state_behind panicked w n p = absurd cc

module _ {O : Os} (formats : Formats) (images : Images O) where
  module _ (args : List Bytes) where
    -- `Validate` lets the arguments through, and `Complete` with `Run` return no error behind it.
    pub record Succeeds (w : World O) : Type 0 where
      pub valid : (validate args w).0 ≡ returned tt
      pub finished : ((complete formats images args >>= run) (validate args w).1).0 ≡ returned tt

    behind_validation :
        (r : Outcome (Unit {0})) (w : World O)
        → ((continue (caught r w).0 (after_validate formats images args) (caught r w).1).0
            ≡ returned 0)
          ↔ ((r ≡ returned tt) × (((complete formats images args >>= run) w).0 ≡ returned tt))
    unfolding after_validate ◌>>=◌
    behind_validation (returned _) w =
        let both =
          status_behind (complete formats images args w).0 (complete formats images args w).1 run in
        (λ p. (refl, both.0 p), λ q. both.1 q.1)
    behind_validation (failed e) w = (λ p. absurd cc, λ q. absurd cc)
    behind_validation panicked w = (λ p. absurd cc, λ q. absurd cc)

    -- The exit status is 0 exactly when `Validate`, `Complete` and `Run` all return without an error.
    pub run_command_status_iff :
        (w : World O) → ((run_command formats images args w).0 ≡ returned 0) ↔ Succeeds w
    unfolding run_command ◌>>=◌
    run_command_status_iff w =
        let both = behind_validation (validate args w).0 (validate args w).1 in
        (
          λ p. record { valid = (both.0 p).0; finished = (both.0 p).1 },
          λ s. both.1 (s.valid, s.finished),
        )

    behind_state :
        (r : Outcome (Unit {0})) (w : World O)
        → (continue (caught r w).0 (after_validate formats images args) (caught r w).1).0
          ≡ returned 0
        → (continue (caught r w).0 (after_validate formats images args) (caught r w).1).1
          ≡ ((complete formats images args >>= run) w).1
    unfolding after_validate ◌>>=◌
    behind_state (returned _) w p =
        state_behind (complete formats images args w).0 (complete formats images args w).1 run p
    behind_state (failed e) w p = absurd cc
    behind_state panicked w p = absurd cc

    -- A run with status 0 leaves the state that `Complete` and `Run` leave.
    pub succeeds_state :
        (w : World O)
        → (run_command formats images args w).0 ≡ returned 0
        → (run_command formats images args w).1
          ≡ ((complete formats images args >>= run) (validate args w).1).1
    unfolding run_command ◌>>=◌
    succeeds_state w = behind_state (validate args w).0 (validate args w).1
