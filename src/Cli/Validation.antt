-- ===== src/Cli/Validation.antt =====
-- What `Validate` lets through.
use golang_imageindex_list.Prelude.{
  ℕ, Bytes, codes, List, [], ◌∷◌, ◌≡◌, ◌↔◌, inl, inr, refl, arith, true, false, Bool-cases,
  bytes_eq, bytes_eq_sound,
}
use golang_imageindex_list.Strings.{contains}
use golang_imageindex_list.Exec.{
  Outcome, panicked, continue, modify, returned, failed, pure, fail, ◌>>=◌,
}
use golang_imageindex_list.Os.{Os}
use golang_imageindex_list.World.{World}
use golang_imageindex_list.Manifest.Formats.{Formats}
use golang_imageindex_list.Mirror.Images.{Images}
use golang_imageindex_list.Log.{log_info}
use golang_imageindex_list.Cli.Executor.{check_type, validate}
use golang_imageindex_list.Cli.Main.{run_command, after_validate}

-- An image type that the command knows, with a reference that names it.
pub data IsRequest (image_type reference : Bytes) : Type 0 where
  operator :
      image_type ≡ codes "operator"
      → contains reference (codes "operator") ≡ true
      → IsRequest image_type reference
  release :
      image_type ≡ codes "release"
      → contains reference (codes "release") ≡ true
      → IsRequest image_type reference

contains-ne-nil :
    (s : Bytes) (c : ℕ) (sub : Bytes) → contains s (c ∷ sub) ≡ true → bytes_eq s [] ≡ false
unfolding contains bytes_eq
contains-ne-nil [] c sub h = cc
contains-ne-nil (d ∷ s) c sub h = refl

module _ {O : Os} (image_type : Bytes) (args : List Bytes) (w : World O) where
  accepted_request :
      (validate (image_type ∷ args) w).0 ≡ returned tt
      → IsRequest image_type w.opts.global.reference
  unfolding validate check_type ◌>>=◌
  accepted_request h = elim (Bool-cases (bytes_eq image_type (codes "operator"))) [
    | inl is_operator ↦ elim (Bool-cases (contains w.opts.global.reference (codes "operator"))) [
      | inl named ↦ operator (bytes_eq_sound _ _ is_operator) named
      | inr unnamed ↦ absurd (ground arith)
    ]
    | inr not_operator ↦ elim (Bool-cases (bytes_eq image_type (codes "release"))) [
      | inl is_release ↦ elim (Bool-cases (contains w.opts.global.reference (codes "release"))) [
        | inl named ↦ release (bytes_eq_sound _ _ is_release) named
        | inr unnamed ↦ absurd (ground arith)
      ]
      | inr neither ↦ absurd (ground arith)
    ]
  ]

  request_accepted :
      IsRequest image_type w.opts.global.reference
      → (validate (image_type ∷ args) w).0 ≡ returned tt
  unfolding validate check_type ◌>>=◌ bytes_eq
  request_accepted (operator is_operator named) =
      rw (contains-ne-nil w.opts.global.reference _ _ named, is_operator, named)
  request_accepted (release is_release named) =
      rw (contains-ne-nil w.opts.global.reference _ _ named, is_release, named)

  -- Given a first argument, `Validate` succeeds exactly when that is `operator` or `release` and the
  -- reference contains that word.
  pub validate_iff :
      ((validate (image_type ∷ args) w).0 ≡ returned tt)
      ↔ IsRequest image_type w.opts.global.reference
  validate_iff = (accepted_request, request_accepted)

module _ {O : Os} (w : World O) where
  check_type-unchanged :
      (image_type reference e : Bytes)
      → (check_type image_type reference w).0 ≡ failed e
      → (check_type image_type reference w).1 ≡ w
  unfolding check_type pure fail
  check_type-unchanged image_type reference e h =
      elim (Bool-cases (bytes_eq image_type (codes "operator"))) [
        | inl a ↦ elim (Bool-cases (contains reference (codes "operator"))) [
          | inl b ↦ rw (a, b)
          | inr b ↦ rw (a, b)
        ]
        | inr a ↦ elim (Bool-cases (bytes_eq image_type (codes "release"))) [
          | inl b ↦ elim (Bool-cases (contains reference (codes "release"))) [
            | inl c ↦ rw (a, b, c)
            | inr c ↦ rw (a, b, c)
          ]
          | inr b ↦ rw (a, b)
        ]
      ]

  after_check :
      (r : Outcome (Unit {0})) (now : World O) (e format : Bytes) (texts : List Bytes)
      → (r ≡ failed e → now ≡ w)
      → (continue r (λ _. log_info format texts) now).0 ≡ failed e
      → (continue r (λ _. log_info format texts) now).1 ≡ w
  unfolding modify
  after_check (returned _) now e format texts k h = cc
  after_check (failed d) now e format texts k h = k h
  after_check panicked now e format texts k h = cc

  validate-unchanged :
      (args : List Bytes) (e : Bytes) → (validate args w).0 ≡ failed e → (validate args w).1 ≡ w
  unfolding validate ◌>>=◌
  validate-unchanged [] e h = elim (Bool-cases (bytes_eq w.opts.global.reference [])) [
    | inl none_given ↦ rw none_given
    | inr given ↦ rw given
  ]
  validate-unchanged (image_type ∷ args) e h =
      elim (Bool-cases (bytes_eq w.opts.global.reference [])) [
        | inl none_given ↦ rw none_given
        | inr given ↦ rw given (
            after_check _ _ e _ _ (check_type-unchanged image_type w.opts.global.reference e)
              (rw given at h))
      ]

  refused_unchanged :
      (args : List Bytes) (e : Bytes)
      → (validate args w).0 ≡ failed e
      → validate args w ≡ (failed e, w)
  refused_unchanged args e h = λ i. (h i, validate-unchanged args e h i)

module _ {O : Os} (formats : Formats) (images : Images O) (args : List Bytes) (w : World O) where
  -- A request that `Validate` refuses, for whatever reason, ends with status 1 and has no other
  -- effect: nothing is logged, so the reason is lost, and the file system is as before.
  pub run_command_refused :
      {e : Bytes}
      → (validate args w).0 ≡ failed e
      → run_command formats images args w ≡ (returned 1, w)
  unfolding run_command after_validate ◌>>=◌
  run_command_refused {e} h = rw (refused_unchanged w args e h)
