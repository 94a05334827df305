-- ===== src/Exec.antt =====
-- Go's `(T, error)` results, panics and mutable state. An error is its text. What was written
-- before an error or a panic stays written.
pub mod Laws
pub mod Gives
pub mod Safe
use golang_imageindex_list.Prelude.{
  List, [], ◌∷◌, Option, none, some, Bytes, ◌≡◌, refl, ◌⊎◌, inl, inr,
}

pub data Result {ℓ} (A : Type ℓ) : Type ℓ where
  ok : A → Result A
  err : Bytes → Result A

pub Result-cases {ℓ} :
    {A : Type ℓ} (r : Result A) → ((a : A) × (r ≡ ok a)) ⊎ ((e : Bytes) × (r ≡ err e))
Result-cases (ok a) = inl (a, refl)
Result-cases (err e) = inr (e, refl)

pub data Outcome {ℓ} (A : Type ℓ) : Type ℓ where
  returned : A → Outcome A
  failed : Bytes → Outcome A
  panicked : Outcome A

abbrev pub outcome {ℓ} : {A : Type ℓ} → Result A → Outcome A
outcome (ok a) = returned a
outcome (err e) = failed e

-- `return fmt.Errorf(wrapping, err)` in place of `return err`
abbrev pub rewrap {ℓ} : {A : Type ℓ} → (Bytes → Bytes) → Outcome A → Outcome A
rewrap wrap (returned a) = returned a
rewrap wrap (failed e) = failed (wrap e)
rewrap wrap panicked = panicked

abbrev pub Exec {ℓ} : Type ℓ → Type ℓ → Type ℓ
Exec S A = S → Outcome A × S

module _ {ℓ} {S A : Type ℓ} where
  unfoldable pub pure : A → Exec S A
  pure a s = (returned a, s)

  -- `return err`
  unfoldable pub fail : Bytes → Exec S A
  fail e s = (failed e, s)

  -- An index out of range, or a nil pointer.
  unfoldable pub panic : Exec S A
  panic s = (panicked, s)

  -- `if err != nil { return err }`
  unfoldable pub lift : Result A → Exec S A
  lift r s = (outcome r, s)

  -- A dereference, or an index expression that is checked at run time.
  unfoldable pub deref : Option A → Exec S A
  unfolding pure panic
  deref none = panic
  deref (some a) = pure a

  unfoldable pub gets : (S → A) → Exec S A
  gets f s = (returned (f s), s)

  -- The error and the value of a call, both in hand.
  abbrev pub caught : Outcome A → S → Outcome (Result A) × S
  caught (returned a) s = (returned (ok a), s)
  caught (failed e) s = (returned (err e), s)
  caught panicked s = (panicked, s)

  unfoldable pub try : Exec S A → Exec S (Result A)
  try m s = let (r, s') = m s in caught r s'

  unfoldable pub wrapped : (Bytes → Bytes) → Exec S A → Exec S A
  wrapped wrap m s = let (r, s') = m s in (rewrap wrap r, s')

unfoldable pub modify : {S : Type 0} → (S → S) → Exec S Unit
modify f s = (returned tt, f s)

module _ {ℓ} {S A B : Type ℓ} where
  abbrev pub continue : Outcome A → (A → Exec S B) → Exec S B
  continue (returned a) rest now = rest a now
  continue (failed e) rest now = (failed e, now)
  continue panicked rest now = (panicked, now)

  infixl 10 ◌>>=◌
  -- Opening this opens the other actions too.
  unfoldable pub ◌>>=◌ : Exec S A → (A → Exec S B) → Exec S B
  unfolding pure fail panic lift deref gets try wrapped modify
  ◌>>=◌ first rest before = let (result, after) = first before in continue result rest after

  infixl 10 ◌>>◌
  abbrev pub ◌>>◌ : Exec S A → Exec S B → Exec S B
  first >> second = first >>= λ _. second

-- `for _, x := range xs`, whose body may return early.
unfoldable pub for_each : {S A : Type 0} → List A → (A → Exec S Unit) → Exec S Unit
for_each [] body = pure tt
for_each (x ∷ xs) body = do body x; for_each xs body
