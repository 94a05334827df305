-- ===== src/Exec/Laws.antt =====
-- Sequencing is associative, and passes on what the first action gives.
use mathlib.Core.Path.{fun_ext}
use golang_imageindex_list.Prelude.{Bytes, some, ◌≡◌, ◌≢◌, refl}
use golang_imageindex_list.Exec.{
  Outcome, returned, failed, panicked, Exec, fail, deref, continue, ◌>>=◌, ◌>>◌,
}

module _ {S A B C : Type 0} (second : A → Exec S B) (third : B → Exec S C) where
  continue_assoc :
      (r : Outcome A) (now : S)
      → (continue r second >>= third) now ≡ continue r (λ a. second a >>= third) now
  unfolding ◌>>=◌
  continue_assoc (returned a) now = refl
  continue_assoc (failed e) now = refl
  continue_assoc panicked now = refl

  assoc_at :
      (first : Exec S A) (now : S)
      → (first >>= second >>= third) now ≡ (first >>= λ a. second a >>= third) now
  unfolding ◌>>=◌
  assoc_at first now = continue_assoc (first now).0 (first now).1

pub bind_assoc :
    {S A B C : Type 0} (first : Exec S A) (second : A → Exec S B) (third : B → Exec S C)
    → (first >>= second >>= third) ≡ (first >>= λ a. second a >>= third)
bind_assoc first second third = fun_ext (assoc_at second third first)

pub fail-bind : {S A B : Type 0} (e : Bytes) (f : A → Exec S B) → (fail {S = S} e >>= f) ≡ fail e
unfolding ◌>>=◌
fail-bind e f = refl

pub deref-bind : {S A B : Type 0} (a : A) (f : A → Exec S B) → (deref {S = S} (some a) >>= f) ≡ f a
unfolding ◌>>=◌
deref-bind a f = refl

module _ {S A B : Type 0} (m : Exec S A) (f : A → Exec S B) {s t : S} where
  pub bind_returned : {a : A} → m s ≡ (returned a, t) → (m >>= f) s ≡ f a t
  unfolding ◌>>=◌
  bind_returned h = rw h

  pub bind_failed : {e : Bytes} → m s ≡ (failed e, t) → (m >>= f) s ≡ (failed e, t)
  unfolding ◌>>=◌
  bind_failed h = rw h

  pub bind_panicked : m s ≡ (panicked, t) → (m >>= f) s ≡ (panicked, t)
  unfolding ◌>>=◌
  bind_panicked h = rw h

module _ {S A B : Type 0} where
  -- A sequence returns a value only if its second action does.
  pub not_returned :
      (r : Outcome A) (s : S) (f : A → Exec S B)
      → ((a : A) → r ≡ returned a → (b : B) → (f a s).0 ≢ returned b)
      → (b : B) → (continue r f s).0 ≢ returned b
  not_returned (returned a) s f h b = h a refl b
  not_returned (failed e) s f h b = λ p. cc
  not_returned panicked s f h b = λ p. cc

  pub bind_not_returned :
      (m : Exec S A) (f : A → Exec S B) (s : S)
      → ((a : A) (b : B) → (f a (m s).1).0 ≢ returned b)
      → (b : B) → ((m >>= f) s).0 ≢ returned b
  unfolding ◌>>=◌
  bind_not_returned m f s h = not_returned (m s).0 (m s).1 f (λ a _. h a)

module _ {S A B : Type 0} where
  behind_same :
      (r : Outcome A) (now : S) (f f' : A → Exec S B)
      → ((a : A) → f a now ≡ f' a now)
      → continue r f now ≡ continue r f' now
  behind_same (returned a) now f f' h = h a
  behind_same (failed e) now f f' h = refl
  behind_same panicked now f f' h = refl

  -- Two second actions that do the same in the state that the first one leaves.
  pub bind_same :
      (m : Exec S A) (f f' : A → Exec S B) (s : S)
      → ((a : A) → f a (m s).1 ≡ f' a (m s).1)
      → (m >>= f) s ≡ (m >>= f') s
  unfolding ◌>>=◌
  bind_same m f f' s h = behind_same (m s).0 (m s).1 f f' h

module _ {S : Type 0} where
  -- A sequence that returns returns from its first action, and goes on behind it.
  pub sequence_returned :
      (m n : Exec S (Unit {0})) (s : S)
      → ((m >> n) s).0 ≡ returned tt
      → ((m s).0 ≡ returned tt) × ((m >> n) s ≡ n (m s).1)
  unfolding ◌>>=◌
  sequence_returned m n s h = by_outcome (m s).0 (m s).1 h
    where
      by_outcome :
          (r : Outcome (Unit {0})) (now : S)
          → (continue r (λ _. n) now).0 ≡ returned tt
          → (r ≡ returned tt) × (continue r (λ _. n) now ≡ n now)
      by_outcome (returned _) now h = (refl, refl)
      by_outcome (failed e) now h = absurd cc
      by_outcome panicked now h = absurd cc
