-- ===== src/Exec/Gives.antt =====
-- Actions that do not fail, with what is known of the values that they return. They may panic.
use golang_imageindex_list.Prelude.{Option, none, some, ◌≡◌, ◌≢◌, refl}
use golang_imageindex_list.Exec.{
  Outcome, returned, failed, panicked, Exec, pure, deref, gets, modify, try, caught, continue,
  ◌>>=◌,
}

abbrev pub IsGiven : {A : Type 0} → (A → Type 0) → Outcome A → Type 0
IsGiven Good (returned a) = Good a
IsGiven Good (failed e) = ⊥
IsGiven Good panicked = Unit

module _ {S A : Type 0} where
  pub record Gives (Good : A → Type 0) (m : Exec S A) : Type 0 where
    pub at : (s : S) → IsGiven Good (m s).0

module _ {A : Type 0} (Good : A → Type 0) where
  given_value :
      (r : Outcome A) → IsGiven Good r → r ≢ panicked → (a : A) × ((r ≡ returned a) × Good a)
  given_value (returned a) g h = (a, (refl, g))
  given_value (failed e) g h = absurd g
  given_value panicked g h = absurd (h refl)

module _ {S A : Type 0} (Good : A → Type 0) where
  pub Gives-pure : (a : A) → Good a → Gives {S = S} Good (pure a)
  unfolding pure
  Gives-pure a h = record { at = λ s. h }

  pub Gives-gets : (f : S → A) → ((s : S) → Good (f s)) → Gives Good (gets f)
  unfolding gets
  Gives-gets f h = record { at = h }

  pub Gives-deref : (o : Option A) → ((a : A) → Good a) → Gives {S = S} Good (deref o)
  unfolding deref ◌>>=◌
  Gives-deref none h = record { at = λ s. tt }
  Gives-deref (some a) h = record { at = λ s. h a }

  -- Such an action returns a good value where it does not panic.
  pub Gives-value :
      (m : Exec S A)
      → Gives Good m
      → (s : S) → (m s).0 ≢ panicked
      → (a : A) × (((m s).0 ≡ returned a) × Good a)
  Gives-value m g s = given_value Good (m s).0 (g.at s)

abbrev pub Anything : {A : Type 0} → A → Type 0
Anything a = Unit

pub Gives-modify : {S : Type 0} (f : S → S) → Gives Anything (modify f)
unfolding modify
Gives-modify f = record { at = λ s. tt }

module _ {S A : Type 0} where
  IsGiven-caught : (r : Outcome A) (s : S) → IsGiven Anything (caught r s).0
  IsGiven-caught (returned a) s = tt
  IsGiven-caught (failed e) s = tt
  IsGiven-caught panicked s = tt

  pub Gives-try : (m : Exec S A) → Gives Anything (try m)
  unfolding try
  Gives-try m = record { at = λ s. IsGiven-caught (m s).0 (m s).1 }

module _ {S A B : Type 0} (Good : B → Type 0) where
  IsGiven-continue :
      (r : Outcome A) (s : S) (f : A → Exec S B)
      → IsGiven Anything r
      → ((a : A) → Gives Good (f a))
      → IsGiven Good (continue r f s).0
  IsGiven-continue (returned a) s f g h = (h a).at s
  IsGiven-continue (failed e) s f g h = absurd g
  IsGiven-continue panicked s f g h = tt

  pub Gives-bind :
      (m : Exec S A) (f : A → Exec S B)
      → Gives Anything m
      → ((a : A) → Gives Good (f a))
      → Gives Good (m >>= f)
  unfolding ◌>>=◌
  Gives-bind m f g h = record { at = λ s. IsGiven-continue (m s).0 (m s).1 f (g.at s) h }
