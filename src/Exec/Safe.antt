-- ===== src/Exec/Safe.antt =====
-- Actions that do not panic, one rule for each way to build an action.
use golang_imageindex_list.Prelude.{
  arith, Option, some, Bytes, List, [], ◌∷◌, Bool, true, false, ◌≡◌, ◌≢◌, refl, All, if◌then◌else◌,
}
use mathlib.Core.Path.{subst}
use golang_imageindex_list.Exec.{
  Result, ok, err, Outcome, returned, failed, panicked, Exec, pure, fail, lift, deref, gets, modify,
  try, wrapped, for_each, caught, continue, rewrap, ◌>>=◌,
}

module _ {S A : Type 0} where
  -- `m` does not panic.
  pub record IsSafe (m : Exec S A) : Type 0 where
    pub at : (s : S) → (m s).0 ≢ panicked

  -- `m` does not panic, and what it returns is good.
  pub record Yields (Good : A → Type 0) (m : Exec S A) : Type 0 where
    pub safe : IsSafe m
    pub good : (s : S) (a : A) → (m s).0 ≡ returned a → Good a

pub rewrap_safe :
    {A : Type 0} (wrap : Bytes → Bytes) (r : Outcome A) → r ≢ panicked → rewrap wrap r ≢ panicked
rewrap_safe wrap (returned a) h e = cc
rewrap_safe wrap (failed d) h e = cc
rewrap_safe wrap panicked h e = h refl

module _ {S A : Type 0} where
  pub IsSafe-pure : (a : A) → IsSafe (pure {S = S} a)
  unfolding pure
  IsSafe-pure a = record { at = λ s h. cc }

  pub IsSafe-fail : (e : Bytes) → IsSafe (fail {S = S} {A = A} e)
  unfolding fail
  IsSafe-fail e = record { at = λ s h. cc }

  pub IsSafe-lift : (r : Result A) → IsSafe (lift {S = S} r)
  unfolding lift
  IsSafe-lift (ok a) = record { at = λ s h. cc }
  IsSafe-lift (err e) = record { at = λ s h. cc }

  pub IsSafe-gets : (f : S → A) → IsSafe (gets f)
  unfolding gets
  IsSafe-gets f = record { at = λ s h. cc }

  pub caught_safe : (r : Outcome A) (s : S) → r ≢ panicked → (caught r s).0 ≢ panicked
  caught_safe (returned a) s h e = cc
  caught_safe (failed d) s h e = cc
  caught_safe panicked s h e = h refl

  pub IsSafe-try : (m : Exec S A) → IsSafe m → IsSafe (try m)
  unfolding try
  IsSafe-try m k = record { at = λ s. caught_safe (m s).0 (m s).1 (k.at s) }

  pub IsSafe-wrapped : (wrap : Bytes → Bytes) (m : Exec S A) → IsSafe m → IsSafe (wrapped wrap m)
  unfolding wrapped
  IsSafe-wrapped wrap m k = record { at = λ s. rewrap_safe wrap (m s).0 (k.at s) }

  pub IsSafe-if :
      (b : Bool) (m n : Exec S A)
      → (b ≡ true → IsSafe m)
      → (b ≡ false → IsSafe n)
      → IsSafe (if b then m else n)
  IsSafe-if true m n km kn = km refl
  IsSafe-if false m n km kn = kn refl

pub IsSafe-modify : {S : Type 0} (f : S → S) → IsSafe (modify f)
unfolding modify
IsSafe-modify f = record { at = λ s h. cc }

module _ {S A B : Type 0} where
  continue_safe :
      (Good : A → Type 0) (r : Outcome A) (s : S) (f : A → Exec S B)
      → r ≢ panicked
      → ((a : A) → r ≡ returned a → Good a)
      → ((a : A) → Good a → IsSafe (f a))
      → (continue r f s).0 ≢ panicked
  continue_safe Good (returned a) s f h g k = (k a (g a refl)).at s
  continue_safe Good (failed e) s f h g k = λ p. cc
  continue_safe Good panicked s f h g k = λ p. h refl

  -- The rest may use what is known of the value.
  pub IsSafe-bind_good :
      {Good : A → Type 0} (m : Exec S A) (f : A → Exec S B)
      → Yields Good m
      → ((a : A) → Good a → IsSafe (f a))
      → IsSafe (m >>= f)
  unfolding ◌>>=◌
  IsSafe-bind_good {Good} m f y k = record {
    at = λ s. continue_safe Good (m s).0 (m s).1 f (y.safe.at s) (y.good s) k;
  }

  pub IsSafe-bind :
      (m : Exec S A) (f : A → Exec S B) → IsSafe m → ((a : A) → IsSafe (f a)) → IsSafe (m >>= f)
  unfolding ◌>>=◌
  IsSafe-bind m f k kf = record {
    at = λ s. continue_safe (λ _. Unit {0}) (m s).0 (m s).1 f (k.at s) (λ a _. tt) (λ a _. kf a);
  }

module _ {S A B : Type 0} (m : Exec S A) (f : A → Exec S B) (s : S) where
  behind_safe :
      (r : Outcome A) (t : S)
      → r ≢ panicked
      → ((a : A) → r ≡ returned a → (f a t).0 ≢ panicked)
      → (continue r f t).0 ≢ panicked
  behind_safe (returned a) t h k = k a refl
  behind_safe (failed e) t h k = λ p. cc
  behind_safe panicked t h k = λ p. h refl

  -- The rest may use where the first action returned.
  pub bind_safe_at :
      (m s).0 ≢ panicked
      → ((a : A) → (m s).0 ≡ returned a → (f a (m s).1).0 ≢ panicked)
      → ((m >>= f) s).0 ≢ panicked
  unfolding ◌>>=◌
  bind_safe_at h k = behind_safe (m s).0 (m s).1 h k

  -- The sequence may be looked at as a whole where its first action returns.
  pub bind_safe_returned :
      (m s).0 ≢ panicked
      → ((a : A) → (m s).0 ≡ returned a → ((m >>= f) s).0 ≢ panicked)
      → ((m >>= f) s).0 ≢ panicked
  unfolding ◌>>=◌
  bind_safe_returned h k =
      bind_safe_at h (λ a e. subst (λ r. (continue r f (m s).1).0 ≢ panicked) e (k a e))

module _ {S A : Type 0} where
  -- A loop is safe if its body is at every element.
  pub IsSafe-for_each :
      (Good : A → Type 0) (xs : List A) (body : A → Exec S (Unit {0}))
      → All Good xs
      → ((x : A) → Good x → IsSafe (body x))
      → IsSafe (for_each xs body)
  unfolding for_each
  IsSafe-for_each Good [] body _ k = IsSafe-pure tt
  IsSafe-for_each Good (x ∷ xs) body (g, gs) k =
      IsSafe-bind (body x) _ (k x g) (λ _. IsSafe-for_each Good xs body gs k)

  pub IsSafe-for_every :
      (xs : List A) (body : A → Exec S (Unit {0}))
      → ((x : A) → IsSafe (body x))
      → IsSafe (for_each xs body)
  unfolding for_each
  IsSafe-for_every [] body k = IsSafe-pure tt
  IsSafe-for_every (x ∷ xs) body k = IsSafe-bind (body x) _ (k x) (λ _. IsSafe-for_every xs body k)

pub Yields-fail : {S A : Type 0} {Good : A → Type 0} (e : Bytes) → Yields Good (fail {S = S} e)
unfolding fail
Yields-fail e = record { safe = record { at = λ w h. cc }; good = λ w a h. cc }

pub Yields-pure : {S A : Type 0} {Good : A → Type 0} (a : A) → Good a → Yields Good (pure {S = S} a)
unfolding pure
Yields-pure {Good} a p = record {
  safe = record { at = λ w h. cc };
  good = λ w b h. subst Good (ground arith) p;
}

-- What a dereference gives is there.
pub Yields-deref :
    {S A : Type 0} {Good : A → Type 0} {o : Option A} (a : A)
    → o ≡ some a
    → Good a
    → Yields Good (deref {S = S} o)
unfolding deref
Yields-deref {Good} a e g =
    rw e (record { safe = record { at = λ s h. cc }; good = λ s b h. subst Good (ground arith) g })

rewrap_good :
    {A : Type 0} (wrap : Bytes → Bytes) (r : Outcome A) (a : A)
    → rewrap wrap r ≡ returned a
    → r ≡ returned a
rewrap_good wrap (returned b) a h = h
rewrap_good wrap (failed e) a h = cc
rewrap_good wrap panicked a h = cc

-- A caught result is good if it is a value.
abbrev pub GoodResult : {A : Type 0} → (A → Type 0) → Result A → Type 0
GoodResult Good (ok a) = Good a
GoodResult Good (err e) = Unit

module _ {S A : Type 0} {Good : A → Type 0} where
  pub Yields-wrapped :
      (wrap : Bytes → Bytes) (m : Exec S A) → Yields Good m → Yields Good (wrapped wrap m)
  unfolding wrapped
  Yields-wrapped wrap m y = record {
    safe = record { at = λ s. rewrap_safe wrap (m s).0 (y.safe.at s) };
    good = λ s a h. y.good s a (rewrap_good wrap (m s).0 a h);
  }

  caught_good :
      (r : Outcome A) (s : S) (v : Result A)
      → ((a : A) → r ≡ returned a → Good a)
      → (caught r s).0 ≡ returned v
      → GoodResult Good v
  caught_good (returned a) s (ok b) g h = subst Good (ground arith) (g a refl)
  caught_good r s (err e) g h = tt
  caught_good (failed d) s (ok b) g h = cc
  caught_good panicked s (ok b) g h = cc

  pub Yields-try : (m : Exec S A) → Yields Good m → Yields (GoodResult Good) (try m)
  unfolding try
  Yields-try m y = record {
    safe = record { at = λ s. caught_safe (m s).0 (m s).1 (y.safe.at s) };
    good = λ s v. caught_good (m s).0 (m s).1 v (y.good s);
  }

pub Yields-lift :
    {S A : Type 0} {Good : A → Type 0} (r : Result A)
    → ((a : A) → r ≡ ok a → Good a)
    → Yields Good (lift {S = S} r)
unfolding lift
Yields-lift (ok b) h = record { safe = IsSafe-lift (ok b); good = λ s a e. h a (ground arith) }
Yields-lift (err d) h = record { safe = IsSafe-lift (err d); good = λ s a e. cc }

module _ {S A B : Type 0} {Good : B → Type 0} where
  continue_good :
      (r : Outcome A) (s : S) (f : A → Exec S B)
      → ((a : A) → Yields Good (f a))
      → (b : B) → (continue r f s).0 ≡ returned b
      → Good b
  continue_good (returned a) s f y b h = (y a).good s b h
  continue_good (failed e) s f y b h = cc
  continue_good panicked s f y b h = cc

  pub Yields-bind :
      (m : Exec S A) (f : A → Exec S B)
      → IsSafe m
      → ((a : A) → Yields Good (f a))
      → Yields Good (m >>= f)
  unfolding ◌>>=◌
  Yields-bind m f k y = record {
    safe = IsSafe-bind m f k (λ a. (y a).safe);
    good = λ s b h. continue_good (m s).0 (m s).1 f y b h;
  }
