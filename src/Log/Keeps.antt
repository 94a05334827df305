-- ===== src/Log/Keeps.antt =====
-- Properties of the file system that an action keeps, one rule for each way to build an action.
use golang_imageindex_list.Prelude.{
  Bytes, List, [], ◌∷◌, Bool, true, false, Option, none, some, ◌≡◌, refl, if◌then◌else◌,
}
use golang_imageindex_list.Exec.{
  Result, Outcome, returned, failed, panicked, Exec, pure, fail, lift, deref, gets, modify, try,
  wrapped, for_each, continue, caught, ◌>>=◌,
}
use golang_imageindex_list.Os.{Os}
use golang_imageindex_list.World.{World, Method, os_call, os_read, print}
use golang_imageindex_list.Log.{say}

module _ (O : Os) (P : O.State → Type 0) where
  -- `m` keeps `P`, however it ends.
  pub record Keeps {A : Type 0} (m : Exec (World O) A) : Type 0 where
    pub at : (w : World O) → P w.os → P (m w).1.os

caught_state : {O : Os} {A : Type 0} (r : Outcome A) (w : World O) → (caught r w).1 ≡ w
caught_state (returned a) w = refl
caught_state (failed e) w = refl
caught_state panicked w = refl

module _ {O : Os} {P : O.State → Type 0} {A : Type 0} where
  pub Keeps-pure : (a : A) → Keeps O P (pure a)
  unfolding pure
  Keeps-pure a = record { at = λ w p. p }

  pub Keeps-fail : (e : Bytes) → Keeps O P (fail {A = A} e)
  unfolding fail
  Keeps-fail e = record { at = λ w p. p }

  pub Keeps-lift : (r : Result A) → Keeps O P (lift r)
  unfolding lift
  Keeps-lift r = record { at = λ w p. p }

  pub Keeps-deref : (o : Option A) → Keeps O P (deref o)
  unfolding deref
  Keeps-deref none = record { at = λ w p. p }
  Keeps-deref (some a) = record { at = λ w p. p }

  pub Keeps-gets : (f : World O → A) → Keeps O P (gets f)
  unfolding gets
  Keeps-gets f = record { at = λ w p. p }

  pub Keeps-os_read : (f : O.State → Result A) → Keeps O P (os_read f)
  unfolding os_read
  Keeps-os_read f = record { at = λ w p. p }

  pub Keeps-os_call :
      (f : O.State → Result A × O.State) → ((s : O.State) → P s → P (f s).1) → Keeps O P (os_call f)
  unfolding os_call
  Keeps-os_call f h = record { at = λ w p. h w.os p }

  pub Keeps-try : (m : Exec (World O) A) → Keeps O P m → Keeps O P (try m)
  unfolding try
  Keeps-try m k = record { at = λ w p. rw (caught_state (m w).0 (m w).1) (k.at w p) }

  pub Keeps-wrapped :
      (wrap : Bytes → Bytes) (m : Exec (World O) A) → Keeps O P m → Keeps O P (wrapped wrap m)
  unfolding wrapped
  Keeps-wrapped wrap m k = record { at = λ w p. k.at w p }

  pub Keeps-if :
      (b : Bool) (m n : Exec (World O) A)
      → (b ≡ true → Keeps O P m)
      → (b ≡ false → Keeps O P n)
      → Keeps O P (if b then m else n)
  Keeps-if true m n km kn = km refl
  Keeps-if false m n km kn = kn refl

module _ {O : Os} {P : O.State → Type 0} where
  pub Keeps-log :
      (method : Method) (msg : Bytes) (val : List Bytes) → Keeps O P (modify (say method msg val))
  unfolding modify
  Keeps-log method msg val = record { at = λ w p. p }

  pub Keeps-print : (line : Bytes) → Keeps O P (print line)
  unfolding modify
  Keeps-print line = record { at = λ w p. p }

module _ {O : Os} {P : O.State → Type 0} {A B : Type 0} where
  Keeps-continue :
      (r : Outcome A) (w : World O) (f : A → Exec (World O) B)
      → P w.os
      → ((a : A) → Keeps O P (f a))
      → P (continue r f w).1.os
  Keeps-continue (returned a) w f p h = (h a).at w p
  Keeps-continue (failed e) w f p h = p
  Keeps-continue panicked w f p h = p

  pub Keeps-bind :
      (m : Exec (World O) A) (f : A → Exec (World O) B)
      → Keeps O P m
      → ((a : A) → Keeps O P (f a))
      → Keeps O P (m >>= f)
  unfolding ◌>>=◌
  Keeps-bind m f km kf = record { at = λ w p. Keeps-continue (m w).0 (m w).1 f (km.at w p) kf }

module _ {O : Os} {P : O.State → Type 0} {A : Type 0} where
  pub Keeps-for_each :
      (xs : List A) (body : A → Exec (World O) (Unit {0}))
      → ((x : A) → Keeps O P (body x))
      → Keeps O P (for_each xs body)
  unfolding for_each
  Keeps-for_each [] body h = Keeps-pure tt
  Keeps-for_each (x ∷ xs) body h = Keeps-bind (body x) _ (h x) (λ _. Keeps-for_each xs body h)

pub ruleset keeps_rules = (
  Keeps-pure, Keeps-fail, Keeps-lift, Keeps-deref, Keeps-gets, Keeps-os_read, Keeps-os_call,
  Keeps-try, Keeps-wrapped, Keeps-if, Keeps-log, Keeps-print, Keeps-bind, Keeps-for_each,
)
