-- ===== src/World/Options.antt =====
-- Actions that leave the options, one rule for each way to build an action.
use golang_imageindex_list.Prelude.{
  Bytes, List, Bool, true, false, Option, none, some, ◌≡◌, refl, ◌∙◌, if◌then◌else◌,
}
use golang_imageindex_list.Exec.{
  Outcome, returned, failed, panicked, Exec, pure, fail, deref, gets, modify, try, caught, continue,
  ◌>>=◌, Result,
}
use golang_imageindex_list.Os.{Os}
use golang_imageindex_list.World.{World, Method, os_call}
use golang_imageindex_list.Log.{say}

-- The options are those at the start, however the action ends.
pub record KeepsOptions {A : Type 0} (O : Os) (m : Exec (World O) A) : Type 0 where
  pub at : (w : World O) → (m w).1.opts ≡ w.opts

module _ {O : Os} {A : Type 0} where
  pub KeepsOptions-pure : (a : A) → KeepsOptions O (pure a)
  unfolding pure
  KeepsOptions-pure a = record { at = λ w. refl }

  pub KeepsOptions-fail : (e : Bytes) → KeepsOptions O (fail {A = A} e)
  unfolding fail
  KeepsOptions-fail e = record { at = λ w. refl }

  pub KeepsOptions-deref : (o : Option A) → KeepsOptions O (deref o)
  unfolding deref ◌>>=◌
  KeepsOptions-deref none = record { at = λ w. refl }
  KeepsOptions-deref (some a) = record { at = λ w. refl }

  pub KeepsOptions-gets : (f : World O → A) → KeepsOptions O (gets f)
  unfolding gets
  KeepsOptions-gets f = record { at = λ w. refl }

  pub KeepsOptions-os_call : (f : O.State → Result A × O.State) → KeepsOptions O (os_call f)
  unfolding os_call
  KeepsOptions-os_call f = record { at = λ w. refl }

  caught_options : (r : Outcome A) (w : World O) → (caught r w).1.opts ≡ w.opts
  caught_options (returned a) w = refl
  caught_options (failed e) w = refl
  caught_options panicked w = refl

  pub KeepsOptions-try : (m : Exec (World O) A) → KeepsOptions O m → KeepsOptions O (try m)
  unfolding try
  KeepsOptions-try m k = record { at = λ w. caught_options (m w).0 (m w).1 ∙ k.at w }

  pub KeepsOptions-if :
      (b : Bool) (m n : Exec (World O) A)
      → KeepsOptions O m
      → KeepsOptions O n
      → KeepsOptions O (if b then m else n)
  KeepsOptions-if true m n km kn = km
  KeepsOptions-if false m n km kn = kn

pub KeepsOptions-log :
    {O : Os} (method : Method) (format : Bytes) (texts : List Bytes)
    → KeepsOptions O (modify (say method format texts))
unfolding modify
KeepsOptions-log method format texts = record { at = λ w. refl }

module _ {O : Os} {A B : Type 0} where
  options_behind :
      (r : Outcome A) (w : World O) (f : A → Exec (World O) B)
      → ((a : A) → KeepsOptions O (f a))
      → (continue r f w).1.opts ≡ w.opts
  options_behind (returned a) w f k = (k a).at w
  options_behind (failed e) w f k = refl
  options_behind panicked w f k = refl

  pub KeepsOptions-bind :
      (m : Exec (World O) A) (f : A → Exec (World O) B)
      → KeepsOptions O m
      → ((a : A) → KeepsOptions O (f a))
      → KeepsOptions O (m >>= f)
  unfolding ◌>>=◌
  KeepsOptions-bind m f km kf = record { at = λ w. options_behind (m w).0 (m w).1 f kf ∙ km.at w }
