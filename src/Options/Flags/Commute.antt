-- ===== src/Options/Flags/Commute.antt =====
-- The order of flags that write into different parts of the options.
use mathlib.Core.Path.{subst}
use golang_imageindex_list.Prelude.{
  Bytes, List, [], ◌∷◌, ◌≡◌, inl, inr, sym, ◌∙◌, ap, refl, map, arith,
}
use golang_imageindex_list.Exec.{Result, ok, err}
use golang_imageindex_list.Options.Flags.{
  Values, Variable, text, boolean, integer, optional_text, optional_boolean, optional_integer,
  written, set_variable, variable_of,
}
use golang_imageindex_list.Prelude.{Among}

pub Among-map :
    {A B : Type 0} (f : A → B) (xs : List A) (y : B) → Among y (map f xs) → (x : A) × (y ≡ f x)
Among-map f [] y h = absurd h
Among-map f (x ∷ xs) y (inl e) = (x, e)
Among-map f (x ∷ xs) y (inr h) = Among-map f xs y h

-- To set a variable of a part is to set it in the part, and to put the part back.
module _ {S T : Type 0} (get : T → S) (put : S → T → T) where
  written-inside :
      {A : Type 0} (write : A → S → S) (r : Result A) (t : T)
      → written (λ a t. put (write a (get t)) t) r t ≡ written put (written write r (get t)) t
  written-inside write (ok a) t = refl
  written-inside write (err e) t = refl

  pub set_variable-inside :
      (values : Values) (v : Variable S) (value : Bytes) (t : T)
      → set_variable values (variable_of get put v) value t
        ≡ written put (set_variable values v value (get t)) t
  unfolding set_variable
  set_variable-inside values (text write) value t = refl
  set_variable-inside values (boolean write) value t = written-inside write _ t
  set_variable-inside values (integer write) value t = written-inside write _ t
  set_variable-inside values (optional_text write) value t = refl
  set_variable-inside values (optional_boolean write) value t = written-inside _ _ t
  set_variable-inside values (optional_integer write) value t = written-inside _ _ t

-- Two parts of the options, each of which a write of the other leaves.
module _ {S S' T : Type 0} (get : T → S) (put : S → T → T) (get' : T → S') (put' : S' → T → T)
    (left : (b : S') (t : T) → get (put' b t) ≡ get t)
    (left' : (a : S) (t : T) → get' (put a t) ≡ get' t)
    (swap : (a : S) (b : S') (t : T) → put a (put' b t) ≡ put' b (put a t)) where
  -- Both writes succeed, in the other order, with the same result.
  abbrev pub Swapped : (T → Result T) → (T → Result T) → T → T → Type 0
  Swapped set set' t t'' = (c : T) × ((set' t ≡ ok c) × (set c ≡ ok t''))

  Swapped-values :
      (r : S → Result S) (r' : S' → Result S') (t : T) (a : S) (b : S')
      → r (get t) ≡ ok a
      → r' (get' t) ≡ ok b
      → Swapped
          (λ t. written put (r (get t)) t)
          (λ t. written put' (r' (get' t)) t)
          t
          (put' b (put a t))
  Swapped-values r r' t a b e e' = (put' b t, (rw e', rw (left b t, e) (ap ok (swap a b t))))

  second_ok :
      (r r' : Result S') (t t'' : T)
      → r ≡ r'
      → written put' r t ≡ ok t''
      → (b : S') × ((r' ≡ ok b) × (put' b t ≡ t''))
  second_ok (ok b) r' t t'' same h = (b, (sym same, ground arith))
  second_ok (err e) r' t t'' same h = cc

  first_ok :
      (r : Result S) (t t' : T) → written put r t ≡ ok t' → (a : S) × ((r ≡ ok a) × (put a t ≡ t'))
  first_ok (ok a) t t' h = (a, (refl, ground arith))
  first_ok (err e) t t' h = cc

  Swapped-results :
      (r : S → Result S) (r' : S' → Result S') (t t' t'' : T)
      → written put (r (get t)) t ≡ ok t'
      → written put' (r' (get' t')) t' ≡ ok t''
      → Swapped (λ t. written put (r (get t)) t) (λ t. written put' (r' (get' t)) t) t t''
  Swapped-results r r' t t' t'' h h' =
      let (a, (e, made)) = first_ok (r (get t)) t t' h in
      let (b, (e', made')) =
        second_ok (r' (get' t')) (r' (get' t)) t' t''
          (ap (λ u. r' (get' u)) (sym made) ∙ ap r' (left' a t)) h' in
      subst (Swapped (λ t. written put (r (get t)) t) (λ t. written put' (r' (get' t)) t) t)
        (ap (put' b) made ∙ made') (Swapped-values r r' t a b e e')

  -- A flag of the first part and one of the second.
  pub set_variable-swap :
      (values : Values) (v : Variable S) (v' : Variable S') (value value' : Bytes) (t t' t'' : T)
      → set_variable values (variable_of get put v) value t ≡ ok t'
      → set_variable values (variable_of get' put' v') value' t' ≡ ok t''
      → Swapped
          (set_variable values (variable_of get put v) value)
          (set_variable values (variable_of get' put' v') value')
          t
          t''
  set_variable-swap values v v' value value' t t' t'' h h' =
      let (c, (first, second)) =
        Swapped-results (set_variable values v value) (set_variable values v' value') t t' t''
          (sym (set_variable-inside get put values v value t) ∙ h)
          (sym (set_variable-inside get' put' values v' value' t') ∙ h') in
      (
        c,
        (
          set_variable-inside get' put' values v' value' t ∙ first,
          set_variable-inside get put values v value c ∙ second,
        ),
      )
