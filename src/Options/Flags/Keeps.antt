-- ===== src/Options/Flags/Keeps.antt =====
-- What holds of the options and is kept by every write of a flag.
use golang_imageindex_list.Prelude.{
  Bytes, Option, none, some, List, [], ◌∷◌, ◌++◌, ◌≡◌, inl, inr, sym, map, All, Among, All-append,
  arith,
}
use mathlib.Core.Path.{subst}
use golang_imageindex_list.Exec.{Result, ok, err}
use golang_imageindex_list.Options.Flags.{
  Values, Variable, text, boolean, integer, optional_text, optional_boolean, optional_integer, Flag,
  written, set_variable, flag_of, variable_of, find_flag, add_missing, add_flag_set,
}

pub All-Among : {A : Type 0} (P : A → Type 0) (xs : List A) (x : A) → All P xs → Among x xs → P x
All-Among P [] x h m = absurd m
All-Among P (y ∷ ys) x (p, ps) (inl e) = subst P (sym e) p
All-Among P (y ∷ ys) x (p, ps) (inr m) = All-Among P ys x ps m

module _ {S : Type 0} (P : S → Type 0) where
  abbrev pub Writes : {A : Type 0} → (A → S → S) → Type 0
  Writes {A} put = (a : A) (s : S) → P s → P (put a s)

  -- Every write of the variable keeps `P`.
  abbrev pub KeepsVariable : Variable S → Type 0
  KeepsVariable (text put) = Writes put
  KeepsVariable (boolean put) = Writes put
  KeepsVariable (integer put) = Writes put
  KeepsVariable (optional_text put) = Writes put
  KeepsVariable (optional_boolean put) = Writes put
  KeepsVariable (optional_integer put) = Writes put

  abbrev pub KeepsFlag : Flag S → Type 0
  KeepsFlag f = KeepsVariable f.variable

  -- Every flag of the list keeps `P`.
  pub record KeepAll (flags : List (Flag S)) : Type 0 where
    pub at : All KeepsFlag flags

  pub KeepAll-append : {xs ys : List (Flag S)} → KeepAll xs → KeepAll ys → KeepAll (xs ++ ys)
  KeepAll-append {xs} {ys} hx hy = record { at = All-append KeepsFlag xs ys hx.at hy.at }

  KeepAll-add_missing :
      (found : Option (Flag S)) (f : Flag S) (flags : List (Flag S))
      → KeepsFlag f
      → KeepAll flags
      → KeepAll (add_missing found f flags)
  KeepAll-add_missing none f flags h hs = KeepAll-append hs (record { at = (h, tt) })
  KeepAll-add_missing (some _) f flags h hs = hs

  pub KeepAll-add_flag_set :
      (more flags : List (Flag S))
      → KeepAll flags
      → KeepAll more
      → KeepAll (add_flag_set flags more)
  unfolding add_flag_set
  KeepAll-add_flag_set [] flags hs h = hs
  KeepAll-add_flag_set (f ∷ more) flags hs h =
      KeepAll-add_flag_set more _ (KeepAll-add_missing (find_flag f.name flags) f flags h.at.0 hs)
        (record { at = h.at.1 })

  pub KeepAll-cons : {x : Flag S} {xs : List (Flag S)} → KeepsFlag x → KeepAll xs → KeepAll (x ∷ xs)
  KeepAll-cons h hs = record { at = (h, hs.at) }

  same_result : {s s' : S} → ok s ≡ ok s' → P s → P s'
  same_result e p = subst P (ground arith) p

  written-Keeps :
      {A : Type 0} (put : A → S → S)
      → Writes put
      → (r : Result A) (s s' : S) → written put r s ≡ ok s'
      → P s
      → P s'
  written-Keeps put h (ok a) s s' e p = same_result e (h a s p)
  written-Keeps put h (err d) s s' e p = cc

  -- Setting such a variable keeps `P`.
  pub set_variable-Keeps :
      (values : Values) (v : Variable S)
      → KeepsVariable v
      → (value : Bytes) (s s' : S) → set_variable values v value s ≡ ok s'
      → P s
      → P s'
  unfolding set_variable
  set_variable-Keeps values (text put) h value s s' e p = same_result e (h _ s p)
  set_variable-Keeps values (boolean put) h value s s' e p = written-Keeps put h _ s s' e p
  set_variable-Keeps values (integer put) h value s s' e p = written-Keeps put h _ s s' e p
  set_variable-Keeps values (optional_text put) h value s s' e p = same_result e (h _ s p)
  set_variable-Keeps values (optional_boolean put) h value s s' e p =
      written-Keeps _ (λ b t q. h _ t q) _ s s' e p
  set_variable-Keeps values (optional_integer put) h value s s' e p =
      written-Keeps _ (λ i t q. h _ t q) _ s s' e p

-- A write of a part keeps what does not depend on the part.
module _ {S T : Type 0} (get : T → S) (put : S → T → T) (P : T → Type 0)
    (kept : (a : S) (t : T) → P t → P (put a t)) where
  variable_of-Keeps : (v : Variable S) → KeepsVariable P (variable_of get put v)
  variable_of-Keeps (text write) = λ a t p. kept _ t p
  variable_of-Keeps (boolean write) = λ a t p. kept _ t p
  variable_of-Keeps (integer write) = λ a t p. kept _ t p
  variable_of-Keeps (optional_text write) = λ a t p. kept _ t p
  variable_of-Keeps (optional_boolean write) = λ a t p. kept _ t p
  variable_of-Keeps (optional_integer write) = λ a t p. kept _ t p

  pub flags_of-Keep : (flags : List (Flag S)) → KeepAll P (map (flag_of get put) flags)
  unfolding flag_of
  flags_of-Keep flags = record { at = each flags }
    where
      each : (flags : List (Flag S)) → All (KeepsFlag P) (map (flag_of get put) flags)
      each [] = tt
      each (f ∷ flags) = (variable_of-Keeps f.variable, each flags)
