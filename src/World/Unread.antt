-- ===== src/World/Unread.antt =====
-- Actions on which the options that nothing reads have no influence, one rule for each way to build
-- an action.
use mathlib.Core.List.{map-append}
use golang_imageindex_list.Prelude.{
  Bytes, List, [], ◌∷◌, map, Bool, true, false, Option, none, some, ◌≡◌, refl, sym, ap, ◌∙◌,
  if◌then◌else◌,
}
use golang_imageindex_list.Exec.{
  Result, Outcome, returned, failed, panicked, Exec, pure, fail, lift, deref, gets, modify, try,
  wrapped, for_each, continue, caught, rewrap, ◌>>=◌,
}
use golang_imageindex_list.Os.{Os}
use golang_imageindex_list.Options.{ImageOptions, CopyOptions}
use golang_imageindex_list.World.{World, LogLine, Method, os_call, os_read, print}
use golang_imageindex_list.Log.{say}

-- The options of an image, with those that nothing reads from `other`.
abbrev with_unread_image : ImageOptions → ImageOptions → ImageOptions
with_unread_image other image = record image {
  docker = record other.docker { docker_cert_path = image.docker.docker_cert_path };
}

-- The options, with those that nothing reads, and the level of the logger, from `other`.
abbrev pub with_unread : CopyOptions → CopyOptions → CopyOptions
with_unread other opts = record other {
  global = record opts.global {
    log_level = other.global.log_level;
    config_path = other.global.config_path;
    from = other.global.from;
    quiet = other.global.quiet;
    force = other.global.force;
  };
  shared = opts.shared;
  deprecated_tls_verify = opts.deprecated_tls_verify;
  src_image = with_unread_image other.src_image opts.src_image;
  dest_image = record other.dest_image {
    image = with_unread_image other.dest_image.image opts.dest_image.image;
  };
  retry_times = opts.retry_times;
  remove_signatures = opts.remove_signatures;
  sign_by_fingerprint = opts.sign_by_fingerprint;
  sign_by_sigstore_private_key = opts.sign_by_sigstore_private_key;
  format = opts.format;
  preserve_digests = opts.preserve_digests;
}

-- A line as it is logged at another level.
abbrev pub line_at : Bytes → LogLine → LogLine
line_at level line = record line { level = level }

-- The state as it is with these options of `other` from the start; the level of the logger is also
-- that of each line which is logged.
abbrev pub as_with : {O : Os} → CopyOptions → World O → World O
as_with other w = record w {
  opts = with_unread other w.opts;
  level = other.global.log_level;
  log = map (line_at other.global.log_level) w.log;
}

module _ (O : Os) (other : CopyOptions) where
  -- With the other options, `m` ends the same way and leaves the same state but for them.
  pub record IsBlind {A : Type 0} (m : Exec (World O) A) : Type 0 where
    pub at : (w : World O) → m (as_with other w) ≡ ((m w).0, as_with other (m w).1)

caught_as :
    {O : Os} {A : Type 0} (other : CopyOptions) (r : Outcome A) (w : World O)
    → caught r (as_with other w) ≡ ((caught r w).0, as_with other (caught r w).1)
caught_as other (returned a) w = refl
caught_as other (failed e) w = refl
caught_as other panicked w = refl

module _ {O : Os} {other : CopyOptions} {A : Type 0} where
  pub IsBlind-pure : (a : A) → IsBlind O other (pure a)
  unfolding pure
  IsBlind-pure a = record { at = λ w. refl }

  pub IsBlind-fail : (e : Bytes) → IsBlind O other (fail {A = A} e)
  unfolding fail
  IsBlind-fail e = record { at = λ w. refl }

  pub IsBlind-lift : (r : Result A) → IsBlind O other (lift r)
  unfolding lift
  IsBlind-lift r = record { at = λ w. refl }

  pub IsBlind-deref : (o : Option A) → IsBlind O other (deref o)
  unfolding deref
  IsBlind-deref none = record { at = λ w. refl }
  IsBlind-deref (some a) = record { at = λ w. refl }

  pub IsBlind-os_read : (f : O.State → Result A) → IsBlind O other (os_read f)
  unfolding os_read
  IsBlind-os_read f = record { at = λ w. refl }

  pub IsBlind-os_call : (f : O.State → Result A × O.State) → IsBlind O other (os_call f)
  unfolding os_call
  IsBlind-os_call f = record { at = λ w. refl }

  pub IsBlind-try : {m : Exec (World O) A} → IsBlind O other m → IsBlind O other (try m)
  unfolding try
  IsBlind-try {m} b = record {
    at = λ w. ap (λ r. caught r.0 r.1) (b.at w) ∙ caught_as other (m w).0 (m w).1;
  }

  pub IsBlind-wrapped :
      {m : Exec (World O) A} (wrap : Bytes → Bytes)
      → IsBlind O other m
      → IsBlind O other (wrapped wrap m)
  unfolding wrapped
  IsBlind-wrapped wrap b = record { at = λ w. ap (λ r. (rewrap wrap r.0, r.1)) (b.at w) }

  pub IsBlind-if :
      (b : Bool) {m n : Exec (World O) A}
      → IsBlind O other m
      → IsBlind O other n
      → IsBlind O other (if b then m else n)
  IsBlind-if true bm bn = bm
  IsBlind-if false bm bn = bn

module _ {O : Os} {other : CopyOptions} where
  pub IsBlind-log :
      (method : Method) (msg : Bytes) (val : List Bytes)
      → IsBlind O other (modify (say method msg val))
  unfolding modify
  IsBlind-log method msg val = record {
    at = λ w.
        ap (λ log. (returned tt, record (as_with other w) { log = log }))
          (sym (map-append (line_at other.global.log_level) w.log _));
  }

  pub IsBlind-print : (line : Bytes) → IsBlind O other (print line)
  unfolding modify
  IsBlind-print line = record { at = λ w. refl }

module _ {O : Os} {other : CopyOptions} {A B : Type 0} where
  continue_as :
      (r : Outcome A) (f : A → Exec (World O) B) (w : World O)
      → ((a : A) → IsBlind O other (f a))
      → continue r f (as_with other w) ≡ ((continue r f w).0, as_with other (continue r f w).1)
  continue_as (returned a) f w h = (h a).at w
  continue_as (failed e) f w h = refl
  continue_as panicked f w h = refl

  pub IsBlind-bind :
      {m : Exec (World O) A} {f : A → Exec (World O) B}
      → IsBlind O other m
      → ((a : A) → IsBlind O other (f a))
      → IsBlind O other (m >>= f)
  unfolding ◌>>=◌
  IsBlind-bind {m} {f} bm bf = record {
    at = λ w. ap (λ r. continue r.0 f r.1) (bm.at w) ∙ continue_as (m w).0 f (m w).1 bf;
  }

  -- What is read of the options may differ, as long as what follows does the same.
  pub IsBlind-options :
      (read : CopyOptions → A) {f : A → Exec (World O) B}
      → ((opts : CopyOptions) → f (read (with_unread other opts)) ≡ f (read opts))
      → ((a : A) → IsBlind O other (f a))
      → IsBlind O other (gets (λ (w : World O). read w.opts) >>= f)
  unfolding ◌>>=◌
  IsBlind-options read {f} same bf = record {
    at = λ w. ap (λ k. k (as_with other w)) (same w.opts) ∙ (bf (read w.opts)).at w;
  }

module _ {O : Os} {other : CopyOptions} {A : Type 0} where
  pub IsBlind-for_each :
      (xs : List A) {body : A → Exec (World O) (Unit {0})}
      → ((x : A) → IsBlind O other (body x))
      → IsBlind O other (for_each xs body)
  unfolding for_each
  IsBlind-for_each [] h = IsBlind-pure tt
  IsBlind-for_each (x ∷ xs) h = IsBlind-bind (h x) (λ _. IsBlind-for_each xs h)
