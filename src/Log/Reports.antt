-- ===== src/Log/Reports.antt =====
-- Actions that only log: the messages, in order.
use mathlib.Core.List.{map-append}
use golang_imageindex_list.Prelude.{
  Bytes, List, [], ◌∷◌, ◌++◌, map, flat_map, ◌≡◌, refl, sym, ap, ◌∙◌, append-nil, append_assoc,
}
use golang_imageindex_list.Exec.{returned, Exec, pure, modify, for_each, ◌>>◌}
use golang_imageindex_list.Exec.Laws.{bind_returned}
use golang_imageindex_list.Fmt.{sprintf}
use golang_imageindex_list.Os.{Os}
use golang_imageindex_list.World.{World, LogLine, Method}
use golang_imageindex_list.Log.{say}

-- A message before formatting, with its method.
abbrev pub Message : Type 0
Message = Method × (Bytes × List Bytes)

abbrev pub written : Bytes → Message → LogLine
written level (method, (format, args)) = record {
  method = method;
  level = level;
  message = sprintf format args;
}

-- The state after the messages are logged.
unfoldable pub logged : {O : Os} → List Message → World O → World O
logged messages w = record w { log = w.log ++ map (written w.level) messages }

module _ {O : Os} where
  logged-nil : (w : World O) → logged [] w ≡ w
  unfolding logged
  logged-nil w = rw append-nil

  pub logged-append :
      (xs ys : List Message) (w : World O) → logged (xs ++ ys) w ≡ logged ys (logged xs w)
  unfolding logged
  logged-append xs ys w = simp (map-append, append_assoc)

  pub logged-two :
      (a b : Message) (w : World O) → logged (b ∷ []) (logged (a ∷ []) w) ≡ logged (a ∷ b ∷ []) w
  logged-two a b w = sym (logged-append (a ∷ []) (b ∷ []) w)

module _ (O : Os) (s : O.State) where
  -- On that file system, the action logs the messages and does nothing else.
  pub record Reports (m : Exec (World O) (Unit {0})) (messages : List Message) : Type 0 where
    pub at : (w : World O) → w.os ≡ s → m w ≡ (returned tt, logged messages w)

  Reports-nothing : Reports (pure tt) []
  unfolding pure
  Reports-nothing = record { at = λ w h. rw logged-nil }

  pub Reports-line :
      (method : Method) (format : Bytes) (args : List Bytes)
      → Reports (modify (say method format args)) ((method, (format, args)) ∷ [])
  unfolding logged modify
  Reports-line method format args = record { at = λ w h. refl }

  pub Reports-bind :
      {m n : Exec (World O) (Unit {0})} {xs ys : List Message}
      → Reports m xs
      → Reports n ys
      → Reports (m >> n) (xs ++ ys)
  unfolding logged
  Reports-bind {m} {n} {xs} {ys} hm hn = record {
    at = λ w h.
        bind_returned m _ (hm.at w h)
        ∙ (hn.at (logged xs w) h ∙ ap (λ now. (returned tt, now)) (sym (logged-append xs ys w)));
  }

  pub Reports-for_each :
      {A : Type 0} (body : A → Exec (World O) (Unit {0})) (messages : A → List Message)
      → ((x : A) → Reports (body x) (messages x))
      → (xs : List A) → Reports (for_each xs body) (flat_map messages xs)
  unfolding for_each flat_map
  Reports-for_each body messages h [] = Reports-nothing
  Reports-for_each body messages h (x ∷ xs) =
      Reports-bind (h x) (Reports-for_each body messages h xs)
