-- ===== src/Routes/Guarded.antt =====
-- Which guards stand before each handler (src/app.ts, src/routes/*.ts).
use mathlib.Core.Path.{subst}
use pm2manager.Common.{
  ◌≡◌, refl, sym, ◌⊎◌, inl, inr, String, Bool, true, ◌&&◌, Option, none, some, is_some, List, [],
  ◌∷◌, ◌++◌, str_eq, str_eq_iff, All, Bool-cases,
}
use pm2manager.Routes.{
  Guard, Handler, Layer, through, route, AppLayer, under, mount, page, Outcome, handled, takes,
  matches, strip, guarded, walk, inside, dispatch, app,
}
use pm2manager.Routes.Demands.{
  required, covers, walk_covers, under_covers, app_covers, and_left, and_right, if_either,
  app_is_covered, Passed, covers_sound, Passed-append, guarded_sound,
}

module _ (same : String → String → Bool) (passes : Guard → Bool) where
  -- A router behind guards that have passed leads to a handler only where what it demands has passed.
  walk_sound :
      (acc : List Guard) (ls : List Layer) (method : String) (path : List String) (next : Outcome)
      (h : Handler)
      → walk_covers acc ls ≡ true
      → Passed passes acc
      → walk same passes ls method path next ≡ handled h
      → Passed passes (required h) ⊎ (next ≡ handled h)
  unfolding walk
  walk_sound acc [] method path next h c k e = inr e
  walk_sound acc (through g ∷ ls) method path next h c k e =
      let (passed, rest) =
        guarded_sound same passes (g ∷ []) (walk same passes ls method path next) h e in
      walk_sound (g ∷ acc) ls method path next h c (passed.0, k) rest
  walk_sound acc (route m p gs h' ∷ ls) method path next h c k e =
      elim (if_either (takes same passes m method && matches same passes p path)
        (guarded same passes gs (handled h')) (walk same passes ls method path next) h e) [
          | inl here ↦
              let (passed, reached) = guarded_sound same passes gs (handled h') h here in
              let same_handler : h' ≡ h = cc in
              inl (
                subst (λ x. Passed passes (required x)) same_handler
                  (covers_sound passes (gs ++ acc) (required h')
                    (and_left (covers (gs ++ acc) (required h')) (walk_covers acc ls) c)
                    (Passed-append passes gs acc passed k)))
          | inr later ↦
              walk_sound acc ls method path next h
                (and_right (covers (gs ++ acc) (required h')) (walk_covers acc ls) c) k later
        ]

  strip_first :
      (q : String) (qs path rest : List String)
      → strip same passes (q ∷ qs) path ≡ some rest
      → is_some (strip same passes (q ∷ []) path) ≡ true
  unfolding strip
  strip_first q qs [] rest e = cc
  strip_first q qs (x ∷ path) rest e = elim (Bool-cases (same q x)) [
    | inl f ↦ rw f refl
    | inr f ↦ let stuck = rw f at e in cc
  ]

  -- Where the path does not begin with the prefix's first segment, no router under it is entered.
  under_sound :
      (p : String) (acc : List Guard) (ls : List AppLayer) (method : String) (path : List String)
      (h : Handler)
      → under_covers p acc ls ≡ true
      → (is_some (strip same passes (p ∷ []) path) ≡ true → Passed passes acc)
      → dispatch same passes ls method path ≡ handled h
      → Passed passes (required h)
  unfolding dispatch
  under_sound p acc [] method path h c k e = cc
  under_sound p acc (under q gs ∷ ls) method path h c k e = cc
  under_sound p acc (page m q gs h' ∷ ls) method path h c k e = cc
  under_sound p acc (mount [] rs ∷ ls) method path h c k e = cc
  under_sound p acc (mount (q ∷ qs) rs ∷ ls) method path h c k e =
      let next = dispatch same passes ls method path in
      let first : p ≡ q =
        (str_eq_iff p q).0
          (and_left (str_eq p q) (walk_covers acc rs && under_covers p acc ls) c) in
      let others : (walk_covers acc rs && under_covers p acc ls) ≡ true =
        and_right (str_eq p q) (walk_covers acc rs && under_covers p acc ls) c in
      elim (entered (strip same passes (q ∷ qs) path) refl e) [
        | inl (rest, (found, walked)) ↦
            elim (walk_sound acc rs method rest next h
              (and_left (walk_covers acc rs) (under_covers p acc ls) others)
              (k (
                subst (λ x. is_some (strip same passes (x ∷ []) path) ≡ true) (sym first)
                  (strip_first q qs path rest found)))
              walked) [
                | inl done ↦ done
                | inr later ↦
                    under_sound p acc ls method path h
                      (and_right (walk_covers acc rs) (under_covers p acc ls) others) k later
              ]
        | inr later ↦
            under_sound p acc ls method path h
              (and_right (walk_covers acc rs) (under_covers p acc ls) others) k later
      ]
    where
      entered :
          (o : Option (List String))
          → strip same passes (q ∷ qs) path ≡ o
          → inside same passes o
              (λ rest. walk same passes rs method rest (dispatch same passes ls method path))
              (dispatch same passes ls method path)
            ≡ handled h
          → ((rest : List String) × ((strip same passes (q ∷ qs) path ≡ some rest)
                × (walk same passes rs method rest (dispatch same passes ls method path)
                    ≡ handled h)))
            ⊎ (dispatch same passes ls method path ≡ handled h)
      entered none f g = inr g
      entered (some rest) f g = inl (rest, (f, g))

  app_sound :
      (ls : List AppLayer) (method : String) (path : List String) (h : Handler)
      → app_covers ls ≡ true
      → dispatch same passes ls method path ≡ handled h
      → Passed passes (required h)
  unfolding dispatch
  app_sound [] method path h c e = cc
  app_sound (page m p gs h' ∷ ls) method path h c e =
      elim (if_either (takes same passes m method && matches same passes p path)
        (guarded same passes gs (handled h')) (dispatch same passes ls method path) h e) [
          | inl here ↦
              let (passed, reached) = guarded_sound same passes gs (handled h') h here in
              let same_handler : h' ≡ h = cc in
              subst (λ x. Passed passes (required x)) same_handler
                (covers_sound passes gs (required h')
                  (and_left (covers gs (required h')) (app_covers ls) c) passed)
          | inr later ↦
              app_sound ls method path h (and_right (covers gs (required h')) (app_covers ls) c)
                later
        ]
  app_sound (mount q rs ∷ ls) method path h c e = cc
  app_sound (under [] gs ∷ ls) method path h c e = cc
  app_sound (under (p ∷ q ∷ qs) gs ∷ ls) method path h c e = cc
  app_sound (under (p ∷ []) gs ∷ ls) method path h c e =
      let (held, later) = entered (strip same passes (p ∷ []) path) e in
      under_sound p gs ls method path h c held later
    where
      next : Outcome
      next = dispatch same passes ls method path

      entered :
          (o : Option (List String))
          → inside same passes o (λ rest. guarded same passes gs next) next ≡ handled h
          → (is_some o ≡ true → Passed passes gs) × (next ≡ handled h)
      entered none f = ((λ g. cc), f)
      entered (some rest) f =
          let (passed, reached) = guarded_sound same passes gs next h f in ((λ g. passed), reached)

  -- Whatever the method and the path, however segments are compared and whatever the guards decide: a
  -- handler runs only where all that is demanded for it has let the request pass, a user for every
  -- route of the API but those that make one, an administrator for the users and for writing the
  -- settings, and the token against forged requests for the whole API.
  pub dispatch_guarded :
      (method : String) (path : List String) (h : Handler)
      → dispatch same passes app method path ≡ handled h
      → All (λ g. passes g ≡ true) (required h)
  dispatch_guarded method path h e = app_sound app method path h app_is_covered e
