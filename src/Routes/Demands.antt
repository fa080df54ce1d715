-- ===== src/Routes/Demands.antt =====
-- What each handler is to stand behind, and that the tables have it (src/app.ts, src/routes/*.ts).
use mathlib.Core.Logic.{ite, if_neg}
use pm2manager.Common.{
  ◌≡◌, refl, ◌⊎◌, inl, inr, String, Bool, true, false, ◌&&◌, ◌||◌, List, [], ◌∷◌, ◌++◌, str_eq, All,
  if◌then◌else◌,
}
use pm2manager.Routes.{
  Schema, Guard, login_rate_limiter, csrf_protection, require_auth, require_admin, require_page,
  redirect_if_authenticated, Handler, Layer, through, route, AppLayer, under, mount, page, Outcome,
  handled, stopped, guarded, app,
}

pub Schema-discrete : Discrete Schema
Schema-discrete = hlevel

pub Guard-discrete : Discrete Guard
Guard-discrete = hlevel (Schema-discrete)

abbrev pub same_guard : Guard → Guard → Bool
same_guard a b = ite (Guard-discrete a b) true false

-- What is demanded for each handler: nothing, a user, or an administrator; and the token against
-- forged requests before everything of the API.
abbrev pub required : Handler → List Guard
required Handler.login_page = redirect_if_authenticated ∷ []
required Handler.app_page = require_page ∷ []
required Handler.healthz = []
required Handler.csrf_token = csrf_protection ∷ []
required Handler.login_user = csrf_protection ∷ login_rate_limiter ∷ []
required Handler.verify_two_factor = csrf_protection ∷ login_rate_limiter ∷ []
required Handler.logout = csrf_protection ∷ []
required Handler.user_list = csrf_protection ∷ require_admin ∷ []
required Handler.user_create = csrf_protection ∷ require_admin ∷ []
required Handler.user_remove = csrf_protection ∷ require_admin ∷ []
required Handler.put_settings = csrf_protection ∷ require_admin ∷ []
required _ = csrf_protection ∷ require_auth ∷ []

abbrev pub is_in : Guard → List Guard → Bool
is_in g [] = false
is_in g (a ∷ as') = same_guard a g || is_in g as'

abbrev pub covers : List Guard → List Guard → Bool
covers acc [] = true
covers acc (g ∷ gs) = is_in g acc && covers acc gs

-- Each route of a router stands behind what its handler demands, given what stands before the router.
abbrev pub walk_covers : List Guard → List Layer → Bool
walk_covers acc [] = true
walk_covers acc (through g ∷ ls) = walk_covers (g ∷ acc) ls
walk_covers acc (route m p gs h ∷ ls) = covers (gs ++ acc) (required h) && walk_covers acc ls

-- The same for the routers behind guards under the segment `p`.
abbrev pub under_covers : String → List Guard → List AppLayer → Bool
under_covers p acc [] = true
under_covers p acc (mount (q ∷ qs) ls ∷ rest) =
    str_eq p q && (walk_covers acc ls && under_covers p acc rest)
under_covers p acc _ = false

abbrev pub app_covers : List AppLayer → Bool
app_covers [] = true
app_covers (page m p gs h ∷ ls) = covers gs (required h) && app_covers ls
app_covers (under (p ∷ []) gs ∷ ls) = under_covers p gs ls
app_covers _ = false

pub app_is_covered : app_covers app ≡ true
unfolding Guard-discrete Schema-discrete
app_is_covered = refl

pub and_left : (a b : Bool) → (a && b) ≡ true → a ≡ true
and_left true b h = refl
and_left false b h = h

pub and_right : (a b : Bool) → (a && b) ≡ true → b ≡ true
and_right true b h = h
and_right false b h = cc

either : (a b : Bool) → (a || b) ≡ true → (a ≡ true) ⊎ (b ≡ true)
either true b h = inl refl
either false b h = inr h

same_guard_sound : (a b : Guard) → same_guard a b ≡ true → a ≡ b
same_guard_sound a b h = elim (Guard-discrete a b) [
  | yes e ↦ e
  | no e ↦ let differ : same_guard a b ≡ false = rw (if_neg _ e) refl in cc
]

pub if_stopped :
    (b : Bool) (x : Outcome) (g : Guard) (h : Handler)
    → (if b then x else stopped g) ≡ handled h
    → (b ≡ true) × (x ≡ handled h)
if_stopped true x g h e = (refl, e)
if_stopped false x g h e = cc

pub if_either :
    (b : Bool) (x y : Outcome) (h : Handler)
    → (if b then x else y) ≡ handled h
    → (x ≡ handled h) ⊎ (y ≡ handled h)
if_either true x y h e = inl e
if_either false x y h e = inr e

module _ (passes : Guard → Bool) where
  abbrev pub Passed : List Guard → Type 0
  Passed gs = All (λ g. passes g ≡ true) gs

  is_in_sound : (g : Guard) (acc : List Guard) → is_in g acc ≡ true → Passed acc → passes g ≡ true
  is_in_sound g [] h k = cc
  is_in_sound g (a ∷ as') h (k, ks) = elim (either (same_guard a g) (is_in g as') h) [
    | inl e ↦ rw (← same_guard_sound a g e) k
    | inr e ↦ is_in_sound g as' e ks
  ]

  pub covers_sound : (acc gs : List Guard) → covers acc gs ≡ true → Passed acc → Passed gs
  covers_sound acc [] h k = tt
  covers_sound acc (g ∷ gs) h k = (
    is_in_sound g acc (and_left (is_in g acc) (covers acc gs) h) k,
    covers_sound acc gs (and_right (is_in g acc) (covers acc gs) h) k,
  )

  pub Passed-append : (xs ys : List Guard) → Passed xs → Passed ys → Passed (xs ++ ys)
  Passed-append [] ys h k = k
  Passed-append (x ∷ xs) ys (h, hs) k = (h, Passed-append xs ys hs k)

module _ (same : String → String → Bool) (passes : Guard → Bool) where
  pub guarded_sound :
      (gs : List Guard) (next : Outcome) (h : Handler)
      → guarded same passes gs next ≡ handled h
      → Passed passes gs × (next ≡ handled h)
  unfolding guarded
  guarded_sound [] next h e = (tt, e)
  guarded_sound (g ∷ gs) next h e =
      let (passed, rest) = if_stopped (passes g) (guarded same passes gs next) g h e in
      let (others, reached) = guarded_sound gs next h rest in ((passed, others), reached)
