-- ===== src/Tests/Access.antt =====
-- The guards.
use text.Mathlib.TextEquality.{Char-path}
use pm2manager.Common.{◌≡◌, refl, String, some, codes}
use pm2manager.Exec.{pure}
use pm2manager.World.{World, set_session}
use pm2manager.Guards.{Request, users_route}
use pm2manager.Guards.Access.{Access, users_route-Access}
use pm2manager.Tests.Data.{signed_in}

codes-injective : (s t : String) → codes s ≡ codes t → s ≡ t
codes-injective String.[] String.[] h = refl
codes-injective String.[] (String.◌∷◌ d t) h = cc
codes-injective (String.◌∷◌ c s) String.[] h = cc
codes-injective (String.◌∷◌ c s) (String.◌∷◌ d t) h =
    let rest = codes-injective s t cc in let same = Char-path c d cc in cc

abbrev holder : World
holder = set_session (record signed_in.session { csrf_secret = some "abc" }) signed_in

abbrev deletion : Request
deletion = record { method = "DELETE"; csrf_header = some "abc" }

users_route-Access_example :
    Access deletion (pure tt) holder (users_route codes deletion (pure tt) holder)
users_route-Access_example = users_route-Access codes deletion (pure tt) holder codes-injective
