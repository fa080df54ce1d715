-- ===== src/Page/Metrics/Names.antt =====
-- Which processes the metrics view offers.
use pm2manager.Common.{
  ℕ, ◌≡◌, refl, ap, ◌∙◌, arith, String, Bool, true, not, ◌&&◌, ◌||◌, List, [], ◌∷◌, ◌++◌, ltb,
  str_eq, Apart, if◌then◌else◌,
}
use pm2manager.Common.Sort.{sort-Apart, length-filter-sort}
use pm2manager.Common.Distinct.{unseen, times, is_listed, times-unseen}
use pm2manager.Users.Order.{codes_le-total, codes_le_trans}
use pm2manager.Metrics.{Metrics}
use pm2manager.Metrics.History.{distinct_names, has_sample, distinct_names_exact}
use pm2manager.Page.Metrics.{lower_le, offered}

is_listed-append :
    (n : String) (xs ys : List String) → is_listed n (xs ++ ys) ≡ (is_listed n xs || is_listed n ys)
is_listed-append n [] ys = refl
is_listed-append n (x ∷ xs) ys = ground (arith, is_listed-append n xs ys)

is_listed-times : (n : String) (xs : List String) → is_listed n xs ≡ ltb 0 (times n xs)
is_listed-times n [] = refl
is_listed-times n (x ∷ xs) = ground (arith, is_listed-times n xs)

module _ (lower_case : String → List ℕ) (inherited : String → Bool) where
  -- The processes offered are in the order of their lower case, and a process is offered, and once, where
  -- it runs or has a sample not older than `since`, unless its name is empty or every object inherits it.
  pub offered_exact :
      (live : List String) (since : ℕ) (t : Metrics)
      → let names = offered lower_case inherited live (distinct_names since t) in
        Apart (λ a b. lower_le lower_case inherited a b ≡ true) names
        × ((n : String)
            → times n names ≡ (
                if not (str_eq n "" || inherited n) && (is_listed n live || has_sample since n t)
                then 1
                else 0))
  unfolding offered
  offered_exact live since t =
      let seen : String → Bool = λ n. str_eq n "" || inherited n in
      let le = lower_le lower_case inherited in
      let all = live ++ distinct_names since t in
      let stored : (n : String) → is_listed n (distinct_names since t) ≡ has_sample since n t = λ n.
        is_listed-times n (distinct_names since t)
        ∙ ap (ltb 0) ((distinct_names_exact since t).1 n)
        ∙ ground arith in
      (
        sort-Apart le (λ a b. codes_le-total (lower_case a) (lower_case b))
            (λ a b c. codes_le_trans (lower_case a) (lower_case b) (lower_case c))
            (unseen seen all),
        λ n.
            length-filter-sort le (λ m. str_eq m n) (unseen seen all)
            ∙ times-unseen n seen all
            ∙ ap (λ b. if not (seen n) && b then 1 else 0)
                (is_listed-append n live (distinct_names since t)
                  ∙ ap (λ b. is_listed n live || b) (stored n)),
      )
