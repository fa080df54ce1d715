-- ===== src/Page/Logs/Window.antt =====
-- The lines that the log view shows (`appendLog` of public/static/js/app.js).
use mathlib.Core.List.{append_assoc, append-nil}
use pm2manager.Common.{
  ℕ, zero, suc, ◌+◌, ◌-◌, ◌≤◌, ◌≡◌, refl, sym, ap, ◌∙◌, arith, List, [], ◌∷◌, ◌++◌, map, drop,
  length, length-append, ltb, Bool-cases, inl, inr,
}
use pm2manager.Logs.{last}
use pm2manager.Common.Slices.{length-drop, drop-drop}
use pm2manager.Page.Logs.{LogNode, PageLine, Panel, node_of, line_limit, trimmed, append_log}

-- Lines that come one after another.
abbrev pub append_all : List PageLine → Panel → Panel
append_all [] p = p
append_all (l ∷ ls) p = append_all ls (append_log l p)

-- The counter agrees with what is shown, and that is within the limit.
pub record IsCounted (p : Panel) : Type 0 where
  pub counted : p.log_lines ≡ length p.nodes
  pub bounded : length p.nodes ≤ 1000

module _ {ℓ} {A : Type ℓ} where
  last-short : (n : ℕ) (xs : List A) → length xs ≤ n → last n xs ≡ xs
  last-short n xs h = let none_over : length xs - n ≡ 0 = omega arith in rw none_over refl

  last_cons : (n : ℕ) (x : A) (xs : List A) → n ≤ length xs → last n (x ∷ xs) ≡ last n xs
  last_cons n x xs h =
      let over : suc (length xs) - n ≡ suc (length xs - n) = omega arith in rw over refl

  drop-append : (k : ℕ) (xs ys : List A) → k ≤ length xs → drop k xs ++ ys ≡ drop k (xs ++ ys)
  drop-append zero xs ys h = refl
  drop-append (suc k) [] ys h = absurd (omega arith)
  drop-append (suc k) (x ∷ xs) ys h = drop-append k xs ys (omega arith)

  -- What has left a window is not missed when more comes.
  last-append-last : (n : ℕ) (xs ys : List A) → last n (last n xs ++ ys) ≡ last n (xs ++ ys)
  last-append-last n xs ys =
      let k = length xs - n in
      let same = drop-append k xs ys (omega arith) in
      let size = length-append xs ys in
      let left = length-drop k (xs ++ ys) in
      let total : k + (length (xs ++ ys) - k - n) ≡ length (xs ++ ys) - n = omega (arith, size) in
      rw (same, left, drop-drop k (length (xs ++ ys) - k - n) (xs ++ ys), total) refl

trimmed-last : (ns : List LogNode) → trimmed ns (length ns) ≡ (last 1000 ns, length (last 1000 ns))
unfolding trimmed
trimmed-last [] = refl
trimmed-last (n ∷ ns) = elim (Bool-cases (ltb line_limit (length (n ∷ ns)))) [
  | inl over ↦
      let one_less : suc (length ns) - 1 ≡ length ns = omega arith in
      rw (over, one_less, last_cons 1000 n ns (ground arith)) (trimmed-last ns)
  | inr fits ↦ rw (fits, last-short 1000 (n ∷ ns) (ground arith)) refl
]

append_log-last :
    (l : PageLine) (p : Panel)
    → IsCounted p
    → append_log l p ≡ record p {
      nodes = last 1000 (p.nodes ++ node_of l ∷ []);
      log_lines = length (last 1000 (p.nodes ++ node_of l ∷ []));
    }
unfolding append_log
append_log-last l p c =
    let one_more : p.log_lines + 1 ≡ length (p.nodes ++ node_of l ∷ []) =
      omega (arith, length-append p.nodes (node_of l ∷ []), c.counted) in
    rw (one_more, trimmed-last (p.nodes ++ node_of l ∷ [])) refl

append_log-IsCounted : (l : PageLine) (p : Panel) → IsCounted p → IsCounted (append_log l p)
append_log-IsCounted l p c = rw (append_log-last l p c) (record {
  counted = refl;
  bounded =
      omega (
        arith,
        length-drop (length (p.nodes ++ node_of l ∷ []) - 1000) (p.nodes ++ node_of l ∷ []),
      );
})

-- However many lines come, the view shows the last 1000 of those that it had and those that came, in
-- their order, and the counter says how many there are.
pub append_all-last :
    (ls : List PageLine) (p : Panel)
    → IsCounted p
    → ((append_all ls p).nodes ≡ last 1000 (p.nodes ++ map node_of ls))
      × ((append_all ls p).log_lines ≡ length (append_all ls p).nodes)
append_all-last [] p c =
    (sym (ap (last 1000) (append-nil p.nodes) ∙ last-short 1000 p.nodes c.bounded), c.counted)
append_all-last (l ∷ ls) p c =
    let (rest, counted) = append_all-last ls (append_log l p) (append_log-IsCounted l p c) in
    (
      rest
          ∙ ap (λ q. last 1000 (q.nodes ++ map node_of ls)) (append_log-last l p c)
          ∙ last-append-last 1000 (p.nodes ++ node_of l ∷ []) (map node_of ls)
          ∙ ap (last 1000) (append_assoc p.nodes (node_of l ∷ []) (map node_of ls)),
      counted,
    )
