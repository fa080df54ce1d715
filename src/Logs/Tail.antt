-- ===== src/Logs/Tail.antt =====
-- The backlog is the end of the file (`readTailLines`, src/controllers/logs.controller.ts).
use mathlib.Core.Path.{subst}
use mathlib.Core.List.{append_assoc}
use pm2manager.Common.Slices.{length-drop}
use pm2manager.Common.{
  ℕ, zero, suc, ◌-◌, ◌≡◌, ◌≤◌, refl, sym, ap, ◌∙◌, ◌⊎◌, inl, inr, ◌&&◌, List, [], ◌∷◌, ◌++◌, filter,
  filter-append, take, drop, length, length-append, ltb, ◌==◌, arith, Bool-cases,
}
use pm2manager.Logs.{
  cons_first, at_newline, pieces, is_full, full_lines, last, tail_start, backlog_tail_bytes,
  complete_lines, tail_lines,
}

-- `ys` is the end of `xs`.
pub record IsSuffix {ℓ} {A : Type ℓ} (ys xs : List A) : Type ℓ where
  pub before : List A
  pub split : xs ≡ before ++ ys

IsSuffix-trans {ℓ} :
    {A : Type ℓ} (zs ys xs : List A) → IsSuffix zs ys → IsSuffix ys xs → IsSuffix zs xs
IsSuffix-trans zs ys xs h k = record {
  before = k.before ++ h.before;
  split = k.split ∙ ap (λ l. k.before ++ l) h.split ∙ sym (append_assoc k.before h.before zs);
}

take-append-drop {ℓ} : {A : Type ℓ} (n : ℕ) (xs : List A) → xs ≡ take n xs ++ drop n xs
take-append-drop zero xs = refl
take-append-drop (suc n) [] = refl
take-append-drop (suc n) (x ∷ xs) = ap (λ l. x ∷ l) (take-append-drop n xs)

drop-IsSuffix {ℓ} : {A : Type ℓ} (n : ℕ) (xs : List A) → IsSuffix (drop n xs) xs
drop-IsSuffix n xs = record { before = take n xs; split = take-append-drop n xs }

-- The pieces of a text end as those of its end do, but for the first of these.
record Ends (ys zs : List (List ℕ)) : Type 0 where
  before : List (List ℕ)
  first : List ℕ
  split : zs ≡ before ++ first ∷ drop 1 ys

Ends-cons : (p : List ℕ) (ys zs : List (List ℕ)) → Ends ys zs → Ends ys (p ∷ zs)
Ends-cons p ys zs h = record {
  before = p ∷ h.before;
  first = h.first;
  split = ap (λ l. p ∷ l) h.split;
}

Ends-cons_first : (c : ℕ) (ys zs : List (List ℕ)) → Ends ys zs → Ends ys (cons_first c zs)
Ends-cons_first c ys zs h = extended h.before h.first h.split
  where
    extended :
        (before : List (List ℕ)) (first : List ℕ)
        → zs ≡ before ++ first ∷ drop 1 ys
        → Ends ys (cons_first c zs)
    extended [] first e = record { before = []; first = c ∷ first; split = ap (cons_first c) e }
    extended (p ∷ before) first e = record {
      before = (c ∷ p) ∷ before;
      first = first;
      split = ap (cons_first c) e;
    }

Ends-self : (ys : List ℕ) → Ends (pieces ys) (pieces ys)
unfolding pieces
Ends-self [] = record { before = []; first = []; split = refl }
Ends-self (c ∷ cs) =
    let rest = Ends-self cs in
    elim (Bool-cases (c == 10)) [
      | inl e ↦ rw e (record { before = []; first = []; split = refl })
      | inr e ↦ elim (Bool-cases (c == 13 && at_newline cs)) [
        | inl f ↦ rw (e, f) rest
        | inr f ↦ rw (e, f) (headed (pieces cs))
      ]
    ]
  where
    headed : (zs : List (List ℕ)) → Ends (cons_first c zs) (cons_first c zs)
    headed [] = record { before = []; first = c ∷ []; split = refl }
    headed (z ∷ zs) = record { before = []; first = c ∷ z; split = refl }

Ends-pieces : (xs ys : List ℕ) → Ends (pieces ys) (pieces (xs ++ ys))
unfolding pieces
Ends-pieces [] ys = Ends-self ys
Ends-pieces (c ∷ cs) ys =
    let rest = Ends-pieces cs ys in
    elim (Bool-cases (c == 10)) [
      | inl e ↦ rw e (Ends-cons [] (pieces ys) (pieces (cs ++ ys)) rest)
      | inr e ↦ elim (Bool-cases (c == 13 && at_newline (cs ++ ys))) [
        | inl f ↦ rw (e, f) rest
        | inr f ↦ rw (e, f) (Ends-cons_first c (pieces ys) (pieces (cs ++ ys)) rest)
      ]
    ]

-- The full lines of the end, but for the first, end the full lines of the whole.
full_lines-append : (xs ys : List ℕ) → IsSuffix (drop 1 (full_lines ys)) (full_lines (xs ++ ys))
unfolding full_lines
full_lines-append xs ys =
    let h = Ends-pieces xs ys in
    IsSuffix-trans (drop 1 (filter is_full (pieces ys))) (filter is_full (drop 1 (pieces ys)))
      (filter is_full (pieces (xs ++ ys))) (dropped (pieces ys))
      (rw h.split (filtered h.before h.first (drop 1 (pieces ys))))
  where
    dropped :
        (ps : List (List ℕ)) → IsSuffix (drop 1 (filter is_full ps)) (filter is_full (drop 1 ps))
    dropped [] = record { before = []; split = refl }
    dropped (p ∷ ps) = elim (Bool-cases (is_full p)) [
      | inl e ↦ rw e (record { before = []; split = refl })
      | inr e ↦ rw e (drop-IsSuffix 1 (filter is_full ps))
    ]

    headed :
        (first : List ℕ) (ps : List (List ℕ))
        → IsSuffix (filter is_full ps) (filter is_full (first ∷ ps))
    headed first ps = elim (Bool-cases (is_full first)) [
      | inl e ↦ rw e (record { before = first ∷ []; split = refl })
      | inr e ↦ rw e (record { before = []; split = refl })
    ]

    filtered :
        (before : List (List ℕ)) (first : List ℕ) (ps : List (List ℕ))
        → IsSuffix (filter is_full ps) (filter is_full (before ++ first ∷ ps))
    filtered before first ps =
        IsSuffix-trans (filter is_full ps) (filter is_full (first ∷ ps))
          (filter is_full (before ++ first ∷ ps)) (headed first ps)
          (record {
            before = filter is_full before;
            split = filter-append is_full before (first ∷ ps);
          })

drop-append {ℓ} : {A : Type ℓ} (xs ys : List A) → drop (length xs) (xs ++ ys) ≡ ys
drop-append [] ys = refl
drop-append (x ∷ xs) ys = drop-append xs ys

length-last-le {ℓ} : {A : Type ℓ} (n : ℕ) (xs : List A) → length (last n xs) ≤ n
length-last-le n xs = omega (arith, length-drop (length xs - n) xs)

-- An end of a list with `n` elements is the last `n`.
last-IsSuffix {ℓ} :
    {A : Type ℓ} (n : ℕ) (ys xs : List A) → IsSuffix ys xs → length ys ≡ n → ys ≡ last n xs
last-IsSuffix n ys xs h e =
    let same : length xs - n ≡ length h.before =
      omega (arith, ap length h.split, length-append h.before ys, e) in
    sym (ap (λ k. drop k xs) same ∙ ap (drop (length h.before)) h.split ∙ drop-append h.before ys)

-- What is replayed of a file.
pub record Replays (bytes : List ℕ) (lines : List (List ℕ)) : Type 0 where
  pub suffix : IsSuffix lines (full_lines bytes)
  pub few : length lines ≤ 100
  pub exact :
      (length bytes ≤ backlog_tail_bytes) ⊎ (length lines ≡ 100)
      → lines ≡ last 100 (full_lines bytes)

-- However long the file is, the lines that are replayed are whole lines of it, the last of those that
-- are not empty, at most 100; and they are its last 100 such lines, or all if there are fewer, where
-- the file fits in the bytes that are read or 100 lines were found in these.
pub tail_lines-Replays : (bytes : List ℕ) → Replays bytes (tail_lines bytes)
unfolding tail_lines
tail_lines-Replays bytes = record {
  suffix = suffix;
  few = length-last-le 100 read;
  exact = λ h. elim h [
    | inl small ↦ let e : tail_start bytes ≡ 0 = omega arith in rw e refl
    | inr full ↦ last-IsSuffix 100 (last 100 read) (full_lines bytes) suffix full
  ];
}
  where
    start : ℕ
    start = tail_start bytes

    read : List (List ℕ)
    read = complete_lines (ltb 0 start) (full_lines (drop start bytes))

    ended : IsSuffix read (full_lines bytes)
    ended = elim (Bool-cases (ltb 0 (tail_start bytes))) [
      | inl e ↦ rw e (
          subst (λ b. IsSuffix (drop 1 (full_lines (drop (tail_start bytes) bytes))) (full_lines b))
            (sym (take-append-drop (tail_start bytes) bytes))
            (full_lines-append (take (tail_start bytes) bytes) (drop (tail_start bytes) bytes)))
      | inr e ↦
          let none_dropped : tail_start bytes ≡ 0 = ground (arith, e) in
          rw none_dropped (record { before = []; split = refl })
    ]

    suffix : IsSuffix (last 100 read) (full_lines bytes)
    suffix = IsSuffix-trans _ read _ (drop-IsSuffix (length read - 100) read) ended
