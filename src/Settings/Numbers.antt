-- ===== src/Settings/Numbers.antt =====
-- Numbers as the settings table holds them: `Number(raw)`
-- (src/controllers/settings.controller.ts, src/services/metrics.service.ts).
use pm2manager.Common.{ℕ, ◌≡◌, refl, ◌&&◌, Option, some, List, leb, length, if◌then◌else◌}
use pm2manager.Common.Numerals.{printed, all_digits, decimal, decimal-printed}

-- `Number(raw)` where it is finite: digits are read here, and any other text by the parameter.
unfoldable pub number_of : (List ℕ → Option ℕ) → List ℕ → Option ℕ
unfolding decimal
number_of other raw =
    if leb 1 (length raw) && all_digits raw then some (decimal 0 raw) else other raw

-- What is printed is read back.
pub number_of-printed : (other : List ℕ → Option ℕ) (n : ℕ) → number_of other (printed n) ≡ some n
number_of-printed other n =
    let (value, digits, long_enough) = decimal-printed n in
    unfold number_of in rw (long_enough, digits, value) refl
