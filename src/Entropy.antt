-- ===== src/Entropy.antt =====
-- app/core/entropy.py. Python's floats and the functions of `math` are the parameter `FloatOps`;
-- `of_nat` is the conversion of an int in mixed arithmetic, and `decimal n k` the literal n / 10^k.
mod Tests
use backupos.Base.{
  ℕ, zero, suc, ◌+◌, Bool, true, false, not, ◌&&◌, ◌||◌, Option, none, some, List, [], ◌∷◌, map,
  Bytes, nat_eq, ltb, length, if◌then◌else◌,
}
use backupos.Base.Dict.{Dict, lookup, insert}

pub record FloatOps : Type 1 where
  pub Float : Type 0
  pub of_nat : ℕ → Float
  pub decimal : ℕ → ℕ → Float
  pub add : Float → Float → Float
  pub sub : Float → Float → Float
  pub mul : Float → Float → Float
  pub div : Float → Float → Float
  pub pow : Float → Float → Float
  pub log2 : Float → Float
  pub sqrt : Float → Float
  pub erfc : Float → Float
  pub lt : Float → Float → Bool
  pub eq : Float → Float → Bool

-- `d.get(k, default)`
abbrev pub get_default : ℕ → Dict ℕ ℕ → ℕ → ℕ
get_default k d default = elim (lookup k d) [ none ↦ default | some v ↦ v ]

-- `Counter(data)`
unfoldable pub counter_loop : Bytes → Dict ℕ ℕ → Dict ℕ ℕ
counter_loop [] counts = counts
counter_loop (b ∷ bytes) counts = counter_loop bytes (insert b (get_default b counts 0 + 1) counts)

unfoldable pub counter : Bytes → Dict ℕ ℕ
unfolding counter_loop
counter bytes = counter_loop bytes []

-- `range(start, start + n)`
abbrev pub range_from : ℕ → ℕ → List ℕ
range_from start zero = []
range_from start (suc n) = start ∷ range_from (start + 1) n

module _ (F : FloatOps) where
  open F use {Float, of_nat, decimal, add, sub, mul, div, pow, log2, sqrt, erfc, lt, eq}

  -- `sum(xs)`, from the int 0.
  abbrev pub sum_from : Float → List Float → Float
  sum_from acc [] = acc
  sum_from acc (x ∷ xs) = sum_from (add acc x) xs

  abbrev pub sum : List Float → Float
  sum xs = sum_from (of_nat 0) xs

  -- The loop over `counts.values()`.
  unfoldable pub entropy_loop : ℕ → Dict ℕ ℕ → Float → Float
  entropy_loop len [] entropy = entropy
  entropy_loop len ((_, count) ∷ counts) entropy =
      let p = div (of_nat count) (of_nat len) in
      entropy_loop len counts (sub entropy (mul p (log2 p)))

  unfoldable pub shannon_entropy : Bytes → Float
  shannon_entropy [] = decimal 0 1
  shannon_entropy (b ∷ bytes) =
      entropy_loop (length (b ∷ bytes)) (counter (b ∷ bytes)) (decimal 0 1)

  pub record EntropyStats : Type 0 where
    pub average_entropy : Float
    pub max_entropy : Float
    pub high_entropy_ratio : Float
    pub is_suspicious : Bool

  -- `max(xs)` over `x ∷ xs`: the first of the largest.
  abbrev pub max_from : Float → List Float → Float
  max_from m [] = m
  max_from m (x ∷ xs) = max_from (if lt m x then x else m) xs

  -- `sum(1 for e in entropies if e > HIGH_THRESHOLD)`
  abbrev pub count_above : Float → List Float → ℕ
  count_above threshold [] = 0
  count_above threshold (x ∷ xs) = (if lt threshold x then 1 else 0) + count_above threshold xs

  unfoldable pub analyze_entropies : Float → List Float → EntropyStats
  analyze_entropies e es =
      let high_threshold = decimal 72 1 in
      let n = of_nat (length (e ∷ es)) in
      let avg = div (sum (e ∷ es)) n in
      let high_ratio = div (of_nat (count_above high_threshold (e ∷ es))) n in
      record {
        average_entropy = avg;
        max_entropy = max_from e es;
        high_entropy_ratio = high_ratio;
        is_suspicious = lt high_threshold avg || lt (decimal 8 1) high_ratio;
      }

  unfoldable pub analyze_chunks : List Bytes → EntropyStats
  unfolding analyze_entropies
  analyze_chunks [] = record {
    average_entropy = decimal 0 1;
    max_entropy = decimal 0 1;
    high_entropy_ratio = decimal 0 1;
    is_suspicious = false;
  }
  analyze_chunks (c ∷ chunks) = analyze_entropies (shannon_entropy c) (map shannon_entropy chunks)

  unfoldable pub entropy_spike_detected : Float → Float → Float → Bool
  entropy_spike_detected current_avg previous_avg threshold =
      if eq previous_avg (decimal 0 1)
      then false
      else lt threshold current_avg && lt (decimal 15 1) (sub current_avg previous_avg)

  -- A term of the sum over the 256 byte values.
  abbrev pub chi_term : Dict ℕ ℕ → Float → ℕ → Float
  chi_term counts expected b =
      div (pow (sub (of_nat (get_default b counts 0)) expected) (of_nat 2)) expected

  unfoldable pub chi_squared_uniform_test : Bytes → Float
  chi_squared_uniform_test bytes =
      if ltb (length bytes) 512
      then decimal 5 1
      else let counts = counter bytes in
        let n = length bytes in
        let expected = div (of_nat n) (decimal 2560 1) in
        let chi2 = sum (map (chi_term counts expected) (range_from 0 256)) in
        let df = of_nat 255 in
        let mu = sub (decimal 10 1) (div (decimal 20 1) (mul (decimal 90 1) df)) in
        let sigma = sqrt (div (decimal 20 1) (mul (decimal 90 1) df)) in
        let z = div (sub (pow (div chi2 df) (div (decimal 10 1) (decimal 30 1))) mu) sigma in
        mul (decimal 5 1) (erfc (div z (sqrt (decimal 20 1))))

  unfoldable pub ewma_loop : Float → Float → List Float → Float
  ewma_loop alpha ewma [] = ewma
  ewma_loop alpha ewma (val ∷ vals) =
      ewma_loop alpha (add (mul alpha val) (mul (sub (decimal 10 1) alpha) ewma)) vals

  unfoldable pub ewma_entropy_baseline : List Float → Float → Float
  unfolding ewma_loop
  ewma_entropy_baseline [] alpha = decimal 0 1
  ewma_entropy_baseline (e ∷ recent_entropies) alpha = ewma_loop alpha e recent_entropies
