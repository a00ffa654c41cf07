-- ===== src/Methods/Clabe.antt =====
-- src/api/src/modules/wallet/clabe.util.ts: the check digit of a Mexican bank account. A text is the list
-- of its characters' codes.
use iron_loot.Common.{
  ℕ, ◌+◌, ◌-◌, ◌*◌, ◌%◌, ◌≡◌, refl, ◌≢◌, inl, inr, Bool, true, false, ◌&&◌, ◌||◌, List, [], ◌∷◌,
  ◌++◌, arith, leb, ◌==◌, if◌then◌else◌, Bool-cases, length,
}

abbrev is_digit : ℕ → Bool
is_digit c = leb 48 c && leb c 57

abbrev digit : ℕ → ℕ
digit c = c - 48

-- The white space that `trim` takes off.
abbrev pub is_space : ℕ → Bool
is_space c =
    (leb 9 c && leb c 13)
    || (c == 32)
    || (c == 160)
    || (c == 5760)
    || (leb 8192 c && leb c 8202)
    || (c == 8232)
    || (c == 8233)
    || (c == 8239)
    || (c == 8287)
    || (c == 12288)
    || (c == 65279)

abbrev pub trim_start : List ℕ → List ℕ
trim_start [] = []
trim_start (c ∷ cs) = if is_space c then trim_start cs else c ∷ cs

abbrev pub is_empty : List ℕ → Bool
is_empty [] = true
is_empty (c ∷ cs) = false

abbrev pub trim_end : List ℕ → List ℕ
trim_end [] = []
trim_end (c ∷ cs) = let rest = trim_end cs in if is_space c && is_empty rest then [] else c ∷ rest

abbrev pub trim : List ℕ → List ℕ
trim cs = trim_end (trim_start cs)

abbrev pub all_digits : List ℕ → Bool
all_digits [] = true
all_digits (c ∷ cs) = is_digit c && all_digits cs

-- The weights 3, 7 and 1 in turn.
unfoldable pub weight : ℕ → ℕ
weight i = if i % 3 == 0 then 3 else if i % 3 == 1 then 7 else 1

-- The loop from the digit `i` on, with the sum so far; the last digit checks it.
unfoldable pub check_from : ℕ → ℕ → List ℕ → Bool
check_from i sum [] = false
check_from i sum (c ∷ []) = (10 - sum % 10) % 10 == digit c
check_from i sum (c ∷ b ∷ cs) = check_from (i + 1) (sum + digit c * weight i % 10) (b ∷ cs)

unfoldable pub is_valid_clabe : List ℕ → Bool
is_valid_clabe clabe = let c = trim clabe in all_digits c && (length c == 18) && check_from 0 0 c

trim_start-digits : (cs : List ℕ) → all_digits cs ≡ true → trim_start cs ≡ cs
trim_start-digits [] h = refl
trim_start-digits (c ∷ cs) h = ground arith

trim_end-digits : (cs : List ℕ) → all_digits cs ≡ true → trim_end cs ≡ cs
trim_end-digits [] h = refl
trim_end-digits (c ∷ cs) h = ground (arith, trim_end-digits cs (ground arith))

pub trim-digits : (cs : List ℕ) → all_digits cs ≡ true → trim cs ≡ cs
trim-digits cs h = rw (trim_start-digits cs h) (trim_end-digits cs h)

check_digit_inj : (a b x : ℕ) → (10 - a % 10) % 10 ≡ x → (10 - b % 10) % 10 ≡ x → a % 10 ≡ b % 10
check_digit_inj a b x e f = omega arith

add_mod_inj : (a b p : ℕ) → (a + p) % 10 ≡ (b + p) % 10 → a % 10 ≡ b % 10
add_mod_inj a b p e = omega arith

sum_mod_inj : (s x y : ℕ) → (s + x % 10) % 10 ≡ (s + y % 10) % 10 → x % 10 ≡ y % 10
sum_mod_inj s x y e = omega arith

-- A sum that differs in its last digit fails the check that the other passes.
sums_differ :
    (i : ℕ) (cs : List ℕ) (a b : ℕ)
    → a % 10 ≢ b % 10
    → check_from i a cs ≡ true
    → check_from i b cs ≡ false
unfolding check_from
sums_differ i [] a b n h = refl
sums_differ i (c ∷ []) a b n h = elim (Bool-cases ((10 - b % 10) % 10 == digit c)) [
  | inl q ↦ absurd (n (check_digit_inj a b (digit c) (ground arith) (ground arith)))
  | inr q ↦ q
]
sums_differ i (c ∷ d ∷ cs) a b n h =
    let p = digit c * weight i % 10 in
    sums_differ (i + 1) (d ∷ cs) (a + p) (b + p) (λ e. n (add_mod_inj a b p e)) h

-- 3, 7 and 1 have no factor with 10 in common.
weighted_inj :
    (i c d : ℕ)
    → is_digit c ≡ true
    → is_digit d ≡ true
    → digit c * weight i % 10 ≡ digit d * weight i % 10
    → c ≡ d
unfolding weight
weighted_inj i c d p q e = elim (Bool-cases (i % 3 == 0)) [
  | inl z ↦ ground arith
  | inr z ↦ elim (Bool-cases (i % 3 == 1)) [ inl o ↦ ground arith | inr o ↦ ground arith ]
]

-- One digit changed, after `pre`.
changed :
    (pre post : List ℕ) (c d i sum : ℕ)
    → is_digit c ≡ true
    → is_digit d ≡ true
    → c ≢ d
    → check_from i sum (pre ++ c ∷ post) ≡ true
    → check_from i sum (pre ++ d ∷ post) ≡ false
unfolding check_from
changed [] [] c d i sum p q n h = elim (Bool-cases ((10 - sum % 10) % 10 == digit d)) [
  | inl k ↦ absurd (n (ground arith))
  | inr k ↦ k
]
changed [] (b ∷ post) c d i sum p q n h =
    sums_differ (i + 1) (b ∷ post) (sum + digit c * weight i % 10) (sum + digit d * weight i % 10)
      (λ e.
        n (weighted_inj i c d p q (sum_mod_inj sum (digit c * weight i) (digit d * weight i) e)))
      h
changed (a ∷ []) post c d i sum p q n h =
    changed [] post c d (i + 1) (sum + digit a * weight i % 10) p q n h
changed (a ∷ b ∷ pre) post c d i sum p q n h =
    changed (b ∷ pre) post c d (i + 1) (sum + digit a * weight i % 10) p q n h

digits_of : (pre post : List ℕ) (c : ℕ) → all_digits (pre ++ c ∷ post) ≡ true → is_digit c ≡ true
digits_of [] post c h = ground arith
digits_of (a ∷ pre) post c h = digits_of pre post c (ground arith)

digits_changed :
    (pre post : List ℕ) (c d : ℕ)
    → all_digits (pre ++ c ∷ post) ≡ true
    → is_digit d ≡ true
    → all_digits (pre ++ d ∷ post) ≡ true
digits_changed [] post c d h q = ground arith
digits_changed (a ∷ pre) post c d h q = ground (arith, digits_changed pre post c d (ground arith) q)

-- A valid bank account number of digits alone, with any one of its digits replaced by another
-- digit, is not valid.
pub is_valid_clabe-changed :
    (pre post : List ℕ) (c d : ℕ)
    → all_digits (pre ++ c ∷ post) ≡ true
    → is_digit d ≡ true
    → c ≢ d
    → is_valid_clabe (pre ++ c ∷ post) ≡ true
    → is_valid_clabe (pre ++ d ∷ post) ≡ false
unfolding is_valid_clabe
is_valid_clabe-changed pre post c d a q n h =
    let p = digits_of pre post c a in
    let a' = digits_changed pre post c d a q in
    let t = trim-digits (pre ++ c ∷ post) a in
    let k : check_from 0 0 (pre ++ c ∷ post) ≡ true = ground (arith, t) in
    let z = changed pre post c d 0 0 p q n k in
    rw (trim-digits (pre ++ d ∷ post) a', z) (ground arith)
