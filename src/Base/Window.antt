-- ===== src/Base/Window.antt =====
-- The window of the last elements of a list, which bounded queues and stacks keep.
use native.Mathlib.Nat.{suc-add}
use Prim.Native.Nat.{ℕ, zero, suc, ◌+◌, ◌-◌, ◌≤◌, ◌<◌}
use mathlib.Core.Path.{◌≡◌, refl, sym, ap, ◌∙◌}
use mathlib.Core.List.{List, [], ◌∷◌, ◌++◌}
use native.Mathlib.Omega.{arith}
use nifi_lens.Base.Lists.{length, drop, length-append, length-drop}

-- The last `n` elements.
abbrev pub keep_last {ℓ} : {A : Type ℓ} → ℕ → List A → List A
keep_last n xs = drop (length xs - n) xs

drop-nil {ℓ} : (A : Type ℓ) (n : ℕ) → drop {A = A} n [] ≡ []
drop-nil A zero = refl
drop-nil A (suc n) = refl

drop-drop {ℓ} : {A : Type ℓ} (a b : ℕ) (xs : List A) → drop a (drop b xs) ≡ drop (b + a) xs
drop-drop a zero xs = ground arith
drop-drop {A} a (suc b) [] = drop-nil A a ∙ sym (drop-nil A (suc b + a))
drop-drop a (suc b) (x ∷ xs) = rw suc-add (drop-drop a b xs)

pub drop-append_le {ℓ} :
    {A : Type ℓ} (k : ℕ) (xs ys : List A) → k ≤ length xs → drop k xs ++ ys ≡ drop k (xs ++ ys)
drop-append_le zero xs ys h = refl
drop-append_le (suc k) [] ys h = absurd (omega arith)
drop-append_le (suc k) (x ∷ xs) ys h = drop-append_le k xs ys (omega arith)

pub keep_last-append {ℓ} :
    {A : Type ℓ} (n : ℕ) (xs ys : List A)
    → keep_last n (keep_last n xs ++ ys) ≡ keep_last n (xs ++ ys)
keep_last-append n xs ys =
    let k = length xs - n in
    rw (drop-append_le k xs ys (omega arith)) (
      drop-drop _ k (xs ++ ys)
      ∙ ap (λ j. drop j (xs ++ ys))
          (omega
            (arith, length-append {ℓ} xs ys, length-drop {ℓ} k xs, length-drop {ℓ} k (xs ++ ys))))

pub length-keep_last {ℓ} : {A : Type ℓ} (n : ℕ) (xs : List A) → length (keep_last n xs) ≤ n
length-keep_last n xs = omega (arith, length-drop (length xs - n) xs)

pub keep_last_short {ℓ} : {A : Type ℓ} (n : ℕ) (xs : List A) → length xs ≤ n → keep_last n xs ≡ xs
keep_last_short n xs h = let all : length xs - n ≡ 0 = omega arith in ap (λ k. drop k xs) all

pub keep_last-cons {ℓ} :
    {A : Type ℓ} (n : ℕ) (x : A) (xs : List A)
    → n < length (x ∷ xs)
    → keep_last n (x ∷ xs) ≡ keep_last n xs
keep_last-cons n x xs h =
    let one : length (x ∷ xs) - n ≡ suc (length xs - n) = omega arith in
    ap (λ k. drop k (x ∷ xs)) one
