-- ===== src/LogTail/Ring/Last.antt =====
-- The last items of a list: what the ring keeps.
use logalot.Base.{
  refl, [], zero, suc, ℕ, List, length, ◌≤◌, ◌++◌, ◌∷◌, ◌≡◌, drop, arith, length-append,
  length-drop, inl, inr, ◌-◌, ◌∙◌, Bool-cases, ltb, ap, sym, leb,
}
use mathlib.Core.List.{append-nil}
use logalot.LogTail.{TailItem, last, committed}

pub last-eq-drop : (max : ℕ) (xs : List TailItem) → last max xs ≡ drop (length xs - max) xs
unfolding last
last-eq-drop max xs = elim (Bool-cases (ltb max (length xs))) [
  | inl more ↦ rw more refl
  | inr fits ↦ let none_left : length xs - max ≡ 0 = ground arith in rw (fits, none_left) refl
]

pub last_all : (max : ℕ) (xs : List TailItem) → length xs ≤ max → last max xs ≡ xs
last_all max xs h =
    let none_left : length xs - max ≡ 0 = omega arith in
    last-eq-drop max xs ∙ ap (λ n. drop n xs) none_left

last-cons :
    (max : ℕ) (x : TailItem) (xs : List TailItem)
    → max ≤ length xs
    → last max (x ∷ xs) ≡ last max xs
last-cons max x xs h =
    let one_more : length (x ∷ xs) - max ≡ suc (length xs - max) = omega arith in
    last-eq-drop max (x ∷ xs) ∙ ap (λ n. drop n (x ∷ xs)) one_more ∙ sym (last-eq-drop max xs)

-- Dropping from the front twice, with more behind, is dropping once.
drop-last :
    (max : ℕ) (n : ℕ) (xs ys : List TailItem)
    → max ≤ length (drop n xs)
    → last max (drop n xs ++ ys) ≡ last max (xs ++ ys)
drop-last max zero xs ys h = refl
drop-last max (suc n) [] ys h = refl
drop-last max (suc n) (x ∷ xs) ys h =
    let long : max ≤ length (xs ++ ys) = omega (arith, length-append xs ys, length-drop n xs) in
    drop-last max n xs ys h ∙ sym (last-cons max x (xs ++ ys) long)

-- What has been cut already does not matter.
pub last-last :
    (max : ℕ) (xs ys : List TailItem) → last max (last max xs ++ ys) ≡ last max (xs ++ ys)
last-last max xs ys = elim (Bool-cases (leb max (length xs))) [
  | inl long ↦
      let kept : max ≤ length (drop (length xs - max) xs) =
        ground (arith, length-drop (length xs - max) xs) in
      ap (λ l. last max (l ++ ys)) (last-eq-drop max xs)
      ∙ drop-last max (length xs - max) xs ys kept
  | inr short ↦ ap (λ l. last max (l ++ ys)) (last_all max xs (ground arith))
]

pub length-last : (max : ℕ) (xs : List TailItem) → length (last max xs) ≤ max
unfolding last
length-last max xs = ground (arith, length-drop (length xs - max) xs)

pub committed-last :
    (max : ℕ) (settled pending : List TailItem)
    → committed max (last max settled) pending ≡ last max (settled ++ pending)
committed-last max settled [] = ap (last max) (sym (append-nil settled))
committed-last max settled (i ∷ pending) = last-last max settled (i ∷ pending)
