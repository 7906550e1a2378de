-- ===== src/Domain/Split.antt =====
-- services/control-plane/src/domain/split.ts: `splitN`, and the string methods that it calls.
pub mod Laws
pub mod Fields
use logalot.Base.{
  ℕ, zero, suc, ◌+◌, Bool, true, false, ◌&&◌, Option, none, some, List, [], ◌∷◌, ◌++◌, length, take,
  drop, Text, ◌==◌, if◌then◌else◌,
}

-- `s.startsWith(sep)`
unfoldable pub starts_with : Text → Text → Bool
starts_with s [] = true
starts_with [] (p ∷ ps) = false
starts_with (c ∷ s) (p ∷ ps) = (c == p) && starts_with s ps

-- `s.indexOf(sep)`, with `none` for -1
unfoldable pub index_of : Text → Text → Option ℕ
unfolding starts_with
index_of [] sep = if starts_with [] sep then some 0 else none
index_of (c ∷ s) sep =
    let rest = index_of s sep in
    if starts_with (c ∷ s) sep then some 0 else elim rest [ none ↦ none | some i ↦ some (suc i) ]

-- The `while` loop of splitN, with the number of parts that it may still push before the last.
unfoldable pub split_loop : ℕ → Text → Text → List Text
unfolding index_of
split_loop zero rest sep = rest ∷ []
split_loop (suc k) rest sep = elim (index_of rest sep) [
  | none ↦ rest ∷ []
  | some idx ↦ take idx rest ∷ split_loop k (drop (idx + length sep) rest) sep
]

unfoldable pub split_n : Text → Text → ℕ → List Text
unfolding split_loop
split_n s sep zero = []
split_n s sep (suc n) = split_loop n s sep

-- `parts.join(sep)`
unfoldable pub join : List Text → Text → Text
join [] sep = []
join (p ∷ []) sep = p
join (p ∷ q ∷ ps) sep = p ++ (sep ++ join (q ∷ ps) sep)
