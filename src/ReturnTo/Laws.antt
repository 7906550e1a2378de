-- ===== src/ReturnTo/Laws.antt =====
-- What the sanitizer lets through.
use logalot.Domain.Email.{trim}
use logalot.ReturnTo.{
  no_control, starts_inside, is_valid_return_to, default_return_to, sanitize_return_to,
}
use logalot.Base.{
  [], refl, none, some, true, inl, inr, Text, ◌≡◌, arith, Option, ◌∷◌, All, Bool-cases, ◌≢◌, ◌<◌,
  is_empty, take, length, ◌≤◌,
}

-- A path of this site: a slash, then neither a slash nor a backslash, and no control character, in at
-- most 2000 code units.
pub record IsLocal (v : Text) : Type 0 where
  pub tail : Text
  pub slash : v ≡ b'/' ∷ tail
  pub no_host : All (λ c. (c ≢ b'/') × (c ≢ b'\\')) (take 1 tail)
  pub printable : All (λ c. (0x1f < c) × (c ≢ 0x7f)) v
  pub short : length v ≤ 2000

no_control-All : (v : Text) → no_control v ≡ true → All (λ c. (0x1f < c) × (c ≢ 0x7f)) v
unfolding no_control
no_control-All [] h = tt
no_control-All (c ∷ v) h = (ground arith, no_control-All v (ground arith))

starts_inside_local :
    (v : Text)
    → starts_inside v ≡ true
    → (tail : Text) × (v ≡ b'/' ∷ tail) × All (λ c. (c ≢ b'/') × (c ≢ b'\\')) (take 1 tail)
unfolding starts_inside
starts_inside_local [] h = absurd (cc)
starts_inside_local (c ∷ []) h = ([], ground arith, tt)
starts_inside_local (c ∷ d ∷ v) h = (d ∷ v, ground arith, (ground arith, tt))

valid-IsLocal : (v : Text) → is_valid_return_to v ≡ true → IsLocal v
unfolding is_valid_return_to
valid-IsLocal v h =
    let (tail, slash, no_host) = starts_inside_local v (ground arith) in
    record {
      tail = tail;
      slash = slash;
      no_host = no_host;
      printable = no_control-All v (ground arith);
      short = ground arith;
    }

default-IsLocal : IsLocal default_return_to
default-IsLocal = record {
  tail = [];
  slash = refl;
  no_host = tt;
  printable = ((omega arith, omega arith), tt);
  short = omega arith;
}

-- Whatever the caller supplies, the sanitized target is a path of this site: it begins with a slash
-- that no slash or backslash follows, holds no control character, and has at most 2000 code units.
pub sanitize_return_to-IsLocal : (value : Option Text) → IsLocal (sanitize_return_to value)
unfolding sanitize_return_to
sanitize_return_to-IsLocal none = default-IsLocal
sanitize_return_to-IsLocal (some value) = elim (Bool-cases (is_empty value)) [
  | inl e ↦ rw e default-IsLocal
  | inr e ↦ elim (Bool-cases (is_valid_return_to (trim value))) [
    | inl f ↦ rw (e, f) (valid-IsLocal (trim value) f)
    | inr f ↦ rw (e, f) default-IsLocal
  ]
]
