-- ===== src/Domain/Email.antt =====
-- services/control-plane/src/domain/email.ts, and `String.prototype.trim`. Unicode NFC composition
-- and the lower-case mapping are parameters: functions on code units.
use logalot.Base.{ℕ, Bool, ◌&&◌, ◌||◌, [], ◌∷◌, Text, ◌==◌, leb, if◌then◌else◌}

-- WhiteSpace and LineTerminator of ECMAScript.
unfoldable pub is_space : ℕ → Bool
is_space c =
    (leb 9 c && leb c 13)
    || c == 32
    || c == 0xa0
    || c == 0x1680
    || (leb 0x2000 c && leb c 0x200a)
    || c == 0x2028
    || c == 0x2029
    || c == 0x202f
    || c == 0x205f
    || c == 0x3000
    || c == 0xfeff

unfoldable pub trim_start : Text → Text
trim_start [] = []
trim_start (c ∷ s) = let rest = trim_start s in if is_space c then rest else c ∷ s

unfoldable pub trim_end : Text → Text
trim_end [] = []
trim_end (c ∷ s) = elim (trim_end s) [ [] ↦ if is_space c then [] else c ∷ [] | d ∷ t ↦ c ∷ d ∷ t ]

unfoldable pub trim : Text → Text
unfolding trim_start trim_end
trim s = trim_end (trim_start s)

unfoldable pub normalize_email : (nfc lower : Text → Text) → Text → Text
normalize_email nfc lower raw = lower (trim (nfc raw))
