-- ===== src/Keys/Labels.antt =====
-- SanitizeLabelValue of pkg/apikeystore/store.go, on the code points of the identifier. What it keeps
-- is ASCII, so that bytes and code points are the same where the source cuts and trims.
pub mod Valid
use agenttier.Prelude.{
  ℕ, zero, suc, Bool, true, false, ◌&&◌, ◌||◌, List, [], ◌∷◌, map, if◌then◌else◌, leb, ◌==◌,
  is_empty, Text, codes,
}

abbrev pub is_alnum : ℕ → Bool
is_alnum c = leb b'a' c && leb c b'z' || leb b'A' c && leb c b'Z' || leb b'0' c && leb c b'9'

abbrev pub is_label_char : ℕ → Bool
is_label_char c = is_alnum c || c == b'-' || c == b'_' || c == b'.'

abbrev pub safe_char : ℕ → ℕ
safe_char c = if is_label_char c then c else b'-'

abbrev pub take : ℕ → Text → Text
take zero text = []
take (suc n) [] = []
take (suc n) (c ∷ text) = c ∷ take n text

-- The first loop of trimNonAlphanumeric, and the second one.
unfoldable pub trim_start : Text → Text
trim_start [] = []
trim_start (c ∷ text) = let rest = trim_start text in if is_alnum c then c ∷ text else rest

unfoldable pub trim_end : Text → Text
trim_end [] = []
trim_end (c ∷ text) =
    let rest = trim_end text in
    if is_empty rest then (if is_alnum c then c ∷ [] else []) else c ∷ rest

abbrev pub trim_non_alphanumeric : Text → Text
trim_non_alphanumeric text = trim_end (trim_start text)

abbrev pub or_user : Text → Text
or_user text = if is_empty text then codes "user" else text

unfoldable pub sanitize_label_value : Text → Text
sanitize_label_value v =
    if is_empty v
    then codes "unknown"
    else or_user (trim_non_alphanumeric (take 63 (map safe_char v)))
