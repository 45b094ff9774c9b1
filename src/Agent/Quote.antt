-- ===== src/Agent/Quote.antt =====
-- buildInvokeCommand and shellQuote of pkg/router/agent/invoke.go: a command line for `sh -c`, as code
-- points.
pub mod Words
use agenttier.Prelude.{
  ℕ, Bool, true, false, not, List, [], ◌∷◌, ◌++◌, map, if◌then◌else◌, ◌==◌, is_empty, any, Text,
  codes,
}

-- The characters that `strings.ContainsAny` looks for.
abbrev pub special_chars : Text
special_chars = codes "'\\\"$`!*?[ \t\n#&|;<>(){}~"

unfoldable pub is_special : ℕ → Bool
is_special c = any (λ s. s == c) special_chars

-- `strings.ReplaceAll(s, "'", …)`, with a quoted quote between two pieces.
unfoldable pub replace_quotes : Text → Text
replace_quotes [] = []
replace_quotes (c ∷ s) =
    let rest = replace_quotes s in if c == b'\'' then codes "'\"'\"'" ++ rest else c ∷ rest

unfoldable pub shell_quote : Text → Text
shell_quote s =
    if is_empty s
    then codes "''"
    else (if not (any is_special s) then s else b'\'' ∷ replace_quotes s ++ b'\'' ∷ [])

-- `strings.Join(words, " ")`
unfoldable pub join : List Text → Text
join [] = []
join (w ∷ []) = w
join (w ∷ v ∷ words) = w ++ b' ' ∷ join (v ∷ words)

unfoldable pub build_invoke_command : List Text → List Text
build_invoke_command argv = codes "/bin/sh" ∷ codes "-c" ∷ join (map shell_quote argv) ∷ []
