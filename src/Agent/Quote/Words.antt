-- ===== src/Agent/Quote/Words.antt =====
-- The command lines of pkg/router/agent/invoke.go read the way a POSIX shell splits a simple command
-- into words, by the shell's own lists of characters. That a first word FOO=1 is an assignment, and a
-- first word such as `if` a reserved word, is not told apart here.
use agenttier.Prelude.{
  ℕ, Bool, false, Option, none, some, List, [], ◌∷◌, ◌++◌, map, ◌≡◌, refl, ap, arith, ◌∙◌, sym,
  if◌then◌else◌, ◌==◌, ◌||◌, any, Text, codes, Bool-cases, inl, inr, ==_iff,
}
use agenttier.Agent.Quote.{is_special, replace_quotes, shell_quote, join, build_invoke_command}

-- Outside quotes, between single quotes, between double quotes.
pub data Mode : Type 0 where
  plain single double : Mode

-- The words before a rest: the word that has begun, if one has, stands first.
abbrev pub begun : Option Text → Option (List Text) → Option (List Text)
begun none words = words
begun (some w) none = none
begun (some w) (some words) = some (w ∷ words)

abbrev pub text_of : Option Text → Text
text_of none = []
text_of (some w) = w

abbrev pub extend : Option Text → ℕ → Option Text
extend word c = some (text_of word ++ c ∷ [])

-- What the shell would do more with in double quotes: `$`, a backquote, a backslash and `!`.
abbrev pub is_active : ℕ → Bool
is_active c = any (λ s. s == c) (codes "$`\\!")

-- What separates words: the space and the tab.
abbrev pub is_blank : ℕ → Bool
is_blank c = c == 32 || c == 9

-- What means something to the shell outside quotes, besides blanks and the two quotes: what ends a
-- command, joins or redirects it, expands, escapes or starts a comment, and what is a pattern, a brace
-- or a word of its own.
abbrev pub is_meta : ℕ → Bool
is_meta c = any (λ s. s == c) (codes "\n|&;<>()$`\\" ++ codes "*?[#~" ++ codes "!{}")

-- The words of a command line, none where a quote stays open or a character outside quotes means
-- something else to the shell.
unfoldable pub split : Mode → Option Text → Text → Option (List Text)
split plain word [] = begun word (some [])
split single word [] = none
split double word [] = none
split plain word (c ∷ rest) =
    let single_rest = split single (some (text_of word)) rest in
    let double_rest = split double (some (text_of word)) rest in
    let next_word = split plain none rest in
    let more = split plain (extend word c) rest in
    if is_blank c
    then begun word next_word
    else (if c == b'\''
        then single_rest
        else (if c == b'"' then double_rest else (if is_meta c then none else more)))
split single word (c ∷ rest) =
    let closed = split plain word rest in
    let more = split single (extend word c) rest in if c == b'\'' then closed else more
split double word (c ∷ rest) =
    let closed = split plain word rest in
    let more = split double (extend word c) rest in
    if c == b'"' then closed else (if is_active c then none else more)

unspecial :
    (c : ℕ)
    → is_special c ≡ false
    → (is_blank c ≡ false) × ((c == b'\'') ≡ false) × ((c == b'"') ≡ false) × (is_meta c ≡ false)
unfolding is_special
unspecial c h = (ground arith, ground arith, ground arith, ground arith)

append_assoc : (a b c : Text) → (a ++ b) ++ c ≡ a ++ (b ++ c)
append_assoc [] b c = refl
append_assoc (x ∷ a) b c = ap (◌∷◌ x) (append_assoc a b c)

append-nil : (a : Text) → a ++ [] ≡ a
append-nil [] = refl
append-nil (x ∷ a) = ap (◌∷◌ x) (append-nil a)

-- Characters that are not special are added to the word.
split-safe :
    (w s rest : Text)
    → any is_special s ≡ false
    → split plain (some w) (s ++ rest) ≡ split plain (some (w ++ s)) rest
unfolding split
split-safe w [] rest h = ap (λ (x : Text). split plain (some x) rest) (sym (append-nil w))
split-safe w (c ∷ s) rest h =
    let (blank, quote, double_quote, plain_char) = unspecial c (ground arith) in
    rw (blank, quote, double_quote, plain_char)
      (split-safe (w ++ c ∷ []) s rest (ground arith)
        ∙ ap (λ (x : Text). split plain (some x) rest) (append_assoc w (c ∷ []) s))

-- Between single quotes everything is added, and the inner quotes come out as quotes.
split-replace_quotes :
    (w s rest : Text)
    → split single (some w) (replace_quotes s ++ b'\'' ∷ rest) ≡ split plain (some (w ++ s)) rest
unfolding split replace_quotes
split-replace_quotes w [] rest = ap (λ (x : Text). split plain (some x) rest) (sym (append-nil w))
split-replace_quotes w (c ∷ s) rest = elim (Bool-cases (c == b'\'')) [
  | inl quote ↦ rw quote (
      split-replace_quotes (w ++ b'\'' ∷ []) s rest
      ∙ ap (λ (x : Text). split plain (some x) rest)
          (append_assoc w (b'\'' ∷ []) s
            ∙ ap (λ (x : ℕ). w ++ x ∷ s) (sym ((==_iff c b'\'').0 quote))))
  | inr other ↦
      rw (other, other)
        (split-replace_quotes (w ++ c ∷ []) s rest
          ∙ ap (λ (x : Text). split plain (some x) rest) (append_assoc w (c ∷ []) s))
]

-- A quoted word is one word, whatever its characters.
split-shell_quote :
    (s rest : Text) → split plain none (shell_quote s ++ rest) ≡ split plain (some s) rest
unfolding split shell_quote
split-shell_quote [] rest = refl
split-shell_quote (c ∷ s) rest = elim (Bool-cases (any is_special (c ∷ s))) [
  | inl quoted ↦ rw quoted (quoted_word (c ∷ s))
  | inr safe ↦ rw safe (bare_word safe)
]
  where
    quoted_word :
        (t : Text)
        → split plain none ((b'\'' ∷ replace_quotes t ++ b'\'' ∷ []) ++ rest)
          ≡ split plain (some t) rest
    quoted_word t =
        ap (λ (x : Text). split single (some []) x)
          (append_assoc (replace_quotes t) (b'\'' ∷ []) rest)
        ∙ split-replace_quotes [] t rest

    bare_word :
        any is_special (c ∷ s) ≡ false
        → split plain none ((c ∷ s) ++ rest) ≡ split plain (some (c ∷ s)) rest
    bare_word safe =
        let (blank, quote, double_quote, plain_char) = unspecial c (ground arith) in
        rw (blank, quote, double_quote, plain_char) (split-safe (c ∷ []) s rest (ground arith))

split-join : (argv : List Text) → split plain none (join (map shell_quote argv)) ≡ some argv
unfolding split join
split-join [] = refl
split-join (a ∷ []) =
    ap (split plain none) (sym (append-nil (shell_quote a))) ∙ split-shell_quote a []
split-join (a ∷ b ∷ argv) =
    split-shell_quote a (b' ' ∷ join (map shell_quote (b ∷ argv)))
    ∙ ap (begun (some a)) (split-join (b ∷ argv))

-- The command line that an invoke hands to `sh -c` splits into exactly the words of the argv that it
-- was made from, whatever quotes, blanks and characters that mean something to the shell they hold,
-- empty words included.
pub split-build_invoke_command :
    (argv : List Text)
    → (line : Text) × (build_invoke_command argv ≡ codes "/bin/sh" ∷ codes "-c" ∷ line ∷ [])
      × (split plain none line ≡ some argv)
unfolding build_invoke_command
split-build_invoke_command argv = (join (map shell_quote argv), refl, split-join argv)
