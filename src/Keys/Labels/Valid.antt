-- ===== src/Keys/Labels/Valid.antt =====
-- The label values that pkg/apikeystore/store.go makes are ones that Kubernetes accepts.
use agenttier.Prelude.{
  ℕ, zero, suc, ◌≤◌, Bool, true, false, [], ◌∷◌, map, ◌≡◌, refl, ap, subst, arith, if◌then◌else◌,
  is_empty, length, All, Text, codes, Bool-cases, inl, inr, ◌∙◌,
}
use agenttier.Keys.Labels.{
  is_alnum, is_label_char, safe_char, take, trim_start, trim_end, trim_non_alphanumeric, or_user,
  sanitize_label_value,
}

abbrev pub starts_well : Text → Bool
starts_well [] = false
starts_well (c ∷ text) = is_alnum c

abbrev pub ends_well : Text → Bool
ends_well [] = false
ends_well (c ∷ text) = if is_empty text then is_alnum c else ends_well text

abbrev pub IsLabelChar : ℕ → Type 0
IsLabelChar c = is_label_char c ≡ true

-- A label value by the rules of Kubernetes, and not an empty one.
pub record IsLabel (text : Text) : Type 0 where
  pub characters : All IsLabelChar text
  pub starts : starts_well text ≡ true
  pub ends : ends_well text ≡ true
  pub short : length text ≤ 63

safe_char-IsLabelChar : (c : ℕ) → IsLabelChar (safe_char c)
safe_char-IsLabelChar c = elim (Bool-cases (is_label_char c)) [
  | inl ok ↦ rw (ok, ok) refl
  | inr bad ↦ rw bad refl
]

characters_map : (text : Text) → All IsLabelChar (map safe_char text)
characters_map [] = tt
characters_map (c ∷ text) = (safe_char-IsLabelChar c, characters_map text)

characters_take : (n : ℕ) (text : Text) → All IsLabelChar text → All IsLabelChar (take n text)
characters_take zero text h = tt
characters_take (suc n) [] h = tt
characters_take (suc n) (c ∷ text) h = (h.0, characters_take n text h.1)

length-take : (n : ℕ) (text : Text) → length (take n text) ≤ n
length-take zero text = omega arith
length-take (suc n) [] = omega arith
length-take (suc n) (c ∷ text) = omega (arith, length-take n text)

characters_trim_start : (text : Text) → All IsLabelChar text → All IsLabelChar (trim_start text)
unfolding trim_start
characters_trim_start [] h = tt
characters_trim_start (c ∷ text) h = elim (Bool-cases (is_alnum c)) [
  | inl keep ↦ rw keep h
  | inr skip ↦ rw skip (characters_trim_start text h.1)
]

length-trim_start : (text : Text) → length (trim_start text) ≤ length text
unfolding trim_start
length-trim_start [] = omega arith
length-trim_start (c ∷ text) = elim (Bool-cases (is_alnum c)) [
  | inl keep ↦ rw keep (omega arith)
  | inr skip ↦ rw skip (omega (arith, length-trim_start text))
]

starts_trim_start :
    (text : Text) → is_empty (trim_start text) ≡ false → starts_well (trim_start text) ≡ true
unfolding trim_start
starts_trim_start [] h = cc
starts_trim_start (c ∷ text) h = elim (Bool-cases (is_alnum c)) [
  | inl keep ↦ rw (keep, keep) refl
  | inr skip ↦ rw skip (
      starts_trim_start text
        (subst (λ b. is_empty (if b then c ∷ text else trim_start text) ≡ false) skip h))
]

characters_trim_end : (text : Text) → All IsLabelChar text → All IsLabelChar (trim_end text)
unfolding trim_end
characters_trim_end [] h = tt
characters_trim_end (c ∷ text) h = elim (Bool-cases (is_empty (trim_end text))) [
  | inl last ↦ elim (Bool-cases (is_alnum c)) [
    | inl keep ↦ rw (last, keep) (h.0, tt)
    | inr skip ↦ rw (last, skip) tt
  ]
  | inr more ↦ rw more (h.0, characters_trim_end text h.1)
]

length-trim_end : (text : Text) → length (trim_end text) ≤ length text
unfolding trim_end
length-trim_end [] = omega arith
length-trim_end (c ∷ text) = ground (arith, length-trim_end text)

-- What is left after the second loop starts where the text did, and ends well.
ends_trim_end : (text : Text) → is_empty (trim_end text) ≡ false → ends_well (trim_end text) ≡ true
unfolding trim_end
ends_trim_end [] h = cc
ends_trim_end (c ∷ text) h = ground (arith, ends_trim_end text)

starts_trim_end :
    (text : Text)
    → starts_well text ≡ true
    → is_empty (trim_end text) ≡ false
    → starts_well (trim_end text) ≡ true
unfolding trim_end
starts_trim_end [] s h = cc
starts_trim_end (c ∷ text) s h = ground arith

nonempty_trim_end : (text : Text) → starts_well text ≡ true → is_empty (trim_end text) ≡ false
unfolding trim_end
nonempty_trim_end [] s = cc
nonempty_trim_end (c ∷ text) s = ground arith

trimmed-IsLabel :
    (text : Text)
    → All IsLabelChar text
    → length text ≤ 63
    → is_empty (trim_start text) ≡ false
    → IsLabel (trim_non_alphanumeric text)
trimmed-IsLabel text chars short some =
    let starts = starts_trim_start text some in
    let left = nonempty_trim_end (trim_start text) starts in
    record {
      characters = characters_trim_end (trim_start text) (characters_trim_start text chars);
      starts = starts_trim_end (trim_start text) starts left;
      ends = ends_trim_end (trim_start text) left;
      short = omega (arith, length-trim_end (trim_start text), length-trim_start text, short);
    }

user-IsLabel : IsLabel (codes "user")
user-IsLabel = record {
  characters = (refl, (refl, (refl, (refl, tt))));
  starts = refl;
  ends = refl;
  short = omega arith;
}

unknown-IsLabel : IsLabel (codes "unknown")
unknown-IsLabel = record {
  characters = (refl, (refl, (refl, (refl, (refl, (refl, (refl, tt)))))));
  starts = refl;
  ends = refl;
  short = omega arith;
}

empty_of : (text : Text) → is_empty text ≡ true → text ≡ []
empty_of [] e = refl
empty_of (c ∷ text) e = cc

or_user-IsLabel :
    (text : Text)
    → All IsLabelChar text
    → length text ≤ 63
    → IsLabel (or_user (trim_non_alphanumeric text))
unfolding trim_end
or_user-IsLabel text chars short = elim (Bool-cases (is_empty (trim_start text))) [
  | inl none ↦ rw (empty_of (trim_start text) none, trim_end) user-IsLabel
  | inr some ↦
      rw (nonempty_trim_end (trim_start text) (starts_trim_start text some))
        (trimmed-IsLabel text chars short some)
]

-- A text that is a label value is left as it is.
map-safe_char : (text : Text) → All IsLabelChar text → map safe_char text ≡ text
map-safe_char [] h = refl
map-safe_char (c ∷ text) h = rw (h.0, map-safe_char text h.1) refl

take_short : (n : ℕ) (text : Text) → length text ≤ n → take n text ≡ text
take_short zero [] h = refl
take_short zero (c ∷ text) h = absurd (omega arith)
take_short (suc n) [] h = refl
take_short (suc n) (c ∷ text) h = ap (◌∷◌ c) (take_short n text (omega arith))

trim_start_good : (text : Text) → starts_well text ≡ true → trim_start text ≡ text
unfolding trim_start
trim_start_good [] h = refl
trim_start_good (c ∷ text) h = rw h refl

trim_end_good : (text : Text) → ends_well text ≡ true → trim_end text ≡ text
unfolding trim_end
trim_end_good [] h = refl
trim_end_good (c ∷ []) h = rw h refl
trim_end_good (c ∷ d ∷ text) h = rw (trim_end_good (d ∷ text) h) refl

-- Whatever the identifier, the value made of it is one to 63 letters, digits, dashes, underscores and
-- dots that begin and end with a letter or digit.
pub sanitize_label_value-IsLabel : (v : Text) → IsLabel (sanitize_label_value v)
unfolding sanitize_label_value
sanitize_label_value-IsLabel [] = unknown-IsLabel
sanitize_label_value-IsLabel (c ∷ v) =
    or_user-IsLabel (take 63 (map safe_char (c ∷ v)))
      (characters_take 63 (map safe_char (c ∷ v)) (characters_map (c ∷ v)))
      (length-take 63 (map safe_char (c ∷ v)))

-- An identifier that is such a value already is not changed.
pub sanitize_label_value_fixed : (v : Text) → IsLabel v → sanitize_label_value v ≡ v
unfolding sanitize_label_value
sanitize_label_value_fixed [] h = cc
sanitize_label_value_fixed (c ∷ v) h =
    let safe = map-safe_char (c ∷ v) h.characters in
    let cut = ap (take 63) safe ∙ take_short 63 (c ∷ v) h.short in
    let trimmed =
      ap trim_non_alphanumeric cut
      ∙ ap trim_end (trim_start_good (c ∷ v) h.starts)
      ∙ trim_end_good (c ∷ v) h.ends in
    ap or_user trimmed
