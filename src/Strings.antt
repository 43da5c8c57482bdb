-- ===== src/Strings.antt =====
-- Go's `strings` and `regexp` as the program uses them, over code points.
use Prim.Native.Char.{code}
use mathlib.Core.List.{reverse, reverse-append, reverse-reverse}
use cass_operator.Prelude.{
  ℕ, String, ◌≡◌, ◌≢◌, ◌↔◌, refl, ap, ◌∙◌, ◌||◌, Bool, true, false, ◌&&◌, List, [], ◌∷◌, ◌++◌,
  Option, none, some, arith, Eq, ◌==◌, if◌then◌else◌, contains, nat_eq, Bool-cases, inl, inr,
}

abbrev pub Text : Type 0
Text = List ℕ

-- `String` has its own `[]` and `∷`.
abbrev pub codes : String → Text
codes String.[] = []
codes (String.◌∷◌ c s) = code c ∷ codes s

abbrev pub text_beq : Text → Text → Bool
text_beq [] [] = true
text_beq [] (d ∷ t) = false
text_beq (c ∷ s) [] = false
text_beq (c ∷ s) (d ∷ t) = c == d && text_beq s t

text_beq_of_eq : (s : Text) → text_beq s s ≡ true
text_beq_of_eq [] = refl
text_beq_of_eq (c ∷ s) = ground (arith, text_beq_of_eq s)

text_eq_of_beq : (s t : Text) → text_beq s t ≡ true → s ≡ t
text_eq_of_beq [] [] h = refl
text_eq_of_beq [] (d ∷ t) h = cc
text_eq_of_beq (c ∷ s) [] h = cc
text_eq_of_beq (c ∷ s) (d ∷ t) h = ground (arith, text_eq_of_beq s t)

pub text_beq_iff : (s t : Text) → (text_beq s t ≡ true) ↔ (s ≡ t)
text_beq_iff s t = (text_eq_of_beq s t, λ e. rw e (text_beq_of_eq t))

instance abbrev pub text_eq : Eq Text
text_eq = record { same = text_beq; same_iff = text_beq_iff }

add_to_first : ℕ → List Text → List Text
add_to_first c [] = (c ∷ []) ∷ []
add_to_first c (w ∷ ws) = (c ∷ w) ∷ ws

-- strings.Split by a separator of one character
unfoldable pub split : ℕ → Text → List Text
unfolding add_to_first
split sep [] = [] ∷ []
split sep (c ∷ s) = let rest = split sep s in if c == sep then [] ∷ rest else add_to_first c rest

-- strings.Join
unfoldable pub join : ℕ → List Text → Text
join sep [] = []
join sep (w ∷ []) = w
join sep (w ∷ v ∷ ws) = w ++ (sep ∷ join sep (v ∷ ws))

-- `comps[len(comps)-1]`; the empty list is not met, since `split` has a part at least.
pub last : List Text → Text
last [] = []
last (w ∷ []) = w
last (w ∷ v ∷ ws) = last (v ∷ ws)

pub strip_prefix : Text → Text → Option Text
strip_prefix [] s = some s
strip_prefix (p ∷ ps) [] = none
strip_prefix (p ∷ ps) (c ∷ s) = if p == c then strip_prefix ps s else none

-- strings.HasPrefix, with the prefix last
pub has_prefix : Text → Text → Bool
unfolding strip_prefix
has_prefix s p = elim (strip_prefix p s) [ none ↦ false | some r ↦ true ]

-- strings.HasSuffix
pub has_suffix : Text → Text → Bool
unfolding has_prefix
has_suffix s t = has_prefix (reverse s) (reverse t)

-- strings.TrimSuffix
unfoldable pub trim_suffix : Text → Text → Text
unfolding strip_prefix
trim_suffix s t = elim (strip_prefix (reverse t) (reverse s)) [ none ↦ s | some r ↦ reverse r ]

drop_while_eq : ℕ → Text → Text
drop_while_eq c [] = []
drop_while_eq c (d ∷ s) = if d == c then drop_while_eq c s else d ∷ s

-- strings.TrimRight with a cut set of one character
pub trim_right : ℕ → Text → Text
unfolding drop_while_eq
trim_right c s = reverse (drop_while_eq c (reverse s))

pub split-no_sep : (sep : ℕ) (s : Text) → contains sep s ≡ false → split sep s ≡ s ∷ []
unfolding split
split-no_sep sep [] h = refl
split-no_sep sep (c ∷ s) h = ground (arith, split-no_sep sep s)

add_to_first-append :
    (c : ℕ) (vs ws : List Text) → vs ≢ [] → add_to_first c (vs ++ ws) ≡ add_to_first c vs ++ ws
unfolding add_to_first
add_to_first-append c [] ws h = absurd (h refl)
add_to_first-append c (v ∷ vs) ws h = refl

add_to_first-ne-nil : (c : ℕ) (vs : List Text) → add_to_first c vs ≢ []
unfolding add_to_first
add_to_first-ne-nil c [] e = cc
add_to_first-ne-nil c (v ∷ vs) e = cc

pub split-ne-nil : (sep : ℕ) (s : Text) → split sep s ≢ []
unfolding split
split-ne-nil sep [] e = cc
split-ne-nil sep (c ∷ s) e = elim (Bool-cases (c == sep)) [
  | inl hit ↦ let f = rw hit at e in cc
  | inr miss ↦ let f = rw miss at e in add_to_first-ne-nil c (split sep s) f
]

pub split-append : (sep : ℕ) (s t : Text) → split sep (s ++ (sep ∷ t)) ≡ split sep s ++ split sep t
unfolding split
split-append sep [] t = ground arith
split-append sep (c ∷ s) t = elim (Bool-cases (c == sep)) [
  | inl hit ↦ rw hit (ap (◌∷◌ []) (split-append sep s t))
  | inr miss ↦
      rw (miss, split-append sep s t)
        (add_to_first-append c (split sep s) (split sep t) (split-ne-nil sep s))
]

join-add_to_first :
    (sep c : ℕ) (ws : List Text) → ws ≢ [] → join sep (add_to_first c ws) ≡ c ∷ join sep ws
unfolding join add_to_first
join-add_to_first sep c [] h = absurd (h refl)
join-add_to_first sep c (w ∷ []) h = refl
join-add_to_first sep c (w ∷ v ∷ ws) h = refl

join-nil-cons : (sep : ℕ) (ws : List Text) → ws ≢ [] → join sep ([] ∷ ws) ≡ sep ∷ join sep ws
unfolding join
join-nil-cons sep [] h = absurd (h refl)
join-nil-cons sep (w ∷ ws) h = refl

-- Joining undoes splitting.
pub join-split : (sep : ℕ) (s : Text) → join sep (split sep s) ≡ s
unfolding split
join-split sep [] = unfold join in refl
join-split sep (c ∷ s) = elim (Bool-cases (c == sep)) [
  | inl hit ↦
      rw (hit, join-nil-cons sep (split sep s) (split-ne-nil sep s), join-split sep s)
        (ground arith)
  | inr miss ↦
      rw (miss, join-add_to_first sep c (split sep s) (split-ne-nil sep s), join-split sep s)
]

pub last-concat : (ws : List Text) (w : Text) → last (ws ++ (w ∷ [])) ≡ w
unfolding last
last-concat [] w = refl
last-concat (v ∷ []) w = refl
last-concat (v ∷ u ∷ ws) w = last-concat (u ∷ ws) w

strip_prefix-append : (p s : Text) → strip_prefix p (p ++ s) ≡ some s
unfolding strip_prefix
strip_prefix-append [] s = refl
strip_prefix-append (c ∷ p) s = ground (arith, strip_prefix-append p s)

pub trim_suffix-append : (s t : Text) → trim_suffix (s ++ t) t ≡ s
unfolding trim_suffix
trim_suffix-append s t =
    rw (reverse-append s t, trim_suffix)
      (rw (strip_prefix-append (reverse t) (reverse s), trim_suffix) (reverse-reverse s))

pub trim_right-concat : (c : ℕ) (s : Text) → trim_right c (s ++ (c ∷ [])) ≡ trim_right c s
unfolding trim_right
trim_right-concat c s = rw (reverse-append s (c ∷ [])) (ground arith)

contains-append : (c : ℕ) (s t : Text) → contains c (s ++ t) ≡ (contains c s || contains c t)
contains-append c [] t = refl
contains-append c (d ∷ s) t = ground (arith, contains-append c s t)

contains-reverse : (c : ℕ) (s : Text) → contains c (reverse s) ≡ contains c s
contains-reverse c [] = refl
contains-reverse c (d ∷ s) =
    let split_off : reverse (d ∷ s) ≡ reverse s ++ (d ∷ []) = reverse-append (d ∷ []) s in
    rw split_off (ground (arith, contains-append c (reverse s) (d ∷ []), contains-reverse c s))

drop_while_eq-no_sep : (c : ℕ) (s : Text) → contains c s ≡ false → drop_while_eq c s ≡ s
unfolding drop_while_eq
drop_while_eq-no_sep c [] h = refl
drop_while_eq-no_sep c (d ∷ s) h = ground arith

pub trim_right-no_sep : (c : ℕ) (s : Text) → contains c s ≡ false → trim_right c s ≡ s
unfolding trim_right
trim_right-no_sep c s h =
    ap reverse (drop_while_eq-no_sep c (reverse s) (contains-reverse c s ∙ h)) ∙ reverse-reverse s
