-- ===== src/Images/Versions.antt =====
-- Which versions pass.
use cass_operator.Prelude.{
  ℕ, String, ◌≡◌, ◌↔◌, refl, ap, true, [], ◌∷◌, ◌++◌, arith, ◌⊎◌, inl, inr, Bool-cases,
}
use cass_operator.Strings.{Text, codes}
use cass_operator.Images.{
  is_digit, digit_follows, match_string, is_dse_version_supported, is_oss_version_supported,
}

-- The text holds the literal with a digit behind it.
abbrev pub Holds : Text → Text → Type 0
Holds p s =
    (before : Text) × (d : ℕ) × (after : Text) × (is_digit d ≡ true)
    × (s ≡ before ++ (p ++ (d ∷ after)))

digit_follows-append :
    (p : Text) (d : ℕ) (after : Text)
    → is_digit d ≡ true
    → digit_follows p (p ++ (d ∷ after)) ≡ true
unfolding digit_follows
digit_follows-append [] d after h = h
digit_follows-append (c ∷ p) d after h = ground (arith, digit_follows-append p d after h)

digit_follows-Holds :
    (p s : Text)
    → digit_follows p s ≡ true
    → (d : ℕ) × (after : Text) × (is_digit d ≡ true) × (s ≡ p ++ (d ∷ after))
unfolding digit_follows
digit_follows-Holds [] [] h = absurd (cc)
digit_follows-Holds [] (c ∷ s) h = (c, s, h, refl)
digit_follows-Holds (c ∷ p) [] h = absurd (cc)
digit_follows-Holds (c ∷ p) (d ∷ s) h =
    let (x, after, digit, e) = digit_follows-Holds p s (ground arith) in
    (x, after, digit, ground arith)

match_string-append :
    (p before s : Text) → match_string p s ≡ true → match_string p (before ++ s) ≡ true
unfolding match_string
match_string-append p [] s h = h
match_string-append p (c ∷ before) s h = ground (arith, match_string-append p before s h)

digit_follows-match_string : (p s : Text) → digit_follows p s ≡ true → match_string p s ≡ true
unfolding match_string
digit_follows-match_string p [] h = h
digit_follows-match_string p (c ∷ s) h = ground arith

match_string-Holds : (p s : Text) → match_string p s ≡ true → Holds p s
unfolding match_string
match_string-Holds p [] h =
    let (d, after, digit, e) = digit_follows-Holds p [] h in ([], d, after, digit, e)
match_string-Holds p (c ∷ s) h = elim (Bool-cases (digit_follows p (c ∷ s))) [
  | inl here ↦
      let (d, after, digit, e) = digit_follows-Holds p (c ∷ s) here in ([], d, after, digit, e)
  | inr miss ↦
      let (before, d, after, digit, e) = match_string-Holds p s (ground arith) in
      (c ∷ before, d, after, digit, ap (◌∷◌ c) e)
]

pub match_string_iff : (p s : Text) → (match_string p s ≡ true) ↔ Holds p s
match_string_iff p s = (
  match_string-Holds p s,
  λ h. rw h.4 (
      match_string-append p h.0 (p ++ (h.1 ∷ h.2))
        (digit_follows-match_string p (p ++ (h.1 ∷ h.2)) (digit_follows-append p h.1 h.2 h.3))),
)

-- IsDseVersionSupported accepts exactly the versions that hold "6.8." with a digit behind it, at any
-- place: neither the start nor the end of the version is checked.
pub is_dse_version_supported_iff :
    (version : String)
    → (is_dse_version_supported version ≡ true) ↔ Holds (codes "6.8.") (codes version)
unfolding is_dse_version_supported
is_dse_version_supported_iff version = match_string_iff (codes "6.8.") (codes version)

-- IsOssVersionSupported accepts exactly the versions that hold "3.11." or "4.0." with a digit behind
-- it, at any place: neither the start nor the end of the version is checked.
pub is_oss_version_supported_iff :
    (version : String)
    → (is_oss_version_supported version ≡ true)
      ↔ (Holds (codes "3.11.") (codes version) ⊎ Holds (codes "4.0.") (codes version))
unfolding is_oss_version_supported
is_oss_version_supported_iff version = (
  λ h. elim (Bool-cases (match_string (codes "3.11.") (codes version))) [
    | inl old ↦ inl (match_string-Holds (codes "3.11.") (codes version) old)
    | inr no_old ↦ inr (match_string-Holds (codes "4.0.") (codes version) (ground arith))
  ],
  λ h. elim h [
    | inl old ↦ let e = (match_string_iff (codes "3.11.") (codes version)).1 old in rw e
    | inr new ↦ let e = (match_string_iff (codes "4.0.") (codes version)).1 new in ground arith
  ],
)
