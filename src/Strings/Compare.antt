-- ===== src/Strings/Compare.antt =====
-- `streqln` and `streql` of src/string.c compare strings.
use first_os.Base.{
  ℕ, zero, suc, ◌≡◌, ◌≢◌, refl, ap, ap₂, sym, ◌∙◌, Bool, true, false, ◌&&◌, List, [], ◌∷◌, ◌==◌,
  if◌then◌else◌, ==→eq, ne→==, get_or, take, length, All, ==_refl,
}
use first_os.Strings.{kstrlen, streqln}

-- A string has no NUL before its end.
abbrev pub IsString : List ℕ → Type 0
IsString s = All (λ c. c ≢ 0) s

pub kstrlen-length : (s : List ℕ) → IsString s → kstrlen s ≡ length s
unfolding kstrlen
kstrlen-length [] h = refl
kstrlen-length (c ∷ s) h = rw (ne→== c 0 h.0) (ap suc (kstrlen-length s h.1))

abbrev head_or : List ℕ → ℕ
head_or s = get_or s 0 0

abbrev tail : List ℕ → List ℕ
tail [] = []
tail (c ∷ s) = s

-- The step of the loop at two characters that are not NUL.
streqln-cons :
    (x y n : ℕ) (a b : List ℕ)
    → x ≢ 0
    → y ≢ 0
    → streqln (x ∷ a) (y ∷ b) (suc n) ≡ ((x == y) && streqln a b n)
unfolding streqln
streqln-cons x y n a b hx hy = rw (ne→== x 0 hx) (rw (ne→== y 0 hy) (both (x == y) (streqln a b n)))
  where
    both : (p q : Bool) → (if p then q else p) ≡ (p && q)
    both true q = refl
    both false q = refl

and-true : (p q : Bool) → (p && q) ≡ true → (p ≡ true) × (q ≡ true)
and-true true q h = (refl, h)
and-true false q h = (h, cc)

-- `streqln` holds of two strings exactly when their first `len` characters are the same, where a
-- string that is shorter counts up to its end.
pub streqln_lem :
    (a b : List ℕ) (len : ℕ)
    → IsString a
    → IsString b
    → (streqln a b len ≡ true → take len a ≡ take len b)
      × (take len a ≡ take len b → streqln a b len ≡ true)
unfolding streqln
streqln_lem a b zero ha hb = (λ h. refl, λ h. refl)
streqln_lem [] [] (suc n) ha hb = (λ h. refl, λ h. refl)
streqln_lem [] (y ∷ b) (suc n) ha hb =
    (λ h. absurd (hb.0 (sym (==→eq _ _ h))), λ h. absurd (hb.0 (sym (ap head_or h))))
streqln_lem (x ∷ a) [] (suc n) ha hb =
    (λ h. absurd (ha.0 (==→eq _ _ h)), λ h. absurd (ha.0 (ap head_or h)))
streqln_lem (x ∷ a) (y ∷ b) (suc n) ha hb =
    let step = streqln-cons x y n a b ha.0 hb.0 in
    let (to, from) = streqln_lem a b n ha.1 hb.1 in
    (
      λ h.
          let (same, rest) = and-true _ _ (sym step ∙ h) in
          ap₂ (λ c s. c ∷ s) (==→eq _ _ same) (to rest),
      λ h.
          step
          ∙ ap₂ (λ p q. p && q) (ap (λ c. x == c) (sym (ap head_or h)) ∙ ==_refl x)
              (from (ap tail h)),
    )
