-- ===== src/Strings/Token.antt =====
-- `strtoken` and `strslice` of src/string.c: the search for a token, and the copy of a part.
use first_os.Base.{
  ℕ, zero, suc, ◌+◌, ◌≤◌, ◌<◌, ◌≡◌, refl, ap, sym, ◌∙◌, ◌⊎◌, inl, inr, true, false, List, [], ◌∷◌,
  ◌++◌, arith, Bool-cases, ne→==, get_or, take, drop, length,
}
use mathlib.Core.Path.{subst}
use first_os.Strings.{streqln, strtoken_loop, strtoken, strslice_loop, strslice}
use first_os.Strings.Compare.{IsString, kstrlen-length, streqln_lem}

abbrev pub Matches : List ℕ → List ℕ → Type 0
Matches token s = take (length token) s ≡ token

-- The token stands at none of the places in `front`, which `back` follows.
abbrev pub NoneIn : List ℕ → List ℕ → List ℕ → Type 0
NoneIn token [] back = Unit
NoneIn token (c ∷ front) back = (Matches token (c ∷ front ++ back) → ⊥) × NoneIn token front back

-- The place of the first match, or the end of the string.
abbrev pub FirstMatch : List ℕ → List ℕ → ℕ → ℕ → Type 0
FirstMatch token s i r =
    (front : List ℕ) × (back : List ℕ) × (s ≡ front ++ back)
    × (r ≡ i + length front)
    × ((back ≡ []) ⊎ Matches token back)
    × NoneIn token front back

take-all : (s : List ℕ) → take (length s) s ≡ s
take-all [] = refl
take-all (c ∷ s) = ap (λ t. c ∷ t) (take-all s)

strtoken_loop_lem :
    (s token : List ℕ) (i : ℕ)
    → IsString s
    → IsString token
    → FirstMatch token s i (strtoken_loop s token (length token) i)
unfolding strtoken_loop
strtoken_loop_lem [] token i hs ht = ([], [], refl, omega arith, inl refl, tt)
strtoken_loop_lem (c ∷ s) token i hs ht =
    let (to, from) = streqln_lem (c ∷ s) token (length token) hs ht in
    elim (Bool-cases (streqln (c ∷ s) token (length token))) [
      | inl e ↦ (
        [],
        c ∷ s,
        refl,
        rw (ne→== c 0 hs.0) (rw e (omega arith)),
        inr (to e ∙ take-all token),
        tt,
      )
      | inr e ↦
          let (front, back, split, at, end, none) = strtoken_loop_lem s token (suc i) hs.1 ht in
          (
            c ∷ front,
            back,
            ap (λ l. c ∷ l) split,
            rw (ne→== c 0 hs.0) (rw e (at ∙ omega arith)),
            end,
            (
              λ m. true-false (
                  sym
                    (from (ap (λ l. take (length token) (c ∷ l)) split ∙ m ∙ sym (take-all token)))
                  ∙ e),
              none,
            ),
          )
    ]
  where
    true-false : {P : Type 0} → true ≡ false → P
    true-false h = cc

drop-IsString : (n : ℕ) (s : List ℕ) → IsString s → IsString (drop n s)
drop-IsString zero s h = h
drop-IsString (suc n) [] h = tt
drop-IsString (suc n) (c ∷ s) h = drop-IsString n s h.1

-- `strtoken` returns the first place from `offset` on where the token stands, or the end of the
-- string when there is none.
strtoken-FirstMatch :
    (s token : List ℕ) (offset : ℕ)
    → IsString s
    → IsString token
    → FirstMatch token (drop offset s) offset (strtoken s token offset)
unfolding strtoken
strtoken-FirstMatch s token offset hs ht =
    subst
      (λ n. FirstMatch token (drop offset s) offset (strtoken_loop (drop offset s) token n offset))
      (sym (kstrlen-length token ht))
      (strtoken_loop_lem (drop offset s) token offset (drop-IsString offset s hs) ht)

get_or-drop :
    (s : List ℕ) (i n : ℕ)
    → i < length s
    → get_or s i 0 ∷ take n (drop (suc i) s) ≡ take (suc n) (drop i s)
get_or-drop [] i n h = absurd (omega arith)
get_or-drop (c ∷ s) zero n h = refl
get_or-drop (c ∷ s) (suc i) n h = get_or-drop s i n (omega arith)

strslice_loop_lem :
    (s : List ℕ) (offset i n : ℕ)
    → offset + i + n ≤ length s
    → strslice_loop s offset i n ≡ take n (drop (offset + i) s) ++ 0 ∷ []
unfolding strslice_loop
strslice_loop_lem s offset i zero h = refl
strslice_loop_lem s offset i (suc n) h =
    ap (λ l. get_or s (offset + i) 0 ∷ l)
      (strslice_loop_lem s offset (suc i) n (omega arith)
        ∙ ap (λ k. take n (drop k s) ++ 0 ∷ []) {y = suc (offset + i)} (omega arith))
    ∙ ap (λ l. l ++ 0 ∷ []) (get_or-drop s (offset + i) n (omega arith))

-- `strslice` copies the `n` characters from `offset` on and ends them with a NUL, when there are so
-- many.
strslice_lem :
    (s : List ℕ) (offset n : ℕ)
    → offset + n ≤ length s
    → strslice s offset n ≡ take n (drop offset s) ++ 0 ∷ []
unfolding strslice
strslice_lem s offset n h =
    strslice_loop_lem s offset 0 n (omega arith)
    ∙ ap (λ k. take n (drop k s) ++ 0 ∷ []) (omega arith)
