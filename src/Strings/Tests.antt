-- ===== src/Strings/Tests.antt =====
-- Runs of the string functions, and the theorems on them at concrete strings.
use first_os.Base.{ℕ, ◌≡◌, refl, true, List, [], ◌∷◌, arith, take}
use first_os.Strings.{kstrlen, streqln, strtoken, strtoken_loop}
use first_os.Strings.Compare.{IsString, streqln_lem}

-- "a/bc"
abbrev path : List ℕ
path = 97 ∷ 47 ∷ 98 ∷ 99 ∷ []

abbrev slash : List ℕ
slash = 47 ∷ []

path-IsString : IsString path
path-IsString = (λ e. omega arith, (λ e. omega arith, (λ e. omega arith, (λ e. omega arith, tt))))

slash-IsString : IsString slash
slash-IsString = (λ e. omega arith, tt)

strtoken_run : strtoken path slash 0 ≡ 1
unfolding strtoken strtoken_loop streqln kstrlen
strtoken_run = refl

streqln_lem_example :
    (streqln path slash 1 ≡ true → take 1 path ≡ take 1 slash)
    × (take 1 path ≡ take 1 slash → streqln path slash 1 ≡ true)
streqln_lem_example = streqln_lem path slash 1 path-IsString slash-IsString
