-- ===== src/Initrd/Tests.antt =====
-- The lookup of src/kernel/initrd/initrd_parser.c in a small archive.
use first_os.Base.{ℕ, ◌-◌, ◌≡◌, ◌≢◌, refl, ap, arith, List, [], ◌∷◌, get_or}
use first_os.Converters.{xtoi32, xtoi32_loop, digit_value}
use first_os.Strings.{streqln}
use first_os.Fdt.{Bytes, align4}
use first_os.Fdt.Lookup.{string_at}
use first_os.Initrd.{trailer, field, chars_at, initrd_check_magic, initrd_get_file_addr}
use first_os.Initrd.Archive.{HeaderAt, ArchiveAt, FirstFile, initrd_get_file_addr-FirstFile}

-- The file "a" with one byte, the empty file "b" and the trailer.
abbrev blob : List ℕ
blob =
    48 ∷ 55 ∷ 48 ∷ 55 ∷ 48 ∷ 49 ∷ 48 ∷ 48 ∷ 48 ∷ 48 ∷ 48 ∷ 48 ∷ 48 ∷ 49 ∷ 48 ∷ 48 ∷ 48 ∷ 48 ∷ 56
    ∷ 49 ∷ 97 ∷ 52 ∷ 48 ∷ 48 ∷ 48 ∷ 48 ∷ 48 ∷ 48 ∷ 48 ∷ 48 ∷ 48 ∷ 48 ∷ 48 ∷ 48 ∷ 48 ∷ 48 ∷ 48 ∷ 48
    ∷ 48 ∷ 48 ∷ 48 ∷ 48 ∷ 48 ∷ 48 ∷ 48 ∷ 49 ∷ 48 ∷ 48 ∷ 48 ∷ 48 ∷ 48 ∷ 48 ∷ 48 ∷ 48 ∷ 48 ∷ 48 ∷ 48
    ∷ 48 ∷ 48 ∷ 48 ∷ 48 ∷ 49 ∷ 48 ∷ 48 ∷ 48 ∷ 48 ∷ 48 ∷ 48 ∷ 48 ∷ 48 ∷ 48 ∷ 48 ∷ 48 ∷ 48 ∷ 48 ∷ 48
    ∷ 48 ∷ 48 ∷ 48 ∷ 48 ∷ 48 ∷ 48 ∷ 48 ∷ 48 ∷ 48 ∷ 48 ∷ 48 ∷ 48 ∷ 48 ∷ 48 ∷ 48 ∷ 48 ∷ 48 ∷ 48 ∷ 48
    ∷ 48 ∷ 48 ∷ 48 ∷ 48 ∷ 48 ∷ 48 ∷ 50 ∷ 48 ∷ 48 ∷ 48 ∷ 48 ∷ 48 ∷ 48 ∷ 48 ∷ 48 ∷ 97 ∷ 0 ∷ 120 ∷ 0
    ∷ 0 ∷ 0 ∷ 48 ∷ 55 ∷ 48 ∷ 55 ∷ 48 ∷ 49 ∷ 48 ∷ 48 ∷ 48 ∷ 48 ∷ 48 ∷ 48 ∷ 48 ∷ 49 ∷ 48 ∷ 48 ∷ 48
    ∷ 48 ∷ 56 ∷ 49 ∷ 97 ∷ 52 ∷ 48 ∷ 48 ∷ 48 ∷ 48 ∷ 48 ∷ 48 ∷ 48 ∷ 48 ∷ 48 ∷ 48 ∷ 48 ∷ 48 ∷ 48 ∷ 48
    ∷ 48 ∷ 48 ∷ 48 ∷ 48 ∷ 48 ∷ 48 ∷ 48 ∷ 48 ∷ 48 ∷ 49 ∷ 48 ∷ 48 ∷ 48 ∷ 48 ∷ 48 ∷ 48 ∷ 48 ∷ 48 ∷ 48
    ∷ 48 ∷ 48 ∷ 48 ∷ 48 ∷ 48 ∷ 48 ∷ 48 ∷ 48 ∷ 48 ∷ 48 ∷ 48 ∷ 48 ∷ 48 ∷ 48 ∷ 48 ∷ 48 ∷ 48 ∷ 48 ∷ 48
    ∷ 48 ∷ 48 ∷ 48 ∷ 48 ∷ 48 ∷ 48 ∷ 48 ∷ 48 ∷ 48 ∷ 48 ∷ 48 ∷ 48 ∷ 48 ∷ 48 ∷ 48 ∷ 48 ∷ 48 ∷ 48 ∷ 48
    ∷ 48 ∷ 48 ∷ 48 ∷ 48 ∷ 48 ∷ 48 ∷ 48 ∷ 48 ∷ 50 ∷ 48 ∷ 48 ∷ 48 ∷ 48 ∷ 48 ∷ 48 ∷ 48 ∷ 48 ∷ 98 ∷ 0
    ∷ 48 ∷ 55 ∷ 48 ∷ 55 ∷ 48 ∷ 49 ∷ 48 ∷ 48 ∷ 48 ∷ 48 ∷ 48 ∷ 48 ∷ 48 ∷ 49 ∷ 48 ∷ 48 ∷ 48 ∷ 48 ∷ 56
    ∷ 49 ∷ 97 ∷ 52 ∷ 48 ∷ 48 ∷ 48 ∷ 48 ∷ 48 ∷ 48 ∷ 48 ∷ 48 ∷ 48 ∷ 48 ∷ 48 ∷ 48 ∷ 48 ∷ 48 ∷ 48 ∷ 48
    ∷ 48 ∷ 48 ∷ 48 ∷ 48 ∷ 48 ∷ 48 ∷ 48 ∷ 49 ∷ 48 ∷ 48 ∷ 48 ∷ 48 ∷ 48 ∷ 48 ∷ 48 ∷ 48 ∷ 48 ∷ 48 ∷ 48
    ∷ 48 ∷ 48 ∷ 48 ∷ 48 ∷ 48 ∷ 48 ∷ 48 ∷ 48 ∷ 48 ∷ 48 ∷ 48 ∷ 48 ∷ 48 ∷ 48 ∷ 48 ∷ 48 ∷ 48 ∷ 48 ∷ 48
    ∷ 48 ∷ 48 ∷ 48 ∷ 48 ∷ 48 ∷ 48 ∷ 48 ∷ 48 ∷ 48 ∷ 48 ∷ 48 ∷ 48 ∷ 48 ∷ 48 ∷ 48 ∷ 48 ∷ 48 ∷ 48 ∷ 48
    ∷ 48 ∷ 48 ∷ 48 ∷ 48 ∷ 48 ∷ 48 ∷ 98 ∷ 48 ∷ 48 ∷ 48 ∷ 48 ∷ 48 ∷ 48 ∷ 48 ∷ 48 ∷ 84 ∷ 82 ∷ 65 ∷ 73
    ∷ 76 ∷ 69 ∷ 82 ∷ 33 ∷ 33 ∷ 33 ∷ 0 ∷ 0 ∷ 0 ∷ 0 ∷ []

abbrev image : Bytes
image a = get_or blob (a - 4096) 0

abbrev a_path : List ℕ
a_path = 97 ∷ []

abbrev b_path : List ℕ
b_path = 98 ∷ []

trailer_at : HeaderAt image 4324 trailer 0
unfolding initrd_check_magic field chars_at string_at streqln xtoi32 xtoi32_loop digit_value align4
trailer_at = (
  refl,
  refl,
  refl,
  (
    (λ (e : 84 ≡ 0). omega arith),
    (
      (λ (e : 82 ≡ 0). omega arith),
      (
        (λ (e : 65 ≡ 0). omega arith),
        (
          (λ (e : 73 ≡ 0). omega arith),
          (
            (λ (e : 76 ≡ 0). omega arith),
            (
              (λ (e : 69 ≡ 0). omega arith),
              (
                (λ (e : 82 ≡ 0). omega arith),
                (
                  (λ (e : 33 ≡ 0). omega arith),
                  ((λ (e : 33 ≡ 0). omega arith), ((λ (e : 33 ≡ 0). omega arith), tt)),
                ),
              ),
            ),
          ),
        ),
      ),
    ),
  ),
  (refl, (refl, (refl, (refl, (refl, (refl, (refl, (refl, (refl, (refl, (refl, tt))))))))))),
)

b_at : HeaderAt image 4212 b_path 0
unfolding initrd_check_magic field chars_at string_at streqln xtoi32 xtoi32_loop digit_value align4
b_at = (refl, refl, refl, ((λ (e : 98 ≡ 0). omega arith), tt), (refl, (refl, tt)))

a_at : HeaderAt image 4096 a_path 1
unfolding initrd_check_magic field chars_at string_at streqln xtoi32 xtoi32_loop digit_value align4
a_at = (refl, refl, refl, ((λ (e : 97 ≡ 0). omega arith), tt), (refl, (refl, tt)))

not_trailer : (c : ℕ) → c ≢ 84 → c ∷ [] ≢ trailer
not_trailer c ne e = ne (ap (λ xs. get_or xs 0 0) e)

archive : ArchiveAt image 4096 ((a_path, 1) ∷ (b_path, 0) ∷ [])
unfolding align4
archive = (
  a_at,
  not_trailer 97 (λ (e : 97 ≡ 84). omega arith),
  (b_at, not_trailer 98 (λ (e : 98 ≡ 84). omega arith), trailer_at),
)

initrd_get_file_addr-FirstFile_example :
    FirstFile 4096
      ((a_path, 1) ∷ (b_path, 0) ∷ [])
      b_path
      (initrd_get_file_addr 4 image 4096 b_path)
initrd_get_file_addr-FirstFile_example =
    initrd_get_file_addr-FirstFile ((b_path, 0) ∷ []) 4 image b_path 4096 a_path 1
      ((λ (e : 98 ≡ 0). omega arith), tt) (λ (e : 4096 ≡ 0). omega arith) (omega arith) archive
