-- ===== src/Initrd/Archive.antt =====
-- `initrd_get_file_addr` of src/kernel/initrd/initrd_parser.c on an archive in memory.
use first_os.Base.{
  ℕ, zero, suc, ◌+◌, ◌<◌, ◌≡◌, ◌≢◌, ◌⊎◌, refl, ap, ap₂, sym, ◌∙◌, inl, inr, Bool, true, false,
  Option, some, List, [], ◌∷◌, ◌++◌, arith, if◌then◌else◌, ne→==, Bool-cases, length, take,
}
use mathlib.Core.Path.{subst}
use first_os.Strings.{streqln}
use first_os.Strings.Compare.{IsString, streqln_lem}
use first_os.Fdt.{Bytes, align4}
use first_os.Fdt.Lookup.{string_at}
use first_os.Fdt.Tree.{Stored}
use first_os.Fdt.Property.{string_at_lem}
use first_os.Initrd.{
  header_size, namesize_at, filesize_at, trailer, field, initrd_check_magic, initrd_get_filepath,
  initrd_get_next_file_addr, ends_archive, is_file, file_loop, initrd_get_file_addr,
}

-- A header with its path: the magic, the path with a NUL behind it, and the sizes of the two.
abbrev pub HeaderAt : Bytes → ℕ → List ℕ → ℕ → Type 0
HeaderAt m a path size =
    (initrd_check_magic m a ≡ true)
    × (field namesize_at m a ≡ length path + 1)
    × (field filesize_at m a ≡ size)
    × IsString path
    × Stored m (a + header_size) (path ++ 0 ∷ [])

-- Where the next header begins.
abbrev pub next_header : ℕ → List ℕ → ℕ → ℕ
next_header a path size = align4 (align4 (a + header_size + (length path + 1)) + size)

-- The files, as paths with the size of their data, from an address on, and the trailer behind them.
abbrev pub ArchiveAt : Bytes → ℕ → List (List ℕ × ℕ) → Type 0
ArchiveAt m a [] = HeaderAt m a trailer 0
ArchiveAt m a ((path, size) ∷ files) =
    HeaderAt m a path size × (path ≢ trailer) × ArchiveAt m (next_header a path size) files

-- The first file with the path, as the address of its header; 0 where there is none.
abbrev pub FirstFile : ℕ → List (List ℕ × ℕ) → List ℕ → Option ℕ → Type 0
FirstFile a [] filepath o = o ≡ some 0
FirstFile a ((path, size) ∷ files) filepath o =
    ((filepath ≡ path) × (o ≡ some a))
    ⊎ ((filepath ≢ path) × FirstFile (next_header a path size) files filepath o)

abbrev head_or : ℕ → List ℕ → ℕ
head_or d [] = d
head_or d (c ∷ cs) = c

abbrev tail : List ℕ → List ℕ
tail [] = []
tail (c ∷ cs) = cs

abbrev is_empty : List ℕ → Bool
is_empty [] = true
is_empty (c ∷ cs) = false

true-false : true ≡ false → ⊥
true-false e = cc

whole_suc : (s t : List ℕ) → take (suc (length t)) s ≡ take (suc (length t)) t → s ≡ t
whole_suc [] [] h = refl
whole_suc [] (y ∷ ys) h = absurd (true-false (ap is_empty h))
whole_suc (x ∷ xs) [] h = absurd (true-false (sym (ap is_empty h)))
whole_suc (x ∷ xs) (y ∷ ys) h =
    ap₂ (λ c cs. c ∷ cs) (ap (head_or x) h) (whole_suc xs ys (ap tail h))

-- A string with a prefix that is one shorter than asked for is that prefix.
whole : (s t : List ℕ) → take (length t + 1) s ≡ take (length t + 1) t → s ≡ t
whole s t h =
    let one : length t + 1 ≡ suc (length t) = omega arith in
    whole_suc s t (ap (λ n. take n s) (sym one) ∙ h ∙ ap (λ n. take n t) one)

-- A path in memory, compared with the size of its field.
module _ (s path : List ℕ) (m : Bytes) (a : ℕ) (hs : IsString s) (hp : IsString path)
    (stored : Stored m a (path ++ 0 ∷ [])) where
  path_read : string_at (length path + 1) m a ≡ path
  path_read = string_at_lem (length path + 1) m a path hp stored (omega arith)

  compare_path :
      streqln s (string_at (length path + 1) m a) (length path + 1)
      ≡ streqln s path (length path + 1)
  compare_path = ap (λ p. streqln s p (length path + 1)) path_read

  same_path : s ≡ path → streqln s (string_at (length path + 1) m a) (length path + 1) ≡ true
  same_path e =
      compare_path ∙ (streqln_lem s path (length path + 1) hs hp).1 (ap (take (length path + 1)) e)

  other_path : s ≢ path → streqln s (string_at (length path + 1) m a) (length path + 1) ≡ false
  other_path ne = elim (Bool-cases (streqln s path (length path + 1))) [
    | inl e ↦ absurd (ne (whole s path ((streqln_lem s path (length path + 1) hs hp).0 e)))
    | inr e ↦ compare_path ∙ e
  ]

  -- The same with the path first.
  compare_path_first :
      streqln (string_at (length path + 1) m a) s (length path + 1)
      ≡ streqln path s (length path + 1)
  compare_path_first = ap (λ p. streqln p s (length path + 1)) path_read

  same_path_first : path ≡ s → streqln (string_at (length path + 1) m a) s (length path + 1) ≡ true
  same_path_first e =
      compare_path_first
      ∙ (streqln_lem path s (length path + 1) hp hs).1 (ap (take (length path + 1)) e)

  other_path_first :
      path ≢ s → streqln (string_at (length path + 1) m a) s (length path + 1) ≡ false
  other_path_first ne = elim (Bool-cases (streqln path s (length path + 1))) [
    | inl e ↦
        absurd (ne (sym (whole s path (sym ((streqln_lem path s (length path + 1) hp hs).0 e)))))
    | inr e ↦ compare_path_first ∙ e
  ]

trailer-IsString : IsString trailer
trailer-IsString = (
  (λ (e : 84 ≡ 0). omega arith),
  (
    (λ (e : 82 ≡ 0). omega arith),
    (
      (λ (e : 65 ≡ 0). omega arith),
      (
        (λ (e : 73 ≡ 0). omega arith),
        (
          (λ (e : 76 ≡ 0). omega arith),
          (
            (λ (e : 69 ≡ 0). omega arith),
            (
              (λ (e : 82 ≡ 0). omega arith),
              (
                (λ (e : 33 ≡ 0). omega arith),
                ((λ (e : 33 ≡ 0). omega arith), ((λ (e : 33 ≡ 0). omega arith), tt)),
              ),
            ),
          ),
        ),
      ),
    ),
  ),
)

-- What a header says of its path.
filepath_at :
    (m : Bytes) (a : ℕ) (path : List ℕ) (size : ℕ)
    → HeaderAt m a path size
    → initrd_get_filepath m a ≡ some (a + header_size, length path + 1)
unfolding initrd_get_filepath
filepath_at m a path size (magic, namesize, filesize, string, stored) =
    rw magic (ap (λ n. some (a + header_size, n)) namesize)

-- The end of the archive, and the next file.
module _ (m : Bytes) (a : ℕ) (path : List ℕ) (size : ℕ) (path' : List ℕ) (size' : ℕ)
    (here : HeaderAt m a path size) (next : HeaderAt m (next_header a path size) path' size') where
  next_addr : initrd_get_next_file_addr m a ≡ (
      if ends_archive m (some (next_header a path size + header_size, length path' + 1))
      then 0
      else next_header a path size)
  unfolding initrd_get_next_file_addr
  next_addr =
      let b = next_header a path size in
      let place = ap₂ (λ n s. align4 (align4 (a + header_size + n) + s)) here.1 here.2 in
      rw here.0 (
        ap (λ x. if ends_archive m (initrd_get_filepath m x) then 0 else x) place
        ∙ ap (λ o. if ends_archive m o then 0 else b) (filepath_at m b path' size' next))

  next_addr-end : path' ≡ trailer → initrd_get_next_file_addr m a ≡ 0
  unfolding ends_archive
  next_addr-end e =
      next_addr
      ∙ ap (λ c. if c then 0 else next_header a path size)
          (same_path_first trailer path' m (next_header a path size + header_size) trailer-IsString
            next.3 next.4 e)

  next_addr-file : path' ≢ trailer → initrd_get_next_file_addr m a ≡ next_header a path size
  unfolding ends_archive
  next_addr-file ne =
      next_addr
      ∙ ap (λ c. if c then 0 else next_header a path size)
          (other_path_first trailer path' m (next_header a path size + header_size) trailer-IsString
            next.3 next.4 ne)

-- One round of the loop at a file.
module _ (fuel : ℕ) (m : Bytes) (filepath : List ℕ) (a : ℕ) (path : List ℕ) (size : ℕ)
    (string : IsString filepath) (nonzero : a ≢ 0) (here : HeaderAt m a path size) where
  is_file_here :
      is_file m filepath (initrd_get_filepath m a)
      ≡ streqln filepath (string_at (length path + 1) m (a + header_size)) (length path + 1)
  unfolding is_file
  is_file_here = ap (is_file m filepath) (filepath_at m a path size here)

  file_loop-found : filepath ≡ path → file_loop (suc fuel) m filepath a ≡ some a
  unfolding file_loop
  file_loop-found e = rw (ne→== a 0 nonzero) (
      ap (λ c. if c then some a else file_loop fuel m filepath (initrd_get_next_file_addr m a))
        (is_file_here ∙ same_path filepath path m (a + header_size) string here.3 here.4 e))

  file_loop-on :
      filepath ≢ path
      → file_loop (suc fuel) m filepath a
        ≡ file_loop fuel m filepath (initrd_get_next_file_addr m a)
  unfolding file_loop
  file_loop-on ne = rw (ne→== a 0 nonzero) (
      ap (λ c. if c then some a else file_loop fuel m filepath (initrd_get_next_file_addr m a))
        (is_file_here ∙ other_path filepath path m (a + header_size) string here.3 here.4 ne))

next_header-nonzero : (a : ℕ) (path : List ℕ) (size : ℕ) → next_header a path size ≢ 0
unfolding align4
next_header-nonzero a path size e = absurd (omega arith)

same_or_other : (s path : List ℕ) → IsString s → IsString path → (s ≡ path) ⊎ (s ≢ path)
same_or_other s path hs hp = elim (Bool-cases (streqln s path (length path + 1))) [
  | inl e ↦ inl (whole s path ((streqln_lem s path (length path + 1) hs hp).0 e))
  | inr e ↦ inr (λ same.
      true-false (
        sym ((streqln_lem s path (length path + 1) hs hp).1 (ap (take (length path + 1)) same))
        ∙ e))
]

file_loop-null :
    (fuel : ℕ) (m : Bytes) (filepath : List ℕ) → 0 < fuel → file_loop fuel m filepath 0 ≡ some 0
unfolding file_loop
file_loop-null zero m filepath h = absurd (omega arith)
file_loop-null (suc fuel) m filepath h = refl

file_loop-FirstFile :
    (files : List (List ℕ × ℕ)) (fuel : ℕ) (m : Bytes) (filepath : List ℕ) (a : ℕ) (path : List ℕ)
    (size : ℕ)
    → IsString filepath
    → a ≢ 0
    → length files + 1 < fuel
    → ArchiveAt m a ((path, size) ∷ files)
    → FirstFile a ((path, size) ∷ files) filepath (file_loop fuel m filepath a)
file_loop-FirstFile files zero m filepath a path size string nonzero enough at =
    absurd (omega arith)
file_loop-FirstFile [] (suc fuel) m filepath a path size string nonzero enough (here, named, end) =
    elim (same_or_other filepath path string here.3) [
      | inl same ↦ inl (same, file_loop-found fuel m filepath a path size string nonzero here same)
      | inr other ↦ inr (
        other,
        file_loop-on fuel m filepath a path size string nonzero here other
            ∙ ap (file_loop fuel m filepath) (next_addr-end m a path size trailer 0 here end refl)
            ∙ file_loop-null fuel m filepath (omega arith),
      )
    ]
file_loop-FirstFile ((path', size') ∷ files) (suc fuel) m filepath a path size string nonzero enough
      (here, named, rest) =
    elim (same_or_other filepath path string here.3) [
      | inl same ↦ inl (same, file_loop-found fuel m filepath a path size string nonzero here same)
      | inr other ↦ inr (
        other,
        subst (λ o. FirstFile (next_header a path size) ((path', size') ∷ files) filepath o)
            (sym (
              file_loop-on fuel m filepath a path size string nonzero here other
              ∙ ap (file_loop fuel m filepath)
                  (next_addr-file m a path size path' size' here rest.0 rest.1)))
            (file_loop-FirstFile files fuel m filepath (next_header a path size) path' size' string
              (next_header-nonzero a path size) (omega arith) rest),
      )
    ]

-- `initrd_get_file_addr` on an archive of at least one file, with fuel for its files, returns the header of
-- the first file that has just the path, and 0 if none has; no file is called like the trailer.
pub initrd_get_file_addr-FirstFile :
    (files : List (List ℕ × ℕ)) (fuel : ℕ) (m : Bytes) (filepath : List ℕ) (a : ℕ) (path : List ℕ)
    (size : ℕ)
    → IsString filepath
    → a ≢ 0
    → length files + 1 < fuel
    → ArchiveAt m a ((path, size) ∷ files)
    → FirstFile a ((path, size) ∷ files) filepath (initrd_get_file_addr fuel m a filepath)
unfolding initrd_get_file_addr
initrd_get_file_addr-FirstFile files fuel m filepath a path size string nonzero enough at =
    rw at.0.0 (file_loop-FirstFile files fuel m filepath a path size string nonzero enough at)
