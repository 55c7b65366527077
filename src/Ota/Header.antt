-- ===== src/Ota/Header.antt =====
-- What is read from the header of a package: the md5 of the kernel modules and the number in the
-- version.
use wtsl_app.Base.{
  ℕ, zero, suc, ◌+◌, ◌-◌, true, false, Option, none, some, List, [], ◌∷◌, ◌++◌, ◌==◌, ◌≡◌, refl,
  ◌≢◌, ap, ◌∙◌, arith, leb, if◌then◌else◌, length, take, map, Text, length-append, take-append,
}
use wtsl_app.Ota.{
  KoFile, FirmwareJson, ko_loop, ko_entries, behind, firmware_header_of, from_char, up_to_point,
  version_from, Version, extract_upgrade_version,
}

-- The keys with a string.
abbrev pub strings : List (Text × Option Text) → List (Text × Text)
strings [] = []
strings ((name, none) ∷ items) = strings items
strings ((name, some md5) ∷ items) = (name, md5) ∷ strings items

abbrev pub ko_file : Text × Text → KoFile
ko_file (name, md5) = record { wt_koname = take 31 name; md5 = take 32 md5 }

full : (i : ℕ) (items : List (Text × Option Text)) → leb 4 i ≡ true → ko_loop items i ≡ []
unfolding ko_loop
full i [] h = refl
full i ((name, none) ∷ items) h = rw h refl
full i ((name, some md5) ∷ items) h = rw h refl

ko_loop-take :
    (items : List (Text × Option Text)) (i n : ℕ)
    → i + n ≡ 4
    → ko_loop items i ≡ map ko_file (take n (strings items))
unfolding ko_loop
ko_loop-take items i zero h = full i items (ground arith)
ko_loop-take [] i (suc n) h = refl
ko_loop-take ((name, none) ∷ items) i (suc n) h =
    let e : leb 4 i ≡ false = ground arith in rw e (ko_loop-take items i (suc n) h)
ko_loop-take ((name, some md5) ∷ items) i (suc n) h =
    let e : leb 4 i ≡ false = ground arith in
    rw e (ap (λ l. ko_file (name, md5) ∷ l) (ko_loop-take items (suc i) n (omega arith)))

-- If the JSON has the object ko_md5sum, the header has exactly the first four keys of it that have a
-- string, in their order, each cut to 31 characters, with their strings cut to 32.
pub header-first_four :
    (j : FirmwareJson) (items : List (Text × Option Text))
    → j.ko_md5sum ≡ some items
    → (firmware_header_of j).ko_files ≡ map ko_file (take 4 (strings items))
header-first_four j items e = ap ko_entries e ∙ ko_loop-take items 0 4 refl

-- No such character stands in the text.
abbrev pub Without : ℕ → Text → Type 0
Without c [] = Unit
Without c (d ∷ s) = (d ≢ c) × Without c s

differs : (c d : ℕ) → d ≢ c → (d == c) ≡ false
differs c d h = ground arith

from_char-append : (c : ℕ) (s t : Text) → Without c s → from_char c (s ++ c ∷ t) ≡ some (c ∷ t)
from_char-append c [] t h = let e : (c == c) ≡ true = ground arith in rw e refl
from_char-append c (d ∷ s) t (ne, h) = rw (differs c d ne) (from_char-append c s t h)

number_length :
    (digits rest : Text) → length (digits ++ 46 ∷ rest) - length (46 ∷ rest) ≡ length digits
number_length digits rest = omega (arith, length-append digits (46 ∷ rest))

-- What the length of the number makes of it.
abbrev pub sized : Text → Version
sized digits =
    if length digits == 0
    then Version.invalid
    else if leb 10 (length digits)
    then Version.overflow
    else Version.number digits

-- The number of a version stands between its first underscore and the next point. It is read if it
-- has 1 to 9 characters; a longer one is written behind the array, and without one the version is
-- refused.
pub extract_version-sized :
    (front digits rest : Text)
    → Without 95 front
    → Without 46 digits
    → extract_upgrade_version (front ++ 95 ∷ (digits ++ 46 ∷ rest)) ≡ sized digits
unfolding extract_upgrade_version
extract_version-sized front digits rest hf hd =
    ap (λ o. version_from (behind o)) (from_char-append 95 front (digits ++ 46 ∷ rest) hf)
    ∙ ap (up_to_point (digits ++ 46 ∷ rest)) (from_char-append 46 digits rest hd)
    ∙ ap
        (λ n.
          if n == 0
          then Version.invalid
          else if leb 10 n
          then Version.overflow
          else Version.number (take n (digits ++ 46 ∷ rest)))
        (number_length digits rest)
    ∙ ap
        (λ t.
          if length digits == 0
          then Version.invalid
          else if leb 10 (length digits)
          then Version.overflow
          else Version.number t)
        (take-append digits (46 ∷ rest))
