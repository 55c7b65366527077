-- ===== src/Ota/Rollback.antt =====
-- What an update of the program leaves at its place.
use wtsl_app.Base.{
  [], ◌∷◌, ℕ, Bool, true, false, ◌≡◌, refl, ap, ◌∙◌, ◌⊎◌, inl, inr, if◌then◌else◌, Text, codes,
}
use wtsl_app.Ota.App.{
  Cmd, Machine, Shell, effect, run_cmd, run_all, rollback, tested_cmd, replace_libs, finish_start,
  preparation, upgrade_from, perform_app_upgrade,
}

-- The way back before its last command: the program of before is at its place if its backup was made
-- and its copy works.
abbrev IsRestored : Shell → Bool → ℕ → Machine → Type 0
IsRestored sh backed_up old n =
    (m : Machine) × (n ≡ run_all sh (Cmd.restore_main ∷ Cmd.restore_libs ∷ []) m)
    × (backed_up ≡ true → sh.works m.history Cmd.restore_main ≡ true → n.files.main ≡ old)

-- The update succeeded and the new program is at its place, or it went the way back.
pub UpgradeEnds : Shell → Bool → ℕ → Bool × Machine → Type 0
UpgradeEnds sh backed_up old r =
    ((r.0 ≡ true) × (r.1.files.main ≡ sh.fresh))
    ⊎ ((n : Machine) × (c : Cmd) × (r ≡ (false, run_cmd sh c n))
        × ((c ≡ Cmd.start) ⊎ (c ≡ Cmd.stray))
        × IsRestored sh backed_up old n)

restored :
    (sh : Shell) (backed_up : Bool) (old : ℕ) (m : Machine)
    → (backed_up ≡ true → m.files.backup ≡ old)
    → IsRestored sh backed_up old (run_all sh (Cmd.restore_main ∷ Cmd.restore_libs ∷ []) m)
restored sh backed_up old m h =
    (m, refl, λ made works. ap (λ b. (effect sh Cmd.restore_main b m.files).main) works ∙ h made)

-- The new program is there, and the old one in the backup if that was made.
abbrev Replaced : Shell → Bool → ℕ → Machine → Type 0
Replaced sh backed_up old m = (m.files.main ≡ sh.fresh) × (backed_up ≡ true → m.files.backup ≡ old)

module _ (sh : Shell) (backed_up : Bool) (old : ℕ) where
  if-UpgradeEnds :
      (b : Bool) (x y : Bool × Machine)
      → (b ≡ true → UpgradeEnds sh backed_up old x)
      → (b ≡ false → UpgradeEnds sh backed_up old y)
      → UpgradeEnds sh backed_up old (if b then x else y)
  if-UpgradeEnds true x y hx hy = hx refl
  if-UpgradeEnds false x y hx hy = hy refl

  -- A command that is tested, and leaves the backup alone if it fails.
  tested_cmd-UpgradeEnds :
      (start_cmd c : Cmd) (m : Machine) (next : Machine → Bool × Machine)
      → (start_cmd ≡ Cmd.start) ⊎ (start_cmd ≡ Cmd.stray)
      → (backed_up ≡ true → (effect sh c false m.files).backup ≡ old)
      → (sh.works m.history c ≡ true → UpgradeEnds sh backed_up old (next (run_cmd sh c m)))
      → UpgradeEnds sh backed_up old (tested_cmd sh start_cmd c m next)
  unfolding UpgradeEnds
  tested_cmd-UpgradeEnds start_cmd c m next is kept ok =
      if-UpgradeEnds (sh.works m.history c) (next (run_cmd sh c m))
        (rollback sh start_cmd (run_cmd sh c m)) ok
        (λ fails. inr (
          run_all sh (Cmd.restore_main ∷ Cmd.restore_libs ∷ []) (run_cmd sh c m),
          start_cmd,
          refl,
          is,
          restored sh backed_up old (run_cmd sh c m)
              (λ made. ap (λ b. (effect sh c b m.files).backup) fails ∙ kept made),
        ))

  -- A library that is replaced leaves the program and its backup.
  lib-UpgradeEnds :
      (name : Text) (m : Machine) (next : Machine → Bool × Machine)
      → Replaced sh backed_up old m
      → ((m' : Machine) → Replaced sh backed_up old m' → UpgradeEnds sh backed_up old (next m'))
      → UpgradeEnds sh backed_up old (tested_cmd sh Cmd.stray (Cmd.replace_lib name) m next)
  lib-UpgradeEnds name m next (main, backup) ok =
      tested_cmd-UpgradeEnds Cmd.stray (Cmd.replace_lib name) m next (inr refl) backup
        (λ works. ok (run_cmd sh (Cmd.replace_lib name) m) (main, backup))

  libs-UpgradeEnds :
      (m : Machine) (next : Machine → Bool × Machine)
      → Replaced sh backed_up old m
      → ((m' : Machine) → Replaced sh backed_up old m' → UpgradeEnds sh backed_up old (next m'))
      → UpgradeEnds sh backed_up old (replace_libs sh m next)
  libs-UpgradeEnds m next h ok =
      if-UpgradeEnds sh.has_lib_wtsl_core _ _
        (λ is. lib-UpgradeEnds (codes "libcjson.so") m _ h (λ m1 h1.
          lib-UpgradeEnds (codes "libwtsl_core.so") m1 _ h1
            (λ m2 h2. lib-UpgradeEnds (codes "libmicrohttpd.so") m2 next h2 ok)))
        (λ isnt. ok m h)

  start-UpgradeEnds :
      (m : Machine) → Replaced sh backed_up old m → UpgradeEnds sh backed_up old (finish_start sh m)
  unfolding UpgradeEnds
  start-UpgradeEnds m (main, backup) =
      tested_cmd-UpgradeEnds Cmd.start Cmd.start (run_cmd sh Cmd.sync m)
        (λ m1. (true, run_cmd sh Cmd.clean_up m1)) (inl refl) backup (λ works. inl (refl, main))

-- The backup that the preparation makes.
prepared :
    (sh : Shell) (m : Machine)
    → sh.works m.history Cmd.backup_main ≡ true
    → (run_all sh preparation m).files.backup ≡ m.files.main
prepared sh m h = ap (λ b. (effect sh Cmd.backup_main b m.files).backup) h

replaced :
    (sh : Shell) (backed_up : Bool) (old : ℕ) (m : Machine)
    → sh.works m.history Cmd.replace_main ≡ true
    → (backed_up ≡ true → m.files.backup ≡ old)
    → Replaced sh backed_up old (run_cmd sh Cmd.replace_main m)
replaced sh backed_up old m h k = (
  ap (λ b. (effect sh Cmd.replace_main b m.files).main) h,
  λ made. ap (λ b. (effect sh Cmd.replace_main b m.files).backup) h ∙ k made,
)

contradiction : {b : Bool} → b ≡ true → b ≡ false → ⊥
contradiction e f = cc

upgrade_from-UpgradeEnds :
    (sh : Shell) (m : Machine)
    → UpgradeEnds sh (sh.works m.history Cmd.backup_main) m.files.main (upgrade_from sh m)
upgrade_from-UpgradeEnds sh m =
    let p = run_all sh preparation m in
    let made = sh.works m.history Cmd.backup_main in
    tested_cmd-UpgradeEnds sh made m.files.main Cmd.stray Cmd.replace_main p
      (λ m1. replace_libs sh m1 (finish_start sh)) (inr refl) (prepared sh m)
      (λ works.
        libs-UpgradeEnds sh made m.files.main (run_cmd sh Cmd.replace_main p) (finish_start sh)
          (replaced sh made m.files.main p works (prepared sh m))
          (start-UpgradeEnds sh made m.files.main))

-- An update of a package with the binary of the program ends in one of two ways, whichever commands
-- work. If it reports success, the new program is at its place. Otherwise it goes the way back: it
-- copies the backup to the place of the program, then the libraries, and then runs what start_cmd
-- holds: the start of the program, or the contents of an array that was not initialised. Before that
-- last command the program of before is at its place if its backup was made and its copy back works.
pub upgrade-UpgradeEnds :
    (sh : Shell) (m : Machine)
    → sh.has_binary ≡ true
    → UpgradeEnds sh (sh.works m.history Cmd.backup_main) m.files.main (perform_app_upgrade sh m)
unfolding perform_app_upgrade
upgrade-UpgradeEnds sh m is =
    if-UpgradeEnds sh (sh.works m.history Cmd.backup_main) m.files.main sh.has_binary
      (upgrade_from sh m) (false, m) (λ there. upgrade_from-UpgradeEnds sh m)
      (λ isnt. absurd (contradiction is isnt))
