-- ===== src/Ota/App.antt =====
-- perform_app_upgrade of src/wtsl_core/dataparser/wtsl_core_dataparser_ota.c: the copies of the
-- program, and the way back. What a command does to the two files of the program is what cp is
-- documented to do; the contents that a failed copy leaves are an input.
use wtsl_app.Base.{ℕ, Bool, true, false, List, [], ◌∷◌, ◌++◌, if◌then◌else◌, Text, codes}
use wtsl_app.Ota.Package.{snprintf_256, extract_dir}

pub data Cmd : Type 0 where
  backup_main : Cmd
  backup_libs : Cmd
  stop_term : Cmd
  stop_kill : Cmd
  replace_main : Cmd
  replace_lib : Text → Cmd
  sync : Cmd
  start : Cmd
  clean_up : Cmd
  restore_main : Cmd
  restore_libs : Cmd
  -- the contents of start_cmd before it is initialised
  stray : Cmd

abbrev main_path : Text
main_path = codes "/home/wt/app/wtsl_app"

abbrev backup_path : Text
backup_path = codes "/home/wt/app/wtsl_app.backup"

abbrev lib_dir : Text
lib_dir = codes "/home/wt/app"

abbrev backup_lib_dir : Text
backup_lib_dir = codes "/home/wt/app/lib.backup"

abbrev pub app_file : Text → Text
app_file name = snprintf_256 (snprintf_256 (extract_dir ++ codes "/app") ++ codes "/" ++ name)

abbrev killing : Text → Text → Text
killing pid signal =
    codes "ps | grep wtsl_app | grep -v "
    ++ pid
    ++ codes " | grep -v grep | awk '{print $1}' | xargs kill -"
    ++ signal
    ++ codes " 2>/dev/null"

-- The text that the shell gets, with the process id and the stack.
unfoldable pub command_text : Text → Text → Cmd → Text
command_text pid stack Cmd.backup_main =
    snprintf_256 (codes "cp " ++ main_path ++ codes " " ++ backup_path)
command_text pid stack Cmd.backup_libs = snprintf_256 (
    codes "mkdir -p "
    ++ backup_lib_dir
    ++ codes " && cp -r "
    ++ lib_dir
    ++ codes "/*.so "
    ++ backup_lib_dir)
command_text pid stack Cmd.stop_term = snprintf_256 (killing pid (codes "TERM"))
command_text pid stack Cmd.stop_kill = snprintf_256 (killing pid (codes "KILL"))
command_text pid stack Cmd.replace_main =
    snprintf_256 (codes "cp " ++ app_file (codes "wtsl_app") ++ codes " " ++ main_path)
command_text pid stack (Cmd.replace_lib name) =
    snprintf_256 (codes "cp " ++ app_file name ++ codes " " ++ lib_dir ++ codes "/" ++ name)
command_text pid stack Cmd.sync = codes "sync"
command_text pid stack Cmd.start =
    snprintf_256 (codes "LD_LIBRARY_PATH=" ++ lib_dir ++ codes " " ++ main_path ++ codes " &")
command_text pid stack Cmd.clean_up = snprintf_256 (codes "rm -rf " ++ extract_dir)
command_text pid stack Cmd.restore_main =
    snprintf_256 (codes "cp " ++ backup_path ++ codes " " ++ main_path)
command_text pid stack Cmd.restore_libs =
    snprintf_256 (codes "cp -r " ++ backup_lib_dir ++ codes "/* " ++ lib_dir ++ codes "/")
command_text pid stack Cmd.stray = stack

-- The contents of the program at its place and of its backup.
pub record Files : Type 0 where
  pub main : ℕ
  pub backup : ℕ

-- The files, and the commands so far.
pub record Machine : Type 0 where
  pub files : Files
  pub history : List Cmd

-- Whether a command works behind others, the contents of the program in the package, what a failed
-- copy leaves, what the stray command does, and which files the package has.
pub record Shell : Type 0 where
  pub works : List Cmd → Cmd → Bool
  pub fresh : ℕ
  pub broken : ℕ
  pub astray : Files → Files
  pub has_binary : Bool
  pub has_lib_wtsl_core : Bool

abbrev pub effect : Shell → Cmd → Bool → Files → Files
effect sh Cmd.backup_main true f = record f { backup = f.main }
effect sh Cmd.backup_main false f = record f { backup = sh.broken }
effect sh Cmd.replace_main true f = record f { main = sh.fresh }
effect sh Cmd.replace_main false f = record f { main = sh.broken }
effect sh Cmd.restore_main true f = record f { main = f.backup }
effect sh Cmd.restore_main false f = record f { main = sh.broken }
effect sh Cmd.stray b f = sh.astray f
effect sh _ b f = f

-- `system`, with the test of its result given on
abbrev pub run_cmd : Shell → Cmd → Machine → Machine
run_cmd sh c m = record {
  files = effect sh c (sh.works m.history c) m.files;
  history = m.history ++ c ∷ [];
}

abbrev pub run_all : Shell → List Cmd → Machine → Machine
run_all sh [] m = m
run_all sh (c ∷ cmds) m = run_all sh cmds (run_cmd sh c m)

-- The label rollback, with the command that start_cmd holds.
abbrev pub rollback : Shell → Cmd → Machine → Bool × Machine
rollback sh start_cmd m =
    (false, run_all sh (Cmd.restore_main ∷ Cmd.restore_libs ∷ start_cmd ∷ []) m)

-- A command that is tested, with start_cmd as it is if it fails.
abbrev pub tested_cmd : Shell → Cmd → Cmd → Machine → (Machine → Bool × Machine) → Bool × Machine
tested_cmd sh start_cmd c m next =
    if sh.works m.history c then next (run_cmd sh c m) else rollback sh start_cmd (run_cmd sh c m)

-- All three libraries are replaced if libwtsl_core.so is there: the tests for the two others ask for
-- it, too.
abbrev pub replace_libs : Shell → Machine → (Machine → Bool × Machine) → Bool × Machine
replace_libs sh m next =
    if sh.has_lib_wtsl_core
    then tested_cmd sh Cmd.stray (Cmd.replace_lib (codes "libcjson.so")) m (λ m1.
      tested_cmd sh Cmd.stray (Cmd.replace_lib (codes "libwtsl_core.so")) m1
        (λ m2. tested_cmd sh Cmd.stray (Cmd.replace_lib (codes "libmicrohttpd.so")) m2 next))
    else next m

abbrev pub finish_start : Shell → Machine → Bool × Machine
finish_start sh m =
    tested_cmd sh Cmd.start Cmd.start (run_cmd sh Cmd.sync m)
      (λ m1. (true, run_cmd sh Cmd.clean_up m1))

abbrev pub preparation : List Cmd
preparation = Cmd.backup_main ∷ Cmd.backup_libs ∷ Cmd.stop_term ∷ Cmd.stop_kill ∷ []

abbrev pub upgrade_from : Shell → Machine → Bool × Machine
upgrade_from sh m =
    tested_cmd sh Cmd.stray Cmd.replace_main (run_all sh preparation m)
      (λ m1. replace_libs sh m1 (finish_start sh))

-- true is 0.
unfoldable pub perform_app_upgrade : Shell → Machine → Bool × Machine
perform_app_upgrade sh m = if sh.has_binary then upgrade_from sh m else (false, m)
