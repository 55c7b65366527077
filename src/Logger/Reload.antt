-- ===== src/Logger/Reload.antt =====
-- Whole calls of the logger, and when the configuration file is read again.
use wtsl_app.Base.{
  ℕ, ◌-◌, ◌≤◌, true, false, Option, none, some, List, [], ◌∷◌, ◌++◌, ◌≡◌, ◌≢◌, refl, arith, ltb,
  leb, length, take, has_char, Bool-cases, inl, inr,
}
use wtsl_app.Config.{newline}
use wtsl_app.Upload.Service.{append_line}
use wtsl_app.Logger.{Logger, LogCall, need_config_reload, wtsl_logger_reload_config, reload_if}

-- The call's buffer is one of 4096 bytes that the text in front of the message fits.
pub record IsCall (k : LogCall) : Type 0 where
  pub buffer_is_full_size : length k.log_buffer ≡ 4096
  pub prefix_fits : length k.prefix ≤ 4094
  pub prefix_no_zero : has_char 0 k.prefix ≡ false
  pub content_no_zero : has_char 0 k.content ≡ false

-- The logger behind the check of its configuration.
abbrev pub checked : LogCall → Logger → Logger
checked k g = reload_if (need_config_reload k.mtime k.now g) k

abbrev pub logged : LogCall → Logger → Logger
logged k g = record g {
  system = append_line (take 4094 (k.prefix ++ k.content) ++ newline ∷ []) g.system;
}

reload-mtime :
    (config : Option (List ℕ)) (note : List ℕ) (g : Logger)
    → (wtsl_logger_reload_config config note g).last_mtime ≡ g.last_mtime
unfolding wtsl_logger_reload_config
reload-mtime none note g = refl
reload-mtime (some contents) note g = refl

false_not_true : false ≢ true
false_not_true e = cc

-- When a reload is due, the modification time is noted.
due-mtime :
    (mtime now : ℕ) (g : Logger)
    → (need_config_reload (some mtime) now g).0 ≡ true
    → (need_config_reload (some mtime) now g).1.last_mtime ≡ mtime
unfolding need_config_reload
due-mtime mtime now g e =
    elim (Bool-cases (leb g.config_check_interval (now - g.last_config_check))) [
      | inl due ↦ elim (Bool-cases (ltb g.last_mtime mtime)) [
        | inl new ↦ rw (due, new) refl
        | inr old ↦ absurd (false_not_true (rw (due, old) at e))
      ]
      | inr early ↦ absurd (false_not_true (rw early at e))
    ]

not_newer : (a b : ℕ) → b ≤ a → ltb a b ≡ false
not_newer a b le = ground arith

failed-mode :
    (note : List ℕ) (g : Logger)
    → (wtsl_logger_reload_config none note g).current_mode ≡ g.current_mode
unfolding wtsl_logger_reload_config
failed-mode note g = refl

old-kept :
    (mtime now : ℕ) (g : Logger)
    → mtime ≤ g.last_mtime
    → (need_config_reload (some mtime) now g).0 ≡ false
unfolding need_config_reload
old-kept mtime now g le =
    elim (Bool-cases (leb g.config_check_interval (now - g.last_config_check))) [
      | inl due ↦ rw (due, not_newer g.last_mtime mtime le) refl
      | inr early ↦ rw early refl
    ]

-- After a reload the configuration is not read again, however late, until the file has a later
-- modification time. This is so whether or not the file could be read, and when it could not, the
-- mode stays.
pub reload-once :
    (mtime now mtime' now' : ℕ) (config : Option (List ℕ)) (note : List ℕ) (g : Logger)
    → (need_config_reload (some mtime) now g).0 ≡ true
    → mtime' ≤ mtime
    → ((need_config_reload
          (some mtime')
          now'
          (wtsl_logger_reload_config config note (need_config_reload (some mtime) now g).1)).0
        ≡ false)
      × ((wtsl_logger_reload_config none note g).current_mode ≡ g.current_mode)
reload-once mtime now mtime' now' config note g due le =
    let g1 : Logger = (need_config_reload (some mtime) now g).1 in
    (
      old-kept mtime' now' (wtsl_logger_reload_config config note g1)
          (omega (arith, reload-mtime config note g1, due-mtime mtime now g due)),
      failed-mode note g,
    )
