-- ===== src/Config/Load/Silent.antt =====
-- About the silent mode that init_config of src/config.c leaves.
use inotispy.Prelude.{◌≡◌, refl, Bool, true, false, ◌||◌, Option, none, some, is_neg}
use inotispy.Text.{Text, codes}
use inotispy.Config.{Config, conf_group, KeyFile, Files}
use inotispy.Config.Load.{
  given, set_logging, set_zmq_uri, set_max_inotify_events, set_memclean_freq, set_silent,
  default_config, config_path, init_with, init_config,
}
use inotispy.Config.Load.Valid.{given_keeps, if_keeps, set_logging_keeps}

abbrev Loud : Config → Type 0
Loud c = c.silent ≡ false

set_zmq_uri-Loud : (keyfile : KeyFile) (c : Config) → Loud c → Loud (set_zmq_uri keyfile c)
unfolding set_zmq_uri
set_zmq_uri-Loud keyfile c h =
    given_keeps Loud (keyfile.get_string conf_group (codes "zmq_uri")) c _ h λ value. h

set_max_inotify_events-Loud :
    (keyfile : KeyFile) (c : Config) → Loud c → Loud (set_max_inotify_events keyfile c)
unfolding set_max_inotify_events
set_max_inotify_events-Loud keyfile c h =
    given_keeps Loud (keyfile.get_integer conf_group (codes "max_inotify_events")) c _ h λ value. h

set_memclean_freq-Loud :
    (keyfile : KeyFile) (c : Config) → Loud c → Loud (set_memclean_freq keyfile c)
unfolding set_memclean_freq
set_memclean_freq-Loud keyfile c h =
    given_keeps Loud (keyfile.get_integer conf_group (codes "memclean_freq")) c _ h
      λ value. if_keeps Loud (is_neg value) _ _ h h

set_logging-Loud : (keyfile : KeyFile) (c : Config) → Loud c → Loud (set_logging keyfile c)
set_logging-Loud keyfile c = set_logging_keeps Loud keyfile c λ d level file syslog enabled h. h

-- The flag, or the value in the file.
abbrev pub wanted_silent : Bool → Option KeyFile → Bool
wanted_silent flag none = false
wanted_silent flag (some keyfile) =
    flag || (elim (keyfile.get_boolean conf_group (codes "silent")) [
      | none ↦ false
      | some value ↦ value
    ])

given_silent :
    (o : Option Bool) (c : Config)
    → Loud c
    → (given o c λ value. record c { silent = value }).silent
      ≡ (elim o [ none ↦ false | some value ↦ value ])
given_silent none c h = h
given_silent (some value) c h = refl

set_silent_lem :
    (flag : Bool) (keyfile : KeyFile) (c : Config)
    → Loud c
    → (set_silent flag keyfile c).silent ≡ wanted_silent flag (some keyfile)
unfolding set_silent
set_silent_lem true keyfile c h = refl
set_silent_lem false keyfile c h =
    given_silent (keyfile.get_boolean conf_group (codes "silent")) c h

init_with-silent :
    (files : Files) (flag : Bool) (conf_file : Text) (fresh : Config) (keyfile : Option KeyFile)
    → (init_with files flag conf_file (default_config fresh) keyfile).1.silent
      ≡ wanted_silent flag keyfile
init_with-silent files flag conf_file fresh none = refl
init_with-silent files flag conf_file fresh (some keyfile) = set_silent_lem flag keyfile _ (
    set_memclean_freq-Loud keyfile _ (
      set_max_inotify_events-Loud keyfile _
        (set_logging-Loud keyfile _ (set_zmq_uri-Loud keyfile _ refl))))

-- The silent mode that init_config leaves is the flag of the command line or else the value in
-- the configuration file; but if the file cannot be loaded it is off, whatever the flag is.
pub init_config-silent :
    (files : Files) (sysconfdir : Text) (flag : Bool) (config_file : Option Text) (fresh : Config)
    → (init_config files sysconfdir flag config_file fresh).1.silent
      ≡ wanted_silent flag (files.load (config_path sysconfdir config_file))
unfolding init_config
init_config-silent files sysconfdir flag config_file fresh =
    let conf_file = config_path sysconfdir config_file in
    init_with-silent files flag conf_file fresh (files.load conf_file)
