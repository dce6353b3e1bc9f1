-- ===== src/Config/Load/Uri.antt =====
-- About the memory of the URI in src/config.c: whose it is after init_config and after reloads.
use inotispy.Prelude.{◌≡◌, refl, Bool, true, false, Option, none, some, is_some, is_neg}
use inotispy.Text.{Text, codes}
use inotispy.Config.{Config, conf_group, KeyFile, Files}
use inotispy.Config.Load.{
  given, set_zmq_uri, set_max_inotify_events, set_memclean_freq, set_silent, default_config,
  config_path, init_with, init_config,
}
use inotispy.Config.Load.Valid.{given_keeps, if_keeps, set_logging_keeps}

-- The file can be loaded and has a URI.
abbrev pub has_uri : Option KeyFile → Bool
has_uri none = false
has_uri (some keyfile) = is_some (keyfile.get_string conf_group (codes "zmq_uri"))

abbrev Allocated : Bool → Config → Type 0
Allocated b c = c.zmq_uri_allocated ≡ b

given_uri :
    (o : Option Text) (c : Config)
    → Allocated false c
    → Allocated
        (is_some o)
        (given o c λ value. record c { zmq_uri = value; zmq_uri_allocated = true })
given_uri none c h = h
given_uri (some value) c h = refl

set_max_inotify_events-Allocated :
    (b : Bool) (keyfile : KeyFile) (c : Config)
    → Allocated b c
    → Allocated b (set_max_inotify_events keyfile c)
unfolding set_max_inotify_events
set_max_inotify_events-Allocated b keyfile c h =
    given_keeps (Allocated b) (keyfile.get_integer conf_group (codes "max_inotify_events")) c _ h
      λ value. h

set_memclean_freq-Allocated :
    (b : Bool) (keyfile : KeyFile) (c : Config)
    → Allocated b c
    → Allocated b (set_memclean_freq keyfile c)
unfolding set_memclean_freq
set_memclean_freq-Allocated b keyfile c h =
    given_keeps (Allocated b) (keyfile.get_integer conf_group (codes "memclean_freq")) c _ h
      λ value. if_keeps (Allocated b) (is_neg value) _ _ h h

set_silent-Allocated :
    (b flag : Bool) (keyfile : KeyFile) (c : Config)
    → Allocated b c
    → Allocated b (set_silent flag keyfile c)
unfolding set_silent
set_silent-Allocated b true keyfile c h = h
set_silent-Allocated b false keyfile c h =
    given_keeps (Allocated b) (keyfile.get_boolean conf_group (codes "silent")) c _ h λ value. h

init_with-Allocated :
    (files : Files) (flag : Bool) (conf_file : Text) (fresh : Config) (keyfile : Option KeyFile)
    → Allocated (has_uri keyfile) (init_with files flag conf_file (default_config fresh) keyfile).1
unfolding set_zmq_uri
init_with-Allocated files flag conf_file fresh none = refl
init_with-Allocated files flag conf_file fresh (some keyfile) =
    let b = has_uri (some keyfile) in
    set_silent-Allocated b flag keyfile _ (
      set_memclean_freq-Allocated b keyfile _ (
        set_max_inotify_events-Allocated b keyfile _ (
          set_logging_keeps (Allocated b) keyfile _ (λ d level file syslog enabled h. h)
            (given_uri (keyfile.get_string conf_group (codes "zmq_uri")) _ refl))))

-- The URI is allocated exactly if the configuration file can be loaded and has one.
pub init_config-allocated :
    (files : Files) (sysconfdir : Text) (flag : Bool) (config_file : Option Text) (fresh : Config)
    → (init_config files sysconfdir flag config_file fresh).1.zmq_uri_allocated
      ≡ has_uri (files.load (config_path sysconfdir config_file))
unfolding init_config
init_config-allocated files sysconfdir flag config_file fresh =
    let conf_file = config_path sysconfdir config_file in
    init_with-Allocated files flag conf_file fresh (files.load conf_file)
