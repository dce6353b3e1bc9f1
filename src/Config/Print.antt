-- ===== src/Config/Print.antt =====
-- print_config of src/config.c: the text of the configuration, which goes to stderr or to a file.
use inotispy.Prelude.{Bool, Option, none, some, ◌∷◌, [], ◌++◌, ℤ, lt_ℤ, if◌then◌else◌}
use inotispy.Text.{Text, codes, newline}
use inotispy.Text.Decimal.{print_int}
use inotispy.Config.{Config, Files}
use inotispy.Log.{level_str}

abbrev bool_text : Bool → Text
bool_text value = if value then codes "true" else codes "false"

abbrev config_path_text : Option Text → Text
config_path_text none = codes "DEFAULTS LIST"
config_path_text (some path) = path

abbrev freq_text : ℤ → Text
freq_text freq = if lt_ℤ (ℤ.pos 0) freq then print_int freq ++ codes " seconds" else codes "never"

abbrev config_line : Text → Text → Text
config_line label value = label ++ (value ++ newline ∷ [])

unfoldable pub config_text : Config → Text
unfolding level_str print_int
config_text config =
    config_line (codes "Using configuration values from ")
      (config_path_text config.path ++ codes ":")
    ++ (config_line (codes " - zmq_uri            : ") config.zmq_uri
        ++ (config_line (codes " - log_file           : ")
              (if config.logging_enabled then config.log_file else codes "Regular logging disabled")
            ++ (config_line (codes " - log_level          : ") (
                  level_str config.log_level
                  ++ (codes " (" ++ (print_int config.log_level ++ codes ")")))
                ++ (config_line (codes " - log_syslog         : ") (bool_text config.log_syslog)
                    ++ (config_line (codes " - max_inotify_events : ")
                          (print_int config.max_inotify_events)
                        ++ (config_line (codes " - memclean_freq      : ")
                              (freq_text config.memclean_freq)
                            ++ config_line (codes " - silent mode        : ")
                                (bool_text config.silent)))))))

-- print_config of a file: the text that it holds then, given the text before.
unfoldable pub print_config : Files → Text → Config → Text → Text
unfolding config_text
print_config files file config before = if files.fopen file then config_text config else before
