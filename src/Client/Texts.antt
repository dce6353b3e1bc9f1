-- ===== src/Client/Texts.antt =====
-- The texts of the requests that bin/inotispyctl.c sends, and its test of a count.
use inotispy.Prelude.{Bool, true, false, ◌&&◌, [], ◌∷◌, ◌++◌, ℤ, if◌then◌else◌}
use inotispy.Text.{Text, codes, first_is}
use inotispy.Text.Decimal.{is_digit, print_int}

-- {"call":"…"}
unfoldable pub call_text : Text → Text
call_text call = codes "{\"call\":\"" ++ (call ++ codes "\"}")

-- {"call":"…","path":"%s"}
unfoldable pub client_path_text : Text → Text → Text
client_path_text call path =
    codes "{\"call\":\"" ++ (call ++ (codes "\",\"path\":\"" ++ (path ++ codes "\"}")))

-- {"call":"get_events","path":"%s","count":%d}
unfoldable pub events_text : Text → ℤ → Text
events_text path count =
    codes "{\"call\":\"get_events\",\"path\":\""
    ++ (path ++ (codes "\",\"count\":" ++ (print_int count ++ codes "}")))

-- The loop of is_unsigned_int.
unfoldable pub all_digits : Text → Bool
all_digits [] = true
all_digits (c ∷ s) = is_digit c && all_digits s

unfoldable pub is_unsigned_int : Text → Bool
unfolding all_digits
is_unsigned_int s = if first_is b'-' s then false else all_digits s
