-- ===== src/Client/Handover.antt =====
-- About the requests of bin/inotispyctl.c in the hands of the daemon: what zmq_handle_event of
-- src/zeromq.c cuts off them.
use inotispy.Prelude.{
  ◌≡◌, refl, ap, Bool, true, false, not, ◌&&◌, some, [], ◌∷◌, ◌++◌, ◌==◌, ℤ, ℕ, suc, arith, length,
}
use inotispy.Text.{Text, codes, first_is}
use inotispy.Text.Decimal.{print_nat, print_int}
use inotispy.Text.Decimal.RoundTrip.{AllDigits, print_nat-AllDigits}
use inotispy.Request.{JsonC}
use inotispy.Inotify.{Sys}
use inotispy.Zeromq.{Host, Server}
use inotispy.Zeromq.Dispatch.{c_string, cut_junk, parse_and_dispatch, handle_text, zmq_handle_event}
use inotispy.Client.Texts.{call_text, client_path_text, events_text}

-- Neither a zero nor a closing brace.
abbrev pub is_clean : Text → Bool
is_clean [] = true
is_clean (c ∷ s) = not (c == 0) && (not (c == b'}') && is_clean s)

-- The daemon cuts nothing off.
Passes : Text → Type 0
Passes s = (c_string s ≡ s) × (cut_junk s ≡ s)

clean_head :
    (c : ℕ) (s : Text)
    → is_clean (c ∷ s) ≡ true
    → ((c == 0) ≡ false) × ((c == b'}') ≡ false) × (is_clean s ≡ true)
clean_head c s h = (ground arith, ground arith, ground arith)

Passes-append : (a s : Text) → is_clean a ≡ true → Passes s → Passes (a ++ s)
unfolding Passes c_string cut_junk
Passes-append [] s h p = p
Passes-append (c ∷ a) s h p =
    let (nz, nb, ha) = clean_head c a h in
    let (ih, ih') = Passes-append a s ha p in
    (rw (nz) (ap (λ t. c ∷ t) ih), rw (nb) (ap (λ t. c ∷ t) ih'))

digits-is_clean : (s : Text) → AllDigits s → is_clean s ≡ true
digits-is_clean [] h = refl
digits-is_clean (c ∷ s) (hc, hs) = ground (arith, digits-is_clean s hs)

print_int-is_clean : (z : ℤ) → is_clean (print_int z) ≡ true
unfolding print_int
print_int-is_clean (ℤ.pos n) = digits-is_clean (print_nat n) (print_nat-AllDigits n)
print_int-is_clean (ℤ.negsuc n) = digits-is_clean (print_nat (suc n)) (print_nat-AllDigits (suc n))

not_empty : (s : Text) → first_is b'{' s ≡ true → (length s == 0) ≡ false
not_empty [] h = cc
not_empty (c ∷ s) h = ground arith

ends_passing : Passes (codes "\"}")
unfolding Passes c_string cut_junk
ends_passing = (refl, refl)

brace_passing : Passes (codes "}")
unfolding Passes c_string cut_junk
brace_passing = (refl, refl)

call_text-Passes : (call : Text) → is_clean call ≡ true → Passes (call_text call)
unfolding call_text
call_text-Passes call hc =
    Passes-append (codes "{\"call\":\"") _ refl (Passes-append call _ hc ends_passing)

client_path_text-Passes :
    (call path : Text)
    → is_clean call ≡ true
    → is_clean path ≡ true
    → Passes (client_path_text call path)
unfolding client_path_text
client_path_text-Passes call path hc hp = Passes-append (codes "{\"call\":\"") _ refl (
    Passes-append call _ hc
      (Passes-append (codes "\",\"path\":\"") _ refl (Passes-append path _ hp ends_passing)))

events_text-Passes :
    (path : Text) (count : ℤ) → is_clean path ≡ true → Passes (events_text path count)
unfolding events_text
events_text-Passes path count hp =
    Passes-append (codes "{\"call\":\"get_events\",\"path\":\"") _ refl (
      Passes-append path _ hp (
        Passes-append (codes "\",\"count\":") _ refl
          (Passes-append (print_int count) _ (print_int-is_clean count) brace_passing)))

module _ {S : Sys} (J : JsonC) (host : Host) (sv : Server S) where
  -- The daemon parses and dispatches the text as it was sent.
  abbrev pub HandedOver : Text → Type 0
  HandedOver s = zmq_handle_event J host sv (some s) ≡ parse_and_dispatch J host sv s

  handed_over : (s : Text) → first_is b'{' s ≡ true → Passes s → HandedOver s
  unfolding Passes zmq_handle_event handle_text
  handed_over s brace (whole, uncut) =
      let some_text = not_empty s brace in rw (whole, uncut, some_text, brace) refl

  -- The texts of the requests that the client builds, for a call and a path without a closing
  -- brace and without a zero, are parsed and dispatched by the daemon as they were sent: what it
  -- cuts off a message and its test for junk leave them alone.
  pub request-HandedOver :
      (call path : Text) (count : ℤ)
      → is_clean call ≡ true
      → is_clean path ≡ true
      → HandedOver (call_text call)
        × HandedOver (client_path_text call path)
        × HandedOver (events_text path count)
  unfolding call_text client_path_text events_text
  request-HandedOver call path count hc hp = (
    handed_over (call_text call) refl (call_text-Passes call hc),
    handed_over (client_path_text call path) refl (client_path_text-Passes call path hc hp),
    handed_over (events_text path count) refl (events_text-Passes path count hp),
  )
