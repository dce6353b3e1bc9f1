-- ===== src/Inotify/Events/Whole.antt =====
-- About the loop of inotify_handle_event over its buffer: the events that it finds in it.
use inotispy.Prelude.{
  ℕ, zero, suc, ◌+◌, ◌-◌, ◌*◌, ◌/◌, ◌%◌, ◌^◌, ◌≤◌, ◌<◌, ◌≡◌, refl, sym, subst, ◌∙◌, ap, ◌⊎◌, inl,
  inr, false, some, List, [], ◌∷◌, ◌++◌, ◌==◌, ◌>>=◌, ℤ, to_int, to_u32, arith, length,
  length-append,
}
use inotispy.Text.{Text}
use inotispy.Text.Decimal.RoundTrip.{IsInt}
use inotispy.Inotify.{InEvent, Sys, State}
use inotispy.Inotify.Events.{handle_in_event, handle_in_events, handle_event}
use inotispy.Inotify.Events.Buffer.{
  take_word, take_bytes, terminated, name_of, read_event, handle_bytes, handle_buffer, word_bytes,
  zeros, event_bytes, buffer_bytes,
}

abbrev pub NoZero : Text → Type 0
NoZero [] = Unit {0}
NoZero (c ∷ s) = ((c == 0) ≡ false) × NoZero s

-- What the kernel reports: fields of 32 bits, and a name that ends in the bytes for it.
abbrev pub IsReported : InEvent → Type 0
IsReported event =
    IsInt event.wd
    × (event.mask < 2 ^ 32)
    × (event.cookie < 2 ^ 32)
    × (event.len < 2 ^ 32)
    × NoZero event.name
    × ((event.len ≡ 0) × (event.name ≡ []) ⊎ (length event.name < event.len))

abbrev pub AllReported : List InEvent → Type 0
AllReported [] = Unit {0}
AllReported (event ∷ events) = IsReported event × AllReported events

word_of_bytes :
    (n : ℕ)
    → n < 2 ^ 32
    → n % 256 + 256 * (n / 256 % 256) + 65536 * (n / 65536 % 256) + 16777216 * (n / 16777216 % 256)
      ≡ n
word_of_bytes n h = omega arith

take_word_of : (n : ℕ) (s : Text) → n < 2 ^ 32 → take_word (word_bytes n ++ s) ≡ some (n, s)
unfolding take_word word_bytes
take_word_of n s h = ap (λ m. some (m, s)) (word_of_bytes n h)

take_bytes_of : (s t : Text) → take_bytes (length s) (s ++ t) ≡ some (s, t)
unfolding take_bytes
take_bytes_of [] t = refl
take_bytes_of (c ∷ s) t = rw (take_bytes_of s t) refl

terminated_of : (s : Text) (n : ℕ) → NoZero s → terminated (s ++ zeros (suc n)) ≡ some s
unfolding terminated zeros
terminated_of [] n h = refl
terminated_of (c ∷ s) n (hc, h) = rw (hc) (rw (terminated_of s n h) refl)

length-zeros : (n : ℕ) → length (zeros n) ≡ n
unfolding zeros
length-zeros zero = refl
length-zeros (suc n) = omega (arith, length-zeros n)

to_int-to_u32 : (z : ℤ) → IsInt z → to_int (to_u32 z) ≡ z
to_int-to_u32 (ℤ.pos n) h = ground arith
to_int-to_u32 (ℤ.negsuc n) h = ground arith

to_u32-lt : (z : ℤ) → to_u32 z < 2 ^ 32
to_u32-lt (ℤ.pos n) = omega arith
to_u32-lt (ℤ.negsuc n) = omega arith

-- A field in front of the rest of an event and of the other events.
take_field :
    (n : ℕ) (x s : Text) → n < 2 ^ 32 → take_word ((word_bytes n ++ x) ++ s) ≡ some (n, x ++ s)
unfolding word_bytes
take_field n x s h = take_word_of n (x ++ s) h

-- The length of a name with its zeros.
name_room :
    (len : ℕ) (name : Text)
    → (len ≡ 0) × (name ≡ []) ⊎ (length name < len)
    → length (name ++ zeros (len - length name)) ≡ len
name_room len name (inl (none_there, empty)) = rw (none_there, empty) (length-zeros 0)
name_room len name (inr room) =
    omega (arith, length-append name (zeros (len - length name)), length-zeros (len - length name))

take_name :
    (len : ℕ) (name s : Text)
    → (len ≡ 0) × (name ≡ []) ⊎ (length name < len)
    → take_bytes len ((name ++ zeros (len - length name)) ++ s)
      ≡ some (name ++ zeros (len - length name), s)
take_name len name s room =
    subst
      (λ n.
        take_bytes n ((name ++ zeros (len - length name)) ++ s)
        ≡ some (name ++ zeros (len - length name), s))
      (name_room len name room) (take_bytes_of (name ++ zeros (len - length name)) s)

suc_not_zero : (n : ℕ) → (suc n == 0) ≡ false
suc_not_zero n = ground arith

minus_suc : (a b : ℕ) → b < suc a → suc a - b ≡ suc (a - b)
minus_suc a b h = omega arith

name_of_bytes :
    (len : ℕ) (name : Text)
    → NoZero name
    → (len ≡ 0) × (name ≡ []) ⊎ (length name < len)
    → name_of len (name ++ zeros (len - length name)) ≡ some name
unfolding name_of
name_of_bytes len name clean (inl (none_there, empty)) = rw (none_there, empty) refl
name_of_bytes zero name clean (inr room) = absurd (omega arith)
name_of_bytes (suc len) name clean (inr room) = rw (suc_not_zero len) (
    ap (λ k. terminated (name ++ zeros k)) (minus_suc len (length name) room)
    ∙ terminated_of name (len - length name) clean)

read_event_of :
    (event : InEvent) (s : Text)
    → IsReported event
    → read_event (event_bytes event ++ s) ≡ some (event, s)
unfolding read_event event_bytes
read_event_of event s (wd, mask, cookie, len, clean, room) =
    rw
      (
        take_field (to_u32 event.wd) _ s (to_u32-lt event.wd),
        take_field event.mask _ s mask,
        take_field event.cookie _ s cookie,
        take_field event.len _ s len,
        take_name event.len event.name s room,
        name_of_bytes event.len event.name clean room,
      )
      (λ i. some (record event { wd = to_int-to_u32 event.wd wd i }, s))

some_byte : (event : InEvent) (s : Text) → (c : ℕ) × (t : Text) × (event_bytes event ++ s ≡ c ∷ t)
unfolding event_bytes word_bytes
some_byte event s = (_, _, refl)

some_length : (event : InEvent) (s : Text) → 1 ≤ length (event_bytes event ++ s)
unfolding event_bytes word_bytes
some_length event s = omega arith

bytes_left :
    (event : InEvent) (s : Text) {fuel : ℕ}
    → length (event_bytes event ++ s) ≤ suc fuel
    → length s ≤ fuel
bytes_left event s h = omega (
  arith,
  length-append (event_bytes event) s,
  length-append (event_bytes event) [],
  some_length event [],
)

module _ {S : Sys} where
  handle_no_bytes : (fuel : ℕ) (st : State S) → handle_bytes fuel st [] ≡ some st
  unfolding handle_bytes
  handle_no_bytes zero st = refl
  handle_no_bytes (suc fuel) st = refl

  handle_bytes_step :
      (fuel : ℕ) (st : State S) (bytes : Text) (c : ℕ) (s : Text)
      → bytes ≡ c ∷ s
      → handle_bytes (suc fuel) st bytes
        ≡ (read_event bytes >>= λ (event, rest). handle_bytes fuel (handle_in_event st event) rest)
  unfolding handle_bytes
  handle_bytes_step fuel st bytes c s e =
      subst
        (λ b.
          handle_bytes (suc fuel) st b
          ≡ (read_event b >>= λ (event, rest). handle_bytes fuel (handle_in_event st event) rest))
        (sym e) refl

  handle_bytes_of :
      (fuel : ℕ) (st : State S) (events : List InEvent)
      → AllReported events
      → length (buffer_bytes events) ≤ fuel
      → handle_bytes fuel st (buffer_bytes events) ≡ some (handle_in_events st events)
  unfolding buffer_bytes handle_in_events
  handle_bytes_of zero st [] _ fits = handle_no_bytes 0 st
  handle_bytes_of (suc fuel) st [] _ fits = handle_no_bytes (suc fuel) st
  handle_bytes_of zero st (event ∷ events) (reported, others) fits =
      absurd (omega (arith, some_length event (buffer_bytes events)))
  handle_bytes_of (suc fuel) st (event ∷ events) (reported, others) fits =
      let rest = buffer_bytes events in
      let (c, s, e) = some_byte event rest in
      handle_bytes_step fuel st (event_bytes event ++ rest) c s e
      ∙ (ap (λ o. o >>= λ (first, left). handle_bytes fuel (handle_in_event st first) left)
            (read_event_of event rest reported)
          ∙ handle_bytes_of fuel (handle_in_event st event) events others
              (bytes_left event rest fits))

  -- Of a buffer that holds the bytes of events as the kernel lays them out, with fields of 32
  -- bits and names that are closed by a zero, inotify_handle_event handles exactly these events,
  -- in their order, and reads nothing behind the bytes.
  pub handle_buffer_lem :
      (st : State S) (events : List InEvent)
      → AllReported events
      → handle_buffer st (some (buffer_bytes events)) ≡ some (handle_event st (some events))
  unfolding handle_buffer handle_event
  handle_buffer_lem st events reported =
      handle_bytes_of (length (buffer_bytes events)) st events reported (omega arith)
