-- ===== src/Inotify/Events/Buffer.antt =====
-- The loop of inotify_handle_event of src/inotify.c over the bytes that read(2) puts into its buffer,
-- and the layout of a struct inotify_event, on a machine that stores the low byte first.
use inotispy.Prelude.{
  ℕ, zero, suc, ◌+◌, ◌-◌, ◌*◌, ◌/◌, ◌%◌, Option, none, some, List, [], ◌∷◌, ◌++◌, ◌==◌, ◌>>=◌,
  to_int, to_u32, length, if◌then◌else◌,
}
use inotispy.Text.{Text}
use inotispy.Inotify.{InEvent, Sys, State}
use inotispy.Inotify.Events.{handle_in_event}

-- A field of 32 bits, and the bytes behind it.
unfoldable pub take_word : Text → Option (ℕ × Text)
take_word (a ∷ b ∷ c ∷ d ∷ s) = some (a + 256 * b + 65536 * c + 16777216 * d, s)
take_word _ = none

-- As many bytes, and those behind them.
unfoldable pub take_bytes : ℕ → Text → Option (Text × Text)
take_bytes zero s = some ([], s)
take_bytes (suc n) [] = none
take_bytes (suc n) (c ∷ s) = take_bytes n s >>= λ (taken, rest). some (c ∷ taken, rest)

-- The string in the bytes of a name, which ends at a zero.
unfoldable pub terminated : Text → Option Text
terminated [] = none
terminated (c ∷ s) =
    let rest = terminated s in if c == 0 then some [] else rest >>= λ t. some (c ∷ t)

-- The name of an event without bytes for a name is not looked at.
unfoldable pub name_of : ℕ → Text → Option Text
name_of len bytes = let name = terminated bytes in if len == 0 then some [] else name

-- The event at the front of the buffer, and the bytes at `i += INOTIFY_EVENT_SIZE + event->len`.
-- `none` is a read behind the bytes that read(2) gave.
unfoldable pub read_event : Text → Option (InEvent × Text)
unfolding take_word take_bytes name_of
read_event s = take_word s >>= λ (wd, s). take_word s >>= λ (mask, s).
    take_word s >>= λ (cookie, s). take_word s >>= λ (len, s). take_bytes len s >>= λ (bytes, s).
    name_of len bytes >>= λ name.
    some ((record { wd = to_int wd; mask = mask; cookie = cookie; len = len; name = name }), s)

module _ {S : Sys} where
  -- The rounds of `while (i < num_in_events)`.
  unfoldable pub handle_bytes : ℕ → State S → Text → Option (State S)
  unfolding read_event handle_in_event
  handle_bytes zero st bytes = some st
  handle_bytes (suc fuel) st [] = some st
  handle_bytes (suc fuel) st (c ∷ s) =
      read_event (c ∷ s) >>= λ (event, rest). handle_bytes fuel (handle_in_event st event) rest

  -- inotify_handle_event, of the bytes or of the failure of read(2).
  unfoldable pub handle_buffer : State S → Option Text → Option (State S)
  unfolding handle_bytes
  handle_buffer st none = some st
  handle_buffer st (some bytes) = handle_bytes (length bytes) st bytes

-- The bytes of a field of 32 bits.
unfoldable pub word_bytes : ℕ → Text
word_bytes n = n % 256 ∷ n / 256 % 256 ∷ n / 65536 % 256 ∷ n / 16777216 % 256 ∷ []

unfoldable pub zeros : ℕ → Text
zeros zero = []
zeros (suc n) = 0 ∷ zeros n

-- The bytes of an event, with the zeros behind its name.
unfoldable pub event_bytes : InEvent → Text
event_bytes event =
    word_bytes (to_u32 event.wd)
    ++ (word_bytes event.mask
        ++ (word_bytes event.cookie
            ++ (word_bytes event.len ++ (event.name ++ zeros (event.len - length event.name)))))

unfoldable pub buffer_bytes : List InEvent → Text
unfolding event_bytes
buffer_bytes [] = []
buffer_bytes (event ∷ events) = event_bytes event ++ buffer_bytes events
