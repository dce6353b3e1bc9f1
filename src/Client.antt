-- ===== src/Client.antt =====
-- bin/inotispyctl.c: the client of the command line. It prints, exchanges messages with the daemon,
-- and may exit at any point. 0MQ and json-c are arguments.
pub mod Texts
pub mod Messages
pub mod Commands
pub mod Dispatch
pub mod Handover
pub mod Numbers
pub mod Results
pub mod Success
use inotispy.Prelude.{ℕ, Bool, Option, none, some, List, ◌++◌}
use inotispy.Text.{Text}
use inotispy.Request.{JsonC}

-- The socket: zmq_send and zmq_recv with their failures, and a zmq_recv that does not wait, of which
-- the client takes the size of the message, 0 for none; strerror is zmq_strerror(errno).
pub record Link : Type 1 where
  pub World : Type 0
  pub zmq_send : World → Text → Bool × World
  pub zmq_recv : World → Option Text × World
  pub zmq_recv_now : World → ℕ × World
  pub strerror : World → Text

-- json-c with the elements of an array (json_object_array_length and json_object_array_get_idx), and
-- what printf writes for a null pointer under "%s".
pub record ReplyJson : Type 1 where
  pub json_c : JsonC
  pub elements : json_c.Obj → List json_c.Obj
  pub null_text : Text

-- A part of the client ends with a result, or in a call of exit; with the world and the output then.
pub data Run {ℓ} (W : Type 0) (A : Type ℓ) : Type ℓ where
  done : A → W → Text → Run W A
  exited : ℕ → W → Text → Run W A

abbrev pub Client {ℓ} : Type 0 → Type ℓ → Type ℓ
Client W A = W → Text → Run W A

abbrev pub continue {ℓ κ} :
    {W : Type 0} {A : Type ℓ} {B : Type κ} → Run W A → (A → Client W B) → Run W B
continue (done a w out) f = f a w out
continue (exited status w out) f = exited status w out

infixl 5 ◌>>=◌
abbrev pub ◌>>=◌ {ℓ κ} :
    {W : Type 0} {A : Type ℓ} {B : Type κ} → Client W A → (A → Client W B) → Client W B
m >>= f = λ w out. continue (m w out) f

infixl 5 ◌>>◌
abbrev pub ◌>>◌ {ℓ κ} :
    {W : Type 0} {A : Type ℓ} {B : Type κ} → Client W A → Client W B → Client W B
m >> n = m >>= λ _. n

abbrev pub pure {ℓ} : {W : Type 0} {A : Type ℓ} → A → Client W A
pure a = λ w out. done a w out

-- printf
abbrev pub print : {W : Type 0} → Text → Client W (Unit {0})
print text = λ w out. done tt w (out ++ text)

abbrev pub exit {ℓ} : {W : Type 0} {A : Type ℓ} → ℕ → Client W A
exit status = λ w out. exited status w out
