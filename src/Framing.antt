-- ===== src/Framing.antt =====
-- The frames of the stream transport, streamtransportclient.go and streamtransportserver.go: the
-- bytes that Send writes for an encoded message and how the receiver takes a stream of bytes apart.
-- The encoding itself is a third-party package; here it has been done.
pub mod RoundTrip
mod Examples
use adaptiveservice.Prelude.{
  ℕ, zero, suc, ◌+◌, ◌*◌, ◌/◌, ◌%◌, ltb, leb, Bool, true, false, Option, none, some, List, [], ◌∷◌,
  ◌++◌, Text, length, take, drop, if◌then◌else◌, ◌>>=◌,
}

-- math.MaxInt32
abbrev pub max_int32 : ℕ
max_int32 = 2147483647

-- binary.BigEndian.PutUint32 of uint32(n)
unfoldable pub put_uint32 : ℕ → Text
put_uint32 n = n / 16777216 % 256 ∷ n / 65536 % 256 ∷ n / 256 % 256 ∷ n % 256 ∷ []

-- binary.BigEndian.Uint32
unfoldable pub uint32 : Text → ℕ
uint32 (a ∷ b ∷ c ∷ d ∷ _) = ((a * 256 + b) * 256 + c) * 256 + d
uint32 _ = 0

-- What Send writes; none: it returns ErrMsgTooLarge and writes nothing.
unfoldable pub send_frame : Text → Option Text
unfolding put_uint32
send_frame buf_msg =
    if ltb max_int32 (length buf_msg) then none else some (put_uint32 (length buf_msg) ++ buf_msg)

-- Several messages sent one after another.
unfoldable pub send_all : List Text → Option Text
send_all [] = some []
send_all (buf_msg ∷ msgs) = do
  bytes ← send_frame buf_msg
  rest ← send_all msgs
  some (bytes ++ rest)

-- io.ReadFull of n bytes from a stream that ends after the given ones; none: an error.
unfoldable pub read_full : ℕ → Text → Option (Text × Text)
read_full n stream = if leb n (length stream) then some (take n stream, drop n stream) else none

-- The reading of one message by the receiver, and the rest of the stream.
unfoldable pub receive_frame : Text → Option (Text × Text)
receive_frame stream = do (buf_size, rest) ← read_full 4 stream; read_full (uint32 buf_size) rest

-- The loop of the receiver: the messages up to the first error, for so many turns.
unfoldable pub receiver : ℕ → Text → List Text
receiver zero stream = []
receiver (suc fuel) stream = elim (receive_frame stream) [
  | none ↦ []
  | some (buf_msg, rest) ↦ buf_msg ∷ receiver fuel rest
]
