-- ===== src/AzureBastion/Stream.antt =====
-- internal/azurebastion/session.go: wsStream, the byte stream over WebSocket messages. Bytes are
-- numbers; what the connection answers is an argument.
pub mod Bytes
pub mod RoundTrip
mod Tests
use terraform_provider_tunne.Base.{
  ℕ, zero, suc, ◌+◌, Bool, true, false, Option, none, some, List, [], ◌∷◌, ◌++◌, length, take, drop,
  min,
}
use terraform_provider_tunne.Errors.{Error}

abbrev pub Bytes : Type 0
Bytes = List ℕ

abbrev pub frame_size : ℕ
frame_size = 4096

-- What `ReadMessage` delivers: a binary message, one of another type, or an error.
pub data Incoming : Type 0 where
  binary : Bytes → Incoming
  other : Incoming
  broken : Error → Incoming

-- `incoming` is what the connection will deliver; past its end every read fails.
pub record WsStream : Type 0 where
  pub pending : Bytes
  pub incoming : List Incoming

-- `(n, err)` of Read with the bytes that it copied: `none` is io.EOF.
abbrev pub ReadResult : Type 0
ReadResult = WsStream × Option Bytes

hand_out : ℕ → Bytes → List Incoming → ReadResult
hand_out n pending incoming =
    (record { pending = drop n pending; incoming = incoming }, some (take n pending))

-- The loop while `pending` is empty, and the copy after it.
pub read_next : ℕ → List Incoming → ReadResult
unfolding hand_out
read_next n [] = (record { pending = []; incoming = [] }, none)
read_next n (broken e ∷ rest) = (record { pending = []; incoming = rest }, none)
read_next n (other ∷ rest) = read_next n rest
read_next n (binary [] ∷ rest) = read_next n rest
read_next n (binary (b ∷ payload) ∷ rest) = hand_out n (b ∷ payload) rest

read_from : ℕ → Bytes → List Incoming → ReadResult
unfolding hand_out
read_from n [] incoming = read_next n incoming
read_from n (b ∷ pending) incoming = hand_out n (b ∷ pending) incoming

-- `Read(p)` at a buffer of `n` bytes.
pub read : ℕ → WsStream → ReadResult
unfolding read_from read_next
read n s = read_from n s.pending s.incoming

-- The messages that a Write has sent, and its `(n, err)`.
pub record Written : Type 0 where
  pub frames : List Bytes
  pub count : ℕ
  pub error : Option Error

abbrev add_frame : Bytes → Written → Written
add_frame chunk w = record w { frames = chunk ∷ w.frames; count = length chunk + w.count }

-- The loop of Write. `answer k` is what the k-th `WriteMessage` returns. A round sends at least one
-- byte, so as much fuel as there are bytes is enough.
pub write_loop : (ℕ → Option Error) → ℕ → ℕ → Bytes → Written
write_loop answer zero k p = record { frames = []; count = 0; error = none }
write_loop answer (suc fuel) k [] = record { frames = []; count = 0; error = none }
write_loop answer (suc fuel) k (b ∷ p) =
    let rest = write_loop answer fuel (suc k) (drop frame_size (b ∷ p)) in
    elim (answer k) [
      | some e ↦ record { frames = []; count = 0; error = some e }
      | none ↦ add_frame (take frame_size (b ∷ p)) rest
    ]

-- `Write(p)`
pub write : (ℕ → Option Error) → Bytes → Written
unfolding write_loop
write answer p = write_loop answer (length p) 0 p
