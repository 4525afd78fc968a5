-- ===== src/AzureBastion/Stream/Bytes.antt =====
-- internal/azurebastion/session.go: wsStream neither loses, repeats nor reorders a byte.
use terraform_provider_tunne.Base.{
  joined, ℕ, zero, suc, ◌≤◌, ◌<◌, ◌≡◌, refl, sym, ap, ◌∙◌, inl, inr, Option, none, some, List, [],
  ◌∷◌, ◌++◌, arith, length, take, drop, take-append-drop, length-take, length-append, length-drop,
  All, Option-cases,
}
use mathlib.Core.List.{append_assoc}
use terraform_provider_tunne.Errors.{Error}
use terraform_provider_tunne.AzureBastion.Stream.{
  add_frame, Bytes, frame_size, Incoming, binary, other, broken, WsStream, hand_out, read_next,
  read_from, read, Written, write_loop, write,
}

-- The bytes that the connection will still deliver before it fails.
abbrev pub payloads : List Incoming → Bytes
payloads [] = []
payloads (binary p ∷ rest) = p ++ payloads rest
payloads (other ∷ rest) = payloads rest
payloads (broken e ∷ rest) = []

-- The bytes that are still to be read from the stream.
abbrev pub content : WsStream → Bytes
content s = s.pending ++ payloads s.incoming

-- What a Read at a buffer of `n` bytes may do with the bytes `before`.
abbrev pub Delivers : ℕ → Bytes → WsStream → Option Bytes → Type 0
Delivers n before s none = (before ≡ []) × (s.pending ≡ [])
Delivers n before s (some bytes) =
    (before ≡ bytes ++ content s) × (length bytes ≤ n) × (0 < n → 0 < length bytes)

hand_out-Delivers :
    (n b : ℕ) (p : Bytes) (rest : List Incoming)
    → let r = hand_out n (b ∷ p) rest in Delivers n ((b ∷ p) ++ payloads rest) r.0 r.1
unfolding hand_out
hand_out-Delivers n b p rest = (
  sym (
      sym (append_assoc (take n (b ∷ p)) (drop n (b ∷ p)) (payloads rest))
      ∙ ap (λ xs. xs ++ payloads rest) (take-append-drop n (b ∷ p))),
  omega (arith, length-take n (b ∷ p)),
  λ h. omega (arith, length-take n (b ∷ p)),
)

read_next-Delivers :
    (n : ℕ) (m : List Incoming) → let r = read_next n m in Delivers n (payloads m) r.0 r.1
unfolding read_next
read_next-Delivers n [] = (refl, refl)
read_next-Delivers n (broken e ∷ rest) = (refl, refl)
read_next-Delivers n (other ∷ rest) = read_next-Delivers n rest
read_next-Delivers n (binary [] ∷ rest) = read_next-Delivers n rest
read_next-Delivers n (binary (b ∷ p) ∷ rest) = hand_out-Delivers n b p rest

read_from-Delivers :
    (n : ℕ) (p : Bytes) (m : List Incoming)
    → let r = read_from n p m in Delivers n (p ++ payloads m) r.0 r.1
unfolding read_from
read_from-Delivers n [] m = read_next-Delivers n m
read_from-Delivers n (b ∷ p) m = hand_out-Delivers n b p m

-- A Read hands out the first bytes of what the stream still holds, at most as many as fit and at
-- least one if there is room, and leaves exactly the others; it reports EOF only if no byte is
-- left. Messages that are empty or not binary are passed over.
pub read-Delivers : (n : ℕ) (s : WsStream) → Delivers n (content s) (read n s).0 (read n s).1
unfolding read
read-Delivers n s = read_from-Delivers n s.pending s.incoming

abbrev pub FitsFrame : Bytes → Type 0
FitsFrame f = (0 < length f) × (length f ≤ frame_size)

-- The frames of a Write, its count and its error, against the bytes that were to be written.
abbrev pub Sends : Bytes → Written → Type 0
Sends p w =
    All FitsFrame w.frames
    × (w.count ≡ length (joined w.frames))
    × ((rest : Bytes) × (p ≡ joined w.frames ++ rest) × (w.error ≡ none → rest ≡ []))

one_frame :
    (b : ℕ) (p : Bytes) (w : Written)
    → Sends (drop frame_size (b ∷ p)) w
    → Sends (b ∷ p) (add_frame (take frame_size (b ∷ p)) w)
one_frame b p w (fit, n, (rest, e, done)) = (
  (
    (omega (arith, length-take frame_size (b ∷ p)), omega (arith, length-take frame_size (b ∷ p))),
    fit,
  ),
  omega (arith, n, length-append (take frame_size (b ∷ p)) (joined w.frames)),
  (
    rest,
    sym (take-append-drop frame_size (b ∷ p))
        ∙ ap (λ xs. take frame_size (b ∷ p) ++ xs) e
        ∙ sym (append_assoc (take frame_size (b ∷ p)) (joined w.frames) rest),
    done,
  ),
)

write_loop-Sends :
    (answer : ℕ → Option Error) (fuel k : ℕ) (p : Bytes)
    → length p ≤ fuel
    → Sends p (write_loop answer fuel k p)
unfolding write_loop
write_loop-Sends answer zero k [] h = (tt, refl, ([], refl, λ e. refl))
write_loop-Sends answer zero k (b ∷ p) h = absurd (omega arith)
write_loop-Sends answer (suc fuel) k [] h = (tt, refl, ([], refl, λ e. refl))
write_loop-Sends answer (suc fuel) k (b ∷ p) h = elim (Option-cases (answer k)) [
  | inl sent ↦
      rw (sent, write_loop)
        (one_frame b p _ (
          write_loop-Sends answer fuel (suc k) (drop frame_size (b ∷ p))
            (omega (arith, length-drop frame_size (b ∷ p)))))
  | inr (e, failed) ↦ rw (failed, write_loop) (tt, refl, (b ∷ p, refl, λ x. cc))
]

-- A Write sends frames of 1 to 4096 bytes that, put together, are the first bytes of its argument,
-- reports how many these are, and reports no error only if they are all of it; it always returns,
-- whatever the connection answers.
pub write-Sends : (answer : ℕ → Option Error) (p : Bytes) → Sends p (write answer p)
unfolding write
write-Sends answer p = write_loop-Sends answer (length p) 0 p (omega arith)
