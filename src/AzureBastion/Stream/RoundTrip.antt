-- ===== src/AzureBastion/Stream/RoundTrip.antt =====
-- internal/azurebastion/session.go: what one wsStream writes, another one reads.
use terraform_provider_tunne.Base.{
  joined, ℕ, zero, suc, ◌+◌, ◌<◌, ◌≡◌, refl, sym, ap, ◌∙◌, Bool, true, false, Option, none, some,
  List, [], ◌∷◌, ◌++◌, map, arith, length, length-append, drop,
}
use mathlib.Core.List.{append-nil}
use terraform_provider_tunne.Errors.{Error}
use terraform_provider_tunne.AzureBastion.Stream.{
  Bytes, frame_size, binary, WsStream, read, write_loop, write,
}
use terraform_provider_tunne.AzureBastion.Stream.Bytes.{
  payloads, content, Delivers, read-Delivers, write-Sends,
}

-- Reading at a buffer of `n` bytes until EOF, for at most so many calls; `true`: EOF was reached.
pub read_all : ℕ → ℕ → WsStream → Bytes × Bool
read_all zero n s = ([], false)
read_all (suc fuel) n s =
    let rest = read_all fuel n (read n s).0 in
    elim (read n s).1 [ none ↦ ([], true) | some bytes ↦ (bytes ++ rest.0, rest.1) ]

after_read :
    (fuel n : ℕ) (s : WsStream) (r : Option Bytes)
    → 0 < n
    → length (content s) < suc fuel
    → (length (content (read n s).0) < fuel
        → read_all fuel n (read n s).0 ≡ (content (read n s).0, true))
    → (read n s).1 ≡ r
    → Delivers n (content s) (read n s).0 r
    → read_all (suc fuel) n s ≡ (content s, true)
unfolding read_all
after_read fuel n s none h f ih e d = rw (e, read_all) (λ i. (sym d.0 i, true))
after_read fuel n s (some bytes) h f ih e (before, fits, some_read) =
    let shorter : length (content (read n s).0) < fuel =
      omega (arith, ap length before, length-append bytes (content (read n s).0), some_read h) in
    rw (e, read_all) (rw (ih shorter) (λ i. (sym before i, true)))

read_all-content :
    (fuel n : ℕ) (s : WsStream)
    → 0 < n
    → length (content s) < fuel
    → read_all fuel n s ≡ (content s, true)
read_all-content zero n s h f = absurd (omega arith)
read_all-content (suc fuel) n s h f =
    after_read fuel n s (read n s).1 h f (λ k. read_all-content fuel n (read n s).0 h k) refl
      (read-Delivers n s)

payloads-binary : (fs : List Bytes) → payloads (map binary fs) ≡ joined fs
payloads-binary [] = refl
payloads-binary (f ∷ fs) = ap (λ xs. f ++ xs) (payloads-binary fs)

write_loop-ok :
    (answer : ℕ → Option Error) (fuel k : ℕ) (p : Bytes)
    → ((j : ℕ) → answer j ≡ none)
    → (write_loop answer fuel k p).error ≡ none
unfolding write_loop
write_loop-ok answer zero k p sent = refl
write_loop-ok answer (suc fuel) k [] sent = refl
write_loop-ok answer (suc fuel) k (b ∷ p) sent =
    rw (sent k, write_loop) (write_loop-ok answer fuel (suc k) (drop frame_size (b ∷ p)) sent)

write-ok :
    (answer : ℕ → Option Error) (p : Bytes)
    → ((j : ℕ) → answer j ≡ none)
    → (write answer p).error ≡ none
unfolding write
write-ok answer p sent = write_loop-ok answer (length p) 0 p sent

-- The other end, which is to receive what a Write sends.
abbrev pub of_frames : (ℕ → Option Error) → Bytes → WsStream
of_frames answer p = record { pending = []; incoming = map binary (write answer p).frames }

-- What a Write sends over a connection that takes every message, the other end reads: Reads at a
-- buffer of any size but 0 hand out exactly the bytes that were written, in their order, and then
-- EOF, after no more calls than there are bytes and one.
pub read_all-write :
    (answer : ℕ → Option Error) (p : Bytes) (n : ℕ)
    → ((j : ℕ) → answer j ≡ none)
    → 0 < n
    → read_all
        (length p + 1)
        n
        (record { pending = []; incoming = map binary (write answer p).frames })
      ≡ (p, true)
read_all-write answer p n sent h =
    let (fit, counted, (rest, parts, whole)) = write-Sends answer p in
    let no_rest = whole (write-ok answer p sent) in
    let all : content (of_frames answer p) ≡ p =
      payloads-binary (write answer p).frames
      ∙ sym (append-nil (joined (write answer p).frames))
      ∙ ap (λ xs. joined (write answer p).frames ++ xs) (sym no_rest)
      ∙ sym parts in
    read_all-content (length p + 1) n (of_frames answer p) h (omega (arith, ap length all))
    ∙ (λ i. (all i, true))
