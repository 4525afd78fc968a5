-- ===== src/AzureBastion/Stream/Tests.antt =====
-- Reads and writes at concrete messages.
use terraform_provider_tunne.Base.{◌≡◌, refl, true, none, some, [], ◌∷◌, arith}
use terraform_provider_tunne.Errors.{external}
use terraform_provider_tunne.AzureBastion.Stream.{binary, other, broken, WsStream, read, write}
use terraform_provider_tunne.AzureBastion.Stream.RoundTrip.{read_all, of_frames, read_all-write}
use terraform_provider_tunne.AzureBastion.Stream.Bytes.{
  Delivers, content, read-Delivers, Sends, write-Sends,
}

abbrev stream : WsStream
stream = record {
  pending = [];
  incoming = other ∷ binary [] ∷ binary (1 ∷ 2 ∷ 3 ∷ []) ∷ broken (external 1) ∷ [];
}

first_two : (read 2 stream).1 ≡ some (1 ∷ 2 ∷ [])
unfolding read
first_two = refl

read-Delivers_example : Delivers 2 (content stream) (read 2 stream).0 (read 2 stream).1
read-Delivers_example = read-Delivers 2 stream

write-Sends_example : Sends (1 ∷ 2 ∷ []) (write (λ k. none) (1 ∷ 2 ∷ []))
write-Sends_example = write-Sends (λ k. none) (1 ∷ 2 ∷ [])

read_all-write_example :
    read_all 4 2 (of_frames (λ k. none) (1 ∷ 2 ∷ 3 ∷ [])) ≡ (1 ∷ 2 ∷ 3 ∷ [], true)
read_all-write_example = read_all-write (λ k. none) (1 ∷ 2 ∷ 3 ∷ []) 2 (λ j. refl) (omega arith)
