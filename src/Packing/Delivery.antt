-- ===== src/Packing/Delivery.antt =====
-- From the user messages of one node to those of another: packing, as in `serialize` of
-- src/message.cpp, the stream between the nodes, and `deserialize`.
use elastic_actor.Prelude.{
  ℕ, ◌^◌, ◌<◌, ◌≤◌, ◌-◌, ◌≡◌, ◌∙◌, ap, sym, length, none, List, [], ◌∷◌, ◌++◌, Option, some, map,
  refl,
}
use elastic_actor.Message.{Metadata, type_user_normal}
use elastic_actor.Packing.{Vtab, UserHeap, nothing, stream, packed, alloc, pack_into, deserialize}
use elastic_actor.Packing.Wire.{deserialize-packed, pack_into-buffer}
use elastic_actor.Stream.{ReadResult, waits, handle_all}
use elastic_actor.Stream.Reading.{IsOpen, bytes_of}
use elastic_actor.Stream.Gateway.{gateway}
use elastic_actor.Stream.Messages.{
  Sent, wire, arrived, at_head, AllCanSend, htonl, accepted, messages-arrive,
}

module _ {D : Type 0} (v : Vtab D) where
  -- Each message that arrived unpacks, in any memory, to a new message with the content that was sent.
  abbrev pub Unpacks : List (Metadata × D) → List Sent → Type 0
  Unpacks [] [] = Unit
  Unpacks ((meta, d) ∷ ms) ((header, body) ∷ ds) =
      ((g : UserHeap D)
        → deserialize v (record { meta = header; held = stream (packed body) }) g
          ≡ some (
            g.fresh,
            record { meta = record header { data_type = type_user_normal }; held = nothing },
            (alloc d g).1,
          ))
      × Unpacks ms ds
  Unpacks [] (s ∷ ds) = ⊥
  Unpacks (m ∷ ms) [] = ⊥

module _ {D : Type 0} (junk : ℕ → List ℕ) (v : Vtab D) where
  -- The bytes `sent` are those of the buffers into which `serialize` packs the contents `ms`.
  pub data Packed : List (Metadata × D) → List Sent → Type 0 where
    none_packed : Packed [] []
    one_packed :
        (meta : Metadata) (d : D) (bytes : List ℕ) (ms : List (Metadata × D)) (sent : List Sent)
        → pack_into junk v d ≡ some bytes
        → Packed ms sent
        → Packed ((meta, d) ∷ ms) ((meta, bytes) ∷ sent)

  pack_into-back :
      (unpack : List ℕ → Option D) (d : D) (bytes : List ℕ)
      → length (v.pack d) ≤ v.pack_size d
      → ((behind : List ℕ) → unpack (v.pack d ++ behind) ≡ some d)
      → pack_into junk v d ≡ some bytes
      → unpack bytes ≡ some d
  pack_into-back unpack d bytes fits back e =
      ap (λ o. elim o [ none ↦ none | some l ↦ unpack l ]) (sym e ∙ pack_into-buffer junk v d fits)
      ∙ back (junk (v.pack_size d - length (v.pack d)))

  arrived-Unpacks :
      (unpack : List ℕ → Option D) (here there : ℕ) (ms : List (Metadata × D)) (sent : List Sent)
      → v.unpack ≡ some unpack
      → ((d : D) → length (v.pack d) ≤ v.pack_size d)
      → ((d : D) (behind : List ℕ) → unpack (v.pack d ++ behind) ≡ some d)
      → Packed ms sent
      → Unpacks v ms (map (arrived here there here) sent)
  arrived-Unpacks unpack here there _ _ e fits back none_packed = tt
  arrived-Unpacks unpack here there _ _ e fits back (one_packed meta d bytes ms sent p ps) = (
    λ g.
        deserialize-packed v unpack (arrived here there here (meta, bytes)).0 bytes d g e refl refl
          (pack_into-back unpack d bytes (fits d) (back d) p),
    arrived-Unpacks unpack here there ms sent e fits back ps,
  )

  -- When a node packs its messages as `serialize` does, into buffers that are not empty, and writes
  -- them after its handshake, then, however the stream is cut into reads, the other node has as many
  -- messages in the same order, which unpack to the contents that were sent. The type of the messages
  -- packs into at most the size that it promises and unpacks what it packs, whatever bytes are behind
  -- it in the buffer; the headers fit.
  pub contents-arrive :
      (unpack : List ℕ → Option D) (here there invalid : ℕ) (ms : List (Metadata × D))
      (sent : List Sent) (rs : List ReadResult)
      → v.unpack ≡ some unpack
      → ((d : D) → length (v.pack d) ≤ v.pack_size d)
      → ((d : D) (behind : List ℕ) → unpack (v.pack d ++ behind) ≡ some d)
      → here < 2 ^ 32
      → there < 2 ^ 32
      → Packed ms sent
      → AllCanSend here there here sent
      → IsOpen (gateway there) rs (accepted invalid)
      → bytes_of (gateway there) rs ≡ htonl here ++ wire here there here sent
      → (delivered : List Sent) × (handle_all (gateway there) rs (accepted invalid)
          ≡ waits (at_head here there here delivered))
        × Unpacks v ms delivered
  contents-arrive unpack here there invalid ms sent rs e fits back id id' ps can open_stream whole =
      (
        map (arrived here there here) sent,
        messages-arrive here there invalid sent rs id id' can open_stream whole,
        arrived-Unpacks unpack here there ms sent e fits back ps,
      )
