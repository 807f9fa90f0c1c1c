-- ===== src/Packing/Wire.antt =====
-- `serialize` and `deserialize` of src/message.cpp: a message of a type that packs and unpacks.
use elastic_actor.Prelude.{
  ℕ, ◌-◌, ◌<◌, ◌≤◌, ◌≡◌, Bool, true, false, List, [], ◌∷◌, ◌++◌, length-append, Option, none, some,
  ◌==◌, dec32, u32, arith, refl, ◌∙◌, sym, ap, inl, inr, Bool-cases, ltb, length, take,
}
use elastic_actor.Future.{Refcnt, refcnt_put}
use elastic_actor.Message.{Metadata, type_stream, type_user_normal}
use elastic_actor.Packing.{
  Vtab, UserHeap, Wrapper, nothing, message, stream, packed, put_at, alloc, put_message,
  drop_message, pack_into, ordered, serialize, deserialize,
}

take-length : {A : Type 0} (xs : List A) → take (length xs) xs ≡ xs
take-length [] = refl
take-length (x ∷ xs) = ap (λ ys. x ∷ ys) (take-length xs)

module _ {D : Type 0} where
  -- A buffer of the pack size with the packed content at its head.
  abbrev buffer : (ℕ → List ℕ) → Vtab D → D → List ℕ
  buffer junk v d = v.pack d ++ junk (v.pack_size d - length (v.pack d))

  pub pack_into-buffer :
      (junk : ℕ → List ℕ) (v : Vtab D) (d : D)
      → length (v.pack d) ≤ v.pack_size d
      → pack_into junk v d ≡ some (buffer junk v d)
  unfolding pack_into
  pack_into-buffer junk v d fits =
      let small : ltb (v.pack_size d) (length (v.pack d)) ≡ false = ground (arith, fits) in
      rw small refl

  length-buffer :
      (junk : ℕ → List ℕ) (v : Vtab D) (d : D)
      → ((n : ℕ) → length (junk n) ≡ n)
      → length (v.pack d) ≤ v.pack_size d
      → length (buffer junk v d) ≡ v.pack_size d
  length-buffer junk v d sized fits =
      let left = v.pack_size d - length (v.pack d) in
      omega (arith, fits, sized left, length-append (v.pack d) (junk left))

  put_message-some :
      (a : ℕ) (r : Refcnt D) (h : UserHeap D)
      → h.at a ≡ some r
      → 0 < r.count
      → (h' : UserHeap D) × (put_message a h ≡ some h')
  unfolding put_message refcnt_put
  put_message-some a r h e p =
      let used : (r.count == 0) ≡ false = ground (arith, p) in
      elim (Bool-cases (dec32 r.count == 0)) [
        | inl last ↦ (put_at a none h, rw (put_message, e, refcnt_put, used, last) refl)
        | inr more ↦ (
          put_at a (some (record r { count = dec32 r.count })) h,
          rw (put_message, e, refcnt_put, used, more) refl,
        )
      ]

  serialize-packed :
      (junk : ℕ → List ℕ) (v : Vtab D) (be : Bool) (meta : Metadata) (a : ℕ) (r : Refcnt D)
      (h h' : UserHeap D) (bytes : List ℕ)
      → meta.data_type ≡ type_user_normal
      → h.at a ≡ some r
      → pack_into junk v r.object ≡ some bytes
      → put_message a h ≡ some h'
      → serialize junk v be (record { meta = meta; held = message a }) h
        ≡ some (
          (true, packed bytes, v.pack_size r.object),
          record {
            meta = ordered be (record meta { size = u32 (v.pack_size r.object) });
            held = nothing;
          },
          h',
        )
  unfolding serialize drop_message
  serialize-packed junk v be meta a r h h' bytes normal e written put =
      let is_normal : (meta.data_type == type_user_normal) ≡ true = ground (arith, normal) in
      let not_stream : (meta.data_type == type_stream) ≡ false = ground (arith, normal) in
      rw (serialize, is_normal, e, written, drop_message, not_stream, put) refl

  pub deserialize-packed :
      (v : Vtab D) (unpack : List ℕ → Option D) (meta : Metadata) (bytes : List ℕ) (d : D)
      (g : UserHeap D)
      → v.unpack ≡ some unpack
      → meta.data_type ≡ type_stream
      → meta.size ≡ length bytes
      → unpack bytes ≡ some d
      → deserialize v (record { meta = meta; held = stream (packed bytes) }) g
        ≡ some (
          g.fresh,
          record { meta = record meta { data_type = type_user_normal }; held = nothing },
          (alloc d g).1,
        )
  unfolding deserialize alloc
  deserialize-packed v unpack meta bytes d g e is_stream size u =
      let s : (meta.data_type == type_stream) ≡ true = ground (arith, is_stream) in
      let whole : unpack (take meta.size bytes) ≡ some d =
        ap (λ n. unpack (take n bytes)) size ∙ ap unpack (take-length bytes) ∙ u in
      rw (deserialize, s, e, whole) refl

  -- A message whose type has functions that pack into at most the size that it promises, and that
  -- unpack this again whatever bytes are behind it, is serialized into a new buffer of that size, and
  -- its sender's wrapper holds it no longer. When the buffer and its size arrive as a stream,
  -- deserialize makes a new message of it with the same content.
  pub serialize-deserialize :
      (junk : ℕ → List ℕ) (v : Vtab D) (unpack : List ℕ → Option D) (be : Bool) (meta : Metadata)
      (a : ℕ) (r : Refcnt D) (h : UserHeap D)
      → ((n : ℕ) → length (junk n) ≡ n)
      → v.unpack ≡ some unpack
      → ((d : D) → length (v.pack d) ≤ v.pack_size d)
      → ((d : D) (behind : List ℕ) → unpack (v.pack d ++ behind) ≡ some d)
      → meta.data_type ≡ type_user_normal
      → h.at a ≡ some r
      → 0 < r.count
      → (bytes : List ℕ) × (sent : Wrapper D) × (h' : UserHeap D) × (serialize junk v be
            (record { meta = meta; held = message a })
            h
          ≡ some ((true, packed bytes, v.pack_size r.object), sent, h'))
        × (length bytes ≡ v.pack_size r.object)
        × (sent.held ≡ nothing)
        × ((arrived : Metadata) (g : UserHeap D)
            → arrived.data_type ≡ type_stream
            → arrived.size ≡ v.pack_size r.object
            → deserialize v (record { meta = arrived; held = stream (packed bytes) }) g
              ≡ some (
                g.fresh,
                record { meta = record arrived { data_type = type_user_normal }; held = nothing },
                (alloc r.object g).1,
              ))
  serialize-deserialize junk v unpack be meta a r h sized e fits back normal found p =
      let (h', put) = put_message-some a r h found p in
      let bytes = buffer junk v r.object in
      let size = length-buffer junk v r.object sized (fits r.object) in
      (
        bytes,
        record {
          meta = ordered be (record meta { size = u32 (v.pack_size r.object) });
          held = nothing;
        },
        h',
        serialize-packed junk v be meta a r h h' bytes normal found
            (pack_into-buffer junk v r.object (fits r.object)) put,
        size,
        refl,
        λ arrived g is_stream arrived_size.
            deserialize-packed v unpack arrived bytes r.object g e is_stream
              (arrived_size ∙ sym size)
              (back r.object (junk (v.pack_size r.object - length (v.pack r.object)))),
      )
