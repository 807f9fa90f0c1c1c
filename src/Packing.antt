-- ===== src/Packing.antt =====
-- src/message.cpp: user messages with their reference counts, `mola_message_cow`, and `serialize` and
-- `deserialize` of a MessageWrapper (include/mola/message.hpp). The functions of a type of messages,
-- its `mola_message_vtab_t`, are loaded code and an argument. A failed assertion or an access to
-- memory that is not what the code takes it for is `none`.
pub mod Copying
pub mod Wire
pub mod Delivery
mod Tests
use elastic_actor.Prelude.{
  ℕ, ◌+◌, ◌-◌, Bool, true, false, List, ◌++◌, Option, none, some, ltb, ◌==◌, if◌then◌else◌, length,
  u32, take,
}
use elastic_actor.Future.{Refcnt, refcnt_init, refcnt_put, refcnt_unique}
use elastic_actor.Message.{
  Metadata, metatobe, metatole, type_stream, type_user_little, type_user_normal,
}

-- `mola_message_vtab_t`, without what is called at the end of a message's life.
pub record Vtab (D : Type 0) : Type 0 where
  pub copy_content : Option (D → D)
  pub pack_size : D → ℕ
  pub pack : D → List ℕ
  pub unpack : Option (List ℕ → Option D)

-- The user messages by their addresses; `fresh` is the address of the next one.
pub record UserHeap (D : Type 0) : Type 0 where
  pub at : ℕ → Option (Refcnt D)
  pub fresh : ℕ

-- What a buffer holds: packed bytes, or a message as it lies in memory.
pub data Buffer (D : Type 0) : Type 0 where
  packed : List ℕ → Buffer D
  in_memory : D → Buffer D

-- `mola_message_data_t`, the union of a message and a stream, with the null pointer.
pub data Held (D : Type 0) : Type 0 where
  nothing : Held D
  message : ℕ → Held D
  stream : Buffer D → Held D

pub record Wrapper (D : Type 0) : Type 0 where
  pub meta : Metadata
  pub held : Held D

-- The byte order of a header that is sent.
abbrev pub ordered : Bool → Metadata → Metadata
ordered be meta = if be then metatobe meta else metatole meta

module _ {D : Type 0} where
  unfoldable pub put_at : ℕ → Option (Refcnt D) → UserHeap D → UserHeap D
  put_at a r h = record h { at = λ b. if b == a then r else h.at b }

  -- `__init_message` at a new address.
  unfoldable pub alloc : D → UserHeap D → ℕ × UserHeap D
  unfolding put_at refcnt_init
  alloc d h = (h.fresh, record (put_at h.fresh (some (refcnt_init d)) h) { fresh = h.fresh + 1 })

  -- `mola_refcnt_put` of a message.
  unfoldable pub put_message : ℕ → UserHeap D → Option (UserHeap D)
  unfolding put_at refcnt_put
  put_message a h = elim (h.at a) [
    | none ↦ none
    | some r ↦ elim (refcnt_put none (some r) tt) [
      | none ↦ none
      | some (freed, r', w) ↦ some (put_at a r' h)
    ]
  ]

  unfoldable pub copy_of : Vtab D → D → D
  copy_of v d = elim v.copy_content [ none ↦ d | some f ↦ f d ]

  -- `mola_message_cow`: the address that the pointer has afterwards.
  unfoldable pub message_cow : Vtab D → ℕ → UserHeap D → Option (ℕ × UserHeap D)
  unfolding refcnt_unique alloc put_message copy_of
  message_cow v a h = elim (h.at a) [
    | none ↦ none
    | some r ↦ elim (refcnt_unique (some r)) [
      | none ↦ none
      | some true ↦ some (a, h)
      | some false ↦
          let (a', h') = alloc (copy_of v r.object) h in
          elim (put_message a h') [ none ↦ none | some h'' ↦ some (a', h'') ]
    ]
  ]

  -- `copy_on_write`
  unfoldable pub copy_on_write : Vtab D → Wrapper D → UserHeap D → Option (Wrapper D × UserHeap D)
  unfolding message_cow
  copy_on_write v w h = if w.meta.data_type == type_stream then some (w, h) else elim w.held [
    | message a ↦ elim (message_cow v a h) [
      | none ↦ none
      | some (a', h') ↦ some (record w { held = message a' }, h')
    ]
    | _ ↦ none
  ]

  -- `drop_`
  unfoldable pub drop_message : Wrapper D → UserHeap D → Option (Wrapper D × UserHeap D)
  unfolding put_message
  drop_message w h = if w.meta.data_type == type_stream then some (w, h) else elim w.held [
    | message a ↦ elim (put_message a h) [
      | none ↦ none
      | some h' ↦ some (record w { held = nothing }, h')
    ]
    | nothing ↦ some (w, h)
    | stream b ↦ none
  ]

  -- The bytes of a packed message in a buffer of its pack size, behind which is what was there.
  unfoldable pub pack_into : (ℕ → List ℕ) → Vtab D → D → Option (List ℕ)
  pack_into junk v d =
      let bytes = v.pack d in
      if ltb (v.pack_size d) (length bytes)
      then none
      else some (bytes ++ junk (v.pack_size d - length bytes))

  -- `serialize`: whether the buffer is a new one, the buffer, and its size.
  unfoldable pub serialize :
      (ℕ → List ℕ)
      → Vtab D
      → Bool
      → Wrapper D
      → UserHeap D
      → Option ((Bool × Buffer D × ℕ) × Wrapper D × UserHeap D)
  unfolding pack_into drop_message
  serialize junk v be w h =
      if w.meta.data_type == type_user_normal
      then elim w.held [
        | message a ↦ elim (h.at a) [
          | none ↦ none
          | some r ↦ elim (pack_into junk v r.object) [
            | none ↦ none
            | some bytes ↦
                let size = v.pack_size r.object in
                let sized = record w { meta = record w.meta { size = u32 size } } in
                elim (drop_message sized h) [
                  | none ↦ none
                  | some (w', h') ↦
                      some ((true, packed bytes, size), record w' { meta = ordered be w'.meta }, h')
                ]
          ]
        ]
        | _ ↦ none
      ]
      else elim w.held [
        | stream b ↦ some ((false, b, w.meta.size), record w { meta = ordered be w.meta }, h)
        | message a ↦ elim (h.at a) [
          | none ↦ none
          | some r ↦
              some
                ((false, in_memory r.object, w.meta.size), record w { meta = ordered be w.meta }, h)
        ]
        | nothing ↦ none
      ]

  -- `deserialize`: the address of the message.
  unfoldable pub deserialize : Vtab D → Wrapper D → UserHeap D → Option (ℕ × Wrapper D × UserHeap D)
  unfolding alloc
  deserialize v w h =
      if w.meta.data_type == type_stream
      then elim v.unpack [
        | none ↦ elim w.held [
          | stream (in_memory d) ↦
              let (a, h') = alloc d h in
              some (
                a,
                record { meta = record w.meta { data_type = type_user_little }; held = nothing },
                h',
              )
          | _ ↦ none
        ]
        | some unpack ↦ elim w.held [
          | stream (packed bytes) ↦ elim (unpack (take w.meta.size bytes)) [
            | none ↦ none
            | some d ↦
                let (a, h') = alloc d h in
                some (
                  a,
                  record { meta = record w.meta { data_type = type_user_normal }; held = nothing },
                  h',
                )
          ]
          | _ ↦ none
        ]
      ]
      else elim w.held [ message a ↦ some (a, record w { held = nothing }, h) | _ ↦ none ]
