-- ===== src/Message/Endian.antt =====
-- `metatobe` of include/mola/c/mola_message.h against the bytes of the header in memory: what a
-- big-endian peer reads there.
use elastic_actor.Prelude.{
  ℕ, ◌+◌, ◌*◌, ◌/◌, ◌%◌, ◌<◌, ◌^◌, ◌≡◌, List, [], ◌∷◌, ◌++◌, Option, none, some, arith, length,
}
use elastic_actor.ActorId.{ActorId}
use elastic_actor.Message.{Metadata, metatobe, metatole}

-- A word as a little-endian host lays it out.
abbrev bytes16 : ℕ → List ℕ
bytes16 x = x % 256 ∷ x / 256 % 256 ∷ []

abbrev bytes32 : ℕ → List ℕ
bytes32 x = x % 256 ∷ x / 256 % 256 ∷ x / 65536 % 256 ∷ x / 16777216 % 256 ∷ []

abbrev id_bytes : ActorId → List ℕ
id_bytes id = bytes32 id.node_id ++ bytes16 id.module_id ++ bytes16 id.intf_id ++ bytes32 id.inst_id

-- The fields in the order of `mola_message_metadata_t` and `ActorID`.
unfoldable pub image : Metadata → List ℕ
image m =
    bytes16 m.type
    ++ bytes16 m.data_type
    ++ bytes32 m.size
    ++ id_bytes m.sender
    ++ id_bytes m.target
    ++ bytes32 m.reqid

abbrev pub Reader : Type 0 → Type 0
Reader A = List ℕ → Option (A × List ℕ)

infixl 5 ◌>>=◌
abbrev ◌>>=◌ : {A B : Type 0} → Reader A → (A → Reader B) → Reader B
◌>>=◌ m f l = elim (m l) [ none ↦ none | some (a, rest) ↦ f a rest ]

abbrev done : {A : Type 0} → A → Reader A
done a l = some (a, l)

-- A word as a big-endian host reads it.
abbrev be16 : Reader ℕ
be16 (a ∷ b ∷ rest) = some (a * 256 + b, rest)
be16 _ = none

abbrev be32 : Reader ℕ
be32 (a ∷ b ∷ c ∷ d ∷ rest) = some (((a * 256 + b) * 256 + c) * 256 + d, rest)
be32 _ = none

abbrev be_id : Reader ActorId
be_id = do
  n ← be32
  m ← be16
  f ← be16
  i ← be32
  done (record { node_id = n; module_id = m; intf_id = f; inst_id = i })

pub read_be : Reader Metadata
read_be = do
  type ← be16
  data_type ← be16
  size ← be32
  sender ← be_id
  target ← be_id
  reqid ← be32
  done (record {
    type = type;
    data_type = data_type;
    size = size;
    sender = sender;
    target = target;
    reqid = reqid;
  })

abbrev pub IsId : ActorId → Type 0
IsId id =
    (id.node_id < 2 ^ 32) × (id.module_id < 2 ^ 16) × (id.intf_id < 2 ^ 16) × (id.inst_id < 2 ^ 32)

-- Every field fits its width.
pub record Fits (m : Metadata) : Type 0 where
  pub type : m.type < 2 ^ 16
  pub data_type : m.data_type < 2 ^ 16
  pub size : m.size < 2 ^ 32
  pub sender : IsId m.sender
  pub target : IsId m.target
  pub reqid : m.reqid < 2 ^ 32

-- A big-endian peer reads back the header that `metatobe` was given.
pub read_be-metatobe : (m : Metadata) → Fits m → read_be (image (metatobe m)) ≡ some (m, [])
unfolding read_be image metatobe
read_be-metatobe m f = ground arith

-- A word, and the header, as a little-endian host reads them.
abbrev le16 : Reader ℕ
le16 (a ∷ b ∷ rest) = some (b * 256 + a, rest)
le16 _ = none

abbrev le32 : Reader ℕ
le32 (a ∷ b ∷ c ∷ d ∷ rest) = some (((d * 256 + c) * 256 + b) * 256 + a, rest)
le32 _ = none

abbrev le_id : Reader ActorId
le_id = do
  n ← le32
  m ← le16
  f ← le16
  i ← le32
  done (record { node_id = n; module_id = m; intf_id = f; inst_id = i })

unfoldable pub read_le : Reader Metadata
read_le = do
  type ← le16
  data_type ← le16
  size ← le32
  sender ← le_id
  target ← le_id
  reqid ← le32
  done (record {
    type = type;
    data_type = data_type;
    size = size;
    sender = sender;
    target = target;
    reqid = reqid;
  })

pub read_le-image : (m : Metadata) → Fits m → read_le (image (metatole m)) ≡ some (m, [])
unfolding read_le image metatole
read_le-image m f = ground arith

pub length-image : (m : Metadata) → length (image (metatole m)) ≡ 36
unfolding image metatole
length-image m = omega arith
