-- ===== src/Stream/RoundTrip.antt =====
-- Packages of src/network.cpp from the sender's buffers to the receiver, through the reads of
-- include/mola/event_handler.hpp.
use elastic_actor.Prelude.{
  ℕ, zero, suc, ◌/◌, ◌^◌, ◌<◌, ◌≡◌, ◌∙◌, refl, ap, sym, false, List, [], ◌∷◌, ◌++◌, some, length,
  append_assoc, append-nil, arith,
}
use elastic_actor.Stream.{Handler, ReadResult, waits, collect, handle_all, read_loop}
use elastic_actor.Stream.Reading.{
  feed, feed-after, collect-feed, IsOpen, bytes_of, handle_all-feed, read_to_end,
}
use elastic_actor.Stream.Packages.{
  Proto, get_len, get_buf, Receiver, consume, get_buffer, builtin_receiver, word_bytes, word_of,
  simple_body_size, simple_make_buffer, default_proto,
}

-- What a protocol promises: the receiver takes the header that the sender makes for a body apart.
pub record IsProto (p : Proto) : Type 0 where
  pub positive : 0 < p.header_size
  pub header : List ℕ → List ℕ
  pub framed : (body : List ℕ) → p.make_buffer body ≡ header body ++ body
  pub sized : (body : List ℕ) → length (header body) ≡ p.header_size
  pub read_back :
      (body : List ℕ) → length body < 2 ^ 64 → p.body_size (header body) ≡ some (length body)

module _ (p : Proto) (ok : IsProto p) where
  -- Between two packages.
  abbrev pub between : List (List ℕ) → Handler Receiver
  between ds = record {
    reader = record { state = get_len; len = p.header_size; disabled = false; delivered = ds };
    size = p.header_size;
    collected = [];
  }

  abbrev in_body : ℕ → List (List ℕ) → Handler Receiver
  in_body n ds = record {
    reader = record { state = get_buf; len = n; disabled = false; delivered = ds };
    size = n;
    collected = [];
  }

  collect_header :
      (body : List ℕ) (ds : List (List ℕ))
      → 0 < length body
      → length body < 2 ^ 64
      → collect (builtin_receiver p) (ok.header body) (between ds) ≡ some (in_body (length body) ds)
  unfolding collect read_loop consume get_buffer
  collect_header body ds some_there fits = ground (arith, ok.sized body, ok.read_back body fits)

  collect_body :
      (body : List ℕ) (ds : List (List ℕ))
      → collect (builtin_receiver p) body (in_body (length body) ds)
        ≡ some (between (ds ++ (body ∷ [])))
  unfolding collect read_loop consume get_buffer
  collect_body body ds = ground (arith, ok.positive)

  abbrev pub wire : List (List ℕ) → List ℕ
  wire [] = []
  wire (body ∷ bodies) = p.make_buffer body ++ wire bodies

  -- Bodies that the protocol can carry and that are not empty.
  abbrev pub AreBodies : List (List ℕ) → Type 0
  AreBodies [] = Unit
  AreBodies (body ∷ bodies) = (0 < length body) × (length body < 2 ^ 64) × AreBodies bodies

  feed-package :
      (body rest : List ℕ) (ds : List (List ℕ))
      → 0 < length body
      → length body < 2 ^ 64
      → feed (builtin_receiver p) (p.make_buffer body ++ rest) (between ds)
        ≡ feed (builtin_receiver p) rest (between (ds ++ (body ∷ [])))
  feed-package body rest ds some_there fits =
      let header = ok.header body in
      let h1 : feed (builtin_receiver p) header (between ds) ≡ some (in_body (length body) ds) =
        sym (
          collect-feed (builtin_receiver p) header (between ds)
            (omega (arith, ok.sized body, ok.positive)) (omega (arith, ok.sized body)))
        ∙ collect_header body ds some_there fits in
      let h2 : feed (builtin_receiver p) body (in_body (length body) ds)
          ≡ some (between (ds ++ (body ∷ []))) =
        sym (
          collect-feed (builtin_receiver p) body (in_body (length body) ds) some_there
            (omega arith))
        ∙ collect_body body ds in
      ap (λ l. feed (builtin_receiver p) (l ++ rest) (between ds)) (ok.framed body)
      ∙ ap (λ l. feed (builtin_receiver p) l (between ds)) (append_assoc header body rest)
      ∙ feed-after (builtin_receiver p) header (body ++ rest) (between ds)
          (in_body (length body) ds) h1
      ∙ feed-after (builtin_receiver p) body rest (in_body (length body) ds)
          (between (ds ++ (body ∷ []))) h2

  feed-wire :
      (bodies : List (List ℕ)) (ds : List (List ℕ))
      → AreBodies bodies
      → feed (builtin_receiver p) (wire bodies) (between ds) ≡ some (between (ds ++ bodies))
  unfolding feed
  feed-wire [] ds h = ap (λ l. some (between l)) (sym (append-nil ds))
  feed-wire (body ∷ bodies) ds (some_there, fits, h) =
      feed-package body (wire bodies) ds some_there fits
      ∙ feed-wire bodies (ds ++ (body ∷ [])) h
      ∙ ap (λ l. some (between l)) (append_assoc ds (body ∷ []) bodies)

  -- Packages that are not empty arrive whole and in order, however the stream that holds them one
  -- behind the other is cut into reads, and the receiver is between two packages.
  pub packages-arrive :
      (bodies ds : List (List ℕ)) (rs : List ReadResult)
      → AreBodies bodies
      → IsOpen (builtin_receiver p) rs (between ds)
      → bytes_of (builtin_receiver p) rs ≡ wire bodies
      → handle_all (builtin_receiver p) rs (between ds) ≡ waits (between (ds ++ bodies))
  packages-arrive bodies ds rs h open_stream whole =
      handle_all-feed (builtin_receiver p) rs (between ds) open_stream
      ∙ ap (λ l. read_to_end (builtin_receiver p) (feed (builtin_receiver p) l (between ds))) whole
      ∙ ap (read_to_end (builtin_receiver p)) (feed-wire bodies ds h)

length-word_bytes : (n x : ℕ) → length (word_bytes n x) ≡ n
length-word_bytes zero x = refl
length-word_bytes (suc n) x = ap suc (length-word_bytes n (x / 256))

word_of-bytes8 : (x : ℕ) → x < 2 ^ 64 → word_of (word_bytes 8 x) ≡ x
word_of-bytes8 x h = omega arith

-- The default protocol keeps the promise.
pub default_proto-IsProto : IsProto default_proto
unfolding simple_body_size simple_make_buffer
default_proto-IsProto = record {
  positive = omega arith;
  header = λ body. word_bytes 8 (length body);
  framed = λ body. refl;
  sized = λ body. refl;
  read_back = λ body h. ap some (word_of-bytes8 (length body) h);
}
