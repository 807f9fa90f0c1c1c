-- ===== src/Actor/Waiting.antt =====
-- The messages that wait in the mailbox of an actor, include/mola/actor.hpp.
use elastic_actor.Prelude.{
  ℕ, ◌+◌, ◌≡◌, ◌≢◌, ◌∙◌, refl, ap, sym, inl, inr, true, [], ◌∷◌, length, arith, Bool-cases, select,
  length-append,
}
use elastic_actor.Mailbox.{empty, blocked, closed, Stack, dummy, Mailbox, is_blocked, links, chain}
use elastic_actor.Mailbox.Drain.{at_level, get_or-le-total}
use elastic_actor.Mailbox.Serve.{IsValid, queue, Took}
use elastic_actor.Actor.{LinkNode, LinkNode-Item, answers}

-- An actor's mailbox between two operations of the actor: valid, open, and empty if it is blocked.
pub record Open (m : Mailbox LinkNode) : Type 0 where
  pub valid : IsValid 2 m
  pub open_box : m.stack ≢ dummy closed
  pub asleep : is_blocked m ≡ true → m.num_inque ≡ 0

-- The messages that wait.
abbrev pub waiting : Mailbox LinkNode → ℕ
waiting m = length (queue 0 m) + length (queue 1 m)

blocked-stack : (m : Mailbox LinkNode) → is_blocked m ≡ true → m.stack ≡ dummy blocked
unfolding is_blocked
blocked-stack m h = go m.stack h
  where
    go : (st : Stack LinkNode) → is_blocked (record m { stack = st }) ≡ true → st ≡ dummy blocked
    go (dummy empty) h = ground arith
    go (dummy blocked) h = refl
    go (dummy closed) h = ground arith
    go (chain x xs) h = ground arith

pub waiting-none :
    (m : Mailbox LinkNode) → IsValid 2 m → m.num_inque ≡ 0 → links m.stack ≡ [] → waiting m ≡ 0
waiting-none m v none_private none_shared =
    rw
      (
        none_shared,
        get_or-le-total m.headers 0 (omega (arith, v.counted)),
        get_or-le-total m.headers 1 (omega (arith, v.counted)),
      )
      refl

pub waiting-asleep : (m : Mailbox LinkNode) → Open m → is_blocked m ≡ true → waiting m ≡ 0
waiting-asleep m o b = waiting-none m o.valid (o.asleep b) (ap links (blocked-stack m b))

pub one_level :
    (x : LinkNode)
    → length (select (at_level 0) (x ∷ [])) + length (select (at_level 1) (x ∷ [])) ≡ 1
unfolding LinkNode-Item
one_level x = elim (Bool-cases (answers x.value)) [ inl e ↦ rw e refl | inr e ↦ rw e refl ]

pub waiting-Took :
    (m : Mailbox LinkNode) (x : LinkNode) (m' : Mailbox LinkNode)
    → Took 2 m x m'
    → waiting m ≡ waiting m' + 1
waiting-Took m x m' t = omega (
  arith,
  one_level x,
  ap length (t.oldest 0),
  ap length (t.oldest 1),
  length-append (select (at_level 0) (x ∷ [])) (queue 0 m'),
  length-append (select (at_level 1) (x ∷ [])) (queue 1 m'),
)

pub Took-Open :
    (m : Mailbox LinkNode) (x : LinkNode) (m' : Mailbox LinkNode) → Open m → Took 2 m x m' → Open m'
Took-Open m x m' o t = record {
  valid = t.valid;
  open_box = λ shut. elim t.shared [ inl e ↦ o.open_box (sym e ∙ shut) | inr e ↦ ground arith ];
  asleep = λ b. elim (Bool-cases (is_blocked m)) [
    | inl was ↦ absurd (omega (arith, waiting-asleep m o was, waiting-Took m x m' t))
    | inr awake ↦ ground (arith, t.awake awake, b)
  ];
}

pub blocked-Open :
    (m : Mailbox LinkNode) → Open m → m.num_inque ≡ 0 → Open (record m { stack = dummy blocked })
blocked-Open m o idle = record {
  valid = record {
    levels = o.valid.levels;
    counted = o.valid.counted;
    room = omega (arith, o.valid.room);
    served = o.valid.served;
    bounded = o.valid.bounded;
    sorted = o.valid.sorted;
    ranked = tt;
  };
  open_box = λ e. ground arith;
  asleep = λ _. idle;
}
