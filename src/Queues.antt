-- ===== src/Queues.antt =====
-- src/radical/orbit/queues.py: the bounded queue that drops its oldest item on overflow.
-- A producer pushes at any time; one consumer runs `drain` as a coroutine, whose suspension
-- points are the wait on `wake` and each `yield`.
pub mod Order
mod Samples
use radical_orbit.Prelude.{
  ℕ, ◌+◌, ◌-◌, ◌/◌, max, ap, Bool, true, false, not, List, [], ◌∷◌, ◌++◌, nat_beq, if◌then◌else◌,
  length, keep, In, nat_eq, string_eq, option_eq, pair_eq,
}
use radical_orbit.Prelude.Count.{bit}
use radical_orbit.Prelude.Dict.{Dict}
use radical_orbit.Prelude.Int.{int_eq}

-- `maxlen` is the deque's bound, which never changes; `wake` is the flag of the asyncio event.
pub record BoundedDropOldestQueue {ℓ} (A : Type ℓ) : Type ℓ where
  pub maxlen : ℕ
  pub buf : List A
  pub dropped : ℕ
  pub wake : Bool

-- Where the consumer's coroutine stands: at `await self.wake.wait()`, or in the inner loop.
pub data Phase : Type 0 where
  waiting draining : Phase

-- A queue with its consumer, and what went in and came out so far.
pub record Feed {ℓ} (A : Type ℓ) : Type ℓ where
  pub queue : BoundedDropOldestQueue A
  pub phase : Phase
  pub pushed : List A
  pub yielded : List A

-- One turn of the event loop: the producer pushes, or the consumer is resumed.
pub data Turn {ℓ} (A : Type ℓ) : Type ℓ where
  pushes : A → Turn A
  resumes : Turn A

module _ {ℓ} {A : Type ℓ} where
  unfoldable pub new_queue : ℕ → BoundedDropOldestQueue A
  new_queue n = record { maxlen = n; buf = []; dropped = 0; wake = false }

  abbrev pub tail : List A → List A
  tail [] = []
  tail (x ∷ xs) = xs

  -- `deque.append`: a full deque loses its first item, and one of length 0 keeps nothing.
  unfoldable pub append_bounded : ℕ → List A → A → List A
  append_bounded n xs x = if nat_beq (length xs) n then tail (xs ++ x ∷ []) else xs ++ x ∷ []

  unfoldable pub push : A → BoundedDropOldestQueue A → BoundedDropOldestQueue A
  unfolding append_bounded
  push x q = record q {
    dropped = if nat_beq (length q.buf) q.maxlen then q.dropped + 1 else q.dropped;
    buf = append_bounded q.maxlen q.buf x;
    wake = true;
  }

  unfoldable pub fresh : ℕ → Feed A
  unfolding new_queue
  fresh n = record { queue = new_queue n; phase = waiting; pushed = []; yielded = [] }

  -- One resumption of `drain`, up to its next suspension.
  unfoldable pub drain : Phase → Bool → List A → Feed A → Feed A
  drain waiting false xs f = f
  drain waiting true xs f = record f { queue = record (f.queue) { wake = false }; phase = draining }
  drain draining w [] f = record f { phase = waiting }
  drain draining w (x ∷ xs) f = record f {
    queue = record (f.queue) { buf = xs };
    yielded = f.yielded ++ x ∷ [];
  }

  unfoldable pub turn : Turn A → Feed A → Feed A
  unfolding push drain
  turn (pushes x) f = record f { queue = push x f.queue; pushed = f.pushed ++ x ∷ [] }
  turn resumes f = drain f.phase f.queue.wake f.queue.buf f

  unfoldable pub turns : List (Turn A) → Feed A → Feed A
  turns [] f = f
  turns (t ∷ ts) f = turns ts (turn t f)
