-- ===== src/Queues/Order.antt =====
-- queues.py: what the consumer sees of what was pushed, whatever the interleaving.
use mathlib.Core.List.{append_assoc}
use native.Mathlib.Numerals.{add-one}
use radical_orbit.Prelude.{
  ℕ, suc, ◌+◌, ◌≤◌, ◌<◌, ◌≡◌, refl, ap, subst, inl, inr, Bool, true, false, List, [], ◌∷◌, ◌++◌,
  arith, nat_beq, nat_beq_iff, Bool-cases, length, length-append, nat_eq, string_eq, option_eq,
  pair_eq,
}
use radical_orbit.Prelude.Int.{int_eq}
use radical_orbit.Queues.{
  BoundedDropOldestQueue, Feed, Phase, waiting, draining, Turn, pushes, resumes, fresh,
  append_bounded, push, drain, turn, turns, tail,
}

module _ {ℓ} {A : Type ℓ} where
  -- `Drops n xs ys`: ys is xs with n entries left out, the order kept.
  pub data Drops : ℕ → List A → List A → Type ℓ where
    done : Drops 0 [] []
    keeps : {n : ℕ} {x : A} {xs ys : List A} → Drops n xs ys → Drops n (x ∷ xs) (x ∷ ys)
    skips : {n : ℕ} {x : A} {xs ys : List A} → Drops n xs ys → Drops (suc n) (x ∷ xs) ys

  Drops-snoc :
      {n : ℕ} {xs ys : List A} (x : A) → Drops n xs ys → Drops n (xs ++ x ∷ []) (ys ++ x ∷ [])
  Drops-snoc x done = keeps done
  Drops-snoc x (keeps d) = keeps (Drops-snoc x d)
  Drops-snoc x (skips d) = skips (Drops-snoc x d)

  -- Leaving out the entry that stands after the prefix `ys`.
  Drops-skip :
      (ys : List A) (y : A) (rest : List A) {n : ℕ} {xs zs : List A}
      → Drops n xs zs
      → zs ≡ ys ++ y ∷ rest
      → Drops (suc n) xs (ys ++ rest)
  Drops-skip [] y rest done e = cc
  Drops-skip (z ∷ ys) y rest done e = cc
  Drops-skip [] y rest (keeps {n = m} {x = x} {xs = us} {ys = vs} d) e =
      subst (λ u. Drops (suc m) (x ∷ us) u) (cc) (skips {x = x} d)
  Drops-skip (z ∷ ys) y rest (keeps {n = m} {x = x} {xs = us} {ys = vs} d) e =
      subst (λ u. Drops (suc m) (x ∷ us) (u ∷ (ys ++ rest))) (cc)
        (keeps (Drops-skip ys y rest d (cc)))
  Drops-skip [] y rest (skips d) e = skips (Drops-skip [] y rest d e)
  Drops-skip (z ∷ ys) y rest (skips d) e = skips (Drops-skip (z ∷ ys) y rest d e)

  snoc_front : (xs : List A) (x : A) → (y : A) × (xs ++ x ∷ [] ≡ y ∷ tail (xs ++ x ∷ []))
  snoc_front [] x = (x, refl)
  snoc_front (y ∷ ys) x = (y, refl)

  -- A consumer that waits while items are buffered has its wake-up set.
  abbrev pub IsAwake : Phase → Bool → List A → Type ℓ
  IsAwake draining w xs = Unit
  IsAwake waiting true xs = Unit
  IsAwake waiting false xs = xs ≡ []

  IsAwake-nil : (p : Phase) (w : Bool) (xs : List A) → xs ≡ [] → IsAwake p w xs
  IsAwake-nil draining w xs e = tt
  IsAwake-nil waiting true xs e = tt
  IsAwake-nil waiting false xs e = e

  IsAwake-wake : (p : Phase) (xs : List A) → IsAwake p true xs
  IsAwake-wake draining xs = tt
  IsAwake-wake waiting xs = tt

  pub record IsConsistent (f : Feed A) : Type ℓ where
    pub bounded : length f.queue.buf ≤ f.queue.maxlen
    pub ordered : Drops f.queue.dropped f.pushed (f.yielded ++ f.queue.buf)
    pub awake : IsAwake f.phase f.queue.wake f.queue.buf

  fresh-IsConsistent : (n : ℕ) → IsConsistent (fresh n)
  unfolding fresh
  fresh-IsConsistent n = record { bounded = omega arith; ordered = done; awake = refl }

  append_bounded-le :
      (n : ℕ) (xs : List A) (x : A) → length xs ≤ n → length (append_bounded n xs x) ≤ n
  unfolding append_bounded
  append_bounded-le n [] x h = ground arith
  append_bounded-le n (y ∷ ys) x h = ground (arith, length-append ys (x ∷ []))

  -- A push behind what was yielded already: the new item is last, and a full deque loses one.
  push-ordered :
      (f : Feed A) (x : A)
      → IsConsistent f
      → Drops (push x f.queue).dropped (f.pushed ++ x ∷ []) (f.yielded ++ (push x f.queue).buf)
  unfolding push
  push-ordered f x v = elim (Bool-cases (nat_beq (length f.queue.buf) f.queue.maxlen)) [
    | inl full ↦
        rw (full, add-one)
          (Drops-skip f.yielded (snoc_front f.queue.buf x).0 (tail (f.queue.buf ++ x ∷ [])) longer
            (ap (◌++◌ f.yielded) (snoc_front f.queue.buf x).1))
    | inr room ↦ rw room longer
  ]
    where
      longer : Drops f.queue.dropped (f.pushed ++ x ∷ []) (f.yielded ++ (f.queue.buf ++ x ∷ []))
      longer = rw (← append_assoc) (Drops-snoc x v.ordered)

  drain-IsConsistent :
      (p : Phase) (w : Bool) (xs : List A) (f : Feed A)
      → f.phase ≡ p
      → f.queue.wake ≡ w
      → f.queue.buf ≡ xs
      → IsConsistent f
      → IsConsistent (drain p w xs f)
  unfolding drain
  drain-IsConsistent waiting false xs f hp hw hb v = v
  drain-IsConsistent waiting true xs f hp hw hb v = record {
    bounded = v.bounded;
    ordered = v.ordered;
    awake = tt;
  }
  drain-IsConsistent draining w [] f hp hw hb v = record {
    bounded = v.bounded;
    ordered = v.ordered;
    awake = IsAwake-nil waiting f.queue.wake f.queue.buf hb;
  }
  drain-IsConsistent draining w (x ∷ xs) f hp hw hb v = record {
    bounded = omega (arith, v.bounded, ap length hb);
    ordered = rw append_assoc (rw hb at v.ordered);
    awake = rw hp tt;
  }

  turn-IsConsistent : (t : Turn A) (f : Feed A) → IsConsistent f → IsConsistent (turn t f)
  unfolding turn
  turn-IsConsistent (pushes x) f v = record {
    bounded = unfold push in append_bounded-le f.queue.maxlen f.queue.buf x v.bounded;
    ordered = push-ordered f x v;
    awake = IsAwake-wake f.phase (push x f.queue).buf;
  }
  turn-IsConsistent resumes f v =
      drain-IsConsistent f.phase f.queue.wake f.queue.buf f refl refl refl v

  turns_keep : (ts : List (Turn A)) (f : Feed A) → IsConsistent f → IsConsistent (turns ts f)
  unfolding turns
  turns_keep [] f v = v
  turns_keep (t ∷ ts) f v = turns_keep ts (turn t f) (turn-IsConsistent t f v)

  -- From an empty queue of any bound, after any interleaving of pushes and consumer turns: the
  -- buffer holds at most `maxlen` items; what was yielded followed by what is buffered is what was
  -- pushed, in order, with exactly `dropped` items left out; and the consumer never sleeps
  -- without a pending wake-up while items are buffered.
  pub turns-IsConsistent : (n : ℕ) (ts : List (Turn A)) → IsConsistent (turns ts (fresh n))
  turns-IsConsistent n ts = turns_keep ts (fresh n) (fresh-IsConsistent n)

  -- When the queue has room for the backlog and the next item, a push drops nothing; when it is
  -- full, the oldest buffered item goes and exactly one more is counted as dropped.
  pub push_lem :
      (x y : A) (q : BoundedDropOldestQueue A) (rest : List A)
      → (length q.buf < q.maxlen
          → ((push x q).buf ≡ q.buf ++ x ∷ []) × ((push x q).dropped ≡ q.dropped))
        × (q.buf ≡ y ∷ rest
            → length q.buf ≡ q.maxlen
            → ((push x q).buf ≡ rest ++ x ∷ []) × ((push x q).dropped ≡ q.dropped + 1))
  unfolding push
  push_lem x y q rest = (λ h. ground arith, λ e h. rw ((nat_beq_iff _ _).1 h, e) (refl, refl))
