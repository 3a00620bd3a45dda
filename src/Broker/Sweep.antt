-- ===== src/Broker/Sweep.antt =====
-- broker.py: the two loops that fail calls, `_fail_inflight_for` and `_reap_calls`, as one.
pub mod Answers
use radical_orbit.Prelude.{
  ℕ, ◌+◌, ◌-◌, String, ◌≡◌, refl, sym, ap, ◌∙◌, ◌≢◌, inl, inr, Bool, true, false, not, ◌&&◌, Option,
  none, some, List, [], ◌∷◌, ◌++◌, arith, leb, if◌then◌else◌, Bool-cases, is_some, keep, In,
  is_some, ◌==◌, nat_eq, string_eq, option_eq, ==_refl, ==_iff, pair_eq,
}
use radical_orbit.Prelude.Count.{bit}
use radical_orbit.Prelude.Int.{int_eq}
use radical_orbit.Prelude.Dict.{Dict, lookup, remove}
use radical_orbit.Events.Counters.{Distinct}
use radical_orbit.Broker.{Broker, Call, Outcome, Frame, send}
use radical_orbit.Broker.Calls.{
  set_result, settle, settle_call, fail_call, answer_504, pop_call, is_ours, fail_each, reap_each,
}
use radical_orbit.Broker.Quiet.{Told, fail_call-Told}

-- What a loop does with a call.
pub data Verdict : Type 0 where
  stay leave fail : Verdict

abbrev pub stays : Verdict → Bool
stays Verdict.stay = true
stays _ = false

abbrev pub fails : Verdict → Bool
fails Verdict.fail = true
fails _ = false

abbrev pub lost_verdict : String → Call → Verdict
lost_verdict name c =
    if c.dst == name then Verdict.fail else if c.src == name then Verdict.leave else Verdict.stay

abbrev pub reap_verdict : ℕ → Call → Verdict
reap_verdict now c = if leb c.deadline now then Verdict.fail else Verdict.stay

unfoldable pub judged : Verdict → String → Option String → Call → Broker → Broker
judged Verdict.stay why k c b = b
judged Verdict.leave why k c b = pop_call k b
judged Verdict.fail why k c b = fail_call k c why (pop_call k b)

module _ (verdict : Call → Verdict) (why : String) where
  unfoldable pub sweep : Dict (Option String) Call → Broker → Broker
  unfolding judged
  sweep [] b = b
  sweep ((k, c) ∷ d) b = sweep d (judged (verdict c) why k c b)

  -- The frames that the callers of failed calls get, where they are still registered.
  unfoldable pub answers : Dict String ℕ → Dict (Option String) Call → List (ℕ × Frame)
  answers registry [] = []
  answers registry ((k, c) ∷ d) =
      let rest = answers registry d in
      if fails (verdict c) && not (is_ours c)
      then elim (lookup c.src registry) [ none ↦ rest | some ws ↦ (ws, answer_504 k c why) ∷ rest ]
      else rest

  unfoldable pub swept :
      Dict (Option String) Call → Dict (Option String) Call → Dict (Option String) Call
  swept [] t = t
  swept ((k, c) ∷ d) t = swept d (if stays (verdict c) then t else remove k t)

pub fail_each-sweep :
    (name : String) (d : Dict (Option String) Call) (b : Broker)
    → fail_each name d b ≡ sweep (lost_verdict name) "endpoint lost" d b
unfolding fail_each sweep judged
fail_each-sweep name [] b = refl
fail_each-sweep name ((k, c) ∷ d) b = elim (Bool-cases (c.dst == name)) [
  | inl e ↦ rw e (fail_each-sweep name d (fail_call k c "endpoint lost" (pop_call k b)))
  | inr e ↦ rw e (elim (Bool-cases (c.src == name)) [
    | inl f ↦ rw f (fail_each-sweep name d (pop_call k b))
    | inr f ↦ rw f (fail_each-sweep name d b)
  ])
]

pub reap_each-sweep :
    (now : ℕ) (d : Dict (Option String) Call) (b : Broker)
    → reap_each now d b ≡ sweep (reap_verdict now) "call timed out" d b
unfolding reap_each sweep judged
reap_each-sweep now [] b = refl
reap_each-sweep now ((k, c) ∷ d) b = elim (Bool-cases (leb c.deadline now)) [
  | inl e ↦ rw e (reap_each-sweep now d (fail_call k c "call timed out" (pop_call k b)))
  | inr e ↦ rw e (reap_each-sweep now d b)
]

remove-absent :
    (k : Option String) (d : Dict (Option String) Call) → lookup k d ≡ none → remove k d ≡ d
unfolding lookup remove
remove-absent k [] h = refl
remove-absent k ((j, c) ∷ d) h = ground (arith, remove-absent k d)

module _ (verdict : Call → Verdict) (why : String) where
  swept-cons :
      (k : Option String) (c : Call) (d t : Dict (Option String) Call)
      → lookup k d ≡ none
      → swept verdict why d ((k, c) ∷ t) ≡ (k, c) ∷ swept verdict why d t
  unfolding swept lookup remove
  swept-cons k c [] t h = refl
  swept-cons k c ((j, v) ∷ d) t h = elim (Bool-cases (j == k)) [
    | inl e ↦ absurd (clash (rw e at h))
    | inr e ↦ elim (Bool-cases (stays (verdict v))) [
      | inl f ↦ rw f (swept-cons k c d t (rw e at h))
      | inr f ↦ rw (f, swap e) (swept-cons k c d (remove j t) (rw e at h))
    ]
  ]
    where
      clash : some v ≢ none
      clash e = ground arith

      swap : j == k ≡ false → k == j ≡ false
      swap e = ground (arith, ==_iff j k, ==_iff k j)

  pub swept_self :
      (d : Dict (Option String) Call)
      → Distinct d
      → swept verdict why d d ≡ keep (λ e. stays (verdict e.1)) d
  unfolding swept keep remove
  swept_self [] h = refl
  swept_self ((k, c) ∷ d) (fresh, h) = elim (Bool-cases (stays (verdict c))) [
    | inl e ↦ rw e (swept-cons k c d d fresh ∙ ap (λ r. (k, c) ∷ r) (swept_self d h))
    | inr e ↦
        rw (e, ==_refl k) (ap (swept verdict why d) (remove-absent k d fresh) ∙ swept_self d h)
  ]
