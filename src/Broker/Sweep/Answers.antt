-- ===== src/Broker/Sweep/Answers.antt =====
-- broker.py: what a loop that fails calls leaves, sends and settles.
use radical_orbit.Prelude.{
  ℕ, String, ◌≡◌, refl, sym, ap, ◌∙◌, ◌≢◌, inl, inr, true, false, not, ◌&&◌, Option, none, some,
  List, [], ◌∷◌, ◌++◌, arith, if◌then◌else◌, Bool-cases, is_some, append_nil, append_assoc, In,
  is_some, nat_eq, string_eq, option_eq, pair_eq,
}
use radical_orbit.Prelude.Int.{int_eq}
use radical_orbit.Prelude.Dict.{Dict, lookup, remove, lookup-insert, lookup-insert_self}
use radical_orbit.Broker.{Broker, Call, Outcome, Frame, send}
use radical_orbit.Broker.Calls.{
  set_result, settle, settle_call, fail_call, answer_504, pop_call, is_ours,
}
use radical_orbit.Broker.Quiet.{Told, fail_call-Told}
use radical_orbit.Broker.Sweep.{Verdict, stays, fails, judged, sweep, answers, swept}

Told-calls : {b c : Broker} → Told b c → c.calls ≡ b.calls
Told-calls (Told.told r s d p) = refl

Told-registry : {b c : Broker} → Told b c → c.registry ≡ b.registry
Told-registry (Told.told r s d p) = refl

settle-sent : (f : Option ℕ) (o : Outcome) (b : Broker) → (settle f o b).sent ≡ b.sent
unfolding settle set_result
settle-sent none o b = refl
settle-sent (some f) o b = elim (Bool-cases (is_some (lookup f b.results))) [
  | inl e ↦ rw e refl
  | inr e ↦ rw e refl
]

-- The frame that the failure of one call sends.
answer_504s : Option ℕ → Option String → Call → String → List (ℕ × Frame)
answer_504s none k c why = []
answer_504s (some ws) k c why = (ws, answer_504 k c why) ∷ []

send-sent :
    (o : Option ℕ) (k : Option String) (c : Call) (why : String) (b : Broker)
    → (send o (answer_504 k c why) b).sent ≡ b.sent ++ answer_504s o k c why
unfolding send answer_504s
send-sent none k c why b = sym (append_nil b.sent)
send-sent (some ws) k c why b = refl

module _ (verdict : Call → Verdict) (why : String) where
  judged-calls :
      (v : Verdict) (k : Option String) (c : Call) (b : Broker)
      → (judged v why k c b).calls ≡ (if stays v then b.calls else remove k b.calls)
  unfolding judged pop_call
  judged-calls Verdict.stay k c b = refl
  judged-calls Verdict.leave k c b = refl
  judged-calls Verdict.fail k c b = Told-calls (fail_call-Told k c why (pop_call k b))

  judged-registry :
      (v : Verdict) (k : Option String) (c : Call) (b : Broker)
      → (judged v why k c b).registry ≡ b.registry
  unfolding judged pop_call
  judged-registry Verdict.stay k c b = refl
  judged-registry Verdict.leave k c b = refl
  judged-registry Verdict.fail k c b = Told-registry (fail_call-Told k c why (pop_call k b))

  abbrev answer_for : Verdict → Option String → Call → Dict String ℕ → List (ℕ × Frame)
  answer_for v k c registry =
      if fails v && not (is_ours c) then answer_504s (lookup c.src registry) k c why else []

  judged-sent :
      (v : Verdict) (k : Option String) (c : Call) (b : Broker)
      → (judged v why k c b).sent ≡ b.sent ++ answer_for v k c b.registry
  unfolding judged pop_call fail_call settle_call
  judged-sent Verdict.stay k c b = sym (append_nil b.sent)
  judged-sent Verdict.leave k c b = sym (append_nil b.sent)
  judged-sent Verdict.fail k c b = elim (Bool-cases (is_ours c)) [
    | inl e ↦
        rw e (settle-sent c.future (Outcome.failed why) (pop_call k b) ∙ sym (append_nil b.sent))
    | inr e ↦ rw e (send-sent (lookup c.src b.registry) k c why (pop_call k b))
  ]

  pub sweep-calls :
      (d : Dict (Option String) Call) (b : Broker)
      → (sweep verdict why d b).calls ≡ swept verdict why d b.calls
  unfolding sweep swept
  sweep-calls [] b = refl
  sweep-calls ((k, c) ∷ d) b =
      sweep-calls d (judged (verdict c) why k c b)
      ∙ ap (swept verdict why d) (judged-calls (verdict c) k c b)

  answers-cons :
      (o : Option ℕ) (k : Option String) (c : Call) (rest : List (ℕ × Frame))
      → answer_504s o k c why ++ rest
        ≡ elim o [ none ↦ rest | some ws ↦ (ws, answer_504 k c why) ∷ rest ]
  unfolding answer_504s
  answers-cons none k c rest = refl
  answers-cons (some ws) k c rest = refl

  pub sweep-sent :
      (d : Dict (Option String) Call) (b : Broker)
      → (sweep verdict why d b).sent ≡ b.sent ++ answers verdict why b.registry d
  unfolding sweep answers
  sweep-sent [] b = sym (append_nil b.sent)
  sweep-sent ((k, c) ∷ d) b =
      sweep-sent d (judged (verdict c) why k c b)
      ∙ ap (λ r. (judged (verdict c) why k c b).sent ++ answers verdict why r d)
          (judged-registry (verdict c) k c b)
      ∙ ap (λ s. s ++ answers verdict why b.registry d) (judged-sent (verdict c) k c b)
      ∙ append_assoc b.sent (answer_for (verdict c) k c b.registry)
          (answers verdict why b.registry d)
      ∙ ap (λ s. b.sent ++ s)
          (elim (Bool-cases (fails (verdict c) && not (is_ours c))) [
            | inl e ↦
                rw e (answers-cons (lookup c.src b.registry) k c (answers verdict why b.registry d))
            | inr e ↦ rw e refl
          ])

  set-result_held :
      (f : ℕ) (o : Outcome) (b : Broker) → is_some (lookup f (set_result f o b).results) ≡ true
  unfolding set_result
  set-result_held f o b = elim (Bool-cases (is_some (lookup f b.results))) [
    | inl e ↦ rw (set_result, e) e
    | inr e ↦ rw (set_result, e) (ap is_some (lookup-insert_self f o b.results))
  ]

  set_result-keeps :
      (f g : ℕ) (o : Outcome) (b : Broker)
      → is_some (lookup f b.results) ≡ true
      → is_some (lookup f (set_result g o b).results) ≡ true
  unfolding set_result
  set_result-keeps f g o b h = elim (Bool-cases (is_some (lookup g b.results))) [
    | inl e ↦ rw (set_result, e) h
    | inr e ↦ rw (set_result, e) (ground (arith, lookup-insert g f o b.results, h))
  ]

  settle-keeps :
      (f : ℕ) (x : Option ℕ) (o : Outcome) (b : Broker)
      → is_some (lookup f b.results) ≡ true
      → is_some (lookup f (settle x o b).results) ≡ true
  unfolding settle
  settle-keeps f none o b h = h
  settle-keeps f (some g) o b h = set_result-keeps f g o b h

  send-keeps :
      (f : ℕ) (o : Option ℕ) (frame : Frame) (b : Broker)
      → is_some (lookup f b.results) ≡ true
      → is_some (lookup f (send o frame b).results) ≡ true
  unfolding send
  send-keeps f none frame b h = h
  send-keeps f (some ws) frame b h = h

  judged-keeps :
      (f : ℕ) (v : Verdict) (k : Option String) (c : Call) (b : Broker)
      → is_some (lookup f b.results) ≡ true
      → is_some (lookup f (judged v why k c b).results) ≡ true
  unfolding judged pop_call fail_call settle_call
  judged-keeps f Verdict.stay k c b h = h
  judged-keeps f Verdict.leave k c b h = h
  judged-keeps f Verdict.fail k c b h = elim (Bool-cases (is_ours c)) [
    | inl e ↦
        rw (judged, fail_call, e) (settle-keeps f c.future (Outcome.failed why) (pop_call k b) h)
    | inr e ↦
        rw (judged, fail_call, e)
          (send-keeps f (lookup c.src b.registry) (answer_504 k c why) (pop_call k b) h)
  ]

  sweep-keeps :
      (f : ℕ) (d : Dict (Option String) Call) (b : Broker)
      → is_some (lookup f b.results) ≡ true
      → is_some (lookup f (sweep verdict why d b).results) ≡ true
  unfolding sweep
  sweep-keeps f [] b h = h
  sweep-keeps f ((k, c) ∷ d) b h =
      sweep-keeps f d (judged (verdict c) why k c b) (judged-keeps f (verdict c) k c b h)

  judged-settles :
      (f : ℕ) (v : Verdict) (k : Option String) (c : Call) (b : Broker)
      → fails v ≡ true
      → c.future ≡ some f
      → is_some (lookup f (judged v why k c b).results) ≡ true
  unfolding judged fail_call settle_call settle pop_call
  judged-settles f Verdict.stay k c b h e = absurd (clash h)
    where
      clash : false ≢ true
      clash h = ground arith
  judged-settles f Verdict.leave k c b h e = absurd (clash h)
    where
      clash : false ≢ true
      clash h = ground arith
  judged-settles f Verdict.fail k c b h e =
      rw (judged, fail_call, settle_call, e) (set-result_held f (Outcome.failed why) (pop_call k b))

  pub sweep-settles :
      (f : ℕ) (k : Option String) (c : Call) (d : Dict (Option String) Call) (b : Broker)
      → In (k, c) d
      → fails (verdict c) ≡ true
      → c.future ≡ some f
      → is_some (lookup f (sweep verdict why d b).results) ≡ true
  unfolding sweep
  sweep-settles f k c [] b i h e = absurd i
  sweep-settles f k c ((j, v) ∷ d) b (inl same) h e =
      sweep-keeps f d (judged (verdict v) why j v b) (
        judged-settles f (verdict v) j v b (rw (ap (λ p. fails (verdict p.1)) (sym same)) h)
          (ap (λ p. p.1.future) (sym same) ∙ e))
  sweep-settles f k c ((j, v) ∷ d) b (inr i) h e =
      sweep-settles f k c d (judged (verdict v) why j v b) i h e
