-- ===== src/Broker/Senders.antt =====
-- broker_events.py as the broker uses it: the queue and the sender of a name under its calls.
use radical_orbit.Prelude.{
  ℕ, String, ◌≡◌, refl, ◌∙◌, inl, inr, Bool, true, not, ◌&&◌, ◌||◌, Option, none, some, [], ◌∷◌,
  arith, if◌then◌else◌, Bool-cases, is_some, is_some, ◌==◌, nat_eq, string_eq, str_iff, option_eq,
  pair_eq,
}
use radical_orbit.Prelude.Int.{int_eq}
use radical_orbit.Prelude.Dict.{Dict, lookup, insert, lookup-insert, lookup-remove}
use radical_orbit.Queues.{BoundedDropOldestQueue, push, new_queue}
use radical_orbit.Subscriptions.{PatternIndex, no_empty, indexed_match}
use radical_orbit.Events.{
  EventRouter, RawEvent, Event, Sender, add_endpoint, remove_endpoint, pause_sender, restart_sender,
  ingest, pause, rearm, push_at, fan_out, number, deliver, reindex, setdefault_patterns,
  issue_session, issue_global, stamped,
}

-- An assignment to a present key brings no new key.
is_some-insert :
    {V : Type 0} (n name : String) (v w : V) (d : Dict String V)
    → lookup name d ≡ some v
    → is_some (lookup n (insert name w d)) ≡ is_some (lookup n d)
is_some-insert n name v w d h = ground (arith, lookup-insert name n w d, str_iff name n)

abbrev pub paused : Option Sender → Option Sender
paused (some Sender.running) = some Sender.cancelled
paused o = o

lookup-pause :
    (o : Option Sender) (n name : String) (d : Dict String Sender)
    → lookup name d ≡ o
    → lookup n (pause o name d) ≡ (if name == n then paused (lookup n d) else lookup n d)
unfolding pause
lookup-pause (some Sender.running) n name d h =
    ground (arith, str_iff name n, lookup-insert name n Sender.cancelled d)
lookup-pause (some Sender.cancelled) n name d h = ground (arith, str_iff name n)
lookup-pause none n name d h = ground (arith, str_iff name n)

module _ {Frame : Type 0} where
  abbrev pub sender : String → EventRouter Frame → Option Sender
  sender n r = lookup n r.senders

  abbrev pub queued : String → EventRouter Frame → Bool
  queued n r = is_some (lookup n r.out)

  pub sender-pause_sender :
      (n name : String) (r : EventRouter Frame)
      → sender n (pause_sender name r) ≡ (if name == n then paused (sender n r) else sender n r)
  unfolding pause_sender
  sender-pause_sender n name r = lookup-pause (lookup name r.senders) n name r.senders refl

  pub queued-pause_sender :
      (n name : String) (r : EventRouter Frame) → queued n (pause_sender name r) ≡ queued n r
  unfolding pause_sender
  queued-pause_sender n name r = refl

  pub sender-restart_sender :
      (n name : String) (r : EventRouter Frame)
      → sender n (restart_sender name r) ≡ (if name == n then some Sender.running else sender n r)
  unfolding restart_sender
  sender-restart_sender n name r = ground (
    arith,
    sender-pause_sender n name r,
    lookup-insert name n Sender.running (pause_sender name r).senders,
  )

  queued-rearm :
      (o : Option (BoundedDropOldestQueue Frame)) (n name : String)
      (d : Dict String (BoundedDropOldestQueue Frame))
      → lookup name d ≡ o
      → is_some (lookup n (rearm o name d)) ≡ is_some (lookup n d)
  unfolding rearm
  queued-rearm none n name d h = refl
  queued-rearm (some q) n name d h =
      elim q.buf
        as (λ xs.
          is_some
            (lookup n (elim xs [ [] ↦ d | x ∷ ys ↦ insert name (record q { wake = true }) d ]))
          ≡ is_some (lookup n d)) [
            | [] ↦ refl
            | x ∷ xs ↦ is_some-insert n name q (record q { wake = true }) d h
          ]

  pub queued-restart_sender :
      (n name : String) (r : EventRouter Frame) → queued n (restart_sender name r) ≡ queued n r
  unfolding restart_sender pause_sender
  queued-restart_sender n name r = queued-rearm (lookup name r.out) n name r.out refl

  abbrev opened : String → EventRouter Frame → EventRouter Frame
  opened name r =
      let r' = reindex name (record r {
        subscriptions = setdefault_patterns (lookup name r.subscriptions) name r.subscriptions;
      }) in
      record r' { out = insert name (new_queue r.event_queue) r'.out }

  pub sender-add_endpoint :
      (n name : String) (r : EventRouter Frame)
      → sender n (add_endpoint name r) ≡ (if name == n then some Sender.running else sender n r)
  unfolding add_endpoint reindex
  sender-add_endpoint n name r = sender-restart_sender n name (opened name r)

  pub queued-add_endpoint :
      (n name : String) (r : EventRouter Frame)
      → queued n (add_endpoint name r) ≡ (name == n || queued n r)
  unfolding add_endpoint reindex
  queued-add_endpoint n name r =
      queued-restart_sender n name (opened name r)
      ∙ ground (arith, lookup-insert name n (new_queue r.event_queue) r.out)

  pub sender-remove_endpoint :
      (n name : String) (r : EventRouter Frame)
      → sender n (remove_endpoint name r) ≡ (if name == n then none else sender n r)
  unfolding remove_endpoint
  sender-remove_endpoint n name r =
      lookup-remove name n (pause (lookup name r.senders) name r.senders)
      ∙ elim (Bool-cases (name == n)) [
        | inl e ↦ rw e refl
        | inr e ↦ rw e (lookup-pause (lookup name r.senders) n name r.senders refl ∙ rw e refl)
      ]

  pub queued-remove_endpoint :
      (n name : String) (r : EventRouter Frame)
      → queued n (remove_endpoint name r) ≡ (not (name == n) && queued n r)
  unfolding remove_endpoint pause_sender
  queued-remove_endpoint n name r = ground (arith, lookup-remove name n r.out)

  queued-push_at :
      (o : Option (BoundedDropOldestQueue Frame)) (n name : String) (frame : Frame)
      (d : Dict String (BoundedDropOldestQueue Frame))
      → lookup name d ≡ o
      → is_some (lookup n (push_at o name frame d)) ≡ is_some (lookup n d)
  unfolding push_at
  queued-push_at none n name frame d h = refl
  queued-push_at (some q) n name frame d h = is_some-insert n name q (push frame q) d h

  queued-fan_out :
      (wants : PatternIndex → Bool) (n : String) (frame : Frame) (ixs : Dict String PatternIndex)
      (d : Dict String (BoundedDropOldestQueue Frame))
      → is_some (lookup n (fan_out wants frame ixs d)) ≡ is_some (lookup n d)
  unfolding fan_out
  queued-fan_out wants n frame [] d = refl
  queued-fan_out wants n frame ((name, ix) ∷ ixs) d = elim (Bool-cases (wants ix)) [
    | inl e ↦ rw e (
        queued-fan_out wants n frame ixs (push_at (lookup name d) name frame d)
        ∙ queued-push_at (lookup name d) n name frame d refl)
    | inr e ↦ rw e (queued-fan_out wants n frame ixs d)
  ]

  sender-number :
      (n src : String) (session plugin : Option String) (r : EventRouter Frame)
      → (sender n (number session src plugin r).1 ≡ sender n r)
        × (queued n (number session src plugin r).1 ≡ queued n r)
  unfolding number issue_session issue_global
  sender-number n src none plugin r = (refl, refl)
  sender-number n src (some s) plugin r = (refl, refl)

  pub sender-ingest :
      {Body : Type 0} (pack : Event Body → Frame) (n src : String) (raw : RawEvent Body) (now : ℕ)
      (r : EventRouter Frame)
      → (sender n (ingest pack src raw now r).1 ≡ sender n r)
        × (queued n (ingest pack src raw now r).1 ≡ queued n r)
  unfolding ingest deliver
  sender-ingest pack n src raw now r =
      let numbered = number (no_empty raw.session) src raw.plugin r in
      let same = sender-number n src (no_empty raw.session) raw.plugin r in
      (
        same.0,
        queued-fan_out (λ ix. indexed_match ix src raw.plugin raw.topic (no_empty raw.session)) n
              (pack (stamped src raw numbered.0 now)) numbered.1.index numbered.1.out
            ∙ same.1,
      )
