-- ===== src/Dispatcher/Frames.antt =====
-- plugin_task_dispatcher.py, `_flush_rh`: a batch is split into frames and sent.
use radical_orbit.Prelude.{
  ℕ, ◌+◌, ◌≤◌, ◌<◌, ◌≡◌, refl, sym, ap, ◌∙◌, ◌⊎◌, inl, inr, false, List, [], ◌∷◌, ◌++◌, arith, ltb,
  if◌then◌else◌, Bool-cases, length, All, append_nil, append_assoc, nat_eq, string_eq, option_eq,
  pair_eq,
}
use radical_orbit.Prelude.Int.{int_eq}
use radical_orbit.Dispatcher.{
  Payload, Notice, rh_status, rh_batch, Settings, Host, dispatch_notify, persist, split_frames,
  sum_sizes, send_frame, send_frames, send_batch, flush_rh,
}

abbrev concat : List (List Payload) → List Payload
concat [] = []
concat (f ∷ fs) = f ++ concat fs

-- No payload is lost, repeated or moved.
concat-split_frames :
    (size : Payload → ℕ) (budget : ℕ) (frame : List Payload) (n : ℕ) (ps : List Payload)
    → concat (split_frames size budget frame n ps) ≡ frame ++ ps
unfolding split_frames
concat-split_frames size budget frame n [] = refl
concat-split_frames size budget [] n (p ∷ ps) =
    concat-split_frames size budget (p ∷ []) (n + size p) ps
concat-split_frames size budget (f ∷ fs) n (p ∷ ps) = elim (Bool-cases (ltb budget (n + size p))) [
  | inl e ↦ rw (e, concat-split_frames size budget (p ∷ []) (size p) ps) refl
  | inr e ↦
      rw (e, concat-split_frames size budget (f ∷ fs ++ (p ∷ [])) (n + size p) ps)
        (append_assoc (f ∷ fs) (p ∷ []) ps)
]

sum_sizes-append :
    (size : Payload → ℕ) (xs ys : List Payload)
    → sum_sizes size (xs ++ ys) ≡ sum_sizes size xs + sum_sizes size ys
sum_sizes-append size [] ys = omega arith
sum_sizes-append size (x ∷ xs) ys = omega (arith, sum_sizes-append size xs ys)

-- A frame that may be sent: it is within the budget, or a single payload.
abbrev pub IsFrame : (Payload → ℕ) → ℕ → List Payload → Type 0
IsFrame size budget f = (sum_sizes size f ≤ budget) ⊎ (length f ≤ 1)

frames_lem :
    (size : Payload → ℕ) (budget : ℕ) (frame : List Payload) (n : ℕ) (ps : List Payload)
    → n ≡ sum_sizes size frame
    → IsFrame size budget frame
    → All (IsFrame size budget) (split_frames size budget frame n ps)
unfolding split_frames
frames_lem size budget frame n [] e ok = (ok, tt)
frames_lem size budget [] n (p ∷ ps) e ok =
    frames_lem size budget (p ∷ []) (n + size p) ps (omega arith) (inr (omega arith))
frames_lem size budget (f ∷ fs) n (p ∷ ps) e ok = elim (Bool-cases (ltb budget (n + size p))) [
  | inl t ↦ rw t (ok, frames_lem size budget (p ∷ []) (size p) ps (omega arith) (inr (omega arith)))
  | inr t ↦ rw t (
      frames_lem size budget (f ∷ fs ++ (p ∷ [])) (n + size p) ps
        (omega (arith, sum_sizes-append size (f ∷ fs) (p ∷ [])))
        (inl (ground (arith, sum_sizes-append size (f ∷ fs) (p ∷ [])))))
]

-- The payloads that a notice carries to the clients.
abbrev pub payloads_of : Notice → List Payload
payloads_of (rh_status p) = p ∷ []
payloads_of (rh_batch ps) = ps
payloads_of _ = []

abbrev pub carried : List Notice → List Payload
carried [] = []
carried (n ∷ ns) = payloads_of n ++ carried ns

-- A notice that carries payloads, and as many bytes of them as a frame may have.
abbrev pub IsFrameNotice : Settings → Notice → Type 0
IsFrameNotice s n =
    (0 < length (payloads_of n)) × IsFrame s.payload_size s.notify_batch_bytes (payloads_of n)

notices : List (List Payload) → List Notice
notices [] = []
notices ([] ∷ fs) = notices fs
notices ((p ∷ []) ∷ fs) = rh_status p ∷ notices fs
notices ((p ∷ q ∷ ps) ∷ fs) = rh_batch (p ∷ q ∷ ps) ∷ notices fs

send_frames_lem :
    (fs : List (List Payload)) (h : Host)
    → send_frames fs h ≡ record h { outbox = h.outbox ++ notices fs }
unfolding send_frames send_frame dispatch_notify notices
send_frames_lem [] h = ap (λ o. record h { outbox = o }) (sym (append_nil h.outbox))
send_frames_lem ([] ∷ fs) h = send_frames_lem fs h
send_frames_lem ((p ∷ []) ∷ fs) h =
    send_frames_lem fs (dispatch_notify (rh_status p) h)
    ∙ ap (λ o. record h { outbox = o }) (append_assoc h.outbox (rh_status p ∷ []) (notices fs))
send_frames_lem ((p ∷ q ∷ ps) ∷ fs) h =
    send_frames_lem fs (dispatch_notify (rh_batch (p ∷ q ∷ ps)) h)
    ∙ ap (λ o. record h { outbox = o })
        (append_assoc h.outbox (rh_batch (p ∷ q ∷ ps) ∷ []) (notices fs))

carried-notices : (fs : List (List Payload)) → carried (notices fs) ≡ concat fs
unfolding notices
carried-notices [] = refl
carried-notices ([] ∷ fs) = carried-notices fs
carried-notices ((p ∷ []) ∷ fs) = ap (λ r. p ∷ r) (carried-notices fs)
carried-notices ((p ∷ q ∷ ps) ∷ fs) = ap (λ r. p ∷ q ∷ ps ++ r) (carried-notices fs)

notices-IsFrameNotice :
    (s : Settings) (fs : List (List Payload))
    → All (IsFrame s.payload_size s.notify_batch_bytes) fs
    → All (IsFrameNotice s) (notices fs)
unfolding notices
notices-IsFrameNotice s [] h = tt
notices-IsFrameNotice s ([] ∷ fs) h = notices-IsFrameNotice s fs h.1
notices-IsFrameNotice s ((p ∷ []) ∷ fs) h = ((omega arith, h.0), notices-IsFrameNotice s fs h.1)
notices-IsFrameNotice s ((p ∷ q ∷ ps) ∷ fs) h = ((omega arith, h.0), notices-IsFrameNotice s fs h.1)

frames_of : Settings → List Payload → List (List Payload)
frames_of s ps = split_frames s.payload_size s.notify_batch_bytes [] 0 ps

send_batch_lem :
    (ps : List Payload) (h : Host)
    → send_batch ps h ≡ record h { outbox = h.outbox ++ notices (frames_of h.settings ps) }
unfolding send_batch frames_of split_frames notices
send_batch_lem [] h = ap (λ o. record h { outbox = o }) (sym (append_nil h.outbox))
send_batch_lem (p ∷ ps) h = send_frames_lem (frames_of h.settings (p ∷ ps)) h

-- A flush appends notices to the outbox that carry every buffered payload once and in order; each of
-- them carries at least one payload, and stays within the byte budget unless it carries a single
-- payload. It leaves the buffer empty, no flush scheduled and the pool clean, and writes the records
-- of the pool exactly when they were dirty.
pub flush_rh_lem :
    (h : Host)
    → let after = flush_rh h in
      ((sent : List Notice) × (after.outbox ≡ h.outbox ++ sent)
        × (carried sent ≡ h.rh_notify_buf)
        × All (IsFrameNotice h.settings) sent)
      × (after.rh_notify_buf ≡ [])
      × (after.rh_flush_scheduled ≡ false)
      × (after.dirty ≡ false)
      × (after.ledger
          ≡ (if h.dirty then record { pilots = h.pool.pilots; tasks = h.pool.tasks } else h.ledger))
unfolding flush_rh persist frames_of
flush_rh_lem h = elim (Bool-cases h.dirty) [
  | inl e ↦ rw (e, send_batch_lem) (sending, refl, refl, refl, refl)
  | inr e ↦ rw (e, send_batch_lem) (sending, refl, refl, refl, refl)
]
  where
    size : Payload → ℕ
    size = h.settings.payload_size

    budget : ℕ
    budget = h.settings.notify_batch_bytes

    fs : List (List Payload)
    fs = split_frames size budget [] 0 h.rh_notify_buf

    sending :
        (sent : List Notice) × (h.outbox ++ notices fs ≡ h.outbox ++ sent)
        × (carried sent ≡ h.rh_notify_buf)
        × All (IsFrameNotice h.settings) sent
    sending = (
      notices fs,
      refl,
      carried-notices fs ∙ concat-split_frames size budget [] 0 h.rh_notify_buf,
      notices-IsFrameNotice h.settings fs
          (frames_lem size budget [] 0 h.rh_notify_buf refl (inl (omega arith))),
    )
