-- ===== src/Broker/Takeover/Entry.antt =====
-- broker.py: a registration takes a name over only with its resume key.
use radical_orbit.Prelude.{
  ℕ, String, ◌≡◌, refl, subst, ◌∙◌, ◌⊎◌, inl, inr, Bool, true, false, Option, none, some, ◌++◌,
  arith, Bool-cases, or_default, ◌==◌, nat_eq, string_eq, str_iff, option_eq, pair_eq,
}
use radical_orbit.Prelude.Int.{int_eq}
use radical_orbit.Prelude.Dict.{lookup, lookup-insert}
use radical_orbit.Broker.{Broker, Register, send, spawn, broker_name, tokens_match}
use radical_orbit.Broker.Endpoints.{
  ack, refuse, resume, install, enter, close_old, admit, occupied, register, connect, closed,
  may_enter, may_resume, cancel_grace, fire_lost,
}
use radical_orbit.Broker.Calls.{reap_calls}
use radical_orbit.Broker.Quiet.{
  send-Told, broadcast_topology-Told, broker_call-Quiet, pop_call-Quiet, reap_each-Quiet,
}
use radical_orbit.Broker.Steps.{Step, taken, host_changed}
use radical_orbit.Broker.Sound.Tables.{accept}
use radical_orbit.Broker.Takeover.{
  registered, KeepsOrGoes, Resumed, Quiet-registered, Told-registered, on_socket_drop-registered,
  route_frame-registered, run_task-registered,
}

module _ (name : String) (ws : ℕ) (msg : Register) (key : String) (b : Broker) where
  -- What a registration comes to for the holder of the name.
  abbrev Comes : Broker → Type 0
  Comes c =
      (registered name c ≡ some ws)
      ⊎ ((msg.identity.name ≡ name)
          × (may_enter msg b ≡ true)
          × (tokens_match msg.identity.resume_key (lookup name b.resume_keys) ≡ true))

  close_old-registered :
      (old v : ℕ) (c : Broker) → registered name (close_old old v c) ≡ registered name c
  unfolding close_old spawn
  close_old-registered old v c = elim (Bool-cases (old == v)) [
    | inl e ↦ rw (close_old, e) refl
    | inr e ↦ rw (close_old, e) refl
  ]

  -- Under another name the holder stays.
  admit-registered :
      (n : String)
      → (n == name) ≡ false
      → registered name (admit b.accepted msg key n (accept b)) ≡ registered name b
  unfolding admit enter
  admit-registered n other =
      let c = enter b.accepted msg key n (accept b) in
      let answer = ack true key none in
      Told-registered name (broadcast_topology-Told (send (some b.accepted) answer c))
      ∙ Told-registered name (send-Told (some b.accepted) answer c)
      ∙ lookup-insert n name b.accepted b.registry
      ∙ rw other refl

  resume-registered :
      (old : ℕ) (n : String)
      → (n == name) ≡ false
      → registered name (resume old b.accepted msg n (accept b)) ≡ registered name b
  unfolding resume install cancel_grace
  resume-registered old n other =
      let c = install b.accepted msg n (accept b) in
      let answer = ack true (or_default (lookup n c.resume_keys) "") none in
      let d = send (some b.accepted) answer c in
      Told-registered name (broadcast_topology-Told (close_old old b.accepted d))
      ∙ close_old-registered old b.accepted d
      ∙ Told-registered name (send-Told (some b.accepted) answer c)
      ∙ lookup-insert n name b.accepted b.registry
      ∙ rw other refl

  refuse-registered :
      (reason : String)
      → registered name (refuse b.accepted reason (accept b)).1 ≡ registered name b
  unfolding refuse
  refuse-registered reason =
      Told-registered name (send-Told (some b.accepted) (ack false "" (some reason)) (accept b))

  none_differs :
      (n : String) → registered n b ≡ none → registered name b ≡ some ws → (n == name) ≡ false
  none_differs n free h = ground (arith, str_iff n name)

  occupied-Comes :
      (o : Option ℕ)
      → registered msg.identity.name b ≡ o
      → may_enter msg b ≡ true
      → registered name b ≡ some ws
      → Comes (occupied o b.accepted msg key msg.identity.name (accept b)).1
  unfolding occupied may_resume
  occupied-Comes none e ok h =
      inl (admit-registered msg.identity.name (none_differs msg.identity.name e h) ∙ h)
  occupied-Comes (some old) e ok h =
      elim (Bool-cases (may_resume msg msg.identity.name (accept b))) [
        | inr f ↦ inl (rw (occupied, f) (refuse-registered "name-in-use" ∙ h))
        | inl f ↦ elim (Bool-cases (msg.identity.name == name)) [
          | inl g ↦
              let same = (str_iff msg.identity.name name).0 g in
              inr (
                same,
                ok,
                subst (λ n. tokens_match msg.identity.resume_key (lookup n b.resume_keys) ≡ true)
                    same f,
              )
          | inr g ↦ inl (rw (occupied, f) (resume-registered old msg.identity.name g ∙ h))
        ]
      ]

  register-Comes : registered name b ≡ some ws → Comes (register b.accepted msg key (accept b)).1
  unfolding register may_enter
  register-Comes h = elim (Bool-cases (may_enter msg b)) [
    | inr e ↦ inl (rw (register, e) (refuse-registered "invalid-credential" ∙ h))
    | inl e ↦ elim (Bool-cases (msg.identity.name == broker_name)) [
      | inl f ↦ inl (rw (register, e, f) (refuse-registered "name-reserved" ∙ h))
      | inr f ↦ elim (occupied-Comes (registered msg.identity.name b) refl e h) [
        | inl same ↦ inl (rw (register, e, f) same)
        | inr key ↦ inr key
      ]
    ]
  ]

closed-registered :
    (name : String) (ws : ℕ) (answer : (Bool × Option String) × Broker)
    → registered name (closed ws answer) ≡ registered name answer.1
unfolding closed spawn
closed-registered name ws ((true, n), b) = refl
closed-registered name ws ((false, n), b) = refl

connect-registered :
    (name : String) (ws : ℕ) (msg : Register) (key : String) (b : Broker)
    → registered name b ≡ some ws
    → KeepsOrGoes name ws (connect msg key b) ⊎ Resumed name b (connect msg key b)
unfolding connect
connect-registered name ws msg key b h = elim (register-Comes name ws msg key b h) [
  | inl e ↦
      inl (inl (closed-registered name b.accepted (register b.accepted msg key (accept b)) ∙ e))
  | inr (n, ok, k) ↦ inr (Resumed.resumed msg key n ok k)
]

-- A name that is registered keeps its socket in every step, or loses it, unless the step is a
-- registration under that name that passes the token gate and presents the name's resume key.
pub Step-registered :
    (name : String) (ws : ℕ) (b c : Broker)
    → Step b c
    → registered name b ≡ some ws
    → (registered name c ≡ some ws) ⊎ (registered name c ≡ none) ⊎ Resumed name b c
unfolding fire_lost reap_calls host_changed
Step-registered name ws b c s h = elim (moved s h) [
  | inl (inl e) ↦ inl e
  | inl (inr e) ↦ inr (inl e)
  | inr r ↦ inr (inr r)
]
  where
    moved :
        {b c : Broker}
        → Step b c
        → registered name b ≡ some ws
        → KeepsOrGoes name ws c ⊎ Resumed name b c
    moved (Step.connects msg key b) h = connect-registered name ws msg key b h
    moved (Step.frames n now raw b) h = inl (route_frame-registered name ws n now raw b h)
    moved (Step.drops n v clean b) h = inl (on_socket_drop-registered name ws n v clean b h)
    moved (Step.expires n t b due) h = inl (inl h)
    moved (Step.runs answer now task before after b e) h =
        inl (run_task-registered name ws answer now task (taken (before ++ after) b) h)
    moved (Step.reaps now b) h =
        inl (inl (Quiet-registered name (reap_each-Quiet now b.calls b) ∙ h))
    moved (Step.calls_out dst method path body fits corr_id now b) h = inl (
        inl (Quiet-registered name (broker_call-Quiet dst method path body fits corr_id now b) ∙ h))
    moved (Step.gives_up corr_id b) h =
        inl (inl (Quiet-registered name (pop_call-Quiet corr_id b) ∙ h))
    moved (Step.rehosts plugins b) h = inl (
        inl (Told-registered name (broadcast_topology-Told (record b { host = some plugins })) ∙ h))
