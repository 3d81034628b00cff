-- ===== src/Bridge/CallHandler/Spacing.antt =====
-- Sequences of events at the call handler of src/bridge/call_handler.rs.
use smsgate.Base.{
  ℕ, ◌+◌, ◌<◌, ◌≡◌, ◌⊎◌, refl, ap, leb, if◌then◌else◌, inl, inr, Bool, true, false, Bool-cases,
  List, [], ◌∷◌, Option, none, some, ◌>>=◌, Text, codes, has_prefix, text_eq, text_eq→eq, All,
  OnSome, OnSome-bind, OnSome-get, arith,
}
use smsgate.Locale.{Locale}
use smsgate.Modem.{ModemError}
use smsgate.Sms.Codec.Clip.{parse_clip_line}
use smsgate.Bridge.CallHandler.{
  cooldown, State, idle, ringing, cooling, CallNotification, HangUp, Handled, display_of, notify,
  commit_call, on_ring, on_clip, on_clip_line, on_no_carrier, handle_urc_deferred, tick_deferred,
  non_empty,
}

-- A line of the modem, or a look at the clock.
pub data Event : Type 0 where
  urc : Text → Event
  tick : Event

abbrev pub with_notification :
    Option CallNotification → List CallNotification → List CallNotification
with_notification none rest = rest
with_notification (some n) rest = n ∷ rest

module _ {ℓ} {M : Type ℓ} (modem : HangUp M) (locale : Locale) where
  unfoldable pub on_event : ℕ → Event → State → M → Handled M
  unfolding handle_urc_deferred tick_deferred
  on_event now (urc line) state m = handle_urc_deferred modem locale now state line m
  on_event now tick state m = tick_deferred modem locale now state m

  -- The events, each with its time.
  unfoldable pub run : List (ℕ × Event) → State → M → Option (State × (M × List CallNotification))
  unfolding on_event
  run [] state m = some (state, (m, []))
  run ((now, event) ∷ events) state m = do
    (state', (m', n)) ← on_event now event state m
    (state'', (m'', rest)) ← run events state' m'
    some (state'', (m'', with_notification n rest))

module _ {ℓ} {M : Type ℓ} (modem : HangUp M) (locale : Locale) where
  cooling_clip :
      (now until : ℕ) (number : Option Text) (m : M)
      → on_clip_line modem locale now (cooling until) number m ≡ some (cooling until, (m, none))
  unfolding on_clip_line on_clip
  cooling_clip now until none m = refl
  cooling_clip now until (some number) m = refl

  cooling_event :
      (now : ℕ) (event : Event) (until : ℕ) (m : M)
      → now < until
      → on_event modem locale now event (cooling until) m ≡ some (cooling until, (m, none))
  unfolding on_event handle_urc_deferred tick_deferred on_ring on_clip on_no_carrier
  cooling_event now tick until m h =
      let early : leb until now ≡ false = ground arith in rw early refl
  cooling_event now (urc line) until m h = elim (Bool-cases (has_prefix (codes "RING") line)) [
    | inl e ↦ rw (e, handle_urc_deferred) refl
    | inr e ↦ elim (Bool-cases (has_prefix (codes "+CLIP:") line)) [
      | inl f ↦ rw (e, f, handle_urc_deferred) (cooling_clip now until (parse_clip_line line) m)
      | inr f ↦ elim (Bool-cases (text_eq line (codes "NO CARRIER"))) [
        | inl g ↦ rw (e, f, g, handle_urc_deferred) refl
        | inr g ↦ rw (e, f, g, handle_urc_deferred) refl
      ]
    ]
  ]

  cooling_run :
      (events : List (ℕ × Event)) (until : ℕ) (m : M)
      → All (λ e. e.0 < until) events
      → run modem locale events (cooling until) m ≡ some (cooling until, (m, []))
  unfolding run
  cooling_run [] until m h = refl
  cooling_run ((now, event) ∷ events) until m (p, h) =
      rw (cooling_event now event until m p, cooling_run events until m h) refl

  -- What follows a notification: six seconds of rest.
  abbrev Rests : ℕ → State × (M × Option CallNotification) → Type 0
  Rests now (state, (m, none)) = Unit
  Rests now (state, (m, some n)) = state ≡ cooling (now + cooldown)

  -- And after the line that ends the call, the idle state.
  abbrev Ends : State × (M × Option CallNotification) → Type 0
  Ends (state, (m, none)) = Unit
  Ends (state, (m, some n)) = state ≡ idle

  notify-Rests :
      (now : ℕ) (number : Option Text) (hang_up : Bool) (r : M × Option ModemError)
      → OnSome (Rests now) (notify modem locale now number hang_up r)
  unfolding notify
  notify-Rests now number hang_up (m, error) =
      OnSome-bind (Rests now) (display_of number) _ λ display e. refl

  commit_call-Rests :
      (now : ℕ) (number : Option Text) (hang_up : Bool) (m : M)
      → OnSome (Rests now) (commit_call modem locale now number hang_up m)
  unfolding commit_call
  commit_call-Rests now number hang_up m =
      notify-Rests now number hang_up (if hang_up then modem.hang_up m else (m, none))

  idle-Ends : (rest : M × Option CallNotification) → Ends (idle, rest)
  idle-Ends (m, none) = tt
  idle-Ends (m, some n) = refl

  on_clip-Rests :
      (now : ℕ) (state : State) (number : Text) (m : M)
      → OnSome (Rests now) (on_clip modem locale now state number m)
  unfolding on_clip
  on_clip-Rests now (ringing deadline known) number m =
      commit_call-Rests now (non_empty number) true m
  on_clip-Rests now idle number m = tt
  on_clip-Rests now (cooling until) number m = tt

  on_clip_line-Rests :
      (now : ℕ) (state : State) (number : Option Text) (m : M)
      → OnSome (Rests now) (on_clip_line modem locale now state number m)
  unfolding on_clip_line
  on_clip_line-Rests now state none m = tt
  on_clip_line-Rests now state (some number) m = on_clip-Rests now state number m

  on_no_carrier-Ends :
      (now : ℕ) (state : State) (m : M) → OnSome Ends (on_no_carrier modem locale now state m)
  unfolding on_no_carrier
  on_no_carrier-Ends now (ringing deadline known) m =
      OnSome-bind Ends (commit_call modem locale now none false m)
        (λ handled. some (idle, handled.1)) λ handled e. idle-Ends handled.1
  on_no_carrier-Ends now idle m = tt
  on_no_carrier-Ends now (cooling until) m = tt

  -- The state after a notification, by the event that gave it.
  abbrev After : ℕ → Event → State × (M × Option CallNotification) → Type 0
  After now event (state, (m, none)) = Unit
  After now event (state, (m, some n)) =
      ((event ≡ urc (codes "NO CARRIER")) × (state ≡ idle)) ⊎ (state ≡ cooling (now + cooldown))

  After-Rests :
      (now : ℕ) (event : Event) (o : Option (State × (M × Option CallNotification)))
      → OnSome (Rests now) o
      → OnSome (After now event) o
  After-Rests now event none h = tt
  After-Rests now event (some (state, (m, none))) h = tt
  After-Rests now event (some (state, (m, some n))) h = inr h

  After-Ends :
      (now : ℕ) (event : Event) (o : Option (State × (M × Option CallNotification)))
      → event ≡ urc (codes "NO CARRIER")
      → OnSome Ends o
      → OnSome (After now event) o
  After-Ends now event none e h = tt
  After-Ends now event (some (state, (m, none))) e h = tt
  After-Ends now event (some (state, (m, some n))) e h = inl (e, h)

  on_event-After :
      (now : ℕ) (event : Event) (state : State) (m : M)
      → OnSome (After now event) (on_event modem locale now event state m)
  unfolding on_event handle_urc_deferred tick_deferred
  on_event-After now tick idle m = tt
  on_event-After now tick (cooling until) m = tt
  on_event-After now tick (ringing deadline number) m = elim (Bool-cases (leb deadline now)) [
    | inl e ↦
        rw (e, tick_deferred)
          (After-Rests now tick (commit_call modem locale now number true m)
            (commit_call-Rests now number true m))
    | inr e ↦ rw (e, tick_deferred) tt
  ]
  on_event-After now (urc line) state m = elim (Bool-cases (has_prefix (codes "RING") line)) [
    | inl e ↦ rw (e, handle_urc_deferred) tt
    | inr e ↦ elim (Bool-cases (has_prefix (codes "+CLIP:") line)) [
      | inl f ↦
          rw (e, f, handle_urc_deferred)
            (After-Rests now (urc line)
              (on_clip_line modem locale now state (parse_clip_line line) m)
              (on_clip_line-Rests now state (parse_clip_line line) m))
      | inr f ↦ elim (Bool-cases (text_eq line (codes "NO CARRIER"))) [
        | inl g ↦
            rw (e, f, g, handle_urc_deferred)
              (After-Ends now (urc line) (on_no_carrier modem locale now state m)
                (ap urc (text_eq→eq line (codes "NO CARRIER") g)) (on_no_carrier-Ends now state m))
        | inr g ↦ rw (e, f, g, handle_urc_deferred) tt
      ]
    ]
  ]

  -- When an event at the time `now` gives a notification, it is the line NO CARRIER, by which the
  -- call has ended, and the handler is idle; or the handler cools down until six seconds from then,
  -- and whatever events come before, the modem is not touched and nothing is notified.
  pub run_after_notification :
      (now : ℕ) (event : Event) (state state' : State) (m m' : M) (n : CallNotification)
      (events : List (ℕ × Event))
      → on_event modem locale now event state m ≡ some (state', (m', some n))
      → All (λ e. e.0 < now + cooldown) events
      → ((event ≡ urc (codes "NO CARRIER")) × (state' ≡ idle))
        ⊎ ((state' ≡ cooling (now + cooldown))
            × (run modem locale events state' m' ≡ some (state', (m', []))))
  run_after_notification now event state state' m m' n events h early =
      elim (OnSome-get (After now event) (on_event modem locale now event state m)
        (state', (m', some n)) (on_event-After now event state m) h) [
          | inl e ↦ inl e
          | inr e ↦ inr (e, rw e (cooling_run events (now + cooldown) m' early))
        ]
