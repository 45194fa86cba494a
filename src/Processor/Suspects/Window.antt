-- ===== src/Processor/Suspects/Window.antt =====
-- Which TAPs count for a suspect, in internal/processor/suspect_correlator.go.
use skylens_azure.Common.{
  ℕ, ◌+◌, ◌≤◌, ◌<◌, ◌≡◌, refl, ap, sym, ◌∙◌, subst, Bytes, bytes_discrete, same, Option, none, some,
  List, [], ◌∷◌, Bool, true, false, ltb, leb, ◌&&◌, if◌then◌else◌, arith, inl, inr, Option-cases,
  Bool-cases,
}
use skylens_azure.Common.Maps.{lookup, insert, lookup-insert, Unique, insert-Unique}
use skylens_azure.Processor.Model.{SuspectCandidate}
use skylens_azure.Processor.Suspects.{
  TapObservation, CorrelationWindow, DetectionConfig, SuspectCorrelator, Observation, open_window,
  observed, add_observation_with_candidate,
}

-- A call of AddObservationWithCandidate.
pub record Call : Type 0 where
  pub obs : Observation
  pub base : ℕ
  pub candidate : Option SuspectCandidate
  pub config : DetectionConfig

abbrev pub after : SuspectCorrelator → Call → SuspectCorrelator
after sc c = (add_observation_with_candidate sc c.obs c.base c.candidate c.config).0

-- The correlator after a history of calls, the newest call first.
abbrev pub run : SuspectCorrelator → List Call → SuspectCorrelator
run sc [] = sc
run sc (c ∷ h) = after (run sc h) c

abbrev pub last_time : List Call → ℕ
last_time [] = 0
last_time (c ∷ h) = c.obs.now

-- The clock does not run backwards.
abbrev pub Ordered : List Call → Type 0
Ordered [] = Unit
Ordered (c ∷ h) = (last_time h ≤ c.obs.now) × Ordered h

-- Whether the TAP reported the MAC within the duration before `t`.
abbrev pub reported : ℕ → ℕ → Bytes → Bytes → List Call → Bool
reported duration t mac tap [] = false
reported duration t mac tap (c ∷ h) =
    if same c.obs.mac mac && same c.obs.tap_id tap && leb t (c.obs.now + duration)
    then true
    else reported duration t mac tap h

abbrev pub is_active : ℕ → ℕ → Option TapObservation → Bool
is_active duration t none = false
is_active duration t (some o) = leb t (o.timestamp + duration)

abbrev pub active_in : ℕ → ℕ → Bytes → Option CorrelationWindow → Bool
active_in duration t tap none = false
active_in duration t tap (some w) = is_active duration t (lookup tap w.tap_obs)

-- No entry of the TAP is younger than the window says, and no TAP has two.
abbrev Sound : ℕ → Bytes → Option CorrelationWindow → Type 0
Sound now tap none = Unit
Sound now tap (some w) =
    (w.last_seen ≤ now)
    × Unique w.tap_obs
    × ((o : TapObservation) → lookup tap w.tap_obs ≡ some o → o.timestamp ≤ w.last_seen)

record Inv (d : ℕ) (mac tap : Bytes) (sc : SuspectCorrelator) (now : ℕ) (h : List Call)
    : Type 0 where
  same_duration : sc.window_duration ≡ d
  sound : Sound now tap (lookup mac sc.observations)
  seen : (t : ℕ) → now ≤ t → active_in d t tap (lookup mac sc.observations) ≡ reported d t mac tap h

-- The window that an observation opens counts the same TAPs as the one before, from the time of the
-- observation on: a reset drops only what is too old to count.
open_window-active :
    (d now at t : ℕ) (mac tap : Bytes) (o : Option CorrelationWindow)
    → Sound now tap o
    → now ≤ at
    → at ≤ t
    → is_active d t (lookup tap (open_window d mac at o).tap_obs) ≡ active_in d t tap o
unfolding open_window lookup
open_window-active d now at t mac tap none s l k = refl
open_window-active d now at t mac tap (some w) (ls, u, b) l k =
    elim (Option-cases (lookup tap w.tap_obs)) [
      | inl e ↦ ground arith
      | inr (o, e) ↦ ground (arith, b o e)
    ]

open_window-Sound :
    (d now at : ℕ) (mac tap : Bytes) (o : Option CorrelationWindow)
    → Sound now tap o
    → now ≤ at
    → Sound at tap (some (open_window d mac at o))
unfolding open_window lookup
open_window-Sound d now at mac tap none s l = (omega arith, tt, λ o e. cc)
open_window-Sound d now at mac tap (some w) (ls, u, b) l =
    elim (Bool-cases (ltb (w.last_seen + d) at)) [
      | inl e ↦ rw e (omega arith, tt, λ o p. cc)
      | inr e ↦ rw e (omega arith, u, λ o p. omega (arith, b o p))
    ]

last_seen-open_window :
    (d : ℕ) (mac : Bytes) (at : ℕ) (o : Option CorrelationWindow)
    → (open_window d mac at o).last_seen ≡ at
unfolding open_window
last_seen-open_window d mac at o = ground arith

-- An entry that was made by `at` does not count any more when the duration has passed.
too_old :
    (d at t : ℕ) (tap : Bytes) (w : CorrelationWindow)
    → Sound at tap (some w)
    → at + d < t
    → is_active d t (lookup tap w.tap_obs) ≡ false
too_old d at t tap w (ls, u, b) lt = elim (Option-cases (lookup tap w.tap_obs)) [
  | inl e ↦ ground arith
  | inr (o, e) ↦ ground (arith, b o e)
]

module _ (d : ℕ) (mac tap : Bytes) (sc : SuspectCorrelator) (now : ℕ) (h : List Call) where
  -- The window of the MAC itself, as an observation finds it.
  abbrev opened : Observation → CorrelationWindow
  opened o = open_window sc.window_duration o.mac o.now (lookup o.mac sc.observations)

  abbrev entry : Observation → TapObservation
  entry o = record { tap_id = o.tap_id; timestamp = o.now; rssi = o.rssi; channel = o.channel }

  opened-eq :
      Inv d mac tap sc now h
      → (o : Observation) → o.mac ≡ mac
      → opened o ≡ open_window d mac o.now (lookup mac sc.observations)
  opened-eq v o e =
      ap (λ x. open_window sc.window_duration x o.now (lookup x sc.observations)) e
      ∙ ap (λ x. open_window x mac o.now (lookup mac sc.observations)) v.same_duration

  own_seen :
      Inv d mac tap sc now h
      → (c : Call) → now ≤ c.obs.now
      → c.obs.mac ≡ mac
      → (t : ℕ) → c.obs.now ≤ t
      → is_active d t (lookup tap (insert c.obs.tap_id (entry c.obs) (opened c.obs).tap_obs))
        ≡ reported d t mac tap (c ∷ h)
  own_seen v c le e t l =
      let before = lookup mac sc.observations in
      let w = open_window d mac c.obs.now before in
      rw (opened-eq v c.obs e) (
        ground (
          arith,
          lookup-insert c.obs.tap_id tap (entry c.obs) w.tap_obs,
          open_window-active d now c.obs.now t mac tap before v.sound le l,
          too_old d c.obs.now t tap w (open_window-Sound d now c.obs.now mac tap before v.sound le),
          v.seen t (omega arith),
        ))

  own_Sound :
      Inv d mac tap sc now h
      → (c : Call) → now ≤ c.obs.now
      → c.obs.mac ≡ mac
      → Sound c.obs.now tap (some (observed sc c.obs))
  unfolding observed
  own_Sound v c le e =
      let before = lookup mac sc.observations in
      let w = open_window d mac c.obs.now before in
      let (ls, u, b) = open_window-Sound d now c.obs.now mac tap before v.sound le in
      let old = opened-eq v c.obs e in
      (
        omega (arith, ap (λ x. x.last_seen) old),
        insert-Unique c.obs.tap_id (entry c.obs) _ (rw old u),
        λ o p. ground (
          arith,
          lookup-insert c.obs.tap_id tap (entry c.obs) (opened c.obs).tap_obs,
          last_seen-open_window sc.window_duration c.obs.mac c.obs.now
              (lookup c.obs.mac sc.observations),
          b o,
          ap (λ x. lookup tap x.tap_obs) old,
          ls,
        ),
      )

  Sound-later :
      (at : ℕ) (o : Option CorrelationWindow) → Sound now tap o → now ≤ at → Sound at tap o
  Sound-later at none s le = tt
  Sound-later at (some w) (ls, u, b) le = (omega arith, u, b)

  step-Inv :
      Inv d mac tap sc now h
      → (c : Call) → now ≤ c.obs.now
      → Inv d mac tap (after sc c) c.obs.now (c ∷ h)
  unfolding add_observation_with_candidate observed
  step-Inv v c le =
      let new = observed sc c.obs in
      let put = lookup-insert c.obs.mac mac new sc.observations in
      elim (bytes_discrete c.obs.mac mac) [
        | yes e ↦
            let here : lookup mac (insert c.obs.mac new sc.observations) ≡ some new =
              ground (arith, put) in
            record {
              same_duration = v.same_duration;
              sound = subst (Sound c.obs.now tap) (sym here) (own_Sound v c le e);
              seen = λ t l. ground (arith, here, own_seen v c le e t l);
            }
        | no n ↦
            let there : lookup mac (insert c.obs.mac new sc.observations)
                ≡ lookup mac sc.observations =
              ground (arith, put) in
            record {
              same_duration = v.same_duration;
              sound = subst (Sound c.obs.now tap) (sym there) (Sound-later c.obs.now _ v.sound le);
              seen = λ t l. ground (arith, there, v.seen t (omega arith));
            }
      ]

run-Inv :
    (d : ℕ) (mac tap : Bytes) (sc : SuspectCorrelator) (h : List Call)
    → sc.window_duration ≡ d
    → sc.observations ≡ []
    → Ordered h
    → Inv d mac tap (run sc h) (last_time h) h
run-Inv d mac tap sc [] e n o = record {
  same_duration = e;
  sound = rw n (unfold lookup in tt);
  seen = λ t l. rw n (unfold lookup in refl);
}
run-Inv d mac tap sc (c ∷ h) e n (le, o) =
    step-Inv d mac tap (run sc h) (last_time h) h (run-Inv d mac tap sc h e n o) c le

-- After any history of observations in order of time, a TAP counts for a MAC, at any later time, exactly
-- when one of its reports of that MAC is no older than the window's duration. The resets of stale
-- windows lose nothing, and reports of other MACs have no influence.
pub active-reported :
    (sc : SuspectCorrelator) (mac tap : Bytes) (h : List Call) (t : ℕ)
    → sc.observations ≡ []
    → Ordered h
    → last_time h ≤ t
    → active_in sc.window_duration t tap (lookup mac (run sc h).observations)
      ≡ reported sc.window_duration t mac tap h
active-reported sc mac tap h t n o l = (run-Inv sc.window_duration mac tap sc h refl n o).seen t l
